-- ===== src/Launch/Mounts.antt =====
-- main.go, `childMain` and `setupDev`: the root that the container gets. What the host's directories
-- hold is given.
pub mod Excluded
pub mod Guarded
use runclaude.Prelude.{
  ℕ, Bool, true, false, not, List, [], ◌∷◌, ◌++◌, Option, none, some, map, if◌then◌else◌,
}
use runclaude.Text.{Bytes, codes, member, trim_prefix, cut_byte}
use runclaude.Filepath.{join_path, dir_of}
use runclaude.Binds.{Bind, dest, dedup_binds}
use runclaude.Launch.Plan.{
  Op, make_private, bind, rbind, make_slave, tmpfs, devpts, remount_read_only, try_read_only,
  try_nosuid, mkdir, mkdir_all, create_file, stat, lstat, statfs, readlink, symlink, chmod,
  write_file, check_containment, start_init,
}

-- `concat` of the operations of a loop
unfoldable pub each {ℓ} : {A : Type ℓ} → (A → List Op) → List A → List Op
each f [] = []
each f (x ∷ xs) = f x ++ each f xs

-- `Config`, as far as it is read here
pub record Config : Type 0 where
  pub rootfs : Bytes
  pub home : Bytes
  pub cache_dir : Bytes
  pub restrict_net : Bool
  pub binds : List Bind

-- an entry of the host's root: a link with its target, a directory, or another file
pub data Kind : Type 0 where
  link : Bytes → Kind
  directory : Kind
  other : Kind

-- `homePrefix`
abbrev pub home_prefix : Bytes → Bytes
home_prefix home = codes "/" ++ (cut_byte b'/' (trim_prefix home (codes "/"))).0

-- the keys of `excluded`
abbrev pub excluded : Bytes → List Bytes
excluded home =
    home_prefix home
    ∷ codes "/proc"
    ∷ codes "/tmp"
    ∷ codes "/run"
    ∷ codes "/dev"
    ∷ codes "/mnt"
    ∷ codes "/media"
    ∷ []

abbrev pub root_kind : Bytes → Bytes → Kind → List Op
root_kind src d (link target) = lstat src ∷ readlink src ∷ symlink target d ∷ []
root_kind src d directory = lstat src ∷ mkdir d ∷ rbind src d ∷ make_slave d ∷ try_read_only d ∷ []
root_kind src d other = lstat src ∷ []

-- the body of the loop over the entries of `/`
unfoldable pub root_entry : Config → Bytes × Kind → List Op
root_entry cfg (name, kind) =
    let src = codes "/" ++ name in
    if member src (excluded cfg.home)
    then []
    else root_kind src (join_path (cfg.rootfs ∷ src ∷ [])) kind

abbrev pub dev_node : Bytes → Bytes → List Op
dev_node dev name =
    create_file (join_path (dev ∷ name ∷ []))
    ∷ bind (codes "/dev/" ++ name) (join_path (dev ∷ name ∷ []))
    ∷ []

abbrev pub dev_names : List Bytes
dev_names =
    codes "null" ∷ codes "zero" ∷ codes "full" ∷ codes "random" ∷ codes "urandom" ∷ codes "tty" ∷ []

abbrev pub dev_links : List (Bytes × Bytes)
dev_links =
    (codes "pts/ptmx", codes "ptmx")
    ∷ (codes "/proc/self/fd", codes "fd")
    ∷ (codes "/proc/self/fd/0", codes "stdin")
    ∷ (codes "/proc/self/fd/1", codes "stdout")
    ∷ (codes "/proc/self/fd/2", codes "stderr")
    ∷ []

-- `setupDev(rootfs)`
unfoldable pub setup_dev : Bytes → List Op
setup_dev rootfs =
    let dev = join_path (rootfs ∷ codes "dev" ∷ []) in
    let pts = join_path (dev ∷ codes "pts" ∷ []) in
    let shm = join_path (dev ∷ codes "shm" ∷ []) in
    (mkdir_all dev ∷ tmpfs dev ∷ [])
    ++ (each (dev_node dev) dev_names
        ++ ((mkdir pts ∷ devpts pts ∷ mkdir shm ∷ tmpfs shm ∷ [])
            ++ map (λ l. symlink l.0 (join_path (dev ∷ l.1 ∷ []))) dev_links))

-- the body of the loop over the cache's mounts
unfoldable pub cache_mount : Config → Bytes × Bytes × ℕ → List Op
cache_mount cfg (d, sub, mode) =
    let src = join_path (cfg.cache_dir ∷ sub ∷ []) in
    let dst = join_path (cfg.rootfs ∷ d ∷ []) in
    chmod src mode ∷ mkdir_all dst ∷ rbind src dst ∷ try_nosuid dst ∷ []

-- the modes 0700, 01777 and 0755
abbrev pub cache_mounts : Bytes → List (Bytes × Bytes × ℕ)
cache_mounts home =
    (home, codes "home", 448)
    ∷ (codes "/tmp", codes "tmp", 1023)
    ∷ (codes "/run", codes "run", 493)
    ∷ []

abbrev pub resolv_stub : Bytes
resolv_stub = codes "nameserver 127.0.0.1" ++ 10 ∷ codes "options edns0 trust-ad" ++ 10 ∷ []

-- the resolver's directory; `host_resolve` tells whether the host has /run/systemd/resolve
unfoldable pub resolv_part : Config → Bool → List Op
resolv_part cfg host_resolve =
    let d =
      join_path
        (join_path (cfg.rootfs ∷ codes "run" ∷ []) ∷ codes "systemd" ∷ codes "resolve" ∷ []) in
    if cfg.restrict_net
    then mkdir_all d ∷ write_file (join_path (d ∷ codes "stub-resolv.conf" ∷ [])) resolv_stub ∷ []
    else if host_resolve
    then mkdir_all d ∷ rbind (codes "/run/systemd/resolve") d ∷ try_read_only d ∷ []
    else []

-- the body of the loop over `dedupedBinds`; `is_dir` is `os.Stat` of a source
unfoldable pub mount_bind : Config → (Bytes → Bool) → Bind → List Op
mount_bind cfg is_dir b =
    let d = join_path (cfg.rootfs ∷ dest b ∷ []) in
    if b.tmpfs
    then mkdir_all d ∷ tmpfs d ∷ []
    else (stat b.path
        ∷ (if is_dir b.path then mkdir_all d ∷ [] else mkdir_all (dir_of d) ∷ create_file d ∷ []))
      ++ (rbind b.path d ∷ (if b.read_only then statfs b.path ∷ remount_read_only d ∷ [] else []))

abbrev pub protected : Config → List Bytes
protected cfg =
    join_path (cfg.rootfs ∷ cfg.home ∷ [])
    ∷ join_path (cfg.rootfs ∷ codes "tmp" ∷ [])
    ∷ join_path (cfg.rootfs ∷ codes "run" ∷ [])
    ∷ []

-- what stands before the containment check, from the entries of `/` and the user's id in decimal
unfoldable pub mount_plan : Config → List (Bytes × Kind) → Bytes → Bool → (Bytes → Bool) → List Op
mount_plan cfg entries uid host_resolve is_dir =
    (make_private ∷ bind cfg.rootfs cfg.rootfs ∷ [])
    ++ (each (root_entry cfg) entries
        ++ (setup_dev cfg.rootfs
            ++ (each (cache_mount cfg) (cache_mounts cfg.home)
                ++ ((mkdir_all (
                        join_path
                          (join_path (cfg.rootfs ∷ codes "run" ∷ []) ∷ codes "user" ∷ uid ∷ []))
                      ∷ resolv_part cfg host_resolve)
                    ++ each (mount_bind cfg is_dir) (dedup_binds cfg.binds)))))

-- `childMain`
unfoldable pub child_plan : Config → List (Bytes × Kind) → Bytes → Bool → (Bytes → Bool) → List Op
child_plan cfg entries uid host_resolve is_dir =
    mount_plan cfg entries uid host_resolve is_dir
    ++ (check_containment cfg.rootfs (protected cfg) ∷ start_init cfg.restrict_net ∷ [])
