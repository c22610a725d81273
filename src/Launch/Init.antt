-- ===== src/Launch/Init.antt =====
-- main.go, `initMain` and `runAsInit`: the last stage, which is process 1 of the container.
pub mod Reaped
use runclaude.Prelude.{
  ℕ, ◌+◌, Bool, true, false, not, ◌==◌, ltb, List, [], ◌∷◌, ◌++◌, Option, none, some, if◌then◌else◌,
}
use runclaude.Text.{Bytes, codes, is_empty, cut_byte}
use runclaude.Environ.{name_of, or_no_value}
use runclaude.Dict.{Dict, insert, delete}
use runclaude.Filepath.{join_path}
use runclaude.Launch.Plan.{
  Op, mkdir_all, proc, set_hostname, chdir, pivot_root, unmount_old, setup_network, drop_all_caps,
  run_command,
}

-- `initMain`, where `enforce` is `enforceAllowlist(cfg)`
unfoldable pub init_plan : Bytes → Bytes → Bool → List Bytes → List Op
init_plan rootfs cwd enforce command =
    let proc_path = join_path (rootfs ∷ codes "proc" ∷ []) in
    (set_hostname
      ∷ mkdir_all proc_path
      ∷ proc proc_path
      ∷ chdir rootfs
      ∷ pivot_root
      ∷ unmount_old
      ∷ chdir cwd
      ∷ [])
    ++ ((if enforce then setup_network ∷ [] else []) ++ (drop_all_caps ∷ run_command command ∷ []))

abbrev pub set_all : List Bytes → Bytes → Dict Bytes → Dict Bytes
set_all [] v env = env
set_all (k ∷ ks) v env = set_all ks v (insert k v env)

-- the environment of the command; `proxy` is the URL of the proxy, `none` where no port is bound
abbrev pub proxy_env : Option Bytes → Dict Bytes → Dict Bytes
proxy_env none env = env
proxy_env (some proxy) env = set_all (codes "NO_PROXY" ∷ codes "no_proxy" ∷ []) [] (
    set_all
      (codes "HTTP_PROXY" ∷ codes "HTTPS_PROXY" ∷ codes "http_proxy" ∷ codes "https_proxy" ∷ [])
      proxy env)

abbrev pub bundle_env : Bytes → Dict Bytes → Dict Bytes
bundle_env bundle env =
    if not (is_empty bundle)
    then set_all
        (codes "SSL_CERT_FILE"
          ∷ codes "REQUESTS_CA_BUNDLE"
          ∷ codes "CURL_CA_BUNDLE"
          ∷ codes "GIT_SSL_CAINFO"
          ∷ [])
        bundle env
    else env

abbrev pub ca_env : Bytes → Dict Bytes → Dict Bytes
ca_env ca env = if not (is_empty ca) then insert (codes "NODE_EXTRA_CA_CERTS") ca env else env

unfoldable pub init_env : Option Bytes → Bytes → Bytes → Dict Bytes → Dict Bytes
init_env proxy bundle ca env = ca_env ca (
    bundle_env bundle
      (proxy_env proxy (delete (codes "_RUNCLAUDE_INIT") (delete (codes "_RUNCLAUDE_CHILD") env))))

-- the variables of a process that is started with these entries
unfoldable pub env_map : List Bytes → Dict Bytes
env_map [] = []
env_map (e ∷ env) = (name_of e, or_no_value ((cut_byte 61 e).1)) ∷ env_map env

-- the environment of the command: `childMain` adds `_RUNCLAUDE_INIT` to what it was started with
unfoldable pub command_env : List Bytes → Bytes → Option Bytes → Bytes → Bytes → Dict Bytes
unfolding init_env env_map
command_env started config proxy bundle ca =
    init_env proxy bundle ca
      (env_map (started ++ (codes "_RUNCLAUDE_INIT" ++ (codes "=" ++ config)) ∷ []))

-- a status of `Wait4`
pub data Status : Type 0 where
  exited signaled : ℕ → Status
  changed : Status

-- what `Wait4` returns: EINTR, another error, or a process and its status
pub data Wait : Type 0 where
  interrupted : Wait
  wait_error : Wait
  ended : ℕ → Status → Wait

-- how `runAsInit` ends: an error, or `os.Exit`
pub data Exit : Type 0 where
  returned_error : Exit
  exit_code : ℕ → Exit

unfoldable pub code_of : Status → ℕ
code_of (exited n) = n
code_of (signaled n) = 128 + n
code_of changed = 0

-- the loop over the results of `Wait4`; `none` where they end before it does
unfoldable pub reap : ℕ → List Wait → Option Exit
unfolding code_of
reap child [] = none
reap child (interrupted ∷ waits) = reap child waits
reap child (wait_error ∷ waits) = some returned_error
reap child (ended pid status ∷ waits) =
    let rest = reap child waits in
    if not (pid == child) then rest else some (exit_code (code_of status))
