-- ===== src/Gitconfig.antt =====
-- gitconfig.go: the copy of the user's git configuration that the container gets. The codec of go-git,
-- its `RemoveOption` and `IsKey`, and URLs as package `net/url` keeps them are parameters.
pub mod Clean
pub mod Secrets
use runclaude.Prelude.{
  Bool, true, false, not, ◌&&◌, List, [], ◌∷◌, Option, none, some, map, if◌then◌else◌,
}
use runclaude.Claudesettings.{File, absent, unreadable, holds}
use runclaude.Dict.{Dict, lookup}
use runclaude.Filepath.{join_path, dir_of}
use runclaude.Text.{Bytes, codes, bytes_eq, to_lower, is_empty}

-- `Option`, `Subsection` and `Section` of go-git's package `config`
pub record GitOption : Type 0 where
  pub key : Bytes
  pub value : Bytes

pub record Subsection : Type 0 where
  pub name : Bytes
  pub options : List GitOption

pub record Section : Type 0 where
  pub name : Bytes
  pub options : List GitOption
  pub subsections : List Subsection

-- `gitConfigCredentialKeys`
abbrev pub git_config_credential_keys : Dict (List Bytes)
git_config_credential_keys =
    (codes "http", codes "extraHeader" ∷ codes "cookieFile" ∷ [])
    ∷ (codes "sendemail", codes "smtpUser" ∷ codes "smtpPass" ∷ [])
    ∷ (codes "imap", codes "user" ∷ codes "pass" ∷ [])
    ∷ []

-- `gitConfigURLKeys`
abbrev pub git_config_url_keys : Dict (List Bytes)
git_config_url_keys =
    (codes "remote", codes "url" ∷ codes "pushurl" ∷ [])
    ∷ (codes "url", codes "insteadOf" ∷ codes "pushInsteadOf" ∷ [])
    ∷ []

abbrev pub or_no_keys : Option (List Bytes) → List Bytes
or_no_keys none = []
or_no_keys (some keys) = keys

-- the keys that a map of keys lists for a section of that name
abbrev pub keys_for : Dict (List Bytes) → Bytes → List Bytes
keys_for keys name = or_no_keys (lookup (to_lower name) keys)

-- `strings.EqualFold(s, t)`, where `t` is in lower case
unfoldable pub is_named : Bytes → Bytes → Bool
is_named t s = bytes_eq (to_lower s) t

-- the loop that drops the sections named `credential`
unfoldable pub kept : List Section → List Section
kept [] = []
kept (s ∷ ss) =
    let rest = kept ss in if is_named (codes "credential") s.name then rest else s ∷ rest

-- the results of `materializeGitConfig`: the files written before the end, and whether it returns nil
pub record Written : Type 0 where
  pub files : List (Bytes × Bytes)
  pub ok : Bool

-- the pairs of a file read and the file written
unfoldable pub git_config_pairs : Bytes → Bytes → Bytes → Bytes → List (Bytes × Bytes)
git_config_pairs home cache_home global xdg =
    (
      if is_empty global then join_path (home ∷ codes ".gitconfig" ∷ []) else global,
      join_path (cache_home ∷ codes ".gitconfig" ∷ []),
    )
    ∷ (
      join_path (
          (if is_empty xdg then join_path (home ∷ codes ".config" ∷ []) else xdg)
          ∷ codes "git"
          ∷ codes "config"
          ∷ []),
      join_path (cache_home ∷ codes ".config" ∷ codes "git" ∷ codes "config" ∷ []),
    )
    ∷ []

module _ (Url : Type 0) (parse : Bytes → Option Url) (has_user : Url → Bool) (anonymous : Url → Url)
    (print : Url → Bytes) (is_key : Bytes → Bytes → Bool)
    (remove_option : Bytes → List GitOption → List GitOption) where
  abbrev pub strip_parsed : Bytes → Option Url → Bytes
  strip_parsed v none = v
  strip_parsed v (some u) = if has_user u then print (anonymous u) else v

  -- a URL without its user: the text stays where it is no URL or has no user
  abbrev pub strip_url : Bytes → Bytes
  strip_url v = strip_parsed v (parse v)

  -- `stripUserinfoOption(opts, key)`
  unfoldable pub strip_userinfo_option : Bytes → List GitOption → List GitOption
  strip_userinfo_option k [] = []
  strip_userinfo_option k (o ∷ os) =
      (if is_key o.key k then record { key = o.key; value = strip_url o.value } else o)
      ∷ strip_userinfo_option k os

  -- the loop over the keys of credentials
  unfoldable pub remove_options : List Bytes → List GitOption → List GitOption
  remove_options [] opts = opts
  remove_options (k ∷ ks) opts = remove_options ks (remove_option k opts)

  -- the loop over the keys of URLs
  unfoldable pub strip_options : List Bytes → List GitOption → List GitOption
  strip_options [] opts = opts
  strip_options (k ∷ ks) opts = strip_options ks (strip_userinfo_option k opts)

  -- both loops, for the options of a section of that name or of one of its subsections
  abbrev pub clean_options : Bytes → List GitOption → List GitOption
  clean_options name opts =
      strip_options (keys_for git_config_url_keys name)
        (remove_options (keys_for git_config_credential_keys name) opts)

  -- one subsection of the section of that name
  abbrev pub clean_subsection : Bytes → Subsection → Subsection
  clean_subsection name sub = record {
    name = if is_named (codes "url") name then strip_url sub.name else sub.name;
    options = clean_options name sub.options;
  }

  abbrev pub clean_section : Section → Section
  clean_section s = record {
    name = s.name;
    options = clean_options s.name s.options;
    subsections = map (clean_subsection s.name) s.subsections;
  }

  -- `sanitizeGitConfig` on the decoded sections
  unfoldable pub clean_sections : List Section → List Section
  clean_sections ss = map clean_section (kept ss)

  module _ (decode : Bytes → Option (List Section)) (encode : List Section → Option Bytes)
      (read_file : Bytes → File) (make_dir : Bytes → Bool) (writes : Bytes → Bool) where
    abbrev pub encoded : Option (List Section) → Option Bytes
    encoded none = none
    encoded (some ss) = encode (clean_sections ss)

    -- `sanitizeGitConfig(in)`
    unfoldable pub sanitize_git_config : Bytes → Option Bytes
    sanitize_git_config text = encoded (decode text)

    abbrev pub write_clean : Bytes → Option Bytes → Written → Written
    write_clean dst none rest = record { files = []; ok = false }
    write_clean dst (some clean) rest =
        if make_dir (dir_of dst) && writes dst
        then record { files = (dst, clean) ∷ rest.files; ok = rest.ok }
        else record { files = []; ok = false }

    abbrev pub materialize_one : Bytes → File → Written → Written
    materialize_one dst absent rest = rest
    materialize_one dst unreadable rest = record { files = []; ok = false }
    materialize_one dst (holds text) rest = write_clean dst (sanitize_git_config text) rest

    -- the loop of `materializeGitConfig`; a file is read as it was when the loop began
    unfoldable pub materialize_git_config : List (Bytes × Bytes) → Written
    materialize_git_config [] = record { files = []; ok = true }
    materialize_git_config ((src, dst) ∷ pairs) =
        let rest = materialize_git_config pairs in materialize_one dst (read_file src) rest
