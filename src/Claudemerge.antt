-- ===== src/Claudemerge.antt =====
-- claudemerge.go, `mergeSettingsFiles`: the user's and the project's settings.json in one. The codecs are
-- parameters; a file is what reading it gives.
pub mod Layers
use runclaude.Prelude.{
  ◌≡◌, ℕ, Bool, true, false, not, ◌||◌, List, [], ◌∷◌, ◌++◌, Option, none, some, if◌then◌else◌,
}
use runclaude.Claudesettings.{aws_claude_settings_env_scrub, aws_claude_settings_top_level_scrub}
use runclaude.Dict.{Dict, lookup, insert, delete_all, insert_all}
use runclaude.Json.{Json, object, as_map}
use runclaude.Text.{Bytes, codes, bytes_eq}

abbrev pub or_new : Option (Dict Json) → Dict Json
or_new none = []
or_new (some m) = m

-- `mergeEnvMaps(dst, src)`
unfoldable pub merge_env_maps : Option Json → Option Json → Dict Json
unfolding as_map insert_all
merge_env_maps dst src = insert_all (or_new (as_map src)) (or_new (as_map dst))

-- the loop over the project's keys, in any order
unfoldable pub overlay : Dict Json → Dict Json → Dict Json
unfolding merge_env_maps insert lookup bytes_eq
overlay [] merged = merged
overlay ((k, v) ∷ proj) merged =
    let rest = overlay proj merged in
    if bytes_eq k (codes "env")
    then insert (codes "env") (object (merge_env_maps (lookup (codes "env") rest) (some v))) rest
    else insert k v rest

-- the scrubbing of `merged["env"]`, on what `as_map` makes of it
abbrev pub scrub_env : Option (Dict Json) → Dict Json → Dict Json
unfolding delete_all insert
scrub_env none merged = merged
scrub_env (some env) merged =
    insert (codes "env") (object (delete_all aws_claude_settings_env_scrub env)) merged

-- the map that is written
unfoldable pub merge_settings : Dict Json → Dict Json → Dict Json
unfolding overlay insert_all delete_all as_map lookup
merge_settings user proj =
    let merged = overlay proj (insert_all user []) in
    delete_all aws_claude_settings_top_level_scrub
      (scrub_env (as_map (lookup (codes "env") merged)) merged)

-- `os.ReadFile`: no such file, another error, or the contents
pub data File : Type 0 where
  absent : File
  unreadable : File
  contents : Bytes → File

-- the results of `readJSONObject`: an error, the nil map, or a map
pub data Read : Type 0 where
  failed : Read
  nil : Read
  map_of : Dict Json → Read

-- what `mergeSettingsFiles` does at `dst`
pub data Merged : Type 0 where
  error : Merged
  removed : Merged
  wrote : Bytes → Merged

module _ (decode : Bytes → Read) (encode : Dict Json → Bytes) where
  -- `readJSONObject(path)`
  unfoldable pub read_json_object : File → Read
  read_json_object absent = nil
  read_json_object unreadable = failed
  read_json_object (contents b) = decode b

  unfoldable pub merge_read : Read → Read → Merged
  unfolding merge_settings
  merge_read failed proj = error
  merge_read user failed = error
  merge_read nil nil = removed
  merge_read nil (map_of proj) = wrote (encode (merge_settings [] proj) ++ (10 ∷ []))
  merge_read (map_of user) nil = wrote (encode (merge_settings user []) ++ (10 ∷ []))
  merge_read (map_of user) (map_of proj) = wrote (encode (merge_settings user proj) ++ (10 ∷ []))

  -- `mergeSettingsFiles(userPath, projPath, dst)`
  unfoldable pub merge_settings_files : File → File → Merged
  unfolding read_json_object merge_read
  merge_settings_files user proj = merge_read (read_json_object user) (read_json_object proj)
