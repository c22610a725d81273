-- ===== src/Json.antt =====
-- The values that `json.Unmarshal` makes for `any`, with a number kept as its text. A Go map is a `Dict`.
use runclaude.Prelude.{◌≡◌, refl, ap, Bool, [], ◌∷◌, Option, none, some}
use runclaude.Dict.{Dict}
use runclaude.Text.{Bytes}

mutual
  pub data Json : Type 0 where
    null : Json
    bool : Bool → Json
    num : Bytes → Json
    str : Bytes → Json
    arr : Items → Json
    obj : Fields → Json

  pub data Items : Type 0 where
    nil : Items
    cons : Json → Items → Items

  pub data Fields : Type 0 where
    end : Fields
    field : Bytes → Json → Fields → Fields

abbrev pub fields_of : Dict Json → Fields
fields_of [] = end
fields_of ((k, v) ∷ m) = field k v (fields_of m)

abbrev pub dict_of : Fields → Dict Json
dict_of end = []
dict_of (field k v fs) = (k, v) ∷ dict_of fs

-- a map as a value
abbrev pub object : Dict Json → Json
object m = obj (fields_of m)

-- `v.(map[string]any)`
unfoldable pub as_map : Option Json → Option (Dict Json)
as_map (some (obj fs)) = some (dict_of fs)
as_map _ = none

pub dict_of-fields_of : (m : Dict Json) → dict_of (fields_of m) ≡ m
dict_of-fields_of [] = refl
dict_of-fields_of ((k, v) ∷ m) = ap (◌∷◌ (k, v)) (dict_of-fields_of m)

pub as_map-object : (m : Dict Json) → as_map (some (object m)) ≡ some m
unfolding as_map
as_map-object m = ap some (dict_of-fields_of m)
