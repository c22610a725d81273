-- ===== src/Dict.antt =====
-- Go's `map[string]V` as an association list: a key is looked up at its first entry, written in
-- place, and deleted wherever it stands. The order of a `range` over the map is the list's.
use runclaude.Prelude.{
  ◌≡◌, refl, Bool, true, false, ◌||◌, List, [], ◌∷◌, Option, none, some, arith, if◌then◌else◌,
  Bool-cases, inl, inr,
}
use runclaude.Text.{Bytes, bytes_eq, member}
use runclaude.Text.Equality.{bytes_eq_iff}

abbrev pub Dict : Type 0 → Type 0
Dict V = List (Bytes × V)

module _ {V : Type 0} where
  -- `v, ok := m[k]`
  unfoldable pub lookup : Bytes → Dict V → Option V
  unfolding bytes_eq
  lookup k [] = none
  lookup k ((j, v) ∷ m) = if bytes_eq j k then some v else lookup k m

  -- `m[k] = v`
  unfoldable pub insert : Bytes → V → Dict V → Dict V
  unfolding bytes_eq
  insert k v [] = (k, v) ∷ []
  insert k v ((j, w) ∷ m) = if bytes_eq j k then (k, v) ∷ m else (j, w) ∷ insert k v m

  -- `delete(m, k)`
  unfoldable pub delete : Bytes → Dict V → Dict V
  unfolding bytes_eq
  delete k [] = []
  delete k ((j, w) ∷ m) = let rest = delete k m in if bytes_eq j k then rest else (j, w) ∷ rest

  -- `for _, k := range ks { delete(m, k) }`
  unfoldable pub delete_all : List Bytes → Dict V → Dict V
  unfolding delete
  delete_all [] m = m
  delete_all (k ∷ ks) m = delete_all ks (delete k m)

  -- `for k, v := range src { dst[k] = v }`; the order of a `range` is any, here from the list's end
  unfoldable pub insert_all : Dict V → Dict V → Dict V
  unfolding insert
  insert_all [] dst = dst
  insert_all ((k, v) ∷ src) dst = insert k v (insert_all src dst)

  -- `_, ok := m[k]`
  unfoldable pub has_key : Bytes → Dict V → Bool
  unfolding bytes_eq
  has_key k [] = false
  has_key k ((j, v) ∷ m) = bytes_eq j k || has_key k m

abbrev pub is_some : {A : Type 0} → Option A → Bool
is_some none = false
is_some (some a) = true

abbrev pub or_lookup : {V : Type 0} → Option V → Option V → Option V
or_lookup none o = o
or_lookup (some v) o = some v

module _ {V : Type 0} where
  pub lookup-insert :
      (k j : Bytes) (v : V) (m : Dict V)
      → lookup j (insert k v m) ≡ (if bytes_eq k j then some v else lookup j m)
  unfolding lookup insert
  lookup-insert k j v [] = refl
  lookup-insert k j v ((i, w) ∷ m) =
      ground (arith, bytes_eq_iff k j, bytes_eq_iff i k, bytes_eq_iff i j, lookup-insert k j v m)

  pub lookup-delete :
      (k j : Bytes) (m : Dict V)
      → lookup j (delete k m) ≡ (if bytes_eq k j then none else lookup j m)
  unfolding lookup delete
  lookup-delete k j [] = ground arith
  lookup-delete k j ((i, w) ∷ m) =
      ground (arith, bytes_eq_iff k j, bytes_eq_iff i k, bytes_eq_iff i j, lookup-delete k j m)

  pub lookup-delete_all :
      (ks : List Bytes) (j : Bytes) (m : Dict V)
      → lookup j (delete_all ks m) ≡ (if member j ks then none else lookup j m)
  unfolding delete_all member
  lookup-delete_all [] j m = refl
  lookup-delete_all (k ∷ ks) j m = ground (
    arith,
    lookup-delete_all ks j (delete k m),
    lookup-delete k j m,
    bytes_eq_iff k j,
    bytes_eq_iff j k,
  )

  pub lookup-insert_all :
      (src dst : Dict V) (j : Bytes)
      → lookup j (insert_all src dst) ≡ or_lookup (lookup j src) (lookup j dst)
  unfolding insert_all lookup
  lookup-insert_all [] dst j = refl
  lookup-insert_all ((k, v) ∷ src) dst j =
      rw (lookup-insert k j v (insert_all src dst)) (elim (Bool-cases (bytes_eq k j)) [
        | inl e ↦ rw e refl
        | inr e ↦ rw e (lookup-insert_all src dst j)
      ])

  pub has_key-lookup : (k : Bytes) (m : Dict V) → has_key k m ≡ false → lookup k m ≡ none
  unfolding has_key lookup
  has_key-lookup k [] h = refl
  has_key-lookup k ((j, v) ∷ m) h = ground (arith, h, has_key-lookup k m)

  pub has_key-is_some : (k : Bytes) (m : Dict V) → has_key k m ≡ is_some (lookup k m)
  unfolding has_key lookup
  has_key-is_some k [] = refl
  has_key-is_some k ((j, v) ∷ m) = ground (arith, has_key-is_some k m)
