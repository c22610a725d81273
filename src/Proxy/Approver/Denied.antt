-- ===== src/Proxy/Approver/Denied.antt =====
-- The order of the entries that `Denied()` lists.
use mathlib.Core.List.{Perm}
use mathlib.Core.List.Perm
use runclaude.Prelude.{ℕ, ◌≤◌, List, [], ◌∷◌, arith, Bool-cases, inl, inr, ltb, All, All-map}
use runclaude.Proxy.Approver.{
  DeniedEntry, Approver, entries, insert_by_last, sort_by_last, denied_entries,
}

-- No entry was denied later than one that stands before it.
abbrev pub LatestFirst : List DeniedEntry → Type 0
LatestFirst [] = Unit
LatestFirst (e ∷ es) = All (λ d. d.last ≤ e.last) es × LatestFirst es

insert_by_last-perm :
    (e : DeniedEntry) (ds : List DeniedEntry) → Perm (insert_by_last e ds) (e ∷ ds)
unfolding insert_by_last
insert_by_last-perm e [] = Perm.refl (e ∷ [])
insert_by_last-perm e (d ∷ ds) = elim (Bool-cases (ltb e.last d.last)) [
  | inl h ↦ rw h (Perm.trans (Perm.cons d (insert_by_last-perm e ds)) (Perm.swap e d ds))
  | inr h ↦ rw h (Perm.refl (e ∷ d ∷ ds))
]

insert_by_last-All :
    (b : ℕ) (e : DeniedEntry) (ds : List DeniedEntry)
    → e.last ≤ b
    → All (λ d. d.last ≤ b) ds
    → All (λ d. d.last ≤ b) (insert_by_last e ds)
unfolding insert_by_last
insert_by_last-All b e [] h k = (h, tt)
insert_by_last-All b e (d ∷ ds) h k = elim (Bool-cases (ltb e.last d.last)) [
  | inl t ↦ rw t (k.0, insert_by_last-All b e ds h k.1)
  | inr t ↦ rw t (h, k)
]

insert_by_last-LatestFirst :
    (e : DeniedEntry) (ds : List DeniedEntry) → LatestFirst ds → LatestFirst (insert_by_last e ds)
unfolding insert_by_last
insert_by_last-LatestFirst e [] s = (tt, tt)
insert_by_last-LatestFirst e (d ∷ ds) s = elim (Bool-cases (ltb e.last d.last)) [
  | inl t ↦
      rw t (insert_by_last-All d.last e ds (ground arith) s.0, insert_by_last-LatestFirst e ds s.1)
  | inr t ↦
      let le : d.last ≤ e.last = ground arith in
      rw t ((le, All-map _ _ ds (λ x (h : x.last ≤ d.last). omega arith) s.0), s)
]

sort_by_last-perm : (es : List DeniedEntry) → Perm (sort_by_last es) es
unfolding sort_by_last
sort_by_last-perm [] = Perm.refl []
sort_by_last-perm (e ∷ es) =
    Perm.trans (insert_by_last-perm e (sort_by_last es)) (Perm.cons e (sort_by_last-perm es))

sort_by_last-LatestFirst : (es : List DeniedEntry) → LatestFirst (sort_by_last es)
unfolding sort_by_last
sort_by_last-LatestFirst [] = tt
sort_by_last-LatestFirst (e ∷ es) = insert_by_last-LatestFirst e _ (sort_by_last-LatestFirst es)

-- `Denied` returns the entries of the record, each as often as it is there, the latest denied
-- first.
pub denied_entries-sorted :
    (ap : Approver) → Perm (denied_entries ap) (entries ap.denied) × LatestFirst (denied_entries ap)
unfolding denied_entries
denied_entries-sorted ap =
    (sort_by_last-perm (entries ap.denied), sort_by_last-LatestFirst (entries ap.denied))
