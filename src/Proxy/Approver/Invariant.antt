-- ===== src/Proxy/Approver/Invariant.antt =====
-- The steps that an approver takes, and what holds of its record of denials after any of them.
use runclaude.Prelude.{
  ℕ, ◌≤◌, ◌≡◌, refl, sym, inl, inr, false, Option, none, some, arith, Bool-cases, ap,
}
use runclaude.Text.{Bytes, bytes_eq, is_empty}
use runclaude.Text.Equality.{bytes_eq_iff}
use runclaude.Dict.{lookup}
use runclaude.Proxy.Allowlist.{Allowlist}
use runclaude.Proxy.Approver.{
  DeniedEntry, Approver, host_key, entry_for, record_denial, approve, Request, serve_http,
  new_approver,
}
use runclaude.Proxy.Approver.Effects.{
  host_key_idem, lookup-record_denial, lookup-approve, asks_approve, lookup-serve_http,
}

-- An entry stands under its own trimmed lower-case host, counts at least one denial, and was last
-- seen neither before it was first seen nor after `now`.
pub record EntryValid (now : ℕ) (key : Bytes) (e : DeniedEntry) : Type 0 where
  pub keyed : e.host ≡ key
  pub normal : host_key key ≡ key
  pub named : is_empty key ≡ false
  pub counted : 1 ≤ e.count
  pub ordered : e.first ≤ e.last
  pub past : e.last ≤ now

abbrev pub IsValid : ℕ → Approver → Type 0
IsValid now ap =
    (key : Bytes) (e : DeniedEntry) → lookup key ap.denied ≡ some e → EntryValid now key e

-- One call of the approver at a time not before the last one.
pub data Step (ap : Approver) (now : ℕ) : Approver → ℕ → Type 0 where
  deny : (host : Bytes) (t : ℕ) → now ≤ t → Step ap now (record_denial host t ap) t
  serve : (r : Request) (t : ℕ) → now ≤ t → Step ap now (serve_http r t ap).0 t

pub data Reach (ap : Approver) (now : ℕ) : Approver → ℕ → Type 0 where
  here : Reach ap now ap now
  next : {bp cp : Approver} {t u : ℕ} → Reach ap now bp t → Step bp t cp u → Reach ap now cp u

entry_for-EntryValid :
    (host : Bytes) (now t : ℕ) (o : Option DeniedEntry)
    → now ≤ t
    → is_empty (host_key host) ≡ false
    → ((e : DeniedEntry) → o ≡ some e → EntryValid now (host_key host) e)
    → EntryValid t (host_key host) (entry_for (host_key host) t o)
entry_for-EntryValid host now t none le ne h = record {
  keyed = refl;
  normal = host_key_idem host;
  named = ne;
  counted = omega arith;
  ordered = omega arith;
  past = omega arith;
}
entry_for-EntryValid host now t (some e) le ne h =
    let v = h e refl in
    record {
      keyed = v.keyed;
      normal = v.normal;
      named = ne;
      counted = omega arith;
      ordered = omega arith;
      past = omega arith;
    }

EntryValid-later :
    {now : ℕ} {key : Bytes} {e : DeniedEntry} (t : ℕ)
    → now ≤ t
    → EntryValid now key e
    → EntryValid t key e
EntryValid-later t le v = record {
  keyed = v.keyed;
  normal = v.normal;
  named = v.named;
  counted = v.counted;
  ordered = v.ordered;
  past = omega arith;
}

record_denial-IsValid :
    (host : Bytes) (now t : ℕ) (ap : Approver)
    → now ≤ t
    → IsValid now ap
    → IsValid t (record_denial host t ap)
record_denial-IsValid host now t ap le v key e found =
    let hk = host_key host in
    let eq = lookup-record_denial host key t ap in
    elim (Bool-cases (is_empty hk)) [
      | inl blank ↦ EntryValid-later t le (v key e (ground (arith, eq)))
      | inr ne ↦ elim (Bool-cases (bytes_eq hk key)) [
        | inl same ↦
            let at_key : key ≡ hk = sym ((bytes_eq_iff hk key).0 same) in
            let is_new : e ≡ entry_for hk t (lookup hk ap.denied) = ground (arith, eq) in
            rw (is_new, at_key) (entry_for-EntryValid host now t (lookup hk ap.denied) le ne (v hk))
        | inr other ↦ EntryValid-later t le (v key e (ground (arith, eq)))
      ]
    ]

approve-IsValid :
    (host : Bytes) (now t : ℕ) (ap : Approver)
    → now ≤ t
    → IsValid now ap
    → IsValid t (approve host ap).0
approve-IsValid host now t ap le v key e found =
    EntryValid-later t le (v key e (ground (arith, lookup-approve host key ap)))

Step-IsValid : {ap bp : Approver} {now t : ℕ} → Step ap now bp t → IsValid now ap → IsValid t bp
Step-IsValid {ap} {now} (deny host t le) v key e found =
    record_denial-IsValid host now t ap le v key e found
Step-IsValid {ap} {now} (serve r t le) v key e found = elim (Bool-cases (asks_approve r)) [
  | inl asked ↦
      approve-IsValid r.form_host now t ap le v key e (ground (arith, lookup-serve_http r key t ap))
  | inr other ↦ EntryValid-later t le (v key e (ground (arith, lookup-serve_http r key t ap)))
]

-- Whatever requests are denied and served, in any order and at times that do not go back, every
-- entry of the record stands under its own trimmed lower-case host, which is not empty, counts at
-- least one denial, and has its first denial no later than its last and that no later than now.
pub Reach-IsValid :
    {allow : Allowlist} {now : ℕ} {bp : Approver} {t : ℕ}
    → Reach (new_approver allow) now bp t
    → IsValid t bp
Reach-IsValid here key e found = unfold lookup in cc
Reach-IsValid (next r s) key e found = Step-IsValid s (Reach-IsValid r) key e found
