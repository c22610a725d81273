-- ===== src/Proxy/Ca/Files.antt =====
-- proxy/ca.go, `LoadOrCreateCA`: the files ca.crt and ca.key through their branches. A file system is
-- what the two files hold; each call that may fail is given whether it does.
use runclaude.Prelude.{
  ◌≡◌, refl, sym, ap, ◌∙◌, inl, inr, Bool-cases, Bool, true, false, not, List, [], ◌∷◌, Option,
  none, some, if◌then◌else◌, arith,
}
use runclaude.Text.{Bytes}

-- ca.crt and ca.key in the directory
pub record CaFiles : Type 0 where
  pub crt : Option Bytes
  pub key : Option Bytes

-- what is returned: a certificate with its leaf, or an error
pub data Loaded : Type 0 where
  failed : Loaded
  loaded : Bytes → Bytes → Loaded

-- a call of `os.WriteFile`: it succeeds, it does not open the file, or it leaves it with these contents
pub data Write : Type 0 where
  whole : Write
  unopened : Write
  cut : Bytes → Write

abbrev pub is_whole : Write → Bool
is_whole whole = true
is_whole _ = false

-- the file afterwards, from its contents and what is to be written
abbrev pub written : Write → Bytes → Option Bytes → Option Bytes
written whole b old = some b
written unopened b old = old
written (cut left) b old = some left

-- what the calls give: `os.MkdirAll`, `rsa.GenerateKey` with `x509.CreateCertificate` (the PEM of the
-- certificate and of its key), and the two calls of `os.WriteFile`, each of which may fail before it
-- opens its file or, with the file cut short, behind that
pub record Calls : Type 0 where
  pub mkdir : Bool
  pub created : Option (Bytes × Bytes)
  pub write_crt : Write
  pub write_key : Write

-- `pair crt key` tells whether `tls.LoadX509KeyPair` and `x509.ParseCertificate` accept the two
module _ (pair : Bytes → Bytes → Bool) where
  abbrev pub load_pair : Bytes → Option Bytes → Loaded
  load_pair crt none = failed
  load_pair crt (some key) = if pair crt key then loaded crt key else failed

  abbrev pub create_pair : Calls → CaFiles → Option (Bytes × Bytes) → CaFiles × Loaded
  create_pair calls f none = (f, failed)
  create_pair calls f (some (crt, key)) =
      if not (is_whole calls.write_crt)
      then (record f { crt = written calls.write_crt crt f.crt }, failed)
      else if not (is_whole calls.write_key)
      then (record { crt = some crt; key = written calls.write_key key f.key }, failed)
      else (record { crt = some crt; key = some key }, loaded crt key)

  abbrev pub load_or_create : Calls → CaFiles → Option Bytes → CaFiles × Loaded
  load_or_create calls f (some crt) = (f, load_pair crt f.key)
  load_or_create calls f none = create_pair calls f calls.created

  -- `LoadOrCreateCA(dir)`
  unfoldable pub load_or_create_ca : Calls → CaFiles → CaFiles × Loaded
  load_or_create_ca calls f = if not calls.mkdir then (f, failed) else load_or_create calls f f.crt

  -- a pair that is created is accepted
  abbrev pub Fits : Option (Bytes × Bytes) → Type 0
  Fits none = Unit
  Fits (some (crt, key)) = pair crt key ≡ true

  create_pair-again :
      (calls later : Calls) (f : CaFiles) (made : Option (Bytes × Bytes)) {crt key : Bytes}
      → Fits made
      → later.mkdir ≡ true
      → (create_pair calls f made).1 ≡ loaded crt key
      → load_or_create_ca later (create_pair calls f made).0
        ≡ ((create_pair calls f made).0, loaded crt key)
  unfolding load_or_create_ca
  create_pair-again calls later f none fits up h = cc
  create_pair-again calls later f (some (c, k)) fits up h = ground arith

  load_or_create-again :
      (calls later : Calls) (f : CaFiles) (o : Option Bytes) {crt key : Bytes}
      → f.crt ≡ o
      → Fits calls.created
      → later.mkdir ≡ true
      → (load_or_create calls f o).1 ≡ loaded crt key
      → load_or_create_ca later (load_or_create calls f o).0
        ≡ ((load_or_create calls f o).0, loaded crt key)
  load_or_create-again calls later f none e fits up h =
      create_pair-again calls later f calls.created fits up h
  load_or_create-again calls later f (some c) e fits up h = unfold load_or_create_ca in ground arith

  -- Where a created pair of certificate and key is one that loads, a call that returns a pair is
  -- followed by calls that return the same pair and write nothing, as long as the directory can be
  -- made.
  pub load_or_create_ca-again :
      (calls later : Calls) (f : CaFiles) {crt key : Bytes}
      → Fits calls.created
      → later.mkdir ≡ true
      → (load_or_create_ca calls f).1 ≡ loaded crt key
      → load_or_create_ca later (load_or_create_ca calls f).0
        ≡ ((load_or_create_ca calls f).0, loaded crt key)
  load_or_create_ca-again calls later f fits up h = elim (Bool-cases calls.mkdir) [
    | inr e ↦ cc (down calls f e)
    | inl e ↦ rw (made calls f e) (
        load_or_create-again calls later f f.crt refl fits up
          (ap (λ r. r.1) (sym (made calls f e)) ∙ h))
  ]
    where
      made :
          (calls : Calls) (f : CaFiles)
          → calls.mkdir ≡ true
          → load_or_create_ca calls f ≡ load_or_create calls f f.crt
      made calls f e = unfold load_or_create_ca in rw e

      down :
          (calls : Calls) (f : CaFiles)
          → calls.mkdir ≡ false
          → (load_or_create_ca calls f).1 ≡ failed
      down calls f e = unfold load_or_create_ca in rw e

  -- the files after one call after the other
  unfoldable pub after_calls : List Calls → CaFiles → CaFiles
  after_calls [] f = f
  after_calls (c ∷ cs) f = after_calls cs (load_or_create_ca c f).0

  -- the pair on the disk is refused
  abbrev pub Refused : Bytes → CaFiles → Type 0
  Refused crt f = (f.crt ≡ some crt) × (load_pair crt f.key ≡ failed)

  stays_once :
      (c : Calls) (crt : Bytes) (f : CaFiles)
      → Refused crt f
      → ((load_or_create_ca c f).0 ≡ f) × ((load_or_create_ca c f).1 ≡ failed)
  unfolding load_or_create_ca
  stays_once c crt f h = elim (Bool-cases c.mkdir) [
    | inl e ↦ rw (e, h.0) (refl, h.1)
    | inr e ↦ rw e (refl, refl)
  ]

  stays : (cs : List Calls) (crt : Bytes) (f : CaFiles) → Refused crt f → after_calls cs f ≡ f
  unfolding after_calls
  stays [] crt f h = refl
  stays (c ∷ cs) crt f h = rw (stays_once c crt f h).0 (stays cs crt f h)

  half_written :
      (calls : Calls) (f : CaFiles) {crt key : Bytes}
      → f.crt ≡ none
      → f.key ≡ none
      → calls.mkdir ≡ true
      → calls.created ≡ some (crt, key)
      → calls.write_crt ≡ whole
      → is_whole calls.write_key ≡ false
      → load_pair crt (written calls.write_key key none) ≡ failed
      → Refused crt (load_or_create_ca calls f).0
  unfolding load_or_create_ca
  half_written calls f a b c d e g refused = rw (c, a, d, e, g, b) (refl, refused)

  -- Where neither file was there, if ca.crt is written whole and the writing of ca.key fails, and what
  -- it leaves of ca.key, if anything, does not make a pair with ca.crt, then every later call of
  -- `LoadOrCreateCA`, after any calls in between and whatever succeeds in them, fails.
  pub load_or_create_ca-half :
      (calls later : Calls) (between : List Calls) (f : CaFiles) {crt key : Bytes}
      → f.crt ≡ none
      → f.key ≡ none
      → calls.mkdir ≡ true
      → calls.created ≡ some (crt, key)
      → calls.write_crt ≡ whole
      → is_whole calls.write_key ≡ false
      → load_pair crt (written calls.write_key key none) ≡ failed
      → (load_or_create_ca later (after_calls between (load_or_create_ca calls f).0)).1 ≡ failed
  load_or_create_ca-half calls later between f {crt} {key} a b c d e g refused =
      let half = half_written calls f a b c d e g refused in
      rw (stays between crt (load_or_create_ca calls f).0 half)
        (stays_once later crt (load_or_create_ca calls f).0 half).1
