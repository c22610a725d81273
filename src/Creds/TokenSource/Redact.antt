-- ===== src/Creds/TokenSource/Redact.antt =====
-- creds/anthropic.go, `redactToken` and `truncate`: what a log line can hold of a secret.
use runclaude.Prelude.{
  ◌||◌, true, Option, Bool-cases, inl, inr, if◌then◌else◌, ◌≡◌, refl, ℕ, [], ◌∷◌, leb, length, take,
  arith,
}
use runclaude.Text.{contains, to_lower, codes, Bytes, is_empty}
use runclaude.Creds.TokenSource.{
  is_mostly_printable, log_body, gzip_magic, unzipped_or, redact_token,
}

is_empty-length : (a : Bytes) → is_empty a ≡ leb (length a) 0
is_empty-length [] = refl
is_empty-length (x ∷ a) = ground arith

pub redact_token-prefix :
    (decimal : ℕ → Bytes) (a b : Bytes)
    → length a ≡ length b
    → take 8 a ≡ take 8 b
    → redact_token decimal a ≡ redact_token decimal b
unfolding redact_token
redact_token-prefix decimal a b same front =
    rw (is_empty-length a) (rw (is_empty-length b) (rw same (rw front refl)))

-- `logBody` writes no control byte but tab, newline and return, if `strconv.Quote` writes none.
pub is_mostly_printable-log_body :
    (gunzip : Bytes → Option Bytes) (quote : Bytes → Bytes) (body encoding : Bytes)
    → ((s : Bytes) → is_mostly_printable (quote s) ≡ true)
    → is_mostly_printable (log_body gunzip quote body encoding) ≡ true
unfolding log_body
is_mostly_printable-log_body gunzip quote body encoding quoted =
    let zipped = contains (to_lower encoding) (codes "gzip") || gzip_magic body in
    let s = if zipped then unzipped_or body (gunzip body) else body in
    elim (Bool-cases (is_mostly_printable s)) [ inl h ↦ rw h h | inr h ↦ rw h (quoted s) ]
