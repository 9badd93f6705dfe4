-- ===== src/Log/Safe.antt =====
-- The characters that `logencode` writes.
use darkhttpd.Common.{
  ℕ, ◌/◌, ◌%◌, ◌≤◌, ◌<◌, ◌≡◌, ◌≢◌, arith, inl, inr, false, Bool-cases, [], ◌∷◌, Bytes, All,
}
use darkhttpd.Log.{logencode, needs_logencoding}
use darkhttpd.Url.{percent, hex_digit}

-- A printable ASCII character other than the quote.
abbrev pub IsPrintable : ℕ → Type 0
IsPrintable c = (0x20 ≤ c) × (c < 0x7f) × (c ≢ b'"')

hex_digit-IsPrintable : (d : ℕ) → d < 16 → IsPrintable (hex_digit d)
unfolding hex_digit
hex_digit-IsPrintable d h = ground arith

percent-IsPrintable :
    (c : ℕ) (rest : Bytes) → All IsPrintable rest → All IsPrintable (percent c rest)
unfolding percent
percent-IsPrintable c rest a = (
  (omega arith, omega arith, omega arith),
  (
    hex_digit-IsPrintable (c / 16 % 16) (omega arith),
    (hex_digit-IsPrintable (c % 16) (omega arith), a),
  ),
)

plain-IsPrintable : (c : ℕ) → needs_logencoding c ≡ false → IsPrintable c
unfolding needs_logencoding
plain-IsPrintable c h = ground arith

-- Every character that `logencode` writes is printable ASCII and not a quote, so that a logged field
-- ends neither its quotes nor its line.
pub logencode-IsPrintable : (s : Bytes) → All IsPrintable (logencode s)
unfolding logencode
logencode-IsPrintable [] = tt
logencode-IsPrintable (c ∷ s) = elim (Bool-cases (needs_logencoding c)) [
  | inl encoded ↦ rw encoded (percent-IsPrintable c (logencode s) (logencode-IsPrintable s))
  | inr plain ↦ rw plain (plain-IsPrintable c plain, logencode-IsPrintable s)
]
