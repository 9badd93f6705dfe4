-- ===== src/Url/RoundTrip.antt =====
-- `urldecode` on what `urlencode` writes.
use darkhttpd.Common.{
  ℕ, ◌/◌, ◌%◌, ◌<◌, ◌≡◌, refl, ap, arith, inl, inr, true, false, Bool-cases, [], ◌∷◌, Bytes, All,
  ◌==◌,
}
use darkhttpd.Cstring.{is_xdigit}
use darkhttpd.Url.{hex_to_digit, hex_digit, percent, urldecode, urlencode, needs_encoding}

abbrev pub IsByte : ℕ → Type 0
IsByte c = c < 256

is_xdigit-hex_digit : (d : ℕ) → d < 16 → is_xdigit (hex_digit d) ≡ true
unfolding is_xdigit hex_digit
is_xdigit-hex_digit d h = ground arith

hex_to_digit-hex_digit : (d : ℕ) → d < 16 → hex_to_digit (hex_digit d) ≡ d
unfolding hex_to_digit hex_digit
hex_to_digit-hex_digit d h = ground arith

pub urldecode-percent :
    (c : ℕ) (rest : Bytes) → IsByte c → urldecode (percent c rest) ≡ c ∷ urldecode rest
unfolding percent urldecode
urldecode-percent c rest h =
    rw
      (
        is_xdigit-hex_digit (c / 16 % 16) (omega arith),
        is_xdigit-hex_digit (c % 16) (omega arith),
        hex_to_digit-hex_digit (c / 16 % 16) (omega arith),
        hex_to_digit-hex_digit (c % 16) (omega arith),
      )
      (ap (λ x. x ∷ urldecode rest) (omega arith))

pub urldecode-plain :
    (c : ℕ) (rest : Bytes) → (c == b'%') ≡ false → urldecode (c ∷ rest) ≡ c ∷ urldecode rest
unfolding urldecode
urldecode-plain c [] h = refl
urldecode-plain c (a ∷ []) h = refl
urldecode-plain c (a ∷ b ∷ rest) h = rw h refl

plain_is_not_percent : (c : ℕ) → needs_encoding c ≡ false → (c == b'%') ≡ false
unfolding needs_encoding
plain_is_not_percent c h = ground arith

-- Decoding an encoded text gives the text back, for bytes.
pub urldecode-urlencode : (s : Bytes) → All IsByte s → urldecode (urlencode s) ≡ s
unfolding urlencode
urldecode-urlencode [] h = unfold urldecode in refl
urldecode-urlencode (c ∷ s) (hc, h) = elim (Bool-cases (needs_encoding c)) [
  | inl encoded ↦
      rw encoded
        (rw (urldecode-percent c (urlencode s) hc) (ap (λ t. c ∷ t) (urldecode-urlencode s h)))
  | inr plain ↦ rw plain (
      rw (urldecode-plain c (urlencode s) (plain_is_not_percent c plain))
        (ap (λ t. c ∷ t) (urldecode-urlencode s h)))
]
