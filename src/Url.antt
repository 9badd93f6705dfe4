-- ===== src/Url.antt =====
-- `urldecode`, `urlencode` and `normalize_path` of darkhttpd.c.
pub mod NonNul
pub mod RoundTrip
use darkhttpd.Common.{
  ℕ, ◌+◌, ◌-◌, ◌*◌, ◌/◌, ◌%◌, Bool, ◌&&◌, ◌||◌, not, [], ◌∷◌, ltb, ◌==◌, if◌then◌else◌, Bytes,
  codes, drop,
}
use darkhttpd.Cstring.{is_xdigit, within, starts_with}

-- HEX_TO_DIGIT
pub hex_to_digit : ℕ → ℕ
hex_to_digit c =
    if within b'A' b'F' c
    then c - b'A' + 10
    else if within b'a' b'f' c
    then c - b'a' + 10
    else c - b'0'

-- The buffer that `urldecode` fills. It may hold a NUL byte, from `%00`.
unfoldable pub urldecode : Bytes → Bytes
unfolding hex_to_digit is_xdigit
urldecode [] = []
urldecode (c ∷ []) = c ∷ []
urldecode (c ∷ a ∷ []) = c ∷ urldecode (a ∷ [])
urldecode (c ∷ a ∷ b ∷ rest) =
    let decoded = (hex_to_digit a * 16 + hex_to_digit b) ∷ urldecode rest in
    let copied = c ∷ urldecode (a ∷ b ∷ rest) in
    if c == b'%' && (is_xdigit a && is_xdigit b) then decoded else copied

unfoldable pub needs_encoding : ℕ → Bool
needs_encoding c = not (
    within b'a' b'z' c
    || within b'A' b'Z' c
    || within b'0' b'9' c
    || c == b'-'
    || c == b'.'
    || c == b'_'
    || c == b'~'
    || c == b'/')

-- The table `hex` at a value below 16.
unfoldable pub hex_digit : ℕ → ℕ
hex_digit d = if ltb d 10 then b'0' + d else b'A' + (d - 10)

unfoldable pub percent : ℕ → Bytes → Bytes
unfolding hex_digit
percent c rest = b'%' ∷ hex_digit (c / 16 % 16) ∷ hex_digit (c % 16) ∷ rest

unfoldable pub urlencode : Bytes → Bytes
unfolding needs_encoding percent
urlencode [] = []
urlencode (c ∷ s) = let rest = urlencode s in if needs_encoding c then percent c rest else c ∷ rest

-- The loop `while (url[pos] && url[pos] != '/') pos++`, and the `memmove`.
unfoldable pub from_slash : Bytes → Bytes
from_slash [] = []
from_slash (c ∷ s) = let rest = from_slash s in if c == b'/' then c ∷ s else rest

unfoldable pub normalize_path : Bytes → Bytes
unfolding from_slash starts_with
normalize_path url =
    if starts_with (codes "http://") url
    then from_slash (drop 7 url)
    else if starts_with (codes "https://") url
    then from_slash (drop 8 url)
    else url
