-- ===== src/Cstring.antt =====
-- What the program uses of <string.h>, <ctype.h> and <stdlib.h>, in the C locale. A `char *` is the
-- list of its bytes with no terminator; a buffer that may hold NUL bytes is read through `c_str`.
use Prim.Native.Nat.{compare, Ordering}
use darkhttpd.Common.{
  ℕ, zero, suc, ◌+◌, ◌-◌, ◌*◌, ◌/◌, ◌%◌, ◌^◌, Bool, true, false, ◌&&◌, ◌||◌, Option, none, some, [],
  ◌∷◌, ltb, leb, ◌==◌, if◌then◌else◌, Bytes,
}

-- The C string at the start of a buffer.
unfoldable pub c_str : Bytes → Bytes
c_str [] = []
c_str (c ∷ s) = if c == 0 then [] else c ∷ c_str s

abbrev pub within : ℕ → ℕ → ℕ → Bool
within lo hi c = leb lo c && leb c hi

unfoldable pub is_digit : ℕ → Bool
is_digit c = within b'0' b'9' c

unfoldable pub is_xdigit : ℕ → Bool
is_xdigit c = within b'0' b'9' c || within b'A' b'F' c || within b'a' b'f' c

unfoldable pub to_upper : ℕ → ℕ
to_upper c = if within b'a' b'z' c then c - 32 else c

unfoldable pub to_lower : ℕ → ℕ
to_lower c = if within b'A' b'Z' c then c + 32 else c

-- `strcmp(a, b)` by the sign of its result; the terminator is below every other byte.
unfoldable pub strcmp : Bytes → Bytes → Ordering
strcmp [] [] = Ordering.eq
strcmp [] (_ ∷ _) = Ordering.lt
strcmp (_ ∷ _) [] = Ordering.gt
strcmp (x ∷ a) (y ∷ b) =
    let rest = strcmp a b in
    elim (compare x y) [
      | Ordering.lt ↦ Ordering.lt
      | Ordering.eq ↦ rest
      | Ordering.gt ↦ Ordering.gt
    ]

unfoldable pub strcasecmp : Bytes → Bytes → Ordering
strcasecmp [] [] = Ordering.eq
strcasecmp [] (_ ∷ _) = Ordering.lt
strcasecmp (_ ∷ _) [] = Ordering.gt
strcasecmp (x ∷ a) (y ∷ b) =
    let rest = strcasecmp a b in
    elim (compare (to_lower x) (to_lower y)) [
      | Ordering.lt ↦ Ordering.lt
      | Ordering.eq ↦ rest
      | Ordering.gt ↦ Ordering.gt
    ]

abbrev pub is_eq : Ordering → Bool
is_eq Ordering.eq = true
is_eq _ = false

unfoldable pub str_eq : Bytes → Bytes → Bool
unfolding strcmp
str_eq a b = is_eq (strcmp a b)

unfoldable pub str_case_eq : Bytes → Bytes → Bool
unfolding strcasecmp to_lower
str_case_eq a b = is_eq (strcasecmp a b)

-- `strncmp(s, prefix, strlen(prefix)) == 0`
unfoldable pub starts_with : Bytes → Bytes → Bool
starts_with [] s = true
starts_with (p ∷ ps) [] = false
starts_with (p ∷ ps) (c ∷ s) = p == c && starts_with ps s

unfoldable pub starts_with_case : Bytes → Bytes → Bool
unfolding to_lower
starts_with_case [] s = true
starts_with_case (p ∷ ps) [] = false
starts_with_case (p ∷ ps) (c ∷ s) = to_lower p == to_lower c && starts_with_case ps s

-- The index at which `strcasestr` finds the needle.
unfoldable pub strcasestr : Bytes → Bytes → Option ℕ
unfolding starts_with_case
strcasestr [] needle = if starts_with_case needle [] then some 0 else none
strcasestr (c ∷ s) needle =
    let later : Option ℕ = elim (strcasestr s needle) [ none ↦ none | some i ↦ some (suc i) ] in
    if starts_with_case needle (c ∷ s) then some 0 else later

-- `strchr(s, c) != NULL`
unfoldable pub has_char : ℕ → Bytes → Bool
has_char c [] = false
has_char c (x ∷ s) = x == c || has_char c s

-- The part of a string before the first `c`: what `*strchr(s, c) = 0` leaves of it.
unfoldable pub before_char : ℕ → Bytes → Bytes
before_char c [] = []
before_char c (x ∷ s) = if x == c then [] else x ∷ before_char c s

abbrev pub llong_max : ℕ
llong_max = 2 ^ 63 - 1

unfoldable pub digits_value : ℕ → Bytes → ℕ
digits_value n [] = n
digits_value n (c ∷ s) =
    let rest = digits_value (n * 10 + (c - b'0')) s in if is_digit c then rest else n

-- `strtoll` on a text that begins with a digit: it reads up to the first other byte, and stops at
-- LLONG_MAX.
unfoldable pub strtoll : Bytes → ℕ
unfolding digits_value is_digit
strtoll s = let n = digits_value 0 s in if ltb llong_max n then llong_max else n

unfoldable pub decimal_onto : ℕ → ℕ → Bytes → Bytes
decimal_onto zero n out = out
decimal_onto (suc fuel) n out =
    let c = b'0' + n % 10 in
    let rest = decimal_onto fuel (n / 10) (c ∷ out) in if ltb n 10 then c ∷ out else rest

-- `%d` and `%llu` of a number that is not negative. A number has no more digits than its value + 1.
unfoldable pub decimal : ℕ → Bytes
unfolding decimal_onto
decimal n = decimal_onto (suc n) n []

-- `strstr(s, needle) != NULL`
unfoldable pub contains : Bytes → Bytes → Bool
unfolding starts_with
contains needle [] = starts_with needle []
contains needle (c ∷ s) = starts_with needle (c ∷ s) || contains needle s
