-- ===== src/Numbers.antt =====
-- `str_to_num` and `xstr_to_num` of darkhttpd.c, over the C library's `strtoll`, and the casts of
-- their results.
pub mod RoundTrip
use darkhttpd.Common.{
  ℕ, suc, ◌+◌, ◌-◌, ◌*◌, ◌%◌, ◌^◌, Bool, true, false, ◌&&◌, ◌||◌, not, Option, none, some, [], ◌∷◌,
  ◌++◌, ◌==◌, ltb, if◌then◌else◌, Bytes, text, drop, length,
}
use darkhttpd.Common.Int.{ℤ, pos, negsuc, sub_ℕ}
use darkhttpd.Cstring.{is_digit, digits_value, llong_max, decimal, within}
use darkhttpd.Options.{Result, ok, exited}
use darkhttpd.Request.{scan_while}

-- What `strtoll(str, &endptr, 10)` returns: the number, whether it fell out of range, and the text
-- from `endptr` on.
pub record Strtoll : Type 0 where
  pub value : ℤ
  pub out_of_range : Bool
  pub rest : Bytes

-- `isspace`
abbrev pub is_white : ℕ → Bool
is_white c = c == b' ' || within 9 13 c

-- The number behind the sign; without a digit nothing is read, and `endptr` is `whole`.
unfoldable pub read_digits : Bool → Bytes → Bytes → Strtoll
unfolding digits_value is_digit scan_while
read_digits negative s whole =
    let count = scan_while is_digit s in
    let n = digits_value 0 s in
    let large = if negative then ltb (llong_max + 1) n else ltb llong_max n in
    if count == 0 then record { value = pos 0; out_of_range = false; rest = whole } else record {
      value =
          if negative
          then (if large then sub_ℕ 0 (llong_max + 1) else sub_ℕ 0 n)
          else (if large then pos llong_max else pos n);
      out_of_range = large;
      rest = drop count s;
    }

unfoldable pub read_sign : Bytes → Bytes → Strtoll
unfolding read_digits
read_sign [] whole = read_digits false [] whole
read_sign (c ∷ s) whole =
    if c == b'-'
    then read_digits true s whole
    else if c == b'+'
    then read_digits false s whole
    else read_digits false (c ∷ s) whole

unfoldable pub strtoll_base10 : Bytes → Strtoll
unfolding read_sign scan_while
strtoll_base10 s = read_sign (drop (scan_while is_white s) s) s

-- `str_to_num`: the number, `none` for the result 0. LLONG_MIN and LLONG_MAX are refused only with
-- ERANGE, which `strtoll` sets with no other value.
unfoldable pub str_to_num : Bytes → Option ℤ
unfolding strtoll_base10
str_to_num s =
    let r = strtoll_base10 s in
    if not (length r.rest == 0) then none else if r.out_of_range then none else some r.value

-- `xstr_to_num`
pub number_or_exit : Bytes → Option ℤ → Result ℤ
number_or_exit s (some n) = ok n
number_or_exit s none = exited 1 (text "number \"" ++ s ++ text "\" is invalid")

unfoldable pub xstr_to_num : Bytes → Result ℤ
unfolding number_or_exit str_to_num
xstr_to_num s = number_or_exit s (str_to_num s)

-- A cast to an unsigned type of `w` bits.
unfoldable pub to_unsigned : ℕ → ℤ → ℕ
to_unsigned w (pos n) = n % 2 ^ w
to_unsigned w (negsuc n) = 2 ^ w - suc (n % 2 ^ w)

-- A cast to `int`.
unfoldable pub to_int : ℤ → ℤ
unfolding to_unsigned
to_int z = let u = to_unsigned 32 z in if ltb u (2 ^ 31) then pos u else negsuc (2 ^ 32 - 1 - u)

-- `printf("%d")`
unfoldable pub decimal_int : ℤ → Bytes
unfolding decimal
decimal_int (pos n) = decimal n
decimal_int (negsuc n) = b'-' ∷ decimal (suc n)
