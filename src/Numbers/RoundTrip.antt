-- ===== src/Numbers/RoundTrip.antt =====
-- `str_to_num` on what `printf` writes.
use darkhttpd.Common.{
  ℕ, zero, suc, ◌+◌, ◌/◌, ◌%◌, ◌≤◌, ◌<◌, ◌≡◌, refl, ap, ◌∙◌, arith, Bool, true, false, some, [],
  ◌∷◌, if◌then◌else◌, Bytes, All, drop, length,
}
use darkhttpd.Common.Int.{ℤ, pos, negsuc, sub_ℕ}
use darkhttpd.Cstring.{is_digit, digits_value, decimal, decimal_onto, llong_max}
use darkhttpd.Numbers.{str_to_num, strtoll_base10, read_sign, read_digits, decimal_int, is_white}
use darkhttpd.Request.{scan_while}

abbrev pub IsDigit : ℕ → Type 0
IsDigit c = (b'0' ≤ c) × (c ≤ b'9')

-- A text of digits with at least one.
pub record IsNumeral (s : Bytes) : Type 0 where
  pub digits : All IsDigit s
  pub some_digit : 0 < length s

decimal_onto-value :
    (fuel n : ℕ) (out : Bytes)
    → n < fuel
    → digits_value 0 (decimal_onto fuel n out) ≡ digits_value n out
unfolding decimal_onto digits_value is_digit
decimal_onto-value zero n out h = absurd (omega arith)
decimal_onto-value (suc fuel) n out h =
    ground (arith, decimal_onto-value fuel (n / 10) ((b'0' + n % 10) ∷ out))

decimal_onto-IsNumeral :
    (fuel n : ℕ) (out : Bytes) → n < fuel → All IsDigit out → IsNumeral (decimal_onto fuel n out)
unfolding decimal_onto
decimal_onto-IsNumeral zero n out h a = absurd (omega arith)
decimal_onto-IsNumeral (suc fuel) n out h a =
    ground (arith, decimal_onto-IsNumeral fuel (n / 10) ((b'0' + n % 10) ∷ out))

pub decimal-IsNumeral : (n : ℕ) → IsNumeral (decimal n)
unfolding decimal
decimal-IsNumeral n = decimal_onto-IsNumeral (suc n) n [] (omega arith) tt

pub decimal-value : (n : ℕ) → digits_value 0 (decimal n) ≡ n
unfolding decimal
decimal-value n = decimal_onto-value (suc n) n [] (omega arith) ∙ (unfold digits_value in refl)

pub scan_digits : (s : Bytes) → All IsDigit s → scan_while is_digit s ≡ length s
unfolding scan_while is_digit
scan_digits [] a = refl
scan_digits (c ∷ s) a = ground (arith, scan_digits s)

drop_whole : (s : Bytes) → drop (length s) s ≡ []
drop_whole [] = refl
drop_whole (c ∷ s) = drop_whole s

abbrev limit : Bool → ℕ
limit negative = if negative then llong_max + 1 else llong_max

signed : Bool → ℕ → ℤ
signed true n = sub_ℕ 0 n
signed false n = pos n

read_digits-numeral :
    (negative : Bool) (s whole : Bytes) (n : ℕ)
    → IsNumeral s
    → digits_value 0 s ≡ n
    → n ≤ limit negative
    → read_digits negative s whole
      ≡ record { value = signed negative n; out_of_range = false; rest = [] }
unfolding read_digits signed
read_digits-numeral true s whole n d v fits =
    rw (scan_digits s d.digits, v, drop_whole s) (ground (arith, d.some_digit))
read_digits-numeral false s whole n d v fits =
    rw (scan_digits s d.digits, v, drop_whole s) (ground (arith, d.some_digit))

-- Neither a space nor a sign starts a numeral.
read_sign-numeral : (s whole : Bytes) → IsNumeral s → read_sign s whole ≡ read_digits false s whole
unfolding read_sign
read_sign-numeral [] whole d = absurd (omega (arith, d.some_digit))
read_sign-numeral (c ∷ s) whole d = ground (arith, d.digits)

white-numeral : (s : Bytes) → IsNumeral s → scan_while is_white s ≡ 0
unfolding scan_while
white-numeral [] d = refl
white-numeral (c ∷ s) d = ground (arith, d.digits)

pub str_to_num-decimal : (n : ℕ) → n ≤ llong_max → str_to_num (decimal n) ≡ some (pos n)
unfolding str_to_num strtoll_base10 signed
str_to_num-decimal n fits =
    let d = decimal-IsNumeral n in
    rw (
      white-numeral (decimal n) d,
      read_sign-numeral (decimal n) (decimal n) d,
      read_digits-numeral false (decimal n) (decimal n) n d (decimal-value n) fits,
    )

str_to_num-negative :
    (s : Bytes) (n : ℕ)
    → IsNumeral s
    → digits_value 0 s ≡ n
    → n ≤ llong_max + 1
    → str_to_num (b'-' ∷ s) ≡ some (sub_ℕ 0 n)
unfolding str_to_num strtoll_base10 read_sign signed scan_while
str_to_num-negative s n d v fits = rw (read_digits-numeral true s (b'-' ∷ s) n d v fits)

sub_zero : (n : ℕ) → sub_ℕ 0 (suc n) ≡ negsuc n
unfolding sub_ℕ
sub_zero n = ground arith

abbrev pub IsLonglong : ℤ → Type 0
IsLonglong (pos n) = n ≤ llong_max
IsLonglong (negsuc n) = n ≤ llong_max

-- A number that a `long long` holds is read back from what `printf` writes of it.
pub str_to_num-decimal_int : (z : ℤ) → IsLonglong z → str_to_num (decimal_int z) ≡ some z
unfolding decimal_int
str_to_num-decimal_int (pos n) fits = str_to_num-decimal n fits
str_to_num-decimal_int (negsuc n) fits =
    str_to_num-negative (decimal (suc n)) (suc n) (decimal-IsNumeral (suc n))
      (decimal-value (suc n)) (omega arith)
    ∙ ap some (sub_zero n)
