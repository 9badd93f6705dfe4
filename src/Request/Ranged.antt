-- ===== src/Request/Ranged.antt =====
-- The numbers of a Range field as `parse_range` reads them.
use darkhttpd.Common.{
  ℕ, suc, ◌+◌, ◌-◌, ◌*◌, ◌≤◌, ◌≡◌, refl, sym, ap, ◌∙◌, arith, Bool, true, false, not, ◌&&◌, ◌==◌,
  [], ◌∷◌, ◌++◌, Bytes, All, drop, get_or, length, length-append, append_assoc, get_or-append,
}
use darkhttpd.Conn.{Connection}
use darkhttpd.Cstring.{is_digit, digits_value, decimal, strtoll, llong_max}
use darkhttpd.Numbers.RoundTrip.{IsDigit, decimal-IsNumeral, decimal-value}
use darkhttpd.Request.Line.{drop_at, scan_while-append}
use darkhttpd.Request.{scan_while, parse_range_end, parse_range}

-- The three forms of a range: both bounds, the first byte alone, or the number of the last bytes.
pub data Asks : Type 0 where
  from_to : ℕ → ℕ → Asks
  from : ℕ → Asks
  last : ℕ → Asks

unfoldable pub asks_text : Asks → Bytes
asks_text (from_to a b) = decimal a ++ b'-' ∷ decimal b
asks_text (from a) = decimal a ++ b'-' ∷ []
asks_text (last b) = b'-' ∷ decimal b

abbrev pub InLonglong : Asks → Type 0
InLonglong (from_to a b) = (a ≤ llong_max) × (b ≤ llong_max)
InLonglong (from a) = a ≤ llong_max
InLonglong (last b) = b ≤ llong_max

-- Behind the first range there is nothing, or a comma and more.
abbrev pub IsBehind : Bytes → Type 0
IsBehind [] = Unit
IsBehind (c ∷ s) = c ≡ b','

-- The bounds of a connection, as far as they are given.
pub record Bounds : Type 0 where
  pub begin_given : Bool
  pub begin : ℕ
  pub end_given : Bool
  pub end : ℕ

abbrev pub bounds_in : Connection → Bounds
bounds_in c = record {
  begin_given = c.range_begin_given;
  begin = c.range_begin;
  end_given = c.range_end_given;
  end = c.range_end;
}

-- A form of range sets the bounds that it has.
abbrev pub set_bounds : Asks → Bounds → Bounds
set_bounds (from_to a b) r = record r { begin_given = true; begin = a; end_given = true; end = b }
set_bounds (from a) r = record r { begin_given = true; begin = a }
set_bounds (last b) r = record r { end_given = true; end = b }

All-is_digit : (s : Bytes) → All IsDigit s → All (λ c. is_digit c ≡ true) s
unfolding is_digit
All-is_digit [] h = tt
All-is_digit (c ∷ s) h = let h0 = h.0 in (ground arith, All-is_digit s h.1)

-- A byte that ends a number.
IsStop : Bytes → Type 0
IsStop [] = Unit
IsStop (c ∷ s) = is_digit c ≡ false

scan_while-IsStop : (s : Bytes) → IsStop s → scan_while is_digit s ≡ 0
unfolding scan_while IsStop
scan_while-IsStop [] h = refl
scan_while-IsStop (c ∷ s) h = rw h refl

digits_value-IsStop : (n : ℕ) (a s : Bytes) → IsStop s → digits_value n (a ++ s) ≡ digits_value n a
unfolding digits_value IsStop
digits_value-IsStop n [] [] h = refl
digits_value-IsStop n [] (c ∷ s) h = rw h refl
digits_value-IsStop n (c ∷ a) s h = rw (digits_value-IsStop (n * 10 + (c - b'0')) a s h) refl

scan_decimal :
    (n : ℕ) (s : Bytes) → IsStop s → scan_while is_digit (decimal n ++ s) ≡ length (decimal n)
scan_decimal n s h =
    scan_while-append is_digit (decimal n) s (All-is_digit (decimal n) (decimal-IsNumeral n).digits)
    ∙ ap (λ k. length (decimal n) + k) (scan_while-IsStop s h)
    ∙ omega arith

strtoll-decimal : (n : ℕ) (s : Bytes) → IsStop s → n ≤ llong_max → strtoll (decimal n ++ s) ≡ n
unfolding strtoll
strtoll-decimal n s h small =
    let e : digits_value 0 (decimal n ++ s) ≡ n =
      digits_value-IsStop 0 (decimal n) s h ∙ decimal-value n in
    rw e (ground (arith, small))

IsBehind-IsStop : (s : Bytes) → IsBehind s → IsStop s
unfolding IsStop is_digit
IsBehind-IsStop [] h = tt
IsBehind-IsStop (c ∷ s) h = rw h refl

at_behind :
    (a s : Bytes)
    → IsBehind s
    → (not (length a == length (a ++ s)) && not (get_or (a ++ s) (length a) 0 == b',')) ≡ false
at_behind a [] h =
    let e : length a ≡ length (a ++ []) = sym (length-append a [] ∙ omega arith) in
    rw (sym e) (ground arith)
at_behind a (c ∷ s) h =
    let k : length a ≡ length a + 0 = omega arith in
    let e : get_or (a ++ c ∷ s) (length a) 0 ≡ c =
      ap (λ n. get_or (a ++ c ∷ s) n 0) k ∙ get_or-append a (c ∷ s) 0 0 in
    rw (e, h) (ground arith)

parse_range_end-decimal :
    (c : Connection) (n : ℕ) (s : Bytes)
    → n ≤ llong_max
    → IsBehind s
    → parse_range_end c (decimal n ++ s) ≡ record c { range_end_given = true; range_end = n }
unfolding parse_range_end
parse_range_end-decimal c n s small behind =
    let stop = IsBehind-IsStop s behind in
    let some_digit = (decimal-IsNumeral n).some_digit in
    let k : (length (decimal n) == 0) ≡ false = ground (arith, some_digit) in
    rw (scan_decimal n s stop, at_behind (decimal n) s behind, k, strtoll-decimal n s stop small)
      refl

parse_range_end-nothing : (c : Connection) (s : Bytes) → IsBehind s → parse_range_end c s ≡ c
unfolding parse_range_end scan_while is_digit
parse_range_end-nothing c [] h = refl
parse_range_end-nothing c (x ∷ s) h =
    let z : (0 == suc (length s)) ≡ false = ground arith in ground (arith, h, z)

hyphen-IsStop : (s : Bytes) → IsStop (b'-' ∷ s)
unfolding IsStop is_digit
hyphen-IsStop s = refl

parse_range-begin :
    (c : Connection) (n : ℕ) (s : Bytes)
    → n ≤ llong_max
    → parse_range c (decimal n ++ b'-' ∷ s)
      ≡ parse_range_end (record c { range_begin_given = true; range_begin = n }) s
unfolding parse_range
parse_range-begin c n s small =
    let a = decimal n in
    let some_digit = (decimal-IsNumeral n).some_digit in
    let k : (length a == 0) ≡ false = ground (arith, some_digit) in
    let longer : (length a == length (a ++ b'-' ∷ s)) ≡ false =
      ground (arith, length-append a (b'-' ∷ s)) in
    let at : get_or (a ++ b'-' ∷ s) (length a) 0 ≡ b'-' =
      ap (λ i. get_or (a ++ b'-' ∷ s) i 0) (let i : length a ≡ length a + 0 = omega arith in i)
      ∙ get_or-append a (b'-' ∷ s) 0 0 in
    let behind : drop (suc (length a)) (a ++ b'-' ∷ s) ≡ s =
      drop_at a (b'-' ∷ s) (suc (length a)) 1 (omega arith) in
    rw
      (
        scan_decimal n (b'-' ∷ s) (hyphen-IsStop s),
        longer,
        at,
        k,
        behind,
        strtoll-decimal n (b'-' ∷ s) (hyphen-IsStop s) small,
      )
      refl

parse_range-end : (c : Connection) (s : Bytes) → parse_range c (b'-' ∷ s) ≡ parse_range_end c s
unfolding parse_range scan_while is_digit
parse_range-end c s = let z : (0 == suc (length s)) ≡ false = ground arith in ground (arith, z)

-- Each form of range, with nothing behind it or a comma and more, sets its bounds and no others.
pub parse_range-asks_text :
    (c : Connection) (r : Asks) (s : Bytes)
    → InLonglong r
    → IsBehind s
    → bounds_in (parse_range c (asks_text r ++ s)) ≡ set_bounds r (bounds_in c)
unfolding asks_text
parse_range-asks_text c (from_to a b) s (small, small') behind =
    let text = append_assoc (decimal a) (b'-' ∷ decimal b) s in
    rw
      (
        text,
        parse_range-begin c a (decimal b ++ s) small,
        parse_range_end-decimal _ b s small' behind,
      )
      refl
parse_range-asks_text c (from a) s small behind =
    rw
      (
        append_assoc (decimal a) (b'-' ∷ []) s,
        parse_range-begin c a s small,
        parse_range_end-nothing _ s behind,
      )
      refl
parse_range-asks_text c (last b) s small behind =
    rw (parse_range-end c (decimal b ++ s), parse_range_end-decimal c b s small behind) refl
