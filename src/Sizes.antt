-- ===== src/Sizes.antt =====
-- The sizes of a listing in darkhttpd.c: `printf("%10llu")` and `humanize_size`, whose `double`
-- arithmetic is exact but for the conversion of the size, which rounds to 53 bits.
use darkhttpd.Common.{
  ℕ, zero, suc, ◌-◌, ◌*◌, ◌/◌, ◌%◌, ◌^◌, ◌++◌, [], ◌∷◌, ◌==◌, ltb, leb, if◌then◌else◌, Bytes, codes,
  get_or, length,
}
use darkhttpd.Cstring.{decimal}

unfoldable pub spaces : ℕ → Bytes
spaces zero = []
spaces (suc n) = b' ' ∷ spaces n

-- A text at the right end of a field: `%9...`, `%10...`.
unfoldable pub padded : ℕ → Bytes → Bytes
unfolding spaces
padded width s = spaces (width - length s) ++ s

-- `printf("%10llu")`
unfoldable pub decimal_padded : ℕ → Bytes
unfolding padded decimal
decimal_padded n = padded 10 (decimal n)

-- `n / d` to the nearest whole number, a half to the even one: how IEEE arithmetic and `printf` round.
unfoldable pub rounded : ℕ → ℕ → ℕ
rounded n d =
    let q = n / d in
    let r = n % d in
    if ltb (2 * r) d then q else if ltb d (2 * r) then suc q else if q % 2 == 0 then q else suc q

-- The unit of the last place of a `double`: the least power of two from `unit` on, in so many steps,
-- of which `n` holds less than 2^53.
unfoldable pub last_place : ℕ → ℕ → ℕ → ℕ
last_place zero n unit = unit
last_place (suc steps) n unit =
    let rest = last_place steps n (2 * unit) in if ltb n (2 ^ 53 * unit) then unit else rest

-- `(double)size`. Sizes are below 2^63, so that ten doublings are enough.
unfoldable pub to_double : ℕ → ℕ
unfolding rounded last_place
to_double n = let unit = last_place 10 n 1 in rounded n unit * unit

-- The loop `while (val >= 1024.0 && i < sizeof(suffix) - 2)`, for `val = v / d` and so many suffixes
-- left: how often it divides. Dividing by 1024 loses nothing.
unfoldable pub divisions : ℕ → ℕ → ℕ → ℕ
divisions zero v d = 0
divisions (suc left) v d =
    let more = suc (divisions left v (1024 * d)) in if leb (1024 * d) v then more else 0

-- `%9.1f` of `v / d`: one digit behind the point, rounded from the exact value.
unfoldable pub one_digit : ℕ → ℕ → Bytes
unfolding rounded padded decimal
one_digit v d =
    let tenths = rounded (10 * v) d in
    padded 9 (decimal (tenths / 10) ++ (b'.' ∷ decimal (tenths % 10)))

unfoldable pub humanize_size : ℕ → Bytes
unfolding to_double divisions decimal_padded one_digit
humanize_size size =
    let v = to_double size in
    let i = divisions 6 v 1 in
    if i == 0
    then decimal_padded size
    else one_digit v (1024 ^ i) ++ (get_or (codes " KMGTPE") i 0 ∷ [])
