-- ===== src/SafeUrl.antt =====
-- `make_safe_url` of darkhttpd.c, in place on its buffer. `src` and `dst` are indices into the
-- buffer, and a read at its end gives the terminator.
pub mod Buffer
pub mod Lists
pub mod InPlace
pub mod Components
pub mod Walk
pub mod Root
pub mod Spec
pub mod Safe
use darkhttpd.Common.{
  ℕ, zero, suc, ◌+◌, Bool, true, false, not, ◌&&◌, ◌||◌, Option, none, some, [], ◌∷◌, ◌==◌,
  if◌then◌else◌, Bytes, get_or, set, take, length,
}

abbrev pub at : Bytes → ℕ → ℕ
at b i = get_or b i 0

abbrev pub ends : ℕ → Bool
ends c = c == b'/' || c == 0

-- The test that ends the fast case, at byte `c` before `s`.
pub breaks : ℕ → Bytes → Bool
breaks c s =
    c == b'/'
    && (at s 0 == b'/' || (at s 0 == b'.' && (ends (at s 1) || (at s 1 == b'.' && ends (at s 2)))))

-- How many bytes the fast case skips.
pub fast_skip : Bytes → ℕ
fast_skip [] = 0
fast_skip (c ∷ s) = let more = suc (fast_skip s) in if breaks c s then 0 else more

-- `while (*--dst != '/' && dst > url);`
pub backtrack : Bytes → ℕ → ℕ
backtrack b zero = zero
backtrack b (suc d) =
    let again = backtrack b d in if at b d == b'/' then d else if d == 0 then d else again

-- What one round of the copying loop does: it ends, it returns NULL, or it goes on with the buffer,
-- `src` and `dst`.
pub data Round : Type 0 where
  halt : Round
  illegal : Round
  go : Bytes → ℕ → ℕ → Round

-- The tests behind a slash, with `src` already at the byte after it.
pub after_slash : Bytes → ℕ → ℕ → Round
unfolding backtrack
after_slash b src dst =
    if at b src == b'/'
    then go b src dst
    else if not (at b src == b'.')
    then go (set b dst b'/') src (suc dst)
    else if ends (at b (suc src))
    then go b (suc src) dst
    else if at b (suc src) == b'.' && ends (at b (suc (suc src)))
    then (if dst == 0 then illegal else go b (suc (suc src)) (backtrack b dst))
    else go (set b dst b'/') src (suc dst)

pub round : Bytes → ℕ → ℕ → Round
unfolding after_slash
round b src dst =
    if at b src == 0
    then halt
    else if not (at b src == b'/')
    then go (set b dst (at b src)) (suc src) (suc dst)
    else after_slash b (suc src) dst

pub data Outcome : Type 0 where
  done : Bytes → ℕ → Outcome
  refused : Outcome
  out_of_fuel : Outcome

pub resolve : ℕ → Bytes → ℕ → ℕ → Outcome
resolve zero b src dst = out_of_fuel
resolve (suc fuel) b src dst = elim (round b src dst) [
  | halt ↦ done b dst
  | illegal ↦ refused
  | go b' src' dst' ↦ resolve fuel b' src' dst'
]

-- What stands in the buffer up to the terminator that is written last.
finish : Outcome → Option Bytes
finish (done b dst) = some (take (if dst == 0 then 1 else dst) b)
finish refused = none
finish out_of_fuel = none

unfoldable pub make_safe_url : Bytes → Option Bytes
unfolding fast_skip breaks resolve round finish
make_safe_url url =
    if not (at url 0 == b'/')
    then none
    else let start = fast_skip url in finish (resolve (suc (length url)) url start start)
