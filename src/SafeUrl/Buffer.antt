-- ===== src/SafeUrl/Buffer.antt =====
-- Facts about the buffer of `make_safe_url`: its prefix of `dst` bytes and its rest from `src`.
use darkhttpd.Common.{
  ℕ, zero, suc, ◌≤◌, ◌<◌, ◌≡◌, ◌≢◌, refl, ap, arith, [], ◌∷◌, ◌++◌, Bytes, set, take, drop, length,
}
use darkhttpd.SafeUrl.{at, backtrack}

pub length-set : (b : Bytes) (i v : ℕ) → length (set b i v) ≡ length b
length-set [] i v = refl
length-set (x ∷ b) zero v = refl
length-set (x ∷ b) (suc i) v = ap suc (length-set b i v)

-- A write before `src` is not seen from `src` on.
pub drop-set : (b : Bytes) (d s v : ℕ) → d < s → drop s (set b d v) ≡ drop s b
drop-set b d zero v h = absurd (omega arith)
drop-set [] d (suc s) v h = refl
drop-set (x ∷ b) zero (suc s) v h = refl
drop-set (x ∷ b) (suc d) (suc s) v h = drop-set b d s v (omega arith)

-- A write at `dst` is the next byte of the prefix.
pub take-set : (b : Bytes) (d v : ℕ) → d < length b → take (suc d) (set b d v) ≡ take d b ++ v ∷ []
take-set [] d v h = absurd (omega arith)
take-set (x ∷ b) zero v h = refl
take-set (x ∷ b) (suc d) v h = ap (◌∷◌ x) (take-set b d v (omega arith))

pub at-drop : (b : Bytes) (s : ℕ) → at (drop s b) 0 ≡ at b s
at-drop b zero = refl
at-drop [] (suc s) = refl
at-drop (x ∷ b) (suc s) = at-drop b s

pub drop-suc : (b : Bytes) (s : ℕ) → drop (suc s) b ≡ drop 1 (drop s b)
drop-suc [] zero = refl
drop-suc [] (suc s) = refl
drop-suc (x ∷ b) zero = refl
drop-suc (x ∷ b) (suc s) = drop-suc b s

pub at-drop_one : (b : Bytes) (s : ℕ) → at (drop s b) 1 ≡ at b (suc s)
at-drop_one [] zero = refl
at-drop_one (x ∷ b) zero = refl
at-drop_one [] (suc s) = refl
at-drop_one (x ∷ b) (suc s) = at-drop_one b s

pub at-drop_two : (b : Bytes) (s : ℕ) → at (drop s b) 2 ≡ at b (suc (suc s))
at-drop_two [] zero = refl
at-drop_two (x ∷ b) zero = refl
at-drop_two [] (suc s) = refl
at-drop_two (x ∷ b) (suc s) = at-drop_two b s

pub at_in_range : (b : Bytes) (i : ℕ) → at b i ≢ 0 → i < length b
at_in_range [] i h = absurd (h refl)
at_in_range (x ∷ b) zero h = omega arith
at_in_range (x ∷ b) (suc i) h = omega (arith, at_in_range b i h)

pub at-take : (b : Bytes) (n d : ℕ) → d < n → at (take n b) d ≡ at b d
at-take b zero d h = absurd (omega arith)
at-take [] (suc n) d h = refl
at-take (x ∷ b) (suc n) zero h = refl
at-take (x ∷ b) (suc n) (suc d) h = at-take b n d (omega arith)

pub take-take : (b : Bytes) (k n : ℕ) → k ≤ n → take k (take n b) ≡ take k b
take-take b zero n h = refl
take-take b (suc k) zero h = absurd (omega arith)
take-take [] (suc k) (suc n) h = refl
take-take (x ∷ b) (suc k) (suc n) h = ap (◌∷◌ x) (take-take b k n (omega arith))

pub backtrack-le : (b : Bytes) (d : ℕ) → backtrack b d ≤ d
unfolding backtrack
backtrack-le b zero = omega arith
backtrack-le b (suc d) = ground (arith, backtrack-le b d)

-- Backtracking reads the prefix alone.
pub backtrack-take : (b : Bytes) (n d : ℕ) → d ≤ n → backtrack (take n b) d ≡ backtrack b d
unfolding backtrack
backtrack-take b n zero h = refl
backtrack-take b n (suc d) h = rw (at-take b n d (omega arith), backtrack-take b n d (omega arith))

pub length-take_le : (b : Bytes) (n : ℕ) → n ≤ length b → length (take n b) ≡ n
length-take_le b zero h = refl
length-take_le [] (suc n) h = absurd (omega arith)
length-take_le (x ∷ b) (suc n) h = ap suc (length-take_le b n (omega arith))
