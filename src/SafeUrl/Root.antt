-- ===== src/SafeUrl/Root.antt =====
-- The first byte of the buffer stays a slash, so the URL that is left empty reads "/".
use darkhttpd.Common.{ℕ, zero, suc, ◌≡◌, ◌≢◌, refl, arith, true, [], ◌∷◌, Bytes, set}
use darkhttpd.SafeUrl.{
  at, ends, Round, halt, illegal, go, after_slash, round, Outcome, done, resolve,
}
use darkhttpd.SafeUrl.InPlace.{resume, resolve-resume}

-- The first byte is a slash; while nothing is written, the next byte read is a slash or the end.
record IsRooted (b : Bytes) (src dst : ℕ) : Type 0 where
  first : at b 0 ≡ b'/'
  fresh : dst ≡ 0 → ends (at b src) ≡ true

abbrev Keeps : Round → Type 0
Keeps (go b src dst) = IsRooted b src dst
Keeps _ = Unit

at-set : (b : Bytes) (d v : ℕ) → d ≢ 0 → at (set b d v) 0 ≡ at b 0
at-set [] d v h = refl
at-set (x ∷ b) zero v h = absurd (h refl)
at-set (x ∷ b) (suc d) v h = refl

at-set_first : (b : Bytes) (v : ℕ) → at b 0 ≢ 0 → at (set b 0 v) 0 ≡ v
at-set_first [] v h = absurd (h refl)
at-set_first (x ∷ b) v h = refl

round-IsRooted : (b : Bytes) (src dst : ℕ) → IsRooted b src dst → Keeps (round b src dst)
unfolding round after_slash
round-IsRooted b src dst r = ground (
  arith,
  at-set b dst b'/',
  at-set b dst (at b src),
  at-set_first b b'/',
  at-set_first b (at b src),
)

abbrev pub Starts : Outcome → Type 0
Starts (done b dst) = at b 0 ≡ b'/'
Starts _ = Unit

resume-first :
    (fuel : ℕ) (b : Bytes) (dst : ℕ) (x : Round)
    → at b 0 ≡ b'/'
    → Keeps x
    → ((b' : Bytes) (src' dst' : ℕ) → IsRooted b' src' dst' → Starts (resolve fuel b' src' dst'))
    → Starts (resume fuel b dst x)
unfolding resume
resume-first fuel b dst halt h k ih = h
resume-first fuel b dst illegal h k ih = tt
resume-first fuel b dst (go b' src' dst') h k ih = ih b' src' dst' k

resolve-IsRooted :
    (fuel : ℕ) (b : Bytes) (src dst : ℕ) → IsRooted b src dst → Starts (resolve fuel b src dst)
resolve-IsRooted zero b src dst r = unfold resolve in tt
resolve-IsRooted (suc fuel) b src dst r = rw resolve-resume (
    resume-first fuel b dst (round b src dst) r.first (round-IsRooted b src dst r)
      (resolve-IsRooted fuel))

pub resolve-first :
    (fuel : ℕ) (b : Bytes) (src dst : ℕ)
    → at b 0 ≡ b'/'
    → (dst ≡ 0 → ends (at b src) ≡ true)
    → Starts (resolve fuel b src dst)
resolve-first fuel b src dst hf hs =
    resolve-IsRooted fuel b src dst (record { first = hf; fresh = hs })
