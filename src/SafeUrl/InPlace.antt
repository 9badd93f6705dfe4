-- ===== src/SafeUrl/InPlace.antt =====
-- The loop in place computes every run of the loop over lists, with the fuel that it is given.
use darkhttpd.Common.{
  NonNul, ℕ, zero, suc, ◌≤◌, ◌<◌, ◌≡◌, arith, Option, none, some, Bytes, take, drop, length, All,
}
use darkhttpd.SafeUrl.{Round, halt, illegal, go, round, Outcome, done, refused, resolve}
use darkhttpd.SafeUrl.Lists.{
  stop, bad, next, Runs, stops, fails, steps, Matches, Rel, round-Rel, list_round-next,
}

-- The round that `resolve` has computed, and what it then does.
unfoldable pub resume : ℕ → Bytes → ℕ → Round → Outcome
resume fuel b dst halt = done b dst
resume fuel b dst illegal = refused
resume fuel b dst (go b' src' dst') = resolve fuel b' src' dst'

pub resolve-resume :
    (fuel : ℕ) (b : Bytes) (src dst : ℕ)
    → resolve (suc fuel) b src dst ≡ resume fuel b dst (round b src dst)
unfolding resolve resume
resolve-resume fuel b src dst = ground arith

resume_stop :
    (fuel : ℕ) (b : Bytes) (dst : ℕ) (x : Round) {out : Bytes}
    → take dst b ≡ out
    → dst ≤ length b
    → Rel x stop
    → Matches (resume fuel b dst x) (some out)
unfolding resume
resume_stop fuel b dst halt e le h = (e, le)
resume_stop fuel b dst illegal e le h = absurd h
resume_stop fuel b dst (go _ _ _) e le h = absurd h

resume_bad :
    (fuel : ℕ) (b : Bytes) (dst : ℕ) (x : Round) → Rel x bad → Matches (resume fuel b dst x) none
unfolding resume
resume_bad fuel b dst halt h = absurd h
resume_bad fuel b dst illegal h = tt
resume_bad fuel b dst (go _ _ _) h = absurd h

-- What the next state has to give for the whole loop.
resume_next :
    (fuel : ℕ) (b : Bytes) (dst : ℕ) (x : Round) (s out : Bytes) (r : Option Bytes)
    → Rel x (next s out)
    → ((b' : Bytes) (src' dst' : ℕ)
        → drop src' b' ≡ s
        → take dst' b' ≡ out
        → dst' ≤ src'
        → src' ≤ length b'
        → Matches (resolve fuel b' src' dst') r)
    → Matches (resume fuel b dst x) r
unfolding resume
resume_next fuel b dst halt s out r h k = absurd h
resume_next fuel b dst illegal s out r h k = absurd h
resume_next fuel b dst (go b' src' dst') s out r (hs, ho, le, fits) k = k b' src' dst' hs ho le fits

pub resolve-Runs :
    {s out : Bytes} {r : Option Bytes} (fuel : ℕ) (b : Bytes) (src dst : ℕ)
    → Runs s out r
    → length s < fuel
    → drop src b ≡ s
    → take dst b ≡ out
    → dst ≤ src
    → src ≤ length b
    → All NonNul s
    → Matches (resolve fuel b src dst) r
resolve-Runs zero b src dst run lt hs ho le fits nn = absurd (omega arith)
resolve-Runs {s} (suc fuel) b src dst (stops e) lt hs ho le fits nn = rw resolve-resume (
    resume_stop fuel b dst _ ho (omega arith)
      (rw e at (rw ho at (round-Rel b src dst s hs le fits nn))))
resolve-Runs {s} (suc fuel) b src dst (fails e) lt hs ho le fits nn =
    rw resolve-resume
      (resume_bad fuel b dst _ (rw e at (rw ho at (round-Rel b src dst s hs le fits nn))))
resolve-Runs {s} {out} {r} (suc fuel) b src dst (steps {s' = s'} {out' = out'} e run) lt hs ho le
      fits nn =
    let ahead = list_round-next s out s' out' e in
    rw resolve-resume (
      resume_next fuel b dst _ s' out' r (rw e at (rw ho at (round-Rel b src dst s hs le fits nn)))
        λ b' src' dst' hs' ho' le' fits'.
          resolve-Runs fuel b' src' dst' run (omega arith) hs' ho' le' fits' (ahead.1 nn))
