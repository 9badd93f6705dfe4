-- ===== src/SafeUrl/Lists.antt =====
-- The copying loop over two lists, the bytes not read yet and the bytes written: the loop in place
-- refines it, because `dst` never overtakes `src`.
use darkhttpd.Common.{
  NonNul, ℕ, suc, ◌≤◌, ◌<◌, ◌≡◌, sym, ap, ◌∙◌, arith, not, ◌&&◌, Option, none, some, [], ◌∷◌, ◌++◌,
  ◌==◌, if◌then◌else◌, Bytes, set, take, drop, length, All,
}
use darkhttpd.SafeUrl.{
  at, ends, backtrack, Round, halt, illegal, go, after_slash, round, Outcome, done, refused,
}
use darkhttpd.SafeUrl.Buffer.{
  length-set, drop-set, take-set, at-drop, at-drop_one, at-drop_two, drop-suc, at_in_range,
  take-take, backtrack-le, backtrack-take, length-take_le,
}

pub data ListRound : Type 0 where
  stop : ListRound
  bad : ListRound
  next : Bytes → Bytes → ListRound

-- The written bytes with the last component and its slash taken off.
unfoldable pub parent : Bytes → Bytes
parent out = take (backtrack out (length out)) out

unfoldable pub behind_slash : Bytes → Bytes → ListRound
unfolding parent
behind_slash s out =
    if at s 0 == b'/'
    then next s out
    else if not (at s 0 == b'.')
    then next s (out ++ b'/' ∷ [])
    else if ends (at s 1)
    then next (drop 1 s) out
    else if at s 1 == b'.' && ends (at s 2)
    then (if length out == 0 then bad else next (drop 1 (drop 1 s)) (parent out))
    else next s (out ++ b'/' ∷ [])

unfoldable pub list_round : Bytes → Bytes → ListRound
unfolding behind_slash
list_round [] out = stop
list_round (c ∷ s) out = if not (c == b'/') then next s (out ++ c ∷ []) else behind_slash s out

abbrev pub Rel : Round → ListRound → Type 0
Rel halt stop = Unit
Rel illegal bad = Unit
Rel (go b src dst) (next s out) =
    (drop src b ≡ s) × (take dst b ≡ out) × (dst ≤ src) × (src ≤ length b)
Rel _ _ = ⊥

module _ (b : Bytes) (src dst : ℕ) (lt : dst < src) (fits : src ≤ length b) where
  write-Rel :
      (c : ℕ) → Rel (go (set b dst c) src (suc dst)) (next (drop src b) (take dst b ++ c ∷ []))
  write-Rel c =
      (drop-set b dst src c lt, take-set b dst c (omega arith), lt, rw (length-set b dst c) fits)

  parent-Rel :
      suc (suc src) ≤ length b
      → Rel
          (go b (suc (suc src)) (backtrack b dst))
          (next (drop 1 (drop 1 (drop src b))) (parent (take dst b)))
  unfolding parent
  parent-Rel h = (
    drop-suc b (suc src) ∙ ap (drop 1) (drop-suc b src),
    sym (
        rw (length-take_le b dst (omega arith), backtrack-take b dst dst (omega arith))
          (take-take b (backtrack b dst) dst (backtrack-le b dst))),
    omega (arith, backtrack-le b dst),
    h,
  )

  after_slash-Rel : Rel (after_slash b src dst) (behind_slash (drop src b) (take dst b))
  unfolding after_slash behind_slash
  after_slash-Rel = ground (
    arith,
    at-drop b src,
    at-drop_one b src,
    at-drop_two b src,
    length-take_le b dst,
    write-Rel b'/',
    parent-Rel,
    drop-suc b src,
    at_in_range b src,
    at_in_range b (suc src),
  )

pub round-Rel :
    (b : Bytes) (src dst : ℕ) (s : Bytes)
    → drop src b ≡ s
    → dst ≤ src
    → src ≤ length b
    → All NonNul s
    → Rel (round b src dst) (list_round s (take dst b))
unfolding round list_round
round-Rel b src dst [] e le fits nn = ground (arith, at-drop b src)
round-Rel b src dst (c ∷ s) e le fits (nz, nn) =
    let ahead : at b src ≡ c = sym (at-drop b src) ∙ ap (λ l. at l 0) e in
    let behind : drop (suc src) b ≡ s = drop-suc b src ∙ ap (drop 1) e in
    let room : src < length b = at_in_range b src (rw ahead nz) in
    let slashed = after_slash-Rel b (suc src) dst (omega arith) room in
    let written = write-Rel b (suc src) dst (omega arith) room c in
    rw (← behind) (ground (arith, slashed, written))

-- The runs of the loop over lists: `none` stands for the NULL that is returned.
pub data Runs : Bytes → Bytes → Option Bytes → Type 0 where
  stops : {s out : Bytes} → list_round s out ≡ stop → Runs s out (some out)
  fails : {s out : Bytes} → list_round s out ≡ bad → Runs s out none
  steps :
      {s out s' out' : Bytes} {r : Option Bytes}
      → list_round s out ≡ next s' out'
      → Runs s' out' r
      → Runs s out r

-- A round that goes on reads at least one byte, and reads on in the same text.
pub list_round-next :
    (s out s' out' : Bytes)
    → list_round s out ≡ next s' out'
    → (length s' < length s) × (All NonNul s → All NonNul s')
unfolding list_round behind_slash
list_round-next [] out s' out' h = cc
list_round-next (c ∷ []) out s' out' h = ground arith
list_round-next (c ∷ x ∷ []) out s' out' h = ground arith
list_round-next (c ∷ x ∷ y ∷ s) out s' out' h = ground arith

abbrev pub Matches : Outcome → Option Bytes → Type 0
Matches (done b dst) (some out) = (take dst b ≡ out) × (dst ≤ length b)
Matches refused none = Unit
Matches _ _ = ⊥
