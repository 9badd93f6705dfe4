-- ===== src/SafeUrl/Components.antt =====
-- The abstract view of a URL path: a list of components, each behind a slash. `walk` resolves the
-- empty, single-dot and double-dot components on a stack, with no reference to the buffer.
use darkhttpd.Common.{
  ℕ, zero, suc, ◌+◌, ◌≡◌, ◌≢◌, refl, ap, arith, ◌&&◌, Option, none, some, List, [], ◌∷◌, ◌++◌,
  append_assoc, append-nil, ◌==◌, if◌then◌else◌, Bytes, take, length, length-append, All,
}
use darkhttpd.SafeUrl.{at, backtrack}
use darkhttpd.SafeUrl.Lists.{list_round, parent, Runs, steps}

-- The text of a list of components.
abbrev pub spell : List Bytes → Bytes
spell [] = []
spell (c ∷ cs) = b'/' ∷ (c ++ spell cs)

-- A byte of a component.
abbrev pub Plain : ℕ → Type 0
Plain c = (c ≢ b'/') × (c ≢ 0)

pub data Kind : Type 0 where
  skip : Kind
  up : Kind
  keep : Kind

-- An empty component counts only as the last one, where it is the slash at the end of the path.
unfoldable pub classify : Bytes → List Bytes → Kind
classify [] [] = keep
classify [] (_ ∷ _) = skip
classify (x ∷ []) cs = if x == b'.' then skip else keep
classify (x ∷ y ∷ []) cs = if x == b'.' && y == b'.' then up else keep
classify (x ∷ y ∷ z ∷ c) cs = keep

abbrev pub drop_last : List Bytes → List Bytes
drop_last [] = []
drop_last (c ∷ []) = []
drop_last (c ∷ d ∷ cs) = c ∷ drop_last (d ∷ cs)

-- The stack has its top at the end. `none`: a double dot with nothing to go up from.
unfoldable pub walk : List Bytes → List Bytes → Option (List Bytes)
unfolding classify
walk [] stack = some stack
walk (c ∷ cs) stack = elim (classify c cs) [
  | skip ↦ walk cs stack
  | up ↦ elim stack [ [] ↦ none | d ∷ below ↦ walk cs (drop_last (d ∷ below)) ]
  | keep ↦ walk cs (stack ++ c ∷ [])
]

abbrev pub spell_result : Option (List Bytes) → Option Bytes
spell_result none = none
spell_result (some cs) = some (spell cs)

pub spell-concat : (cs : List Bytes) (c : Bytes) → spell (cs ++ c ∷ []) ≡ spell cs ++ b'/' ∷ c
spell-concat [] c = ap (◌∷◌ b'/') (append-nil c)
spell-concat (d ∷ cs) c = simp (spell-concat cs c, append_assoc)

pub Runs-copy :
    (c t out : Bytes) {r : Option Bytes} → All Plain c → Runs t (out ++ c) r → Runs (c ++ t) out r
unfolding list_round
Runs-copy [] t out h run = rw append-nil at run
Runs-copy (x ∷ c) t out (hx, hc) run =
    steps (ground arith) (Runs-copy c t (out ++ x ∷ []) hc (rw append_assoc run))

-- Going up takes the last component off the text.
at-append : (p q : Bytes) (j : ℕ) → at (p ++ q) (length p + j) ≡ at q j
at-append [] q j = rw (let e : 0 + j ≡ j = omega arith in e)
at-append (x ∷ p) q j =
    rw (let e : suc (length p) + j ≡ suc (length p + j) = omega arith in e) (at-append p q j)

at-Plain : (c : Bytes) (j : ℕ) → All Plain c → at c j ≢ b'/'
at-Plain [] j h = omega arith
at-Plain (x ∷ c) zero h = h.0.0
at-Plain (x ∷ c) (suc j) h = at-Plain c j h.1

backtrack-append :
    (p c : Bytes) (j : ℕ) → All Plain c → backtrack (p ++ b'/' ∷ c) (suc (length p + j)) ≡ length p
unfolding backtrack
backtrack-append p c zero h =
    let here : length p + 0 ≡ length p = omega arith in ground (arith, at-append p (b'/' ∷ c) 0)
backtrack-append p c (suc j) h =
    let e : length p + suc j ≡ suc (length p + j) = omega arith in
    rw e
      (ground (arith, e, at-append p (b'/' ∷ c) (suc j), at-Plain c j h, backtrack-append p c j h))

take-append : (p q : Bytes) → take (length p) (p ++ q) ≡ p
take-append [] q = refl
take-append (x ∷ p) q = ap (◌∷◌ x) (take-append p q)

parent-append : (p c : Bytes) → All Plain c → parent (p ++ b'/' ∷ c) ≡ p
unfolding parent
parent-append p c h =
    let e : length (p ++ b'/' ∷ c) ≡ suc (length p + length c) =
      omega (arith, length-append p (b'/' ∷ c)) in
    rw (e, backtrack-append p c (length c) h) (take-append p (b'/' ∷ c))

pub parent-spell :
    (c : Bytes) (cs : List Bytes)
    → All (All Plain) (c ∷ cs)
    → parent (spell (c ∷ cs)) ≡ spell (drop_last (c ∷ cs))
parent-spell c cs h = go [] c cs h
  where
    go :
        (p : List Bytes) (c : Bytes) (cs : List Bytes)
        → All (All Plain) (c ∷ cs)
        → parent (spell (p ++ c ∷ cs)) ≡ spell (p ++ drop_last (c ∷ cs))
    go p c [] h = rw (spell-concat p c, append-nil) (parent-append (spell p) c h.0)
    go p c (d ∷ cs) h =
        rw (← append_assoc p (c ∷ []) (d ∷ cs), ← append_assoc p (c ∷ []) (drop_last (d ∷ cs)))
          (go (p ++ c ∷ []) d cs h.1)
