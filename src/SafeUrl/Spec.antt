-- ===== src/SafeUrl/Spec.antt =====
-- `make_safe_url` against its specification on components.
use darkhttpd.Common.{
  NonNul, ℕ, zero, suc, ◌≤◌, ◌≡◌, refl, sym, ◌∙◌, arith, true, false, Option, none, some, inl, inr,
  List, [], ◌∷◌, ◌++◌, append_assoc, append-nil, ◌==◌, ==_iff, if◌then◌else◌, Bool-cases, Bytes,
  take, drop, length, All, All-drop,
}
use darkhttpd.SafeUrl.{
  at, ends, breaks, fast_skip, Outcome, done, refused, out_of_fuel, resolve, finish, make_safe_url,
}
use darkhttpd.SafeUrl.Components.{spell, Plain, walk, spell_result}
use darkhttpd.SafeUrl.InPlace.{resolve-Runs}
use darkhttpd.SafeUrl.Lists.{list_round, next, Runs, stops, fails, steps, Matches}
use darkhttpd.SafeUrl.Root.{resolve-first, Starts}
use darkhttpd.SafeUrl.Walk.{Runs-walk}

abbrev pub cons_head : ℕ → List Bytes → List Bytes
cons_head x [] = (x ∷ []) ∷ []
cons_head x (c ∷ cs) = (x ∷ c) ∷ cs

-- The components of the path `/ ∷ s`.
unfoldable pub components : Bytes → List Bytes
components [] = [] ∷ []
components (x ∷ s) = let rest = components s in if x == b'/' then [] ∷ rest else cons_head x rest

-- The text of a resolved path: the root has no component.
abbrev pub path_text : List Bytes → Bytes
path_text [] = b'/' ∷ []
path_text (c ∷ cs) = spell (c ∷ cs)

abbrev pub path_result : Option (List Bytes) → Option Bytes
path_result none = none
path_result (some cs) = some (path_text cs)

spell-cons_head :
    (x : ℕ) (cs : List Bytes) (s : Bytes)
    → spell cs ≡ b'/' ∷ s
    → spell (cons_head x cs) ≡ b'/' ∷ x ∷ s
spell-cons_head x [] s h = ground arith
spell-cons_head x (c ∷ cs) s h = ground arith

spell-components : (s : Bytes) → spell (components s) ≡ b'/' ∷ s
unfolding components
spell-components [] = refl
spell-components (x ∷ s) = ground (arith, spell-components s, spell-cons_head x (components s) s)

cons_head-Plain :
    (x : ℕ) (cs : List Bytes) → Plain x → All (All Plain) cs → All (All Plain) (cons_head x cs)
cons_head-Plain x [] hx h = ((hx, tt), tt)
cons_head-Plain x (c ∷ cs) hx h = ((hx, h.0), h.1)

pub components-Plain : (s : Bytes) → All NonNul s → All (All Plain) (components s)
unfolding components
components-Plain [] h = (tt, tt)
components-Plain (x ∷ s) (hx, h) =
    ground (arith, components-Plain s h, cons_head-Plain x (components s))

-- Inversion of a run at a round that goes on.
Runs-next :
    {s out s' out' : Bytes} {r : Option Bytes}
    → Runs s out r
    → list_round s out ≡ next s' out'
    → Runs s' out' r
Runs-next (stops e) h = cc
Runs-next (fails e) h = cc
Runs-next {s' = s'} {out' = out'} {r = r} (steps {s' = t} {out' = o} e run) h =
    let es : t ≡ s' = cc in let eo : o ≡ out' = cc in rw (← es, ← eo) run

-- The fast case skips bytes that the loop would copy.
copied :
    (c : ℕ) (s out : Bytes) → breaks c s ≡ false → list_round (c ∷ s) out ≡ next s (out ++ c ∷ [])
unfolding breaks list_round
copied c s out h = ground arith

Runs-fast_skip :
    (s out : Bytes) {r : Option Bytes}
    → Runs s out r
    → Runs (drop (fast_skip s) s) (out ++ take (fast_skip s) s) r
unfolding fast_skip
Runs-fast_skip [] out run = rw append-nil run
Runs-fast_skip (c ∷ s) out run = elim (Bool-cases (breaks c s)) [
  | inl stop_here ↦ rw (stop_here, append-nil) run
  | inr on ↦
      rw (on, ← append_assoc out (c ∷ []))
        (Runs-fast_skip s (out ++ c ∷ []) (Runs-next run (copied c s out on)))
]

-- What the specification makes of a URL.
unfoldable pub safe_path : Bytes → Option Bytes
unfolding components walk
safe_path [] = none
safe_path (x ∷ s) = if x == b'/' then path_result (walk (components s) []) else none

finish-Matches :
    (o : Outcome) (cs : Option (List Bytes))
    → Starts o
    → Matches o (spell_result cs)
    → finish o ≡ path_result cs
unfolding finish
finish-Matches (done b dst) none h m = absurd m
finish-Matches (done [] dst) (some []) h (e, le) = absurd (omega arith)
finish-Matches (done (x ∷ b) zero) (some []) h (e, le) = ground arith
finish-Matches (done (x ∷ b) (suc dst)) (some []) h (e, le) = cc
finish-Matches (done b zero) (some (c ∷ cs)) h (e, le) = cc
finish-Matches (done b (suc dst)) (some (c ∷ cs)) h (e, le) = ground arith
finish-Matches refused none h m = refl
finish-Matches refused (some cs) h m = absurd m
finish-Matches out_of_fuel none h m = absurd m
finish-Matches out_of_fuel (some cs) h m = absurd m

fast_skip-le : (s : Bytes) → fast_skip s ≤ length s
unfolding fast_skip
fast_skip-le [] = omega arith
fast_skip-le (c ∷ s) = ground (arith, fast_skip-le s)

length-drop_le : (n : ℕ) (s : Bytes) → length (drop n s) ≤ length s
length-drop_le zero s = omega arith
length-drop_le (suc n) [] = omega arith
length-drop_le (suc n) (x ∷ s) = omega (arith, length-drop_le n s)

-- The whole loop, from where the fast case ends.
module _ (s : Bytes) (nn : All NonNul s) where
  resolve-components :
      (start : ℕ)
      → start ≡ fast_skip (b'/' ∷ s)
      → Matches
          (resolve (suc (length (b'/' ∷ s))) (b'/' ∷ s) start start)
          (spell_result (walk (components s) []))
  resolve-components start e =
      let run = Runs-walk (components s) [] (components-Plain s nn) tt in
      let skipped = Runs-fast_skip (b'/' ∷ s) [] (rw (spell-components s) at run) in
      resolve-Runs _ (b'/' ∷ s) start start (rw (← e) at skipped)
        (omega (arith, length-drop_le start (b'/' ∷ s))) refl refl (omega arith)
        (omega (arith, fast_skip-le (b'/' ∷ s)))
        (All-drop NonNul start (b'/' ∷ s) ((omega arith), nn))

  start-ends : (start : ℕ) → start ≡ 0 → ends (at (b'/' ∷ s) start) ≡ true
  start-ends start e = rw e

  rooted : make_safe_url (b'/' ∷ s) ≡ path_result (walk (components s) [])
  unfolding make_safe_url
  rooted =
      let start = fast_skip (b'/' ∷ s) in
      finish-Matches _ (walk (components s) [])
        (resolve-first (suc (length (b'/' ∷ s))) (b'/' ∷ s) start start refl (start-ends start))
        (resolve-components start refl)

not_rooted : (x : ℕ) (s : Bytes) → (x == b'/') ≡ false → make_safe_url (x ∷ s) ≡ safe_path (x ∷ s)
unfolding make_safe_url safe_path
not_rooted x s h = rw h

safe_path-rooted : (s : Bytes) → safe_path (b'/' ∷ s) ≡ path_result (walk (components s) [])
unfolding safe_path
safe_path-rooted s = refl

-- For a NUL-free URL the copying loop in place, with its fast case and its fuel, computes the
-- specification: it returns NULL exactly when the URL does not start with a slash or a double dot
-- has nothing to go up from, and otherwise the text of the resolved components.
pub make_safe_url-safe_path : (url : Bytes) → All NonNul url → make_safe_url url ≡ safe_path url
make_safe_url-safe_path [] h = unfold make_safe_url safe_path in refl
make_safe_url-safe_path (x ∷ s) (hx, h) = elim (Bool-cases (x == b'/')) [
  | inr other ↦ not_rooted x s other
  | inl slash ↦ rw ((==_iff x b'/').0 slash) (rooted s h ∙ sym (safe_path-rooted s))
]
