-- ===== src/SafeUrl/Walk.antt =====
-- The loop over lists resolves a path component by component.
use darkhttpd.Common.{
  ◌≡◌, refl, arith, List, [], ◌∷◌, ◌++◌, append_assoc, ◌==◌, if◌then◌else◌, Bytes, length, All,
}
use darkhttpd.SafeUrl.Lists.{list_round, parent, bad, next, Runs, stops, fails, steps}
use darkhttpd.SafeUrl.Components.{
  spell, Plain, Kind, skip, up, keep, classify, drop_last, walk, spell_result, spell-concat,
  Runs-copy, parent-spell,
}

-- What the loop does at the slash before component `c`, by the kind of the component.
abbrev Advance : Kind → Bytes → List Bytes → Bytes → Type 0
Advance skip c cs out = list_round (b'/' ∷ (c ++ spell cs)) out ≡ next (spell cs) out
Advance up c cs out =
    list_round (b'/' ∷ (c ++ spell cs)) out
    ≡ (if length out == 0 then bad else next (spell cs) (parent out))
Advance keep c cs out =
    list_round (b'/' ∷ (c ++ spell cs)) out ≡ next (c ++ spell cs) (out ++ b'/' ∷ [])

advance :
    (c : Bytes) (cs : List Bytes) (out : Bytes) → All Plain c → Advance (classify c cs) c cs out
unfolding classify list_round
advance [] [] out h = refl
advance [] (d ∷ cs) out h = refl
advance (x ∷ []) [] out h = ground arith
advance (x ∷ []) (d ∷ cs) out h = ground arith
advance (x ∷ y ∷ []) [] out h = ground arith
advance (x ∷ y ∷ []) (d ∷ cs) out h = ground arith
advance (x ∷ y ∷ z ∷ c) cs out h = ground arith

length-spell : (cs : List Bytes) → (length (spell cs) == 0) ≡ (length cs == 0)
length-spell [] = refl
length-spell (c ∷ cs) = ground arith

All-drop_last : (cs : List Bytes) → All (All Plain) cs → All (All Plain) (drop_last cs)
All-drop_last [] h = tt
All-drop_last (c ∷ []) h = tt
All-drop_last (c ∷ d ∷ cs) h = (h.0, All-drop_last (d ∷ cs) h.1)

All-concat :
    (cs : List Bytes) (c : Bytes)
    → All (All Plain) cs
    → All Plain c
    → All (All Plain) (cs ++ c ∷ [])
All-concat [] c h hc = (hc, tt)
All-concat (d ∷ cs) c h hc = (h.0, All-concat cs c h.1 hc)

-- One component done, by its kind, when the rest of the run is known.
pub Runs-walk :
    (cs stack : List Bytes)
    → All (All Plain) cs
    → All (All Plain) stack
    → Runs (spell cs) (spell stack) (spell_result (walk cs stack))
unfolding walk
Runs-walk [] stack h hs = stops {s = []} {out = spell stack} (unfold list_round in refl)
Runs-walk (c ∷ cs) stack (hc, h) hs =
    by_kind (classify c cs) refl (Runs-walk cs) stack hs (advance c cs (spell stack) hc)
  where
    by_kind :
        (k : Kind)
        → classify c cs ≡ k
        → ((st : List Bytes)
            → All (All Plain) cs
            → All (All Plain) st
            → Runs (spell cs) (spell st) (spell_result (walk cs st)))
        → (st : List Bytes) → All (All Plain) st
        → Advance k c cs (spell st)
        → Runs (spell (c ∷ cs)) (spell st) (spell_result (walk (c ∷ cs) st))
    by_kind skip e ih st hst a = rw (e, walk) (steps a (ih st h hst))
    by_kind up e ih [] hst a = rw (e, walk) (fails a)
    by_kind up e ih (d ∷ st) hst a =
        rw (e, walk)
          (steps {s' = spell cs} {out' = parent (spell (d ∷ st))} (ground arith)
            (rw (parent-spell d st hst) (ih (drop_last (d ∷ st)) h (All-drop_last (d ∷ st) hst))))
    by_kind keep e ih st hst a =
        rw (e, walk)
          (steps a (
            Runs-copy c (spell cs) (spell st ++ b'/' ∷ []) hc (
              rw (append_assoc, ← spell-concat st c)
                (ih (st ++ c ∷ []) h (All-concat st c hst hc)))))
