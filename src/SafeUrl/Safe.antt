-- ===== src/SafeUrl/Safe.antt =====
-- What a URL that `make_safe_url` lets through can be.
use darkhttpd.Common.{
  NonNul, ◌≡◌, ◌≢◌, refl, sym, ◌∙◌, arith, Option, none, some, inl, inr, List, [], ◌∷◌, ◌++◌, ◌==◌,
  Bool-cases, Bytes, All,
}
use darkhttpd.SafeUrl.{make_safe_url}
use darkhttpd.SafeUrl.Components.{Plain, Kind, skip, up, keep, classify, walk, drop_last}
use darkhttpd.SafeUrl.Spec.{
  components, components-Plain, path_text, path_result, safe_path, make_safe_url-safe_path,
}

-- Not a dot component, and free of slashes and NUL bytes.
abbrev pub Proper : Bytes → Type 0
Proper c = (c ≢ b'.' ∷ []) × (c ≢ b'.' ∷ b'.' ∷ []) × All Plain c

-- Only the last component may be empty.
abbrev pub Resolved : List Bytes → Type 0
Resolved [] = Unit
Resolved (c ∷ []) = Proper c
Resolved (c ∷ d ∷ cs) = Proper c × (c ≢ []) × Resolved (d ∷ cs)

-- Every component is proper and not empty.
abbrev Full : List Bytes → Type 0
Full = All (λ c. Proper c × (c ≢ []))

Full-drop_last : (cs : List Bytes) → Full cs → Full (drop_last cs)
Full-drop_last [] h = tt
Full-drop_last (c ∷ []) h = tt
Full-drop_last (c ∷ d ∷ cs) h = (h.0, Full-drop_last (d ∷ cs) h.1)

Full-concat : (cs : List Bytes) (c : Bytes) → Full cs → Proper c × (c ≢ []) → Full (cs ++ c ∷ [])
Full-concat [] c h hc = (hc, tt)
Full-concat (d ∷ cs) c h hc = (h.0, Full-concat cs c h.1 hc)

Full-Resolved : (cs : List Bytes) → Full cs → Resolved cs
Full-Resolved [] h = tt
Full-Resolved (c ∷ []) h = h.0.0
Full-Resolved (c ∷ d ∷ cs) h = (h.0.0, h.0.1, Full-Resolved (d ∷ cs) h.1)

Resolved-concat : (cs : List Bytes) (c : Bytes) → Full cs → Proper c → Resolved (cs ++ c ∷ [])
Resolved-concat [] c h hc = hc
Resolved-concat (d ∷ []) c h hc = (h.0.0, h.0.1, hc)
Resolved-concat (d ∷ e ∷ cs) c h hc = (h.0.0, h.0.1, Resolved-concat (e ∷ cs) c h.1 hc)

keep-Proper :
    (c : Bytes) (cs : List Bytes)
    → All Plain c
    → classify c cs ≡ keep
    → Proper c × (cs ≢ [] → c ≢ [])
unfolding classify
keep-Proper [] [] hc e = grind arith
keep-Proper [] (_ ∷ _) hc e = cc
keep-Proper (x ∷ []) cs hc e = ((ground arith, ground arith, hc), ground arith)
keep-Proper (x ∷ y ∷ []) cs hc e = ((ground arith, ground arith, hc), ground arith)
keep-Proper (x ∷ y ∷ z ∷ c) cs hc e = ((ground arith, ground arith, hc), ground arith)

abbrev Holds : Option (List Bytes) → Type 0
Holds none = Unit
Holds (some cs) = Resolved cs

-- One component, when its successors keep the invariant from every full stack.
walk_step :
    (c : Bytes) (cs stack : List Bytes) (k : Kind)
    → classify c cs ≡ k
    → All Plain c
    → Full stack
    → (cs ≢ [] → (st : List Bytes) → Full st → Holds (walk cs st))
    → Holds (walk (c ∷ cs) stack)
unfolding walk
walk_step c [] stack skip e hc hs ih = rw (e, walk, Holds) (Full-Resolved stack hs)
walk_step c (d ∷ cs) stack skip e hc hs ih = rw (e, walk, Holds) (ih (cc) stack hs)
walk_step c cs [] up e hc hs ih = rw (e, walk, Holds) tt
walk_step c [] (b ∷ st) up e hc hs ih =
    rw (e, walk, Holds) (Full-Resolved (drop_last (b ∷ st)) (Full-drop_last (b ∷ st) hs))
walk_step c (d ∷ cs) (b ∷ st) up e hc hs ih =
    rw (e, walk, Holds) (ih (cc) (drop_last (b ∷ st)) (Full-drop_last (b ∷ st) hs))
walk_step c [] stack keep e hc hs ih =
    rw (e, walk, Holds) (Resolved-concat stack c hs (keep-Proper c [] hc e).0)
walk_step c (d ∷ cs) stack keep e hc hs ih =
    let (proper, filled) = keep-Proper c (d ∷ cs) hc e in
    rw (e, walk, Holds) (ih (cc) (stack ++ c ∷ []) (Full-concat stack c hs (proper, filled (cc))))

walk-Resolved : (cs stack : List Bytes) → All (All Plain) cs → Full stack → Holds (walk cs stack)
walk-Resolved [] stack h hs = unfold walk in Full-Resolved stack hs
walk-Resolved (c ∷ cs) stack (hc, h) hs =
    walk_step c cs stack (classify c cs) refl hc hs (λ _ st. walk-Resolved cs st h)

-- The text of resolved components, none of them a dot component and none but the last empty.
abbrev pub IsSafe : Bytes → Type 0
IsSafe path = (cs : List Bytes) × (path ≡ path_text cs) × Resolved cs

walked-IsSafe :
    (o : Option (List Bytes)) {path : Bytes} → Holds o → path_result o ≡ some path → IsSafe path
walked-IsSafe none h e = cc
walked-IsSafe (some cs) h e = (cs, cc, h)

safe_path-IsSafe :
    (url : Bytes) {path : Bytes} → All NonNul url → safe_path url ≡ some path → IsSafe path
unfolding safe_path
safe_path-IsSafe [] nn e = cc
safe_path-IsSafe (x ∷ s) (hx, nn) e = elim (Bool-cases (x == b'/')) [
  | inr other ↦ cc (rw other at e)
  | inl slash ↦
      walked-IsSafe (walk (components s) [])
        (walk-Resolved (components s) [] (components-Plain s nn) tt) (rw slash at e)
]

-- A NUL-free URL that is let through becomes a slash and components joined by slashes, none of which is a
-- single or double dot, holds a slash or a NUL, or, but for the last one, is empty.
pub make_safe_url-IsSafe :
    (url : Bytes) {path : Bytes} → All NonNul url → make_safe_url url ≡ some path → IsSafe path
make_safe_url-IsSafe url nn e = safe_path-IsSafe url nn (sym (make_safe_url-safe_path url nn) ∙ e)
