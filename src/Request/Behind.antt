-- ===== src/Request/Behind.antt =====
-- The search of `parse_field` for a name and the beginning of its value, which `parse_range_field` makes.
use darkhttpd.Common.{
  NonNul, suc, ◌+◌, ◌≤◌, ◌≡◌, refl, sym, ap, ◌∙◌, arith, inl, inr, Bool, true, false, ◌&&◌,
  Bool-cases, Option, none, some, [], ◌∷◌, ◌++◌, Bytes, All, All-drop, codes, drop, length,
  length-append, if◌then◌else◌, append_assoc, drop-append_le,
}
use darkhttpd.Conn.{Connection}
use darkhttpd.Cstring.{str_case_eq, strcasecmp, to_lower, starts_with_case, strcasestr}
use darkhttpd.Request.Fields.{
  Fields, IsName, IsValue, AreFields, field_back, fields_text, shift, strcasestr-needle,
  strcasestr-first, strcasestr-later, shift-suc, value_end, no_line_feed, Found, Found-shift,
  parse_field-Found, str_case_eq-length,
}
use darkhttpd.Request.Line.{drop_at}
use darkhttpd.Request.{in_line, parse_field}

-- What stands behind `t` in the value of the first field with a name whose value begins with `t`, both
-- up to case.
unfoldable pub find_behind : Bytes → Bytes → Fields → Option Bytes
unfolding starts_with_case
find_behind q t [] = none
find_behind q t ((m, v) ∷ fs) =
    if str_case_eq m q && starts_with_case t v then some (drop (length t) v) else find_behind q t fs

starts_with_case-value :
    (t v rest : Bytes) → IsValue t → starts_with_case t (v ++ b'\r' ∷ rest) ≡ starts_with_case t v
unfolding starts_with_case to_lower
starts_with_case-value [] v rest h = refl
starts_with_case-value (c ∷ t) [] rest h = let h0 = h.0 in ground arith
starts_with_case-value (c ∷ t) (x ∷ v) rest h = rw (starts_with_case-value t v rest h.1) refl

starts_with_case-behind :
    (q m t v rest : Bytes)
    → IsName q
    → IsName m
    → IsValue t
    → starts_with_case (q ++ (b':' ∷ b' ' ∷ t)) (m ++ (b':' ∷ b' ' ∷ (v ++ b'\r' ∷ rest)))
      ≡ (str_case_eq m q && starts_with_case t v)
unfolding starts_with_case str_case_eq strcasecmp to_lower
starts_with_case-behind [] [] t v rest hq hm ht = starts_with_case-value t v rest ht
starts_with_case-behind [] (c ∷ m) t v rest hq hm ht = let h = hm.0 in ground arith
starts_with_case-behind (p ∷ q) [] t v rest hq hm ht = let h = hq.0 in ground arith
starts_with_case-behind (p ∷ q) (c ∷ m) t v rest hq hm ht =
    let ih = starts_with_case-behind q m t v rest hq.1 hm.1 ht in ground (arith, ih)

both_true : (a b : Bool) → (a && b) ≡ true → (a ≡ true) × (b ≡ true)
both_true true true h = (refl, refl)
both_true true false h = absurd (let k : false ≡ true = h in cc)
both_true false b h = absurd (let k : false ≡ true = h in cc)

starts_with_case-length : (t v : Bytes) → starts_with_case t v ≡ true → length t ≤ length v
unfolding starts_with_case
starts_with_case-length [] v h = omega arith
starts_with_case-length (c ∷ t) [] h = absurd (let k : false ≡ true = h in cc)
starts_with_case-length (c ∷ t) (x ∷ v) h = ground (arith, starts_with_case-length t v)

-- The text that is looked for.
abbrev pub needle_behind : Bytes → Bytes → Bytes
needle_behind q t = b'\n' ∷ (q ++ (b':' ∷ b' ' ∷ t))

no_field_behind : (q t : Bytes) → IsName q → strcasestr (codes "\n\r\n") (needle_behind q t) ≡ none
unfolding strcasestr starts_with_case to_lower
no_field_behind [] t h = refl
no_field_behind (c ∷ q) t h = let h0 = h.0 in ground arith

value_behind_both :
    (q t m v s : Bytes)
    → length m ≡ length q
    → length t ≤ length v
    → drop (0 + length (needle_behind q t)) (b'\n' ∷ ((m ++ field_back v) ++ s))
      ≡ drop (length t) v ++ b'\r' ∷ s
value_behind_both q t m v s e h =
    let n = 0 + length (needle_behind q t) in
    let rest = (v ++ b'\r' ∷ []) ++ s in
    let front = b'\n' ∷ (m ++ codes ": ") in
    ap (λ t. drop n (b'\n' ∷ t))
      (append_assoc m (field_back v) s ∙ sym (append_assoc m (codes ": ") rest))
    ∙ drop_at front rest n (length t)
        (omega (arith, e, length-append m (codes ": "), length-append q (b':' ∷ b' ' ∷ t)))
    ∙ ap (drop (length t)) (append_assoc v (b'\r' ∷ []) s)
    ∙ drop-append_le v (b'\r' ∷ s) (length t) h

strcasestr-find_behind :
    (fs : Fields) (q t : Bytes)
    → IsName q
    → IsValue t
    → AreFields fs
    → Found
        (needle_behind q t)
        (fields_text fs)
        (find_behind q t fs)
        (strcasestr (fields_text fs) (needle_behind q t))
unfolding Found find_behind
strcasestr-find_behind [] q t hq ht hs = rw (no_field_behind q t hq) refl
strcasestr-find_behind ((m, v) ∷ fs) q t hq ht hs =
    let ((hm, hv), later) = hs in
    let s = fields_text fs in
    let a = m ++ field_back v in
    let ns = q ++ (b':' ∷ b' ' ∷ t) in
    let text : a ++ s ≡ m ++ (b':' ∷ b' ' ∷ (v ++ b'\r' ∷ s)) =
      append_assoc m (field_back v) s
      ∙ ap (λ r. m ++ (b':' ∷ b' ' ∷ r)) (append_assoc v (b'\r' ∷ []) s) in
    let apart : starts_with_case ns (a ++ s) ≡ (str_case_eq m q && starts_with_case t v) =
      ap (starts_with_case ns) text ∙ starts_with_case-behind q m t v s hq hm ht in
    elim (Bool-cases (str_case_eq m q && starts_with_case t v)) [
      | inl same ↦
          let (name, begins) = both_true (str_case_eq m q) (starts_with_case t v) same in
          rw (strcasestr-first (a ++ s) ns (apart ∙ same), same)
            (
              drop (length t) v,
              s,
              refl,
              All-drop (λ c. in_line c ≡ true) (length t) v hv,
              value_behind_both q t m v s (str_case_eq-length m q name)
                  (starts_with_case-length t v begins),
            )
      | inr other ↦
          let all : strcasestr (b'\n' ∷ (a ++ s)) (needle_behind q t)
              ≡ shift (suc (length a)) (strcasestr s (needle_behind q t)) =
            strcasestr-later (a ++ s) ns (apart ∙ other)
            ∙ ap (shift 1) (strcasestr-needle a s ns (no_line_feed m v hm hv))
            ∙ shift-suc (length a) _ in
          rw (all, other)
            (Found-shift (needle_behind q t) (b'\n' ∷ a) s (find_behind q t fs) _
              (strcasestr-find_behind fs q t hq ht later))
    ]

-- In a request of a line and fields, the search for a name and the beginning of a value.
pub parse_field-find_behind :
    (c : Connection) (line q t : Bytes) (fs : Fields)
    → IsName q
    → IsValue t
    → AreFields fs
    → IsValue line
    → All NonNul (line ++ b'\r' ∷ fields_text fs)
    → c.request ≡ some (line ++ b'\r' ∷ fields_text fs)
    → c.request_length ≡ length (line ++ b'\r' ∷ fields_text fs)
    → parse_field c (needle_behind q t) ≡ find_behind q t fs
parse_field-find_behind c line q t fs hq ht hs hl nn req len =
    let a = line ++ b'\r' ∷ [] in
    let text : line ++ b'\r' ∷ fields_text fs ≡ a ++ fields_text fs =
      sym (append_assoc line (b'\r' ∷ []) (fields_text fs)) in
    parse_field-Found c (needle_behind q t) (a ++ fields_text fs) (find_behind q t fs) _
      (req ∙ ap some text) (len ∙ ap length text) (rw text at nn)
      (strcasestr-needle a (fields_text fs) (q ++ (b':' ∷ b' ' ∷ t)) (value_end line hl))
      (Found-shift (needle_behind q t) a (fields_text fs) (find_behind q t fs) _
        (strcasestr-find_behind fs q t hq ht hs))
