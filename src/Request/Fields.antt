-- ===== src/Request/Fields.antt =====
-- The fields of a request as `parse_field` finds them.
use darkhttpd.Common.{
  NonNul, ℕ, suc, ◌+◌, ◌≡◌, refl, sym, ap, ◌∙◌, arith, inl, inr, Bool, true, false, not, ◌&&◌,
  Bool-cases, Option-cases, Option, none, some, List, [], ◌∷◌, ◌++◌, ◌==◌, Bytes, All, All-drop,
  take_all, codes, take, drop, length, length-append, if◌then◌else◌, append_assoc,
}
use darkhttpd.Conn.{Connection, text_of}
use darkhttpd.Cstring.{c_str, str_case_eq, strcasecmp, to_lower, starts_with_case, strcasestr}
use darkhttpd.Request.Line.{drop_at, scan_while-append, split_string-piece, c_str-NonNul}
use darkhttpd.Request.{split_string, scan_while, in_line, request_bytes, parse_field}

-- The name of a field: without colons, line ends and NUL bytes.
abbrev pub in_name : ℕ → Bool
in_name c = in_line c && not (c == b':')

abbrev pub IsName : Bytes → Type 0
IsName m = All (λ c. in_name c ≡ true) m

abbrev pub IsValue : Bytes → Type 0
IsValue v = All (λ c. in_line c ≡ true) v

-- Fields as pairs of a name and a value, in the order of the request.
abbrev pub Fields : Type 0
Fields = List (Bytes × Bytes)

abbrev pub AreFields : Fields → Type 0
AreFields fs = All (λ f. IsName f.0 × IsValue f.1) fs

-- What stands behind a name: `": "`, the value, and a carriage return.
abbrev pub field_back : Bytes → Bytes
field_back v = b':' ∷ b' ' ∷ (v ++ b'\r' ∷ [])

-- The fields as they are written behind the carriage return of a line, up to the empty line.
abbrev pub fields_text : Fields → Bytes
fields_text [] = codes "\n\r\n"
fields_text ((m, v) ∷ fs) = b'\n' ∷ ((m ++ field_back v) ++ fields_text fs)

-- The value of the first field with a name, up to case.
unfoldable pub find_field : Bytes → Fields → Option Bytes
find_field q [] = none
find_field q ((m, v) ∷ fs) = if str_case_eq m q then some v else find_field q fs

-- What `parse_field` is asked for.
abbrev pub needle : Bytes → Bytes
needle q = b'\n' ∷ (q ++ codes ": ")

pub shift : ℕ → Option ℕ → Option ℕ
shift n none = none
shift n (some i) = some (n + i)

starts_with_case-field :
    (q m rest : Bytes)
    → IsName q
    → IsName m
    → starts_with_case (q ++ codes ": ") (m ++ (b':' ∷ b' ' ∷ rest)) ≡ str_case_eq m q
unfolding starts_with_case str_case_eq strcasecmp to_lower
starts_with_case-field [] [] rest hq hm = refl
starts_with_case-field [] (c ∷ m) rest hq hm = let h = hm.0 in ground arith
starts_with_case-field (p ∷ q) [] rest hq hm = let h = hq.0 in ground arith
starts_with_case-field (p ∷ q) (c ∷ m) rest hq hm =
    let ih = starts_with_case-field q m rest hq.1 hm.1 in ground (arith, ih)

-- `strcasestr` passes over what has no line feed.
pub strcasestr-needle :
    (a s ns : Bytes)
    → All (λ c. not (c == b'\n') ≡ true) a
    → strcasestr (a ++ s) (b'\n' ∷ ns) ≡ shift (length a) (strcasestr s (b'\n' ∷ ns))
unfolding strcasestr starts_with_case to_lower shift
strcasestr-needle [] s ns h = elim (Option-cases (strcasestr s (b'\n' ∷ ns))) [
  | inl e ↦ rw e refl
  | inr (i, e) ↦ rw e (ap some (omega arith))
]
strcasestr-needle (c ∷ a) s ns h =
    let ih = strcasestr-needle a s ns h.1 in
    let h0 = h.0 in
    elim (Option-cases (strcasestr s (b'\n' ∷ ns))) [
      | inl e ↦ ground (arith, ih, e)
      | inr (i, e) ↦ ground (arith, ih, e)
    ]

pub str_case_eq-length : (a b : Bytes) → str_case_eq a b ≡ true → length a ≡ length b
unfolding str_case_eq strcasecmp
str_case_eq-length [] [] h = refl
str_case_eq-length [] (y ∷ b) h = cc
str_case_eq-length (x ∷ a) [] h = cc
str_case_eq-length (x ∷ a) (y ∷ b) h = ground (arith, str_case_eq-length a b)

pub value_end : (v : Bytes) → IsValue v → All (λ c. not (c == b'\n') ≡ true) (v ++ b'\r' ∷ [])
value_end [] h = (refl, tt)
value_end (c ∷ v) h = let h0 = h.0 in (ground arith, value_end v h.1)

pub no_line_feed :
    (m v : Bytes) → IsName m → IsValue v → All (λ c. not (c == b'\n') ≡ true) (m ++ field_back v)
no_line_feed [] v hm hv = (refl, (refl, value_end v hv))
no_line_feed (c ∷ m) v hm hv = let h = hm.0 in (ground arith, no_line_feed m v hm.1 hv)

-- What the position at which `strcasestr` finds a text says of the value behind it.
unfoldable pub Found : Bytes → Bytes → Option Bytes → Option ℕ → Type 0
Found q text value none = value ≡ none
Found q text value (some p) =
    (v : Bytes) × (back : Bytes) × (value ≡ some v)
    × IsValue v
    × (drop (p + length q) text ≡ v ++ b'\r' ∷ back)

pub Found-shift :
    (q a text : Bytes) (value : Option Bytes) (o : Option ℕ)
    → Found q text value o
    → Found q (a ++ text) value (shift (length a) o)
unfolding Found shift
Found-shift q a text value none h = h
Found-shift q a text value (some p) (v, back, e, hv, d) =
    (v, back, e, hv, drop_at a text (length a + p + length q) (p + length q) (omega arith) ∙ d)

no_field : (q : Bytes) → IsName q → strcasestr (codes "\n\r\n") (needle q) ≡ none
unfolding strcasestr starts_with_case to_lower
no_field [] h = refl
no_field (c ∷ q) h = let h0 = h.0 in ground arith

pub strcasestr-first :
    (s ns : Bytes) → starts_with_case ns s ≡ true → strcasestr (b'\n' ∷ s) (b'\n' ∷ ns) ≡ some 0
unfolding strcasestr starts_with_case to_lower
strcasestr-first s ns h = rw h refl

pub strcasestr-later :
    (s ns : Bytes)
    → starts_with_case ns s ≡ false
    → strcasestr (b'\n' ∷ s) (b'\n' ∷ ns) ≡ shift 1 (strcasestr s (b'\n' ∷ ns))
unfolding strcasestr starts_with_case to_lower shift
strcasestr-later s ns h = elim (Option-cases (strcasestr s (b'\n' ∷ ns))) [
  | inl e ↦ rw (h, e) refl
  | inr (i, e) ↦ rw (h, e) (ap some (omega arith))
]

pub shift-suc : (n : ℕ) (o : Option ℕ) → shift 1 (shift n o) ≡ shift (suc n) o
unfolding shift
shift-suc n none = refl
shift-suc n (some i) = ap some (omega arith)

value_behind :
    (q m v s : Bytes)
    → length m ≡ length q
    → drop (0 + length (needle q)) (b'\n' ∷ ((m ++ field_back v) ++ s)) ≡ v ++ b'\r' ∷ s
value_behind q m v s e =
    let n = 0 + length (needle q) in
    let rest = (v ++ b'\r' ∷ []) ++ s in
    let front = b'\n' ∷ (m ++ codes ": ") in
    ap (λ t. drop n (b'\n' ∷ t))
      (append_assoc m (field_back v) s ∙ sym (append_assoc m (codes ": ") rest))
    ∙ drop_at front rest n 0
        (omega (arith, e, length-append m (codes ": "), length-append q (codes ": ")))
    ∙ append_assoc v (b'\r' ∷ []) s

strcasestr-Found :
    (fs : Fields) (q : Bytes)
    → IsName q
    → AreFields fs
    → Found (needle q) (fields_text fs) (find_field q fs) (strcasestr (fields_text fs) (needle q))
unfolding Found find_field
strcasestr-Found [] q hq hs = rw (no_field q hq) refl
strcasestr-Found ((m, v) ∷ fs) q hq hs =
    let ((hm, hv), later) = hs in
    let s = fields_text fs in
    let a = m ++ field_back v in
    let ns = q ++ codes ": " in
    let apart : starts_with_case ns (a ++ s) ≡ str_case_eq m q =
      ap (starts_with_case ns) (append_assoc m (field_back v) s)
      ∙ starts_with_case-field q m ((v ++ b'\r' ∷ []) ++ s) hq hm in
    elim (Bool-cases (str_case_eq m q)) [
      | inl same ↦
          rw (strcasestr-first (a ++ s) ns (apart ∙ same), same)
            (v, s, refl, hv, value_behind q m v s (str_case_eq-length m q same))
      | inr other ↦
          let all : strcasestr (b'\n' ∷ (a ++ s)) (needle q)
              ≡ shift (suc (length a)) (strcasestr s (needle q)) =
            strcasestr-later (a ++ s) ns (apart ∙ other)
            ∙ ap (shift 1) (strcasestr-needle a s ns (no_line_feed m v hm hv))
            ∙ shift-suc (length a) _ in
          rw (all, other)
            (Found-shift (needle q) (b'\n' ∷ a) s (find_field q fs) _
              (strcasestr-Found fs q hq later))
    ]

All-front : (v s : Bytes) → All NonNul (v ++ s) → All NonNul v
All-front [] s h = tt
All-front (c ∷ v) s h = (h.0, All-front v s h.1)

carriage_return : (s : Bytes) → scan_while in_line (b'\r' ∷ s) ≡ 0
unfolding scan_while
carriage_return s = refl

pub parse_field-Found :
    (c : Connection) (q text : Bytes) (value : Option Bytes) (o : Option ℕ)
    → c.request ≡ some text
    → c.request_length ≡ length text
    → All NonNul text
    → strcasestr text q ≡ o
    → Found q text value o
    → parse_field c q ≡ value
unfolding parse_field Found
parse_field-Found c q text value none req len nn e f =
    let found : strcasestr (c_str (text_of c.request)) q ≡ none =
      ap (λ r. strcasestr (c_str (text_of r)) q) req
      ∙ ap (λ s. strcasestr s q) (c_str-NonNul text nn)
      ∙ e in
    rw (found, f, parse_field) refl
parse_field-Found c q text value (some p) req len nn e (v, back, f, hv, d) =
    let bound1 = p + length q in
    let found : strcasestr (c_str (text_of c.request)) q ≡ some p =
      ap (λ r. strcasestr (c_str (text_of r)) q) req
      ∙ ap (λ s. strcasestr s q) (c_str-NonNul text nn)
      ∙ e in
    let behind : drop bound1 (request_bytes c) ≡ v ++ b'\r' ∷ back =
      ap (λ r. drop bound1 (take c.request_length (text_of r))) req
      ∙ ap (drop bound1) (take_all c.request_length text (omega (arith, len)))
      ∙ d in
    let scanned : scan_while in_line (v ++ b'\r' ∷ back) ≡ length v =
      scan_while-append in_line v (b'\r' ∷ back) hv
      ∙ ap (λ n. length v + n) (carriage_return back)
      ∙ omega arith in
    let whole : All NonNul (v ++ b'\r' ∷ back) = rw d at (All-drop NonNul bound1 text nn) in
    let cut : split_string text bound1 (bound1 + length v) ≡ v =
      split_string-piece text v (b'\r' ∷ back) bound1 (bound1 + length v) d refl
        (All-front v _ whole) in
    rw (found, behind, scanned, req, cut, f, parse_field) refl

-- In a request of a line and fields, `parse_field` finds what a search through the fields finds: the
-- value of the first field whose name is the one asked for up to case, and nothing where
-- there is none, if neither names nor values have line ends, names have no colons, and the
-- request has no NUL.
pub parse_field-fields_text :
    (c : Connection) (line q : Bytes) (fs : Fields)
    → IsName q
    → AreFields fs
    → IsValue line
    → All NonNul (line ++ b'\r' ∷ fields_text fs)
    → c.request ≡ some (line ++ b'\r' ∷ fields_text fs)
    → c.request_length ≡ length (line ++ b'\r' ∷ fields_text fs)
    → parse_field c (needle q) ≡ find_field q fs
parse_field-fields_text c line q fs hq hs hl nn req len =
    let a = line ++ b'\r' ∷ [] in
    let text : line ++ b'\r' ∷ fields_text fs ≡ a ++ fields_text fs =
      sym (append_assoc line (b'\r' ∷ []) (fields_text fs)) in
    parse_field-Found c (needle q) (a ++ fields_text fs) (find_field q fs) _ (req ∙ ap some text)
      (len ∙ ap length text) (rw text at nn)
      (strcasestr-needle a (fields_text fs) (q ++ codes ": ") (value_end line hl))
      (Found-shift (needle q) a (fields_text fs) (find_field q fs) _ (strcasestr-Found fs q hq hs))
