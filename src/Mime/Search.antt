-- ===== src/Mime/Search.antt =====
-- The binary search of `url_content_type` in the sorted map, and the distinct extensions that
-- `add_mime_mapping` keeps.
use Prim.Native.Nat.{Ordering}
use darkhttpd.Common.{
  ℕ, zero, suc, ◌/◌, ◌≤◌, ◌≡◌, refl, sym, ap, ◌∙◌, arith, inl, inr, false, Option, none, some, List,
  [], ◌∷◌, ◌++◌, if◌then◌else◌, Bytes, All, take, drop, length, take-append-drop, length-drop,
  length-append,
}
use darkhttpd.Cstring.{strcasecmp, str_case_eq}
use darkhttpd.Env.{MimeMapping}
use darkhttpd.Mime.{sort_mime_map, bsearch}
use darkhttpd.Mime.Lookup.{
  find, IsDistinct, IsSorted, Ordering-cases, All-map, sort_mime_map-IsSorted, find-sort_mime_map,
}
use darkhttpd.Mime.Order.{flip, strcasecmp-flip, strcasecmp_trans, strcasecmp-eq}

-- The extension of an entry is not the key.
abbrev Other : Bytes → MimeMapping → Type 0
Other key m = str_case_eq key m.extension ≡ false

below-Other :
    (key : Bytes) (m : MimeMapping) → strcasecmp key m.extension ≡ Ordering.lt → Other key m
unfolding str_case_eq
below-Other key m lt = rw lt refl

above-Other :
    (key : Bytes) (m : MimeMapping) → strcasecmp key m.extension ≡ Ordering.gt → Other key m
unfolding str_case_eq
above-Other key m gt = rw gt refl

find-passes :
    (key : Bytes) (front rest : List MimeMapping)
    → All (Other key) front
    → find key (front ++ rest) ≡ find key rest
unfolding find
find-passes key [] rest a = refl
find-passes key (m ∷ front) rest a = rw a.0 (find-passes key front rest a.1)

find-none : (key : Bytes) (ms : List MimeMapping) → All (Other key) ms → find key ms ≡ none
unfolding find
find-none key [] a = refl
find-none key (m ∷ ms) a = rw a.0 (find-none key ms a.1)

find-stops :
    (key : Bytes) (front rest : List MimeMapping)
    → All (Other key) rest
    → find key (front ++ rest) ≡ find key front
unfolding find
find-stops key [] rest a = find-none key rest a
find-stops key (m ∷ front) rest a =
    ap (λ r. if str_case_eq key m.extension then some m else r) (find-stops key front rest a)

-- A sorted list around one of its elements.
record Parts (front : List MimeMapping) (x : MimeMapping) (above : List MimeMapping) : Type 0 where
  lower : IsSorted front
  below : All (λ y. strcasecmp y.extension x.extension ≡ Ordering.lt) front
  upper : IsSorted (x ∷ above)

middle :
    (P : MimeMapping → Type 0) (front : List MimeMapping) (x : MimeMapping)
    (above : List MimeMapping)
    → All P (front ++ x ∷ above)
    → P x × All P front
middle P [] x above a = (a.0, tt)
middle P (m ∷ front) x above a = let r = middle P front x above a.1 in (r.0, (a.0, r.1))

IsSorted-Parts :
    (front : List MimeMapping) (x : MimeMapping) (above : List MimeMapping)
    → IsSorted (front ++ x ∷ above)
    → Parts front x above
IsSorted-Parts [] x above s = record { lower = tt; below = tt; upper = s }
IsSorted-Parts (m ∷ front) x above s =
    let p = IsSorted-Parts front x above s.1 in
    let q = middle _ front x above s.0 in
    record { lower = (q.1, p.lower); below = (q.0, p.below); upper = p.upper }

below_key-Other :
    (key : Bytes) (x y : MimeMapping)
    → strcasecmp key x.extension ≡ Ordering.gt
    → strcasecmp y.extension x.extension ≡ Ordering.lt
    → Other key y
below_key-Other key x y gt lt =
    let x_below = strcasecmp-flip key x.extension ∙ ap flip gt in
    let y_below = strcasecmp_trans y.extension x.extension key lt x_below in
    above-Other key y (strcasecmp-flip y.extension key ∙ ap flip y_below)

below_same-Other :
    (key : Bytes) (x y : MimeMapping)
    → strcasecmp key x.extension ≡ Ordering.eq
    → strcasecmp y.extension x.extension ≡ Ordering.lt
    → Other key y
below_same-Other key x y eq lt = above-Other key y (
    strcasecmp-eq key x.extension y.extension eq
    ∙ strcasecmp-flip y.extension x.extension
    ∙ ap flip lt)

abbrev against : Bytes → MimeMapping → Ordering
against key m = strcasecmp key m.extension

-- One step of the search, at the element in the middle.
probe :
    ℕ → Bytes → List MimeMapping → MimeMapping → List MimeMapping → Ordering → Option MimeMapping
probe fuel key front x above Ordering.eq = some x
probe fuel key front x above Ordering.lt = bsearch fuel (against key) front
probe fuel key front x above Ordering.gt = bsearch fuel (against key) above

bsearch-probe :
    (fuel : ℕ) (key : Bytes) (es : List MimeMapping) (x : MimeMapping) (above : List MimeMapping)
    → drop (length es / 2) es ≡ x ∷ above
    → bsearch (suc fuel) (against key) es
      ≡ probe fuel key (take (length es / 2) es) x above (strcasecmp key x.extension)
unfolding bsearch probe
bsearch-probe fuel key es x above e = elim (Ordering-cases (strcasecmp key x.extension)) [
  | inl lt ↦ rw (e, lt, bsearch) refl
  | inr (inl eq) ↦ rw (e, eq, bsearch) refl
  | inr (inr gt) ↦ rw (e, gt, bsearch) refl
]

-- What the search gives for the two halves is right for the whole.
probe-find :
    (fuel : ℕ) (key : Bytes) (front : List MimeMapping) (x : MimeMapping) (above : List MimeMapping)
    → Parts front x above
    → bsearch fuel (against key) front ≡ find key front
    → bsearch fuel (against key) above ≡ find key above
    → probe fuel key front x above (strcasecmp key x.extension) ≡ find key (front ++ x ∷ above)
unfolding probe find str_case_eq
probe-find fuel key front x above p l u = elim (Ordering-cases (strcasecmp key x.extension)) [
  | inl lt ↦
      let greater =
        All-map above (λ y k. below-Other key y (strcasecmp_trans key x.extension y.extension lt k))
          p.upper.0 in
      rw lt (l ∙ sym (find-stops key front (x ∷ above) (below-Other key x lt, greater)))
  | inr (inl eq) ↦
      let smaller = All-map front (λ y k. below_same-Other key x y eq k) p.below in
      let skipped = find-passes key front (x ∷ above) smaller in rw (skipped, eq) refl
  | inr (inr gt) ↦
      let smaller = All-map front (λ y k. below_key-Other key x y gt k) p.below in
      let skipped = find-passes key front (x ∷ above) smaller in rw (skipped, gt) u
]

-- The search of one step, by what stands from the middle on.
bsearch-at :
    (fuel : ℕ) (key : Bytes) (es rest : List MimeMapping)
    → ((part : List MimeMapping)
        → IsSorted part
        → length part ≤ fuel
        → bsearch fuel (against key) part ≡ find key part)
    → drop (length es / 2) es ≡ rest
    → IsSorted es
    → length es ≤ suc fuel
    → bsearch (suc fuel) (against key) es ≡ find key es
unfolding find bsearch
bsearch-at fuel key [] [] next e s enough = refl
bsearch-at fuel key (m ∷ ms) [] next e s enough =
    absurd (omega (arith, length-drop (length (m ∷ ms) / 2) (m ∷ ms), ap length e))
bsearch-at fuel key es (x ∷ above) next e s enough =
    let front = take (length es / 2) es in
    let whole : front ++ x ∷ above ≡ es =
      ap (λ r. front ++ r) (sym e) ∙ take-append-drop (length es / 2) es in
    let p = IsSorted-Parts front x above (rw whole s) in
    let n = length-append front (x ∷ above) in
    let k : length (front ++ x ∷ above) ≡ length es = ap length whole in
    bsearch-probe fuel key es x above e
    ∙ probe-find fuel key front x above p (next front p.lower (omega (arith, n, k)))
        (next above p.upper.1 (omega (arith, n, k)))
    ∙ ap (find key) whole

bsearch-find :
    (fuel : ℕ) (key : Bytes) (es : List MimeMapping)
    → IsSorted es
    → length es ≤ fuel
    → bsearch fuel (against key) es ≡ find key es
unfolding find bsearch
bsearch-find zero key [] s enough = refl
bsearch-find zero key (m ∷ ms) s enough = absurd (omega arith)
bsearch-find (suc fuel) key es s enough =
    bsearch-at fuel key es (drop (length es / 2) es) (bsearch-find fuel key) refl s enough

-- If no extension occurs twice, the binary search in the sorted map finds for every key what
-- a search from the front of the unsorted map finds, on the map's size as fuel.
pub bsearch-sort_mime_map :
    (key : Bytes) (es : List MimeMapping)
    → IsDistinct es
    → let sorted = sort_mime_map es in
      bsearch (length sorted) (λ m. strcasecmp key m.extension) sorted ≡ find key es
bsearch-sort_mime_map key es d =
    bsearch-find (length (sort_mime_map es)) key (sort_mime_map es) (sort_mime_map-IsSorted es d)
      (omega arith)
    ∙ find-sort_mime_map key es d
