-- ===== src/Mime/Lookup.antt =====
-- The sorted map and the binary search in it, against a search from the front of the map as it was built.
use Prim.Native.Nat.{Ordering}
use darkhttpd.Common.{
  ◌≡◌, refl, ap, ◌∙◌, inl, inr, true, false, Bool-cases, Option, none, some, List, [], ◌∷◌,
  if◌then◌else◌, ◌⊎◌, Bytes, All,
}
use darkhttpd.Cstring.{strcasecmp, str_case_eq}
use darkhttpd.Env.{MimeMapping}
use darkhttpd.Mime.{insert_sorted, sort_mime_map}
use darkhttpd.Mime.Order.{flip, strcasecmp-flip, strcasecmp_trans, strcasecmp-eq}

-- The first entry for an extension, with case ignored.
unfoldable pub find : Bytes → List MimeMapping → Option MimeMapping
find key [] = none
find key (m ∷ ms) = let rest = find key ms in if str_case_eq key m.extension then some m else rest

-- No extension occurs twice.
abbrev pub IsDistinct : List MimeMapping → Type 0
IsDistinct [] = Unit
IsDistinct (m ∷ ms) = All (λ x. str_case_eq m.extension x.extension ≡ false) ms × IsDistinct ms

-- Extensions increase.
abbrev pub IsSorted : List MimeMapping → Type 0
IsSorted [] = Unit
IsSorted (m ∷ ms) = All (λ x. strcasecmp m.extension x.extension ≡ Ordering.lt) ms × IsSorted ms

pub Ordering-cases : (o : Ordering) → (o ≡ Ordering.lt) ⊎ (o ≡ Ordering.eq) ⊎ (o ≡ Ordering.gt)
Ordering-cases Ordering.lt = inl refl
Ordering-cases Ordering.eq = inr (inl refl)
Ordering-cases Ordering.gt = inr (inr refl)

pub All-map :
    {P Q : MimeMapping → Type 0} (ms : List MimeMapping)
    → ((m : MimeMapping) → P m → Q m)
    → All P ms
    → All Q ms
All-map [] f a = tt
All-map (m ∷ ms) f a = (f m a.0, All-map ms f a.1)

-- An entry goes behind the first one if that is smaller, else to the front.
data Inserted (m x : MimeMapping) (xs : List MimeMapping) : Type 0 where
  behind :
      strcasecmp m.extension x.extension ≡ Ordering.gt
      → insert_sorted m (x ∷ xs) ≡ x ∷ insert_sorted m xs
      → Inserted m x xs
  front :
      strcasecmp m.extension x.extension ≡ Ordering.lt
      → insert_sorted m (x ∷ xs) ≡ m ∷ x ∷ xs
      → Inserted m x xs
  same :
      strcasecmp m.extension x.extension ≡ Ordering.eq
      → insert_sorted m (x ∷ xs) ≡ m ∷ x ∷ xs
      → Inserted m x xs

insert_sorted-Inserted : (m x : MimeMapping) (xs : List MimeMapping) → Inserted m x xs
unfolding insert_sorted
insert_sorted-Inserted m x xs = elim (Ordering-cases (strcasecmp m.extension x.extension)) [
  | inl lt ↦ front lt (rw (lt, insert_sorted) refl)
  | inr (inl eq) ↦ same eq (rw (eq, insert_sorted) refl)
  | inr (inr gt) ↦ behind gt (rw (gt, insert_sorted) refl)
]

All-insert_sorted :
    (P : MimeMapping → Type 0) (m : MimeMapping) (ms : List MimeMapping)
    → P m
    → All P ms
    → All P (insert_sorted m ms)
unfolding insert_sorted
All-insert_sorted P m [] p a = (p, tt)
All-insert_sorted P m (x ∷ xs) p a = elim (insert_sorted-Inserted m x xs) [
  | behind gt e ↦ rw e (a.0, All-insert_sorted P m xs p a.1)
  | front lt e ↦ rw e (p, a)
  | same eq e ↦ rw e (p, a)
]

insert_sorted-IsSorted :
    (m : MimeMapping) (ms : List MimeMapping)
    → All (λ x. str_case_eq m.extension x.extension ≡ false) ms
    → IsSorted ms
    → IsSorted (insert_sorted m ms)
unfolding insert_sorted str_case_eq
insert_sorted-IsSorted m [] d s = (tt, tt)
insert_sorted-IsSorted m (x ∷ xs) d s = elim (insert_sorted-Inserted m x xs) [
  | behind gt e ↦ rw e (
    All-insert_sorted _ m xs (strcasecmp-flip m.extension x.extension ∙ ap flip gt) s.0,
    insert_sorted-IsSorted m xs d.1 s.1,
  )
  | front lt e ↦
      rw e
        ((lt, All-map xs (λ y k. strcasecmp_trans m.extension x.extension y.extension lt k) s.0), s)
  | same eq e ↦ cc (rw eq at d.0)
]

pub All-sort_mime_map :
    (P : MimeMapping → Type 0) (ms : List MimeMapping) → All P ms → All P (sort_mime_map ms)
unfolding sort_mime_map
All-sort_mime_map P [] a = tt
All-sort_mime_map P (m ∷ ms) a =
    All-insert_sorted P m (sort_mime_map ms) a.0 (All-sort_mime_map P ms a.1)

pub sort_mime_map-IsSorted : (ms : List MimeMapping) → IsDistinct ms → IsSorted (sort_mime_map ms)
unfolding sort_mime_map
sort_mime_map-IsSorted [] d = tt
sort_mime_map-IsSorted (m ∷ ms) d =
    insert_sorted-IsSorted m (sort_mime_map ms) (All-sort_mime_map _ ms d.0)
      (sort_mime_map-IsSorted ms d.1)

-- Two different extensions are not both the key.
pub not_both :
    (key a b : Bytes)
    → str_case_eq a b ≡ false
    → str_case_eq key a ≡ true
    → str_case_eq key b ≡ false
unfolding str_case_eq
not_both key a b d h = elim (Ordering-cases (strcasecmp key a)) [
  | inl lt ↦ cc (rw lt at h)
  | inr (inl eq) ↦ rw (strcasecmp-eq key a b eq) d
  | inr (inr gt) ↦ cc (rw gt at h)
]

find-insert_sorted :
    (key : Bytes) (m : MimeMapping) (ms : List MimeMapping)
    → All (λ x. str_case_eq m.extension x.extension ≡ false) ms
    → find key (insert_sorted m ms) ≡ find key (m ∷ ms)
unfolding insert_sorted find
find-insert_sorted key m [] d = refl
find-insert_sorted key m (x ∷ xs) d = elim (insert_sorted-Inserted m x xs) [
  | front lt e ↦ ap (find key) e
  | same eq e ↦ ap (find key) e
  | behind gt e ↦
      ap (find key) e
      ∙ ap (λ r. if str_case_eq key x.extension then some x else r)
          (find-insert_sorted key m xs d.1)
      ∙ elim (Bool-cases (str_case_eq key m.extension)) [
        | inl key_is ↦ rw (key_is, not_both key m.extension x.extension d.0 key_is) refl
        | inr other ↦ rw other refl
      ]
]

pub find-sort_mime_map :
    (key : Bytes) (ms : List MimeMapping)
    → IsDistinct ms
    → find key (sort_mime_map ms) ≡ find key ms
unfolding sort_mime_map find
find-sort_mime_map key [] d = refl
find-sort_mime_map key (m ∷ ms) d =
    find-insert_sorted key m (sort_mime_map ms) (All-sort_mime_map _ ms d.0)
    ∙ ap (λ r. if str_case_eq key m.extension then some m else r) (find-sort_mime_map key ms d.1)
