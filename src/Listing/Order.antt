-- ===== src/Listing/Order.antt =====
-- `qsort` by `dlent_cmp`, as insertion sort.
use Prim.Native.Nat.{Ordering}
use mathlib.Core.List.{Memᴰ, Permᴰ}
use mathlib.Core.List.Permᴰ
use darkhttpd.Common.{◌∙◌, ◌≡◌, ◌≢◌, refl, ◌⊎◌, inl, inr, arith, List, [], ◌∷◌, Bytes, All}
use darkhttpd.Cstring.{strcmp}
use darkhttpd.Mime.Lookup.{Ordering-cases}
use darkhttpd.Listing.{Dlent, insert_entry, sort_entries}

flip : Ordering → Ordering
flip Ordering.lt = Ordering.gt
flip Ordering.eq = Ordering.eq
flip Ordering.gt = Ordering.lt

strcmp-flip : (a b : Bytes) → strcmp b a ≡ flip (strcmp a b)
unfolding strcmp flip
strcmp-flip [] [] = refl
strcmp-flip [] (y ∷ b) = refl
strcmp-flip (x ∷ a) [] = refl
strcmp-flip (x ∷ a) (y ∷ b) = ground (arith, strcmp-flip a b)

-- `dlent_cmp` does not put the first behind the second.
abbrev pub IsBefore : Dlent → Dlent → Type 0
IsBefore x y = strcmp x.name y.name ≢ Ordering.gt

abbrev pub IsSorted : List Dlent → Type 0
IsSorted [] = Unit
IsSorted (x ∷ xs) = All (IsBefore x) xs × IsSorted xs

strcmp_trans :
    (a b c : Bytes) → strcmp a b ≢ Ordering.gt → strcmp b c ≢ Ordering.gt → strcmp a c ≢ Ordering.gt
unfolding strcmp
strcmp_trans [] b [] h k = λ q. cc
strcmp_trans [] b (z ∷ c) h k = λ q. cc
strcmp_trans (x ∷ a) [] c h k = absurd (h refl)
strcmp_trans (x ∷ a) (y ∷ b) [] h k = absurd (k refl)
strcmp_trans (x ∷ a) (y ∷ b) (z ∷ c) h k = let ih = strcmp_trans a b c in ground (arith, ih, h, k)

-- An entry goes behind the first one if that is smaller, else to the front.
insert_entry-cases :
    (d x : Dlent) (xs : List Dlent)
    → (IsBefore x d × (insert_entry d (x ∷ xs) ≡ x ∷ insert_entry d xs))
      ⊎ (IsBefore d x × (insert_entry d (x ∷ xs) ≡ d ∷ x ∷ xs))
unfolding insert_entry flip
insert_entry-cases d x xs = elim (Ordering-cases (strcmp d.name x.name)) [
  | inl e ↦ inr (λ q. cc, rw (e, insert_entry) refl)
  | inr (inl e) ↦ inr (λ q. cc, rw (e, insert_entry) refl)
  | inr (inr e) ↦ inl (
    λ q. (let f = strcmp-flip d.name x.name in let f' = rw e at f in cc),
    rw (e, insert_entry) refl,
  )
]

insert_entry-All :
    (P : Dlent → Type 0) (d : Dlent) (xs : List Dlent) → P d → All P xs → All P (insert_entry d xs)
unfolding insert_entry
insert_entry-All P d [] p h = (p, tt)
insert_entry-All P d (x ∷ xs) p (q, h) = elim (insert_entry-cases d x xs) [
  | inl (before, e) ↦ rw e (q, insert_entry-All P d xs p h)
  | inr (before, e) ↦ rw e (p, (q, h))
]

All-IsBefore :
    (d x : Dlent) (xs : List Dlent) → IsBefore d x → All (IsBefore x) xs → All (IsBefore d) xs
All-IsBefore d x [] h k = tt
All-IsBefore d x (y ∷ xs) h k = (strcmp_trans d.name x.name y.name h k.0, All-IsBefore d x xs h k.1)

insert_entry-IsSorted : (d : Dlent) (xs : List Dlent) → IsSorted xs → IsSorted (insert_entry d xs)
unfolding insert_entry
insert_entry-IsSorted d [] h = (tt, tt)
insert_entry-IsSorted d (x ∷ xs) (first, h) = elim (insert_entry-cases d x xs) [
  | inl (before, e) ↦
      rw e (insert_entry-All (IsBefore x) d xs before first, insert_entry-IsSorted d xs h)
  | inr (before, e) ↦ rw e ((before, All-IsBefore d x xs before first), (first, h))
]

pub sort_entries-IsSorted : (ds : List Dlent) → IsSorted (sort_entries ds)
unfolding sort_entries
sort_entries-IsSorted [] = tt
sort_entries-IsSorted (d ∷ ds) =
    insert_entry-IsSorted d (sort_entries ds) (sort_entries-IsSorted ds)

insert_entry-Permᴰ : (d : Dlent) (xs : List Dlent) → Permᴰ (insert_entry d xs) (d ∷ xs)
unfolding insert_entry
insert_entry-Permᴰ d [] = Permᴰ.refl (d ∷ [])
insert_entry-Permᴰ d (x ∷ xs) = elim (insert_entry-cases d x xs) [
  | inl (before, e) ↦
      rw e (Permᴰ.trans (Permᴰ.cons refl (insert_entry-Permᴰ d xs)) (Permᴰ.swap refl refl))
  | inr (before, e) ↦ rw e (Permᴰ.refl (d ∷ x ∷ xs))
]

pub sort_entries-Permᴰ : (ds : List Dlent) → Permᴰ (sort_entries ds) ds
unfolding sort_entries
sort_entries-Permᴰ [] = Permᴰ.nil
sort_entries-Permᴰ (d ∷ ds) =
    Permᴰ.trans (insert_entry-Permᴰ d (sort_entries ds)) (Permᴰ.cons refl (sort_entries-Permᴰ ds))

pub Permᴰ-Memᴰ : {x : Dlent} {xs ys : List Dlent} → Permᴰ xs ys → Memᴰ x xs → Memᴰ x ys
Permᴰ-Memᴰ Permᴰ.nil m = m
Permᴰ-Memᴰ (Permᴰ.cons e d) (Memᴰ.head q) = Memᴰ.head (q ∙ e)
Permᴰ-Memᴰ (Permᴰ.cons e d) (Memᴰ.tail m) = Memᴰ.tail (Permᴰ-Memᴰ d m)
Permᴰ-Memᴰ (Permᴰ.swap e f) (Memᴰ.head q) = Memᴰ.tail (Memᴰ.head (q ∙ e))
Permᴰ-Memᴰ (Permᴰ.swap e f) (Memᴰ.tail (Memᴰ.head q)) = Memᴰ.head (q ∙ f)
Permᴰ-Memᴰ (Permᴰ.swap e f) (Memᴰ.tail (Memᴰ.tail m)) = Memᴰ.tail (Memᴰ.tail m)
Permᴰ-Memᴰ (Permᴰ.trans c d) m = Permᴰ-Memᴰ d (Permᴰ-Memᴰ c m)

pub sort_entries-All : (P : Dlent → Type 0) (ds : List Dlent) → All P ds → All P (sort_entries ds)
unfolding sort_entries
sort_entries-All P [] h = tt
sort_entries-All P (d ∷ ds) h =
    insert_entry-All P d (sort_entries ds) h.0 (sort_entries-All P ds h.1)
