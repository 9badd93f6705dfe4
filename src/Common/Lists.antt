-- ===== src/Common/Lists.antt =====
-- Lists measured and indexed by native numbers, under the library's names.
use Prim.Native.Nat.{ℕ, zero, suc, ◌+◌, ◌-◌, ◌≤◌, min}
use mathlib.Core.Path.{◌≡◌, refl, ap}
use mathlib.Core.Bool.{Bool, true, ◌&&◌}
use mathlib.Core.Logic.{inl, inr}
use darkhttpd.Common.Tests.{Bool-cases}
use mathlib.Core.List.{List, [], ◌∷◌, ◌++◌}
use native.Mathlib.Omega.{arith}

module _ {ℓ} {A : Type ℓ} where
  abbrev pub length : List A → ℕ
  length [] = 0
  length (x ∷ xs) = suc (length xs)

  abbrev pub get_or : List A → ℕ → A → A
  get_or [] i d = d
  get_or (x ∷ xs) zero d = x
  get_or (x ∷ xs) (suc i) d = get_or xs i d

  -- A write out of bounds changes nothing.
  abbrev pub set : List A → ℕ → A → List A
  set [] i v = []
  set (x ∷ xs) zero v = v ∷ xs
  set (x ∷ xs) (suc i) v = x ∷ set xs i v

  abbrev pub take : ℕ → List A → List A
  take zero xs = []
  take (suc n) [] = []
  take (suc n) (x ∷ xs) = x ∷ take n xs

  abbrev pub drop : ℕ → List A → List A
  drop zero xs = xs
  drop (suc n) [] = []
  drop (suc n) (x ∷ xs) = drop n xs

  pub length-append : (xs ys : List A) → length (xs ++ ys) ≡ length xs + length ys
  length-append [] ys = omega arith
  length-append (x ∷ xs) ys = omega (arith, length-append xs ys)

  pub take-append-drop : (n : ℕ) (xs : List A) → take n xs ++ drop n xs ≡ xs
  take-append-drop zero xs = refl
  take-append-drop (suc n) [] = refl
  take-append-drop (suc n) (x ∷ xs) = ap (◌∷◌ x) (take-append-drop n xs)

  pub length-take : (n : ℕ) (xs : List A) → length (take n xs) ≡ min n (length xs)
  length-take zero xs = omega arith
  length-take (suc n) [] = omega arith
  length-take (suc n) (x ∷ xs) = omega (arith, length-take n xs)

  pub length-drop : (n : ℕ) (xs : List A) → length (drop n xs) ≡ length xs - n
  length-drop zero xs = omega arith
  length-drop (suc n) [] = omega arith
  length-drop (suc n) (x ∷ xs) = omega (arith, length-drop n xs)

  pub take-nil : (n : ℕ) → take n [] ≡ []
  take-nil zero = refl
  take-nil (suc n) = refl

  pub drop-nil : (n : ℕ) → drop n [] ≡ []
  drop-nil zero = refl
  drop-nil (suc n) = refl

  pub take-add : (a n : ℕ) (xs : List A) → take (a + n) xs ≡ take a xs ++ take n (drop a xs)
  take-add zero n xs = rw (let e : 0 + n ≡ n = omega arith in e)
  take-add (suc a) n [] = rw (take-nil n, take-nil (suc a + n))
  take-add (suc a) n (x ∷ xs) =
      rw (let e : suc a + n ≡ suc (a + n) = omega arith in e) (ap (◌∷◌ x) (take-add a n xs))

  pub drop-add : (a n : ℕ) (xs : List A) → drop n (drop a xs) ≡ drop (a + n) xs
  drop-add zero n xs = rw (let e : 0 + n ≡ n = omega arith in e)
  drop-add (suc a) n [] = rw (drop-nil n, drop-nil (suc a + n))
  drop-add (suc a) n (x ∷ xs) =
      rw (let e : suc a + n ≡ suc (a + n) = omega arith in e) (drop-add a n xs)

  pub drop-append : (xs ys : List A) (n : ℕ) → drop (length xs + n) (xs ++ ys) ≡ drop n ys
  drop-append [] ys n = rw (let e : 0 + n ≡ n = omega arith in e)
  drop-append (x ∷ xs) ys n =
      rw (let e : suc (length xs) + n ≡ suc (length xs + n) = omega arith in e)
        (drop-append xs ys n)

  pub get_or-append :
      (xs ys : List A) (k : ℕ) (d : A) → get_or (xs ++ ys) (length xs + k) d ≡ get_or ys k d
  get_or-append [] ys k d = rw (let e : 0 + k ≡ k = omega arith in e)
  get_or-append (x ∷ xs) ys k d =
      rw (let e : suc (length xs) + k ≡ suc (length xs + k) = omega arith in e)
        (get_or-append xs ys k d)

  pub drop-append_le :
      (xs ys : List A) (n : ℕ) → n ≤ length xs → drop n (xs ++ ys) ≡ drop n xs ++ ys
  drop-append_le xs ys zero h = refl
  drop-append_le [] ys (suc n) h = absurd (omega arith)
  drop-append_le (x ∷ xs) ys (suc n) h = drop-append_le xs ys n (omega arith)

  pub take-append_le : (xs ys : List A) (n : ℕ) → n ≤ length xs → take n (xs ++ ys) ≡ take n xs
  take-append_le xs ys zero h = refl
  take-append_le [] ys (suc n) h = absurd (omega arith)
  take-append_le (x ∷ xs) ys (suc n) h = ap (◌∷◌ x) (take-append_le xs ys n (omega arith))

  pub take-take : (n m : ℕ) (xs : List A) → n ≤ m → take n (take m xs) ≡ take n xs
  take-take zero m xs h = refl
  take-take (suc n) zero xs h = absurd (omega arith)
  take-take (suc n) (suc m) [] h = refl
  take-take (suc n) (suc m) (x ∷ xs) h = ap (◌∷◌ x) (take-take n m xs (omega arith))

  pub drop-take : (n m : ℕ) (xs : List A) → drop n (take m xs) ≡ take (m - n) (drop n xs)
  drop-take zero m xs = rw (let e : m - 0 ≡ m = omega arith in e)
  drop-take (suc n) zero xs = rw (let e : 0 - suc n ≡ 0 = omega arith in e)
  drop-take (suc n) (suc m) [] = rw (take-nil (suc m - suc n))
  drop-take (suc n) (suc m) (x ∷ xs) =
      rw (let e : suc m - suc n ≡ m - n = omega arith in e) (drop-take n m xs)

  pub take_all : (n : ℕ) (xs : List A) → length xs ≤ n → take n xs ≡ xs
  take_all zero [] h = refl
  take_all zero (x ∷ xs) h = absurd (omega arith)
  take_all (suc n) [] h = refl
  take_all (suc n) (x ∷ xs) h = ap (◌∷◌ x) (take_all n xs (omega arith))

module _ {ℓ κ} {A : Type ℓ} (P : A → Type κ) where
  abbrev pub All : List A → Type κ
  All [] = Unit
  All (x ∷ xs) = P x × All xs

  pub All-append : (xs ys : List A) → All xs → All ys → All (xs ++ ys)
  All-append [] ys _ hy = hy
  All-append (x ∷ xs) ys (px, hx) hy = (px, All-append xs ys hx hy)

  pub All-drop : (n : ℕ) (xs : List A) → All xs → All (drop n xs)
  All-drop zero xs h = h
  All-drop (suc n) [] h = tt
  All-drop (suc n) (x ∷ xs) h = All-drop n xs h.1

-- A test of all elements, for proofs that compute.
module _ {ℓ} {A : Type ℓ} (test : A → Bool) where
  abbrev pub every : List A → Bool
  every [] = true
  every (x ∷ xs) = test x && every xs

  pub every-All : (xs : List A) → every xs ≡ true → All (λ x. test x ≡ true) xs
  every-All [] h = tt
  every-All (x ∷ xs) h = elim (Bool-cases (test x)) [
    | inl e ↦ (e, every-All xs (rw e at h))
    | inr e ↦ absurd (let h' = rw e at h in cc)
  ]
