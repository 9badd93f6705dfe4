-- ===== src/Auth/Equal.antt =====
-- The comparison of two texts by `password_equal`.
use Prim.Native.Nat.{bit_or, bit_xor, bit_or-bitwise, bit_xor-bitwise, digits, differ, max}
use darkhttpd.Auth.{password_verdict, password_loop, password_equal}
use darkhttpd.Common.{
  NonNul, ℕ, zero, suc, ◌/◌, ◌%◌, ◌≤◌, ◌≡◌, ◌≢◌, ◌↔◌, ◌⊎◌, refl, sym, ap, arith, inl, inr, Bool,
  true, false, [], ◌∷◌, Bytes, All, ◌==◌, ==_iff, if◌then◌else◌, get_or, drop, length,
}

differ_zero : (x y : ℕ) → differ x y ≡ 0 ↔ x ≡ y
differ_zero zero y = (λ e. sym e, λ e. sym e)
differ_zero (suc x) zero = (λ e. omega arith, λ e. omega arith)
differ_zero (suc x) (suc y) =
    (λ e. ap suc ((differ_zero x y).0 e), λ e. (differ_zero x y).1 (omega arith))

xor_digits_zero : (n a b : ℕ) → a ≤ n → digits (λ k. k) differ n a b ≡ 0 ↔ a ≡ b
xor_digits_zero zero a b h = (λ e. omega arith, λ e. omega arith)
xor_digits_zero (suc n) zero b h = (λ e. sym e, λ e. sym e)
xor_digits_zero (suc n) (suc a) b h =
    let rest = xor_digits_zero n (suc a / 2) (b / 2) (omega arith) in
    let low = differ_zero (suc a % 2) (b % 2) in
    (
      λ e.
          let high : suc a / 2 ≡ b / 2 = rest.0 (omega arith) in
          let bit : suc a % 2 ≡ b % 2 = low.0 (omega arith) in omega arith,
      λ e.
          let high = rest.1 (ap (λ k. k / 2) e) in
          let bit = low.1 (ap (λ k. k % 2) e) in omega arith,
    )

or_digits_zero : (n a b : ℕ) → a ≤ n → digits (λ k. k) max n a b ≡ 0 ↔ (a ≡ 0) × (b ≡ 0)
or_digits_zero zero a b h = (λ e. (omega arith, e), λ e. e.1)
or_digits_zero (suc n) zero b h = (λ e. (refl, e), λ e. e.1)
or_digits_zero (suc n) (suc a) b h =
    let rest = or_digits_zero n (suc a / 2) (b / 2) (omega arith) in
    (
      λ e.
          let (high, other) = rest.0 (omega arith) in
          let low : max (suc a % 2) (b % 2) ≡ 0 = omega arith in absurd (omega arith),
      λ e. absurd (omega arith),
    )

bit_xor_zero : (a b : ℕ) → bit_xor a b ≡ 0 ↔ a ≡ b
bit_xor_zero a b = rw (bit_xor-bitwise a b) (xor_digits_zero a a b (omega arith))

bit_or_zero : (a b : ℕ) → bit_or a b ≡ 0 ↔ (a ≡ 0) × (b ≡ 0)
bit_or_zero a b = rw (bit_or-bitwise a b) (or_digits_zero a a b (omega arith))

-- The two situations of the index `j` in `secret`: at its end, or at a character.
abbrev Ahead : Bytes → ℕ → Type 0
Ahead s j =
    ((get_or s j 0 ≡ 0) × (drop j s ≡ []))
    ⊎ ((get_or s j 0 ≢ 0) × (drop j s ≡ get_or s j 0 ∷ drop (suc j) s) × (suc j ≤ length s))

Ahead-cases : (s : Bytes) (j : ℕ) → All NonNul s → j ≤ length s → Ahead s j
Ahead-cases [] zero a h = inl (refl, refl)
Ahead-cases [] (suc j) a h = inl (refl, refl)
Ahead-cases (x ∷ s) zero a h = inr (a.0, refl, omega arith)
Ahead-cases (x ∷ s) (suc j) a h = elim (Ahead-cases s j a.1 (omega arith)) [
  | inl e ↦ inl e
  | inr (c, d, l) ↦ inr (c, d, omega arith)
]

flag : Bool → ℕ
flag b = if b then 0 else 1

flag_zero : (b : Bool) → flag b ≡ 0 ↔ b ≡ true
unfolding flag
flag_zero true = (λ e. refl, λ e. refl)
flag_zero false = (λ e. absurd (omega arith), λ e. cc)

or_zero : {a b : ℕ} → bit_or a b ≡ 0 → (a ≡ 0) × (b ≡ 0)
or_zero {a} {b} = (bit_or_zero a b).0

verdict_true :
    (s : Bytes) (i j out : ℕ)
    → password_verdict s i j out ≡ true ↔ (out ≡ 0) × (i ≡ j) × (get_or s j 0 ≡ 0)
unfolding password_verdict flag
verdict_true s i j out = (
  λ e.
      let (first, longer) = or_zero ((==_iff _ 0).0 e) in
      let (o, shorter) = or_zero first in
      (
        o,
        (==_iff i j).0 ((flag_zero (i == j)).0 shorter),
        (==_iff _ 0).0 ((flag_zero (get_or s j 0 == 0)).0 longer),
      ),
  λ (o, ij, g). (==_iff _ 0).1 (
      (bit_or_zero _ _).1 (
        (bit_or_zero out _).1 (o, (flag_zero (i == j)).1 ((==_iff i j).1 ij)),
        (flag_zero (get_or s j 0 == 0)).1 ((==_iff _ 0).1 g),
      )),
)

step_zero : (out x g : ℕ) → bit_or out (bit_xor x g) ≡ 0 ↔ (out ≡ 0) × (x ≡ g)
step_zero out x g = (
  λ e. let (o, d) = or_zero e in (o, (bit_xor_zero x g).0 d),
  λ (o, d). (bit_or_zero out (bit_xor x g)).1 (o, (bit_xor_zero x g).1 d),
)

nonzero_test : (g : ℕ) → g ≢ 0 → (g == 0) ≡ false
nonzero_test g c = ground arith

loop_true :
    (u s : Bytes) (i j out : ℕ)
    → All NonNul s
    → j ≤ length s
    → j ≤ i
    → password_loop u s i j out ≡ true ↔ (out ≡ 0) × (i ≡ j) × (u ≡ drop j s)
unfolding password_loop
loop_true [] s i j out a h k =
    let g = get_or s j 0 in
    let v = verdict_true s i j (bit_or out (bit_xor 0 g)) in
    elim (Ahead-cases s j a h) [
      | inl (nul, rest) ↦ (
        λ e. let (o, ij, z) = v.0 e in (((step_zero out 0 g).0 o).0, ij, sym rest),
        λ (o, ij, r). v.1 ((step_zero out 0 g).1 (o, sym nul), ij, nul),
      )
      | inr (c, rest, l) ↦ (λ e. absurd (c (v.0 e).2), λ (o, ij, r). cc)
    ]
loop_true (x ∷ u) s i j out a h k =
    let g = get_or s j 0 in
    elim (Ahead-cases s j a h) [
      | inl (nul, rest) ↦
          let next = loop_true u s (suc i) j (bit_or out (bit_xor x g)) a h (omega arith) in
          rw ((==_iff g 0).1 nul) (λ e. absurd (omega (arith, (next.0 e).1)), λ (o, ij, r). cc)
      | inr (c, rest, l) ↦
          let next = loop_true u s (suc i) (suc j) (bit_or out (bit_xor x g)) a l (omega arith) in
          rw (nonzero_test g c) (
            λ e.
                let (o, ij, r) = next.0 e in
                let (o', d) = (step_zero out x g).0 o in (o', omega arith, cc),
            λ (o, ij, r). next.1 ((step_zero out x g).1 (o, cc), omega arith, cc),
          )
    ]

-- For a secret without NUL, `password_equal` holds exactly when the two texts are the same.
pub password_equal-same :
    (user_input secret : Bytes)
    → All NonNul secret
    → password_equal user_input secret ≡ true ↔ user_input ≡ secret
unfolding password_equal
password_equal-same user_input secret a =
    let all = loop_true user_input secret 0 0 0 a (omega arith) (omega arith) in
    (λ e. (all.0 e).2, λ e. all.1 (refl, refl, e))
