-- ===== src/Get/Range.antt =====
-- The bytes that a range request selects.
use darkhttpd.Common.{
  ℕ, ◌+◌, ◌-◌, ◌≤◌, ◌<◌, ◌≡◌, ◌↔◌, ◌⊎◌, inl, inr, arith, min, Bool, true, false, ◌||◌, Bool-cases,
  Bytes, ltb→lt, ltb_false→le, lt→ltb, le→ltb_false,
}
use darkhttpd.Common.Int.{
  ℤ, pos, pos_part, neg_part, sub_ℕ, ◌+ℤ◌, ◌-ℤ◌, ltb_ℤ, pos_part-sub_ℕ, neg_part-sub_ℕ,
}
use darkhttpd.Conn.{Connection}
use darkhttpd.Env.{Env}
use darkhttpd.Get.{bounds_of, range_bounds, reply_range}
use darkhttpd.Reply.{default_reply}

-- Does a range ask for byte `i` of a file of the given size? The two flags say which bounds it has.
abbrev pub AskedBy : Bool → Bool → ℕ → ℕ → ℕ → ℕ → Type 0
AskedBy true true begin end size i = (begin ≤ i) × (i ≤ end)
AskedBy true false begin end size i = begin ≤ i
AskedBy false true begin end size i = size ≤ i + end
AskedBy false false begin end size i = Unit

abbrev pub Asked : Connection → ℕ → ℕ → Type 0
Asked c size i = AskedBy c.range_begin_given c.range_end_given c.range_begin c.range_end size i

abbrev pub length_of : ℤ × ℤ → ℕ
length_of (from, to) = pos_part (to -ℤ from +ℤ pos 1)

abbrev Within : ℤ × ℤ → ℕ → Type 0
Within r i = (pos_part r.0 ≤ i) × (i < pos_part r.0 + length_of r)

-- The tests of the code on the bounds.
abbrev pub Served : ℤ × ℤ → ℕ → Type 0
Served r size = (ltb_ℤ r.0 (pos size) ≡ true) × (ltb_ℤ r.1 r.0 ≡ false)

length_of_parts :
    (r : ℤ × ℤ) → length_of r ≡ pos_part r.1 + neg_part r.0 + 1 - (neg_part r.1 + pos_part r.0)
length_of_parts r = omega (arith, pos_part-sub_ℕ, neg_part-sub_ℕ)

-- `to - range_end + 1`, for the last byte of the file.
suffix_start : ℕ → ℕ → ℤ
suffix_start size end = sub_ℕ size 1 -ℤ pos end +ℤ pos 1

suffix_start_parts :
    (size end : ℕ)
    → (pos_part (suffix_start size end) ≡ size - end)
      × (neg_part (suffix_start size end) ≡ end - size)
unfolding suffix_start
suffix_start_parts size end = omega (arith, pos_part-sub_ℕ, neg_part-sub_ℕ)

-- Both bounds as numbers: the first byte, and the last one of a file that is not empty.
record Bounds (r : ℤ × ℤ) (size first last : ℕ) : Type 0 where
  first_pos : pos_part r.0 ≡ first
  first_neg : neg_part r.0 ≡ 0
  last_pos : pos_part r.1 ≡ last
  last_neg : neg_part r.1 ≡ 1 - size

bounds_of-suffix :
    (begin end size : ℕ) → Bounds (bounds_of false true begin end size) size (size - end) (size - 1)
unfolding bounds_of suffix_start
bounds_of-suffix begin end size =
    ground (arith, suffix_start_parts size end, pos_part-sub_ℕ size 1, neg_part-sub_ℕ size 1)

bounds_of-open :
    (begin end size : ℕ) → Bounds (bounds_of true false begin end size) size begin (size - 1)
unfolding bounds_of
bounds_of-open begin end size = ground (arith, pos_part-sub_ℕ size 1, neg_part-sub_ℕ size 1)

bounds_of-both :
    (begin end size : ℕ)
    → Bounds (bounds_of true true begin end size) size begin (min (size - 1) end)
unfolding bounds_of
bounds_of-both begin end size = ground (arith, pos_part-sub_ℕ size 1, neg_part-sub_ℕ size 1)

fits :
    {r : ℤ × ℤ} {size first last : ℕ}
    → Bounds r size first last
    → last ≤ size - 1
    → Served r size
    → (0 < length_of r) × (pos_part r.0 + length_of r ≤ size)
fits {r} b le (h, k) =
    let inside = ltb→lt _ _ h in
    let forward = ltb_false→le _ _ k in
    (omega (arith, length_of_parts r), omega (arith, length_of_parts r))

module _ {r : ℤ × ℤ} {size first last : ℕ} (b : Bounds r size first last) (i : ℕ) where
  Within-sound :
      last ≤ size - 1 → Served r size → Within r i → (i < size) × (first ≤ i) × (i ≤ last)
  Within-sound le (h, k) w =
      let inside = ltb→lt _ _ h in
      let forward = ltb_false→le _ _ k in omega (arith, length_of_parts r)

  Within-complete : last ≤ size - 1 → i < size → first ≤ i → i ≤ last → Served r size × Within r i
  Within-complete le h lo hi = (
    (lt→ltb _ _ (omega arith), le→ltb_false _ _ (omega arith)),
    (omega arith, omega (arith, length_of_parts r)),
  )

-- The bytes served are those of the file that the range asks for.
abbrev Agrees : ℤ × ℤ → ℕ → ℕ → Type 0 → Type 0
Agrees r size i Asks =
    (Served r size → Within r i → (i < size) × Asks)
    × (i < size → Asks → Served r size × Within r i)

bounds_of-Agrees :
    (b f : Bool) (begin end size i : ℕ)
    → (b || f) ≡ true
    → Agrees (bounds_of b f begin end size) size i (AskedBy b f begin end size i)
bounds_of-Agrees true true begin end size i g =
    let b = bounds_of-both begin end size in
    (
      λ s w.
          let in_file = Within-sound b i (omega arith) s w in
          (omega arith, (omega arith, omega arith)),
      λ h a. Within-complete b i (omega arith) h (omega arith) (omega arith),
    )
bounds_of-Agrees true false begin end size i g =
    let b = bounds_of-open begin end size in
    (
      λ s w. let in_file = Within-sound b i (omega arith) s w in (omega arith, omega arith),
      λ h a. Within-complete b i (omega arith) h (omega arith) (omega arith),
    )
bounds_of-Agrees false true begin end size i g =
    let b = bounds_of-suffix begin end size in
    (
      λ s w. let in_file = Within-sound b i (omega arith) s w in (omega arith, omega arith),
      λ h a. Within-complete b i (omega arith) h (omega arith) (omega arith),
    )
bounds_of-Agrees false false begin end size i g = cc

-- A served range lies in the file.
bounds_of-fits :
    (b f : Bool) (begin end size : ℕ)
    → (b || f) ≡ true
    → Served (bounds_of b f begin end size) size
    → let r = bounds_of b f begin end size in
      (0 < length_of r) × (pos_part r.0 + length_of r ≤ size)
bounds_of-fits true true begin end size g (h, k) =
    fits (bounds_of-both begin end size) (omega arith) (h, k)
bounds_of-fits true false begin end size g (h, k) =
    fits (bounds_of-open begin end size) (omega arith) (h, k)
bounds_of-fits false true begin end size g (h, k) =
    fits (bounds_of-suffix begin end size) (omega arith) (h, k)
bounds_of-fits false false begin end size g h = cc

true-false : {b : Bool} → b ≡ true → b ≡ false → ⊥
true-false h k = cc

module _ (e : Env) (c : Connection) (size : ℕ) (mimetype lastmod : Bytes) where
  reply_range_outside :
      ltb_ℤ (range_bounds c size).0 (pos size) ≡ false
      → (reply_range e c size mimetype lastmod).http_code ≡ 416
  unfolding reply_range default_reply
  reply_range_outside h = rw h

  reply_range_backward :
      ltb_ℤ (range_bounds c size).0 (pos size) ≡ true
      → ltb_ℤ (range_bounds c size).1 (range_bounds c size).0 ≡ true
      → (reply_range e c size mimetype lastmod).http_code ≡ 416
  unfolding reply_range default_reply
  reply_range_backward h k = rw (h, k)

  pub reply_range-Served :
      Served (range_bounds c size) size
      → ((reply_range e c size mimetype lastmod).http_code ≡ 206)
        × ((reply_range e c size mimetype lastmod).reply_start ≡ pos_part (range_bounds c size).0)
        × ((reply_range e c size mimetype lastmod).reply_length ≡ length_of (range_bounds c size))
  unfolding reply_range
  reply_range-Served (h, k) = (rw (h, k), rw (h, k), rw (h, k))

  -- For a request with a range and a byte `i`: either the reply is a 206, and its start and length
  -- cover `i` exactly if the file has that byte and the range asks for it; or the reply is a 416, and
  -- the file has no such byte that the range asks for. A range `a-b` asks for the bytes from a to b,
  -- `a-` for those from a, `-n` for the last n. Which of the two replies it is does not depend on `i`.
  pub reply_range-Asked :
      (i : ℕ)
      → (c.range_begin_given || c.range_end_given) ≡ true
      → let r = reply_range e c size mimetype lastmod in
        ((r.http_code ≡ 206)
          × (((r.reply_start ≤ i) × (i < r.reply_start + r.reply_length))
              ↔ ((i < size) × Asked c size i)))
        ⊎ ((r.http_code ≡ 416) × (¬ ((i < size) × Asked c size i)))
  unfolding range_bounds
  reply_range-Asked i g =
      let agrees =
        bounds_of-Agrees c.range_begin_given c.range_end_given c.range_begin c.range_end size i g in
      elim (Bool-cases (ltb_ℤ (range_bounds c size).0 (pos size))) [
        | inr out ↦ inr (reply_range_outside out, λ a. true-false (agrees.1 a.0 a.1).0.0 out)
        | inl inside ↦ elim (Bool-cases (ltb_ℤ (range_bounds c size).1 (range_bounds c size).0)) [
          | inl back ↦
              inr (reply_range_backward inside back, λ a. true-false back (agrees.1 a.0 a.1).0.1)
          | inr forward ↦
              let (code, start, len) = reply_range-Served (inside, forward) in
              inl (
                code,
                rw (start, len) (λ w. agrees.0 (inside, forward) w, λ a. (agrees.1 a.0 a.1).1),
              )
        ]
      ]

-- A served range lies in the file and is not empty.
pub range_bounds-fits :
    (c : Connection) (size : ℕ)
    → (c.range_begin_given || c.range_end_given) ≡ true
    → Served (range_bounds c size) size
    → (0 < length_of (range_bounds c size))
      × (pos_part (range_bounds c size).0 + length_of (range_bounds c size) ≤ size)
unfolding range_bounds
range_bounds-fits c size =
    bounds_of-fits c.range_begin_given c.range_end_given c.range_begin c.range_end size
