-- ===== src/Apbuf/Contents.antt =====
-- An append buffer as the text that it holds.
use darkhttpd.Apbuf.{Apbuf, apbuf_init, apbuf_grow, make_apbuf, grow, reserve, copy_to, appendl}
use darkhttpd.Common.{
  ℕ, zero, suc, ◌+◌, ◌-◌, ◌≤◌, ◌≡◌, refl, ap, ◌∙◌, arith, inl, inr, Bool-cases, some, [], ◌∷◌, ◌++◌,
  ltb, ltb_false→le, Bytes, take, drop, length, length-append, length-take, length-drop,
  take-append_le, take_all,
}

-- The memory is as large as the pool, and the text fits into it.
pub record IsValid (buf : Apbuf) : Type 0 where
  pub memory : length buf.str ≡ buf.pool
  pub within : buf.length ≤ buf.pool

abbrev pub contents : Apbuf → Bytes
contents buf = take buf.length buf.str

grow_bounds :
    (fuel pool need : ℕ)
    → need ≤ pool + fuel
    → (need ≤ grow fuel pool need) × (pool ≤ grow fuel pool need)
unfolding grow
grow_bounds zero pool need h = (omega arith, omega arith)
grow_bounds (suc fuel) pool need h = ground (arith, grow_bounds fuel (pool + apbuf_grow) need)

-- What a buffer with enough room keeps.
record HasRoom (buf room : Apbuf) (need : ℕ) : Type 0 where
  memory : length room.str ≡ room.pool
  enough : need ≤ room.pool
  same_length : room.length ≡ buf.length
  same_contents : take buf.length room.str ≡ contents buf

module _ (fresh : ℕ → Bytes) (allocated : (n : ℕ) → length (fresh n) ≡ n) where
  reserve-HasRoom :
      (buf : Apbuf) (need : ℕ) → IsValid buf → HasRoom buf (reserve fresh buf need) need
  unfolding reserve
  reserve-HasRoom buf need v = elim (Bool-cases (ltb buf.pool need)) [
    | inl small ↦
        let g = grow_bounds need buf.pool need (omega arith) in
        let pool = grow need buf.pool need in
        simp small (record {
          memory = omega (
            arith,
            v.memory,
            allocated (pool - buf.pool),
            length-append buf.str (fresh (pool - buf.pool)),
          );
          enough = g.0;
          same_length = refl;
          same_contents = take-append_le buf.str (fresh (pool - buf.pool)) buf.length (omega arith);
        })
    | inr large ↦ simp large (record {
      memory = v.memory;
      enough = ltb_false→le _ _ large;
      same_length = refl;
      same_contents = refl;
    })
  ]

take-append : (xs ys : Bytes) (n : ℕ) → take (length xs + n) (xs ++ ys) ≡ xs ++ take n ys
take-append [] ys n = rw (let e : 0 + n ≡ n = omega arith in e)
take-append (x ∷ xs) ys n =
    rw (let e : suc (length xs) + n ≡ suc (length xs + n) = omega arith in e)
      (ap (◌∷◌ x) (take-append xs ys n))

-- The bytes up to the end of what was written.
take-written :
    (front s rest : Bytes) (n : ℕ)
    → n ≡ length front + length s
    → take n (front ++ (s ++ rest)) ≡ front ++ s
take-written front s rest n e =
    rw (e, take-append front (s ++ rest) (length s))
      (ap (λ t. front ++ t)
        (take-append_le s rest (length s) (omega arith) ∙ take_all (length s) s (omega arith)))

written : Bytes → ℕ → Bytes → Bytes
written mem offset s = take offset mem ++ (s ++ drop (offset + length s) mem)

copy_to-inside :
    (mem : Bytes) (offset : ℕ) (s : Bytes)
    → offset + length s ≤ length mem
    → (copy_to mem offset s ≡ some (written mem offset s))
      × (length (written mem offset s) ≡ length mem)
      × (take (offset + length s) (written mem offset s) ≡ take offset mem ++ s)
unfolding copy_to written
copy_to-inside mem offset s h =
    let front = length-take offset mem in
    let rest = length-drop (offset + length s) mem in
    (
      ground arith,
      omega (
        arith,
        front,
        rest,
        length-append (take offset mem) (s ++ drop (offset + length s) mem),
        length-append s (drop (offset + length s) mem),
      ),
      take-written (take offset mem) s (drop (offset + length s) mem) (offset + length s)
          (omega arith),
    )

module _ (fresh : ℕ → Bytes) (allocated : (n : ℕ) → length (fresh n) ≡ n) where
  pub make_apbuf-IsValid : IsValid (make_apbuf fresh) × (contents (make_apbuf fresh) ≡ [])
  unfolding make_apbuf
  make_apbuf-IsValid = (record { memory = allocated apbuf_init; within = omega arith }, refl)

  -- If new memory has the size that is asked for, appending to a valid buffer writes inside its
  -- memory, which grows as it must, and leaves a valid buffer that holds the old text with the new
  -- one behind it.
  pub appendl-contents :
      (buf : Apbuf) (s : Bytes)
      → IsValid buf
      → (buf' : Apbuf) × (appendl fresh buf s ≡ some buf')
        × IsValid buf'
        × (contents buf' ≡ contents buf ++ s)
  unfolding appendl
  appendl-contents buf s v =
      let room = reserve fresh buf (buf.length + length s) in
      let r = reserve-HasRoom fresh allocated buf (buf.length + length s) v in
      let (copied, size, text) =
        copy_to-inside room.str buf.length s (omega (arith, r.memory, r.enough)) in
      (
        record room { length = room.length + length s; str = written room.str buf.length s },
        rw copied refl,
        record { memory = size ∙ r.memory; within = omega (arith, r.enough, r.same_length) },
        rw r.same_length (text ∙ ap (λ t. t ++ s) r.same_contents),
      )
