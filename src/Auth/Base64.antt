-- ===== src/Auth/Base64.antt =====
-- What `base64_encode` computes: a decoder gives the text back.
use darkhttpd.Common.{
  ℕ, zero, suc, ◌+◌, ◌-◌, ◌*◌, ◌/◌, ◌%◌, ◌^◌, ◌≤◌, ◌<◌, ◌≡◌, refl, sym, ap, ◌∙◌, arith, inl, inr,
  Bool, true, false, Bool-cases, not, ◌&&◌, [], ◌∷◌, ◌++◌, ◌==◌, if◌then◌else◌, Bytes, All, get_or,
  length,
}
use darkhttpd.Auth.{base64_table, encode_triple, encode_triples, pad_end, mod_table, base64_encode}
use darkhttpd.Cstring.{within}
use darkhttpd.Url.RoundTrip.{IsByte}

-- The value of a character of the alphabet of RFC 4648; that of '=' counts as 0.
pub sextet : ℕ → ℕ
sextet c =
    if within b'A' b'Z' c
    then c - b'A'
    else if within b'a' b'z' c
    then c - b'a' + 26
    else if within b'0' b'9' c
    then c - b'0' + 52
    else if c == b'+'
    then 62
    else if c == b'/'
    then 63
    else 0

-- Four characters at a time, up to the first with a '='.
pub decode : Bytes → Bytes
unfolding sextet
decode (p ∷ q ∷ r ∷ s ∷ rest) =
    let n = sextet p * 2 ^ 18 + sextet q * 2 ^ 12 + sextet r * 2 ^ 6 + sextet s in
    let more = decode rest in
    if r == b'='
    then n / 2 ^ 16 ∷ []
    else if s == b'='
    then n / 2 ^ 16 ∷ n / 2 ^ 8 % 256 ∷ []
    else n / 2 ^ 16 ∷ n / 2 ^ 8 % 256 ∷ n % 256 ∷ more
decode _ = []

left_holds : (a b : Bool) → (a && b) ≡ true → a ≡ true
left_holds true b h = refl
left_holds false b h = h

right_holds : (a b : Bool) → (a && b) ≡ true → b ≡ true
right_holds true b h = h
right_holds false b h = cc

negated : (a : Bool) → not a ≡ true → a ≡ false
negated true h = sym h
negated false h = refl

same_number : (m n : ℕ) → (m == n) ≡ true → m ≡ n
same_number m n h = ground arith

-- A test of every number below `n`.
all_below : (ℕ → Bool) → ℕ → Bool
all_below test zero = true
all_below test (suc n) = test n && all_below test n

all_below-at : (test : ℕ → Bool) (n k : ℕ) → all_below test n ≡ true → k < n → test k ≡ true
unfolding all_below
all_below-at test zero k h lt = absurd (omega arith)
all_below-at test (suc n) k h lt = elim (Bool-cases (k == n)) [
  | inl last ↦
      (let e : k ≡ n = ground arith in ap test e ∙ left_holds (test n) (all_below test n) h)
  | inr before ↦ all_below-at test n k (right_holds (test n) (all_below test n) h) (ground arith)
]

-- The place of a character in the alphabet is its value, and it is not a '='.
is_right : ℕ → Bool
unfolding sextet base64_table
is_right k = let c = get_or base64_table k 0 in sextet c == k && not (c == b'=')

all_right : all_below is_right 64 ≡ true
unfolding is_right all_below
all_right = refl

sextet-table : (k : ℕ) → k < 64 → sextet (get_or base64_table k 0) ≡ k
unfolding is_right
sextet-table k h = same_number _ k (left_holds _ _ (all_below-at is_right 64 k all_right h))

table_no_pad : (k : ℕ) → k < 64 → (get_or base64_table k 0 == b'=') ≡ false
unfolding is_right
table_no_pad k h = negated _ (right_holds _ _ (all_below-at is_right 64 k all_right h))

-- The place of the character for the six bits of `t` from bit `6 * k` on.
abbrev digit : ℕ → ℕ → ℕ
digit t w = t / 2 ^ w % 64

joined :
    (t : ℕ)
    → t < 2 ^ 24
    → digit t 18 * 2 ^ 18 + digit t 12 * 2 ^ 12 + digit t 6 * 2 ^ 6 + t % 64 ≡ t
joined t h = omega arith

triple : ℕ → ℕ → ℕ → ℕ
triple a b c = a * 2 ^ 16 + b * 2 ^ 8 + c

triple-parts :
    (a b c : ℕ)
    → IsByte a
    → IsByte b
    → IsByte c
    → let t = triple a b c in
      (t < 2 ^ 24) × (t / 2 ^ 16 ≡ a) × (t / 2 ^ 8 % 256 ≡ b) × (t % 256 ≡ c)
unfolding triple
triple-parts a b c ha hb hc = (omega arith, omega arith, omega arith, omega arith)

-- Four characters are read as the number that they were written for.
sextets-joined :
    (t : ℕ)
    → t < 2 ^ 24
    → sextet (get_or base64_table (digit t 18) 0) * 2 ^ 18
        + sextet (get_or base64_table (digit t 12) 0) * 2 ^ 12
        + sextet (get_or base64_table (digit t 6) 0) * 2 ^ 6
        + sextet (get_or base64_table (t % 64) 0)
      ≡ t
sextets-joined t h =
    rw
      (
        sextet-table (digit t 18) (omega arith),
        sextet-table (digit t 12) (omega arith),
        sextet-table (digit t 6) (omega arith),
        sextet-table (t % 64) (omega arith),
      )
      (joined t h)

decode-encode_triple :
    (a b c : ℕ) (rest : Bytes)
    → IsByte a
    → IsByte b
    → IsByte c
    → decode (encode_triple a b c ++ rest) ≡ a ∷ b ∷ c ∷ decode rest
unfolding decode encode_triple triple
decode-encode_triple a b c rest ha hb hc =
    let t = triple a b c in
    let (small, first, second, third) = triple-parts a b c ha hb hc in
    rw
      (
        table_no_pad (digit t 6) (omega arith),
        table_no_pad (t % 64) (omega arith),
        sextets-joined t small,
        first,
        second,
        third,
      )
      refl

sextet-pad : sextet b'=' ≡ 0
unfolding sextet
sextet-pad = refl

encode_triples-length : (s : Bytes) → mod_table (length s) ≤ length (encode_triples s)
unfolding encode_triples encode_triple
encode_triples-length [] = omega arith
encode_triples-length (a ∷ []) = omega arith
encode_triples-length (a ∷ b ∷ []) = omega arith
encode_triples-length (a ∷ b ∷ c ∷ s) =
    let e : length (a ∷ b ∷ c ∷ s) % 3 ≡ length s % 3 = omega arith in
    let k : mod_table (length (a ∷ b ∷ c ∷ s)) ≡ mod_table (length s) =
      ap (λ n. get_or (0 ∷ 2 ∷ 1 ∷ []) n 0) e in
    omega (arith, k, encode_triples-length s)

-- The end of a longer text is padded as the end of its rest.
pad_end-behind :
    (n a b c : ℕ) (y : Bytes)
    → n ≤ length y
    → n ≤ 2
    → pad_end n (encode_triple a b c ++ y) ≡ encode_triple a b c ++ pad_end n y
unfolding pad_end encode_triple
pad_end-behind zero a b c y h small = refl
pad_end-behind (suc zero) a b c y h small =
    let e : suc (suc (suc (suc (length y)))) - 1 ≡ suc (suc (suc (suc (length y - 1)))) =
      omega arith in
    rw e refl
pad_end-behind (suc (suc n)) a b c y h small =
    let e : suc (suc (suc (suc (length y)))) - 2 ≡ suc (suc (suc (suc (length y - 2)))) =
      omega arith in
    rw e refl

mod_table_small : (n : ℕ) → n < 3 → get_or (0 ∷ 2 ∷ 1 ∷ []) n 0 ≤ 2
mod_table_small zero h = omega arith
mod_table_small (suc zero) h = omega arith
mod_table_small (suc (suc zero)) h = omega arith
mod_table_small (suc (suc (suc n))) h = absurd (omega arith)

base64_encode-triple :
    (a b c : ℕ) (s : Bytes) → base64_encode (a ∷ b ∷ c ∷ s) ≡ encode_triple a b c ++ base64_encode s
unfolding base64_encode encode_triples
base64_encode-triple a b c s =
    let e : length (a ∷ b ∷ c ∷ s) % 3 ≡ length s % 3 = omega arith in
    ap (λ n. pad_end (get_or (0 ∷ 2 ∷ 1 ∷ []) n 0) (encode_triple a b c ++ encode_triples s)) e
    ∙ pad_end-behind (mod_table (length s)) a b c (encode_triples s) (encode_triples-length s)
        (mod_table_small (length s % 3) (omega arith))

two_same : (m n a b : ℕ) → m ≡ a → n ≡ b → m ∷ n ∷ [] ≡ a ∷ b ∷ []
two_same m n a b e k = rw (e, k) refl

-- The two ends of a text whose length is no multiple of three.
decode-one : (a : ℕ) → IsByte a → decode (base64_encode (a ∷ [])) ≡ a ∷ []
unfolding base64_encode encode_triples encode_triple pad_end decode
decode-one a h =
    let t = a * 2 ^ 16 + 0 * 2 ^ 8 + 0 in
    rw
      (sextet-pad, sextet-table (digit t 18) (omega arith), sextet-table (digit t 12) (omega arith))
      (ap (λ n. n ∷ []) (omega arith))

decode-two : (a b : ℕ) → IsByte a → IsByte b → decode (base64_encode (a ∷ b ∷ [])) ≡ a ∷ b ∷ []
unfolding base64_encode encode_triples encode_triple pad_end decode
decode-two a b ha hb =
    let t = a * 2 ^ 16 + b * 2 ^ 8 + 0 in
    rw
      (
        table_no_pad (digit t 6) (omega arith),
        sextet-pad,
        sextet-table (digit t 18) (omega arith),
        sextet-table (digit t 12) (omega arith),
        sextet-table (digit t 6) (omega arith),
      )
      (two_same _ _ a b (omega arith) (omega arith))

-- Decoding what `base64_encode` makes of a text of bytes gives the text back, whatever its length.
pub decode-base64_encode : (s : Bytes) → All IsByte s → decode (base64_encode s) ≡ s
unfolding base64_encode decode
decode-base64_encode [] h = refl
decode-base64_encode (a ∷ []) h = decode-one a h.0
decode-base64_encode (a ∷ b ∷ []) h = decode-two a b h.0 h.1.0
decode-base64_encode (a ∷ b ∷ c ∷ s) h =
    ap decode (base64_encode-triple a b c s)
    ∙ decode-encode_triple a b c (base64_encode s) h.0 h.1.0 h.1.1.0
    ∙ ap (λ r. a ∷ b ∷ c ∷ r) (decode-base64_encode s h.1.1.1)
