-- ===== src/Auth.antt =====
-- `password_equal` and `base64_encode` of darkhttpd.c.
pub mod Base64
pub mod Equal
use Prim.Native.Nat.{bit_or, bit_xor}
use darkhttpd.Common.{
  ℕ, zero, suc, ◌+◌, ◌-◌, ◌*◌, ◌/◌, ◌%◌, ◌^◌, ◌≡◌, refl, Bool, [], ◌∷◌, ◌++◌, ◌==◌, if◌then◌else◌,
  Bytes, codes, get_or, take, length,
}

-- The behaviour behind the loop: `i` and `j` are the indices, `out` the accumulated differences.
pub password_verdict : Bytes → ℕ → ℕ → ℕ → Bool
password_verdict secret i j out =
    let out1 = bit_or out (if i == j then 0 else 1) in
    let out2 = bit_or out1 (if get_or secret j 0 == 0 then 0 else 1) in out2 == 0

-- The loop, on the rest of `user_input` from `i`.
pub password_loop : Bytes → Bytes → ℕ → ℕ → ℕ → Bool
unfolding password_verdict
password_loop [] secret i j out =
    password_verdict secret i j (bit_or out (bit_xor 0 (get_or secret j 0)))
password_loop (c ∷ user_input) secret i j out =
    password_loop user_input secret (suc i) (if get_or secret j 0 == 0 then j else suc j)
      (bit_or out (bit_xor c (get_or secret j 0)))

unfoldable pub password_equal : Bytes → Bytes → Bool
unfolding password_loop
password_equal user_input secret = password_loop user_input secret 0 0 0

-- `base64_table`
unfoldable pub base64_table : Bytes
base64_table = codes "ABCDEFGHIJKLMNOPQRSTUVWXYZabcdefghijklmnopqrstuvwxyz0123456789+/"

-- The four characters of one round of the loop.
unfoldable pub encode_triple : ℕ → ℕ → ℕ → Bytes
unfolding base64_table
encode_triple a b c =
    let triple = a * 2 ^ 16 + b * 2 ^ 8 + c in
    get_or base64_table (triple / 2 ^ 18 % 64) 0
    ∷ get_or base64_table (triple / 2 ^ 12 % 64) 0
    ∷ get_or base64_table (triple / 2 ^ 6 % 64) 0
    ∷ get_or base64_table (triple % 64) 0
    ∷ []

encode_triples : Bytes → Bytes
unfolding encode_triple
encode_triples [] = []
encode_triples (a ∷ []) = encode_triple a 0 0
encode_triples (a ∷ b ∷ []) = encode_triple a b 0
encode_triples (a ∷ b ∷ c ∷ s) = encode_triple a b c ++ encode_triples s

-- The last `n` characters become '='.
pad_end : ℕ → Bytes → Bytes
pad_end zero s = s
pad_end (suc zero) s = take (length s - 1) s ++ codes "="
pad_end (suc (suc n)) s = take (length s - 2) s ++ codes "=="

-- `mod_table[input_length % 3]`
abbrev mod_table : ℕ → ℕ
mod_table n = get_or (0 ∷ 2 ∷ 1 ∷ []) (n % 3) 0

unfoldable pub base64_encode : Bytes → Bytes
unfolding encode_triples pad_end
base64_encode s = pad_end (mod_table (length s)) (encode_triples s)

encodes : base64_encode (codes "user:pass!") ≡ codes "dXNlcjpwYXNzIQ=="
unfolding base64_encode
encodes = refl
