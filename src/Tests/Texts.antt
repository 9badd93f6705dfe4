-- ===== src/Tests/Texts.antt =====
-- Concrete runs: URLs, escapes, passwords.
use darkhttpd.Common.{
  NonNul, ltb, ltb→lt, ◌↔◌, ◌≡◌, refl, arith, inl, inr, Bool, true, false, not, ◌&&◌, ◌==◌, some,
  [], ◌∷◌, Bytes, All, codes, Bool-cases,
}
use darkhttpd.Auth.{base64_encode, password_equal}
use darkhttpd.Auth.Base64.{decode, decode-base64_encode}
use darkhttpd.Auth.Equal.{password_equal-same}
use darkhttpd.Listing.{append_escaped}
use darkhttpd.Listing.Escape.{IsInert, append_escaped-IsInert}
use darkhttpd.Log.{logencode}
use darkhttpd.Log.Safe.{IsPrintable, logencode-IsPrintable}
use darkhttpd.Url.{urldecode, urlencode}
use darkhttpd.Url.RoundTrip.{IsByte, urldecode-urlencode}
use darkhttpd.SafeUrl.{make_safe_url}
use darkhttpd.SafeUrl.Safe.{IsSafe, make_safe_url-IsSafe}
use darkhttpd.SafeUrl.Spec.{safe_path, make_safe_url-safe_path}

true_is_not_false : false ≡ true → ⊥
true_is_not_false e = cc

abbrev pub all_nonnul : Bytes → Bool
all_nonnul [] = true
all_nonnul (x ∷ s) = not (x == 0) && all_nonnul s

pub all_nonnul-NonNul : (s : Bytes) → all_nonnul s ≡ true → All NonNul s
all_nonnul-NonNul [] e = tt
all_nonnul-NonNul (x ∷ s) e = elim (Bool-cases (x == 0)) [
  | inl nul ↦ absurd (true_is_not_false (rw nul at e))
  | inr other ↦ (λ z. ground arith, all_nonnul-NonNul s (rw other at e))
]

abbrev dotted : Bytes
dotted = codes "/a//b/../c/./d"

make_safe_url-safe_path_example : make_safe_url dotted ≡ safe_path dotted
make_safe_url-safe_path_example = make_safe_url-safe_path dotted (all_nonnul-NonNul dotted refl)

dotted_path : make_safe_url dotted ≡ some (codes "/a/c/d")
unfolding make_safe_url
dotted_path = refl

make_safe_url-IsSafe_example : IsSafe (codes "/a/c/d")
make_safe_url-IsSafe_example =
    make_safe_url-IsSafe dotted (all_nonnul-NonNul dotted refl) dotted_path

are_bytes : Bytes → Bool
are_bytes [] = true
are_bytes (x ∷ s) = ltb x 256 && are_bytes s

are_bytes-IsByte : (s : Bytes) → are_bytes s ≡ true → All IsByte s
unfolding are_bytes
are_bytes-IsByte [] e = tt
are_bytes-IsByte (x ∷ s) e = elim (Bool-cases (ltb x 256)) [
  | inl byte ↦ (ltb→lt x 256 byte, are_bytes-IsByte s (rw byte at e))
  | inr large ↦ absurd (true_is_not_false (rw large at e))
]

urldecode-urlencode_example : urldecode (urlencode (codes "a b%/<")) ≡ codes "a b%/<"
unfolding are_bytes
urldecode-urlencode_example =
    urldecode-urlencode (codes "a b%/<") (are_bytes-IsByte (codes "a b%/<") refl)

append_escaped-IsInert_example : All IsInert (append_escaped (codes "ok") (codes "<a href='x'>"))
append_escaped-IsInert_example =
    append_escaped-IsInert (codes "ok") (codes "<a href='x'>")
      (((λ e. cc, λ e. cc, λ e. cc, λ e. cc)), ((λ e. cc, λ e. cc, λ e. cc, λ e. cc), tt))

logencode-IsPrintable_example : All IsPrintable (logencode (codes "GET\r\n\"x"))
logencode-IsPrintable_example = logencode-IsPrintable (codes "GET\r\n\"x")

password_equal-same_example :
    password_equal (codes "Basic eA==") (codes "Basic eQ==") ≡ true
    ↔ codes "Basic eA==" ≡ codes "Basic eQ=="
password_equal-same_example =
    password_equal-same (codes "Basic eA==") (codes "Basic eQ==")
      (all_nonnul-NonNul (codes "Basic eQ==") refl)

decode-base64_encode_example : decode (base64_encode (codes "me:pw")) ≡ codes "me:pw"
unfolding are_bytes
decode-base64_encode_example =
    decode-base64_encode (codes "me:pw") (are_bytes-IsByte (codes "me:pw") refl)
