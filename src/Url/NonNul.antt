-- ===== src/Url/NonNul.antt =====
-- A path is free of NUL bytes behind `normalize_path`.
use darkhttpd.Common.{
  NonNul, ℕ, zero, suc, arith, Bool-cases, inl, inr, [], ◌∷◌, ◌==◌, Bytes, All, codes, drop,
}
use darkhttpd.Cstring.{c_str, starts_with}
use darkhttpd.Url.{from_slash, normalize_path}

pub c_str-NonNul : (s : Bytes) → All NonNul (c_str s)
unfolding c_str
c_str-NonNul [] = tt
c_str-NonNul (c ∷ s) = elim (Bool-cases (c == 0)) [
  | inl nul ↦ rw nul tt
  | inr other ↦ rw other (λ z. ground arith, c_str-NonNul s)
]

drop-NonNul : (n : ℕ) (s : Bytes) → All NonNul s → All NonNul (drop n s)
drop-NonNul zero s h = h
drop-NonNul (suc n) [] h = tt
drop-NonNul (suc n) (c ∷ s) h = drop-NonNul n s h.1

from_slash-NonNul : (s : Bytes) → All NonNul s → All NonNul (from_slash s)
unfolding from_slash
from_slash-NonNul [] h = tt
from_slash-NonNul (c ∷ s) h = elim (Bool-cases (c == b'/')) [
  | inl slash ↦ rw slash h
  | inr other ↦ rw other (from_slash-NonNul s h.1)
]

pub normalize_path-NonNul : (url : Bytes) → All NonNul url → All NonNul (normalize_path url)
unfolding normalize_path
normalize_path-NonNul url h = elim (Bool-cases (starts_with (codes "http://") url)) [
  | inl http ↦ rw http (from_slash-NonNul (drop 7 url) (drop-NonNul 7 url h))
  | inr other ↦ rw other (elim (Bool-cases (starts_with (codes "https://") url)) [
    | inl https ↦ rw https (from_slash-NonNul (drop 8 url) (drop-NonNul 8 url h))
    | inr path ↦ rw path h
  ])
]
