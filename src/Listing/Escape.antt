-- ===== src/Listing/Escape.antt =====
-- The characters that `append_escaped` puts into a listing.
use darkhttpd.Common.{ℕ, ◌≢◌, arith, [], ◌∷◌, ◌++◌, Bytes, All, All-append}
use darkhttpd.Listing.{escape_char, append_escaped}

-- A character that opens no tag and ends no attribute.
abbrev pub IsInert : ℕ → Type 0
IsInert c = (c ≢ b'<') × (c ≢ b'>') × (c ≢ b'"') × (c ≢ b'\'')

escape_char-IsInert : (c : ℕ) → All IsInert (escape_char c)
unfolding escape_char
escape_char-IsInert c = ground arith

-- What `append_escaped` adds to an inert buffer keeps it inert: no angle bracket and no quote gets in.
pub append_escaped-IsInert :
    (dst src : Bytes) → All IsInert dst → All IsInert (append_escaped dst src)
unfolding append_escaped
append_escaped-IsInert dst [] a = a
append_escaped-IsInert dst (c ∷ src) a =
    append_escaped-IsInert (dst ++ escape_char c) src
      (All-append IsInert dst (escape_char c) a (escape_char-IsInert c))
