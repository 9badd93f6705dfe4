-- ===== src/Request/Line.antt =====
-- The request line as `parse_request` reads it.
use darkhttpd.Common.{
  NonNul, ℕ, suc, ◌+◌, ◌-◌, ◌≡◌, ◌≢◌, refl, sym, ap, ◌∙◌, arith, Bool, true, false, not, some, [],
  ◌∷◌, ◌++◌, ◌==◌, Bytes, All, codes, get_or, get_or-append, take, drop, length, length-append,
  append_assoc, drop-append, take-append_le, take_all,
}
use darkhttpd.Conn.{Connection, text_of}
use darkhttpd.Cstring.{c_str, has_char, str_case_eq, strcasecmp, to_lower}
use darkhttpd.Env.{Env}
use darkhttpd.Request.{
  split_string, strntoupper, scan_while, is_space, in_token, request_bytes, parse_protocol,
  parse_fields, parse_behind_protocol, parse_target, parse_request,
}

pub drop_at : (a b : Bytes) (n k : ℕ) → n ≡ length a + k → drop n (a ++ b) ≡ drop k b
drop_at a b n k e = rw e (drop-append a b k)

get_or_at : (a b : Bytes) (n k : ℕ) → n ≡ length a + k → get_or (a ++ b) n 0 ≡ get_or b k 0
get_or_at a b n k e = rw e (get_or-append a b k 0)

pub take_front : (a b : Bytes) (n : ℕ) → n ≡ length a → take n (a ++ b) ≡ a
take_front a b n e = take-append_le a b n (omega (arith, e)) ∙ take_all n a (omega (arith, e))

pub scan_while-append :
    (test : ℕ → Bool) (a b : Bytes)
    → All (λ c. test c ≡ true) a
    → scan_while test (a ++ b) ≡ length a + scan_while test b
unfolding scan_while
scan_while-append test [] b h = omega arith
scan_while-append test (c ∷ a) b h = rw (h.0, scan_while-append test a b h.1) (omega arith)

pub c_str-NonNul : (s : Bytes) → All NonNul s → c_str s ≡ s
unfolding c_str
c_str-NonNul [] h = refl
c_str-NonNul (c ∷ s) h = ground (arith, c_str-NonNul s h.1, h.0)

has_char-NonNul : (s : Bytes) → All NonNul s → has_char 0 s ≡ false
unfolding has_char
has_char-NonNul [] h = refl
has_char-NonNul (c ∷ s) h = ground (arith, has_char-NonNul s h.1, h.0)

-- A piece of a text is cut out whole.
pub split_string-piece :
    (src piece back : Bytes) (left right : ℕ)
    → drop left src ≡ piece ++ back
    → right ≡ left + length piece
    → All NonNul piece
    → split_string src left right ≡ piece
unfolding split_string
split_string-piece src piece back left right e r nn =
    ap (λ s. c_str (take (right - left) s)) e
    ∙ ap c_str (take_front piece back (right - left) (omega (arith, r)))
    ∙ c_str-NonNul piece nn

-- What stands behind the URL of a request of HTTP/1.1.
abbrev pub behind_url : Bytes → Bytes
behind_url tail = b' ' ∷ (codes "HTTP/1.1" ++ b'\r' ∷ tail)

one_space : (tail : Bytes) → scan_while is_space (behind_url tail) ≡ 1
unfolding scan_while
one_space tail = refl

protocol_end : (tail : Bytes) → scan_while in_token (drop 2 (behind_url tail)) ≡ 7
unfolding scan_while
protocol_end tail = refl

is_http11 : str_case_eq (codes "HTTP/1.1") (codes "HTTP/1.1") ≡ true
unfolding str_case_eq strcasecmp to_lower
is_http11 = refl

protocol-NonNul : All NonNul (codes "HTTP/1.1")
protocol-NonNul = (
  λ z. omega arith,
  (
    λ z. omega arith,
    (
      λ z. omega arith,
      (
        λ z. omega arith,
        (λ z. omega arith, (λ z. omega arith, (λ z. omega arith, (λ z. omega arith, tt)))),
      ),
    ),
  ),
)

parse_protocol-http11 :
    (c : Connection) (front tail : Bytes) (bound : ℕ)
    → request_bytes c ≡ front ++ behind_url tail
    → bound ≡ length front
    → parse_protocol c bound ≡ (true, record c { conn_close = false })
unfolding parse_protocol
parse_protocol-http11 c front tail bound e b =
    let r = front ++ behind_url tail in
    let spaces : scan_while is_space (drop bound r) ≡ 1 =
      ap (scan_while is_space) (drop_at front (behind_url tail) bound 0 (omega (arith, b)))
      ∙ one_space tail in
    let token : scan_while in_token (drop (suc (bound + 1)) r) ≡ 7 =
      ap (scan_while in_token)
        (drop_at front (behind_url tail) (suc (bound + 1)) 2 (omega (arith, b)))
      ∙ protocol_end tail in
    let proto : split_string r (bound + 1) (suc (bound + 1) + 7) ≡ codes "HTTP/1.1" =
      split_string-piece r (codes "HTTP/1.1") (b'\r' ∷ tail) (bound + 1) (suc (bound + 1) + 7)
        (drop_at front (behind_url tail) (bound + 1) 1 (omega (arith, b))) (omega arith)
        protocol-NonNul in
    let ended : get_or r (suc (bound + 1) + 7) 0 ≡ b'\r' =
      get_or_at front (behind_url tail) (suc (bound + 1) + 7) 9 (omega (arith, b)) in
    rw (e, spaces, token, proto, ended, is_http11) refl

-- A URL: not empty, without blanks, line ends and NUL bytes.
pub record IsToken (x : ℕ) (u : Bytes) : Type 0 where
  pub plain : All (λ c. in_token c ≡ true) (x ∷ u)
  pub no_nul : All NonNul (x ∷ u)

not_equal : (m n : ℕ) → m ≢ n → (m == n) ≡ false
not_equal m n h = ground arith

blank_ends : (tail : Bytes) → scan_while in_token (behind_url tail) ≡ 0
unfolding scan_while
blank_ends tail = refl

parse_target-http11 :
    (e : Env) (c : Connection) (front : Bytes) (x : ℕ) (u tail : Bytes) (bound : ℕ)
    → IsToken x u
    → request_bytes c ≡ front ++ (x ∷ (u ++ behind_url tail))
    → c.request_length ≡ length (front ++ (x ∷ (u ++ behind_url tail)))
    → bound ≡ length front
    → parse_target e c bound
      ≡ (true, parse_fields e (record c { url = some (x ∷ u); conn_close = false }))
unfolding parse_target parse_behind_protocol
parse_target-http11 e c front x u tail bound t whole len b =
    let rest = x ∷ (u ++ behind_url tail) in
    let r = front ++ rest in
    let behind : drop (suc bound) r ≡ u ++ behind_url tail =
      drop_at front rest (suc bound) 1 (omega (arith, b)) in
    let scanned : scan_while in_token (u ++ behind_url tail) ≡ length u =
      scan_while-append in_token u (behind_url tail) t.plain.1
      ∙ ap (λ n. length u + n) (blank_ends tail)
      ∙ omega arith in
    let bound2 = suc bound + length u in
    let cut : split_string r bound bound2 ≡ x ∷ u =
      split_string-piece r (x ∷ u) (behind_url tail) bound bound2
        (drop_at front rest bound 0 (omega (arith, b))) (omega arith) t.no_nul in
    let n = length-append front rest in
    let inside : (bound == c.request_length) ≡ false =
      not_equal bound c.request_length (omega (arith, b, len, n)) in
    let clean : has_char 0 (take (bound2 - suc bound) (u ++ behind_url tail)) ≡ false =
      ap (has_char 0) (take_front u (behind_url tail) (bound2 - suc bound) (omega arith))
      ∙ has_char-NonNul u t.no_nul.1 in
    let front2 = front ++ (x ∷ u) in
    let again : r ≡ front2 ++ behind_url tail =
      sym (append_assoc front (x ∷ u) (behind_url tail)) in
    let k : length front2 ≡ bound2 = omega (arith, b, length-append front (x ∷ u)) in
    let blank : get_or r bound2 0 ≡ b' ' =
      ap (λ s. get_or s bound2 0) again
      ∙ get_or_at front2 (behind_url tail) bound2 0 (omega (arith, k)) in
    let c' = record c { url = some (x ∷ u) } in
    let protocol = parse_protocol-http11 c' front2 tail bound2 (whole ∙ again) (sym k) in
    rw (whole, behind, scanned, cut, inside, clean, blank, protocol) refl

-- A method: without blanks and NUL bytes.
pub record IsMethod (m : Bytes) : Type 0 where
  pub plain : All (λ c. not (is_space c) ≡ true) m
  pub no_nul : All NonNul m

abbrev pub request_text : Bytes → ℕ → Bytes → Bytes → Bytes
request_text m x u tail = m ++ (b' ' ∷ x ∷ (u ++ behind_url tail))

method_ends : (s : Bytes) → scan_while (λ c. not (is_space c)) (b' ' ∷ s) ≡ 0
unfolding scan_while
method_ends s = refl

token_not_space : (x : ℕ) → in_token x ≡ true → is_space x ≡ false
token_not_space x h = ground arith

one_blank : (x : ℕ) (s : Bytes) → in_token x ≡ true → scan_while is_space (b' ' ∷ x ∷ s) ≡ 1
unfolding scan_while
one_blank x s h = rw (token_not_space x h) refl

-- A request that begins with a method, a blank, a URL, a blank, "HTTP/1.1" and a carriage return is not
-- refused: the method is stored in capitals, the URL as it is, the connection is to be
-- kept, and the fields are read with that, whatever follows the line.
pub parse_request-request_text :
    (e : Env) (c : Connection) (m : Bytes) (x : ℕ) (u tail : Bytes)
    → IsMethod m
    → IsToken x u
    → c.request ≡ some (request_text m x u tail)
    → c.request_length ≡ length (request_text m x u tail)
    → parse_request e c ≡ (
      true,
      parse_fields e
          (record c { method = some (strntoupper m); url = some (x ∷ u); conn_close = false }),
    )
unfolding parse_request
parse_request-request_text e c m x u tail im it req len =
    let r = request_text m x u tail in
    let rest = x ∷ (u ++ behind_url tail) in
    let whole : request_bytes c ≡ r =
      ap (λ o. take c.request_length (text_of o)) req
      ∙ take_all c.request_length r (omega (arith, len)) in
    let scanned : scan_while (λ b. not (is_space b)) r ≡ length m =
      scan_while-append (λ b. not (is_space b)) m (b' ' ∷ rest) im.plain
      ∙ ap (λ n. length m + n) (method_ends rest)
      ∙ omega arith in
    let cut : split_string r 0 (length m) ≡ m =
      split_string-piece r m (b' ' ∷ rest) 0 (length m) refl (omega arith) im.no_nul in
    let blank : scan_while is_space (drop (length m) r) ≡ 1 =
      ap (scan_while is_space) (drop_at m (b' ' ∷ rest) (length m) 0 (omega arith))
      ∙ one_blank x (u ++ behind_url tail) it.plain.0 in
    let front = m ++ b' ' ∷ [] in
    let again : r ≡ front ++ rest = sym (append_assoc m (b' ' ∷ []) rest) in
    let c' = record c { method = some (strntoupper m) } in
    rw (whole, scanned, cut, blank)
      (parse_target-http11 e c' front x u tail (length m + 1) it (whole ∙ again)
        (len ∙ ap length again) (omega (arith, length-append m (b' ' ∷ []))))
