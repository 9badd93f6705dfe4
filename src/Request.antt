-- ===== src/Request.antt =====
-- `split_string`, `strntoupper`, `parse_field`, `parse_range_field` and `parse_request` of darkhttpd.c.
pub mod Fields
pub mod Line
pub mod Read
pub mod Ranged
pub mod Behind
use darkhttpd.Common.{
  ℕ, suc, ◌+◌, ◌-◌, Bool, true, false, not, ◌&&◌, ◌||◌, Option, none, some, [], ◌∷◌, ◌==◌,
  if◌then◌else◌, Bytes, codes, get_or, take, drop, length,
}
use mathlib.Core.List.{map}
use darkhttpd.Conn.{Connection, text_of}
use darkhttpd.Cstring.{c_str, is_digit, to_upper, str_case_eq, strcasestr, strtoll, has_char}
use darkhttpd.Env.{Env}

-- The bytes [left, right) of a buffer, as the C string that the copy is.
unfoldable pub split_string : Bytes → ℕ → ℕ → Bytes
unfolding c_str
split_string src left right = c_str (take (right - left) (drop left src))

unfoldable pub strntoupper : Bytes → Bytes
unfolding to_upper
strntoupper s = map to_upper s

-- How far a loop `for (; i < len && test(s[i]); i++)` goes on the rest of a text.
unfoldable pub scan_while : (ℕ → Bool) → Bytes → ℕ
scan_while test [] = 0
scan_while test (c ∷ s) = let more = suc (scan_while test s) in if test c then more else 0

abbrev pub is_space : ℕ → Bool
is_space c = c == b' '

abbrev pub in_line : ℕ → Bool
in_line c = not (c == b'\r' || c == b'\n')

abbrev pub in_token : ℕ → Bool
in_token c = not (c == b' ' || (c == b'\r' || c == b'\n'))

-- The request as far as `request_length`.
abbrev pub request_bytes : Connection → Bytes
request_bytes c = take c.request_length (text_of c.request)

-- `strcasestr` sees the request up to its first NUL; the end of the value is looked for in the bytes
-- up to `request_length`.
unfoldable pub parse_field : Connection → Bytes → Option Bytes
unfolding split_string scan_while strcasestr c_str
parse_field c field = elim (strcasestr (c_str (text_of c.request)) field) [
  | none ↦ none
  | some pos ↦
      let bound1 = pos + length field in
      let bound2 = bound1 + scan_while in_line (drop bound1 (request_bytes c)) in
      some (split_string (text_of c.request) bound1 bound2)
]

-- The second half of the range: `rest` is the text behind the hyphen.
unfoldable pub parse_range_end : Connection → Bytes → Connection
unfolding scan_while is_digit strtoll
parse_range_end c rest =
    let digits = scan_while is_digit rest in
    if not (digits == length rest) && not (get_or rest digits 0 == b',')
    then c
    else if digits == 0
    then c
    else record c { range_end_given = true; range_end = strtoll rest }

-- `parse_range_field` on the value of the field.
unfoldable pub parse_range : Connection → Bytes → Connection
unfolding parse_range_end
parse_range c range =
    let digits = scan_while is_digit range in
    if digits == length range || not (get_or range digits 0 == b'-')
    then c
    else if digits == 0
    then parse_range_end c (drop (suc digits) range)
    else parse_range_end (record c { range_begin_given = true; range_begin = strtoll range })
        (drop (suc digits) range)

unfoldable pub parse_range_field : Connection → Connection
unfolding parse_field parse_range
parse_range_field c = elim (parse_field c (codes "\nRange: bytes=")) [
  | none ↦ c
  | some range ↦ parse_range c range
]

-- The part of `parse_request` that reads the protocol, from the space behind the URL at `bound`. It
-- returns false where the request is refused.
unfoldable pub parse_protocol : Connection → ℕ → Bool × Connection
unfolding scan_while split_string str_case_eq
parse_protocol c bound =
    let r = request_bytes c in
    let bound1 = bound + scan_while is_space (drop bound r) in
    let bound2 = suc bound1 + scan_while in_token (drop (suc bound1) r) in
    let proto = split_string r bound1 bound2 in
    if in_line (get_or r bound2 0)
    then (false, c)
    else if str_case_eq proto (codes "HTTP/1.1")
    then (true, record c { conn_close = false })
    else if str_case_eq proto (codes "HTTP/1.0")
    then (true, c)
    else (false, c)

-- The effect of a "Connection: " field.
unfoldable pub connection_field : Option Bytes → Connection → Connection
unfolding str_case_eq
connection_field none c = c
connection_field (some v) c =
    if str_case_eq v (codes "close")
    then record c { conn_close = true }
    else if str_case_eq v (codes "keep-alive")
    then record c { conn_close = false }
    else c

-- `if (!want_keepalive) conn->conn_close = 1`
unfoldable pub deny_keepalive : Env → Connection → Connection
deny_keepalive e c = if e.want_keepalive then c else record c { conn_close = true }

unfoldable pub read_fields : Connection → Connection
read_fields c = record c {
  referer = parse_field c (codes "\nReferer: ");
  user_agent = parse_field c (codes "\nUser-Agent: ");
  authorization = parse_field c (codes "\nAuthorization: ");
}

-- The field is read only where `trusted_ip` is set.
unfoldable pub read_forwarded : Option Bytes → Connection → Connection
read_forwarded none c = c
read_forwarded (some _) c = record c { forwarded_for = parse_field c (codes "\nX-Forwarded-For: ") }

-- The fields, in the order of the code, behind the request line.
unfoldable pub parse_fields : Env → Connection → Connection
parse_fields e c =
    let connected = connection_field (parse_field c (codes "\nConnection: ")) c in
    parse_range_field (read_forwarded e.trusted_ip (read_fields (deny_keepalive e connected)))

-- The fields are read if the protocol was accepted.
unfoldable pub parse_behind_protocol : Env → Bool × Connection → Bool × Connection
parse_behind_protocol e (true, c) = (true, parse_fields e c)
parse_behind_protocol e (false, c) = (false, c)

-- Behind the method: the URL from `bound1`, then the protocol and the fields.
unfoldable pub parse_target : Env → Connection → ℕ → Bool × Connection
unfolding scan_while split_string has_char
parse_target e c bound1 =
    let r = request_bytes c in
    let bound2 = suc bound1 + scan_while in_token (drop (suc bound1) r) in
    let url = split_string r bound1 bound2 in
    let c' = record c { url = some url } in
    if bound1 == c.request_length
    then (false, c)
    else if has_char 0 (take (bound2 - suc bound1) (drop (suc bound1) r))
    then (false, c)
    else if get_or r bound2 0 == b' '
    then parse_behind_protocol e (parse_protocol c' bound2)
    else (true, parse_fields e c')

unfoldable pub parse_request : Env → Connection → Bool × Connection
unfolding strntoupper
parse_request e c =
    let r = request_bytes c in
    let bound1 = scan_while (λ b. not (is_space b)) r in
    let method = strntoupper (split_string r 0 bound1) in
    parse_target e (record c { method = some method })
      (bound1 + scan_while is_space (drop bound1 r))
