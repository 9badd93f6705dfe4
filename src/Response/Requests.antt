-- ===== src/Response/Requests.antt =====
-- A request on a fresh connection gets a response that is built, whatever the request is.
use darkhttpd.Common.{
  ℕ, suc, ◌+◌, drop, not, ◌≡◌, refl, arith, inl, inr, Bool, true, false, Bool-cases, Option, none,
  some, Bytes, codes,
}
use darkhttpd.Conn.{Connection, send_header, text_of}
use darkhttpd.Cstring.{str_eq}
use darkhttpd.Env.{Env, System}
use darkhttpd.Process.{by_method, dispatch, is_unauthorized, process_request}
use darkhttpd.Reply.{needs_https_redirect}
use darkhttpd.Request.{
  parse_field, parse_range_end, parse_range, parse_range_field, parse_protocol, connection_field,
  deny_keepalive, read_fields, read_forwarded, parse_fields, parse_behind_protocol, parse_target,
  parse_request, request_bytes, scan_while, in_token, is_space, split_string, strntoupper,
}
use darkhttpd.Response.{IsFresh, IsBuilt, Stable}
use darkhttpd.Response.Files.{process_get-IsBuilt}
use darkhttpd.Response.Replies.{default_reply-IsBuilt, redirect_https-IsBuilt}

-- The parser leaves the counters alone.
parse_range_end-IsFresh :
    (c : Connection) (rest : Bytes) → IsFresh c → IsFresh (parse_range_end c rest)
unfolding parse_range_end
parse_range_end-IsFresh c rest f = ground arith

parse_range-IsFresh : (c : Connection) (range : Bytes) → IsFresh c → IsFresh (parse_range c range)
unfolding parse_range
parse_range-IsFresh c range f = ground arith

parse_protocol-IsFresh :
    (c : Connection) (bound : ℕ) → IsFresh c → IsFresh (parse_protocol c bound).1
unfolding parse_protocol
parse_protocol-IsFresh c bound f = ground arith

connection_field-IsFresh :
    (v : Option Bytes) (c : Connection) → IsFresh c → IsFresh (connection_field v c)
unfolding connection_field
connection_field-IsFresh none c f = f
connection_field-IsFresh (some v) c f = ground arith

parse_range_field-IsFresh : (c : Connection) → IsFresh c → IsFresh (parse_range_field c)
unfolding parse_range_field
parse_range_field-IsFresh c f = ground arith

deny_keepalive-IsFresh : (e : Env) (c : Connection) → IsFresh c → IsFresh (deny_keepalive e c)
unfolding deny_keepalive
deny_keepalive-IsFresh e c f = ground arith

read_fields-IsFresh : (c : Connection) → IsFresh c → IsFresh (read_fields c)
unfolding read_fields
read_fields-IsFresh c f = f

read_forwarded-IsFresh :
    (ip : Option Bytes) (c : Connection) → IsFresh c → IsFresh (read_forwarded ip c)
unfolding read_forwarded
read_forwarded-IsFresh none c f = f
read_forwarded-IsFresh (some _) c f = f

parse_fields-IsFresh : (e : Env) (c : Connection) → IsFresh c → IsFresh (parse_fields e c)
unfolding parse_fields
parse_fields-IsFresh e c f =
    let connected = connection_field (parse_field c (codes "\nConnection: ")) c in
    let denied = deny_keepalive e connected in
    parse_range_field-IsFresh (read_forwarded e.trusted_ip (read_fields denied)) (
      read_forwarded-IsFresh e.trusted_ip (read_fields denied) (
        read_fields-IsFresh denied
          (deny_keepalive-IsFresh e connected (connection_field-IsFresh _ c f))))

parse_behind_protocol-IsFresh :
    (e : Env) (r : Bool × Connection) → IsFresh r.1 → IsFresh (parse_behind_protocol e r).1
unfolding parse_behind_protocol
parse_behind_protocol-IsFresh e (true, c) f = parse_fields-IsFresh e c f
parse_behind_protocol-IsFresh e (false, c) f = f

parse_target-IsFresh :
    (e : Env) (c : Connection) (bound : ℕ) → IsFresh c → IsFresh (parse_target e c bound).1
unfolding parse_target
parse_target-IsFresh e c bound1 f =
    let r = request_bytes c in
    let bound2 = suc bound1 + scan_while in_token (drop (suc bound1) r) in
    let c' = record c { url = some (split_string r bound1 bound2) } in
    let protocol = parse_protocol-IsFresh c' bound2 f in
    ground (
      arith,
      parse_behind_protocol-IsFresh e (parse_protocol c' bound2) protocol,
      parse_fields-IsFresh e c' f,
    )

pub parse_request-IsFresh : (e : Env) (c : Connection) → IsFresh c → IsFresh (parse_request e c).1
unfolding parse_request
parse_request-IsFresh e c f =
    let r = request_bytes c in
    let bound1 = scan_while (λ b. not (is_space b)) r in
    parse_target-IsFresh e (record c { method = some (strntoupper (split_string r 0 bound1)) })
      (bound1 + scan_while is_space (drop bound1 r)) f

header_only-IsBuilt :
    (sys : System) {c : Connection} → IsBuilt sys c → IsBuilt sys (record c { header_only = true })
header_only-IsBuilt sys b = record {
  unsent = b.unsent;
  header_whole = b.header_whole;
  body_whole = b.body_whole;
  answered = b.answered;
}

dispatch-IsBuilt :
    (e : Env) (r : Bool × Connection)
    → Stable e.system
    → IsFresh r.1
    → IsBuilt e.system (dispatch e r)
unfolding dispatch by_method
dispatch-IsBuilt e (false, c) stable f = default_reply-IsBuilt e _ 400 _ _ f.0 (omega arith)
dispatch-IsBuilt e (true, c) stable f = elim (Bool-cases (needs_https_redirect e c)) [
  | inl https ↦ simp https (redirect_https-IsBuilt e c f)
  | inr plain ↦ elim (Bool-cases (is_unauthorized e c)) [
    | inl denied ↦ simp (plain, denied) (default_reply-IsBuilt e c 401 _ _ f.0 (omega arith))
    | inr allowed ↦ elim (Bool-cases (str_eq (text_of c.method) (codes "GET"))) [
      | inl get ↦ simp (plain, allowed, get) (process_get-IsBuilt e stable c f)
      | inr not_get ↦ elim (Bool-cases (str_eq (text_of c.method) (codes "HEAD"))) [
        | inl head ↦
            simp (plain, allowed, not_get, head)
              (header_only-IsBuilt e.system (process_get-IsBuilt e stable c f))
        | inr unknown ↦
            simp (plain, allowed, not_get, unknown)
              (default_reply-IsBuilt e c 501 _ _ f.0 (omega arith))
      ]
    ]
  ]
]

-- On a fresh connection every request, well formed or not, gets a response whose header and body have the lengths that
-- the sending handlers go by, with nothing sent yet, if regular files have the size `fstat` gives.
pub process_request-IsBuilt :
    (e : Env) (c : Connection)
    → Stable e.system
    → IsFresh c
    → IsBuilt e.system (process_request e c) × ((process_request e c).state ≡ send_header)
unfolding process_request
process_request-IsBuilt e c stable f =
    let b = dispatch-IsBuilt e (parse_request e c) stable (parse_request-IsFresh e c f) in
    (
      record {
        unsent = b.unsent;
        header_whole = b.header_whole;
        body_whole = b.body_whole;
        answered = b.answered;
      },
      refl,
    )
