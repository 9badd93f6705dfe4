-- ===== src/Process.antt =====
-- `process_request` of darkhttpd.c. The counter `num_requests` is in Poll.
pub mod Confined
pub mod Gate
pub mod Head
use darkhttpd.Common.{Option, Bytes, Bool, true, false, not, none, some, if◌then◌else◌, codes, text}
use darkhttpd.Auth.{password_equal}
use darkhttpd.Conn.{Connection, send_header, text_of}
use darkhttpd.Cstring.{str_eq}
use darkhttpd.Env.{Env}
use darkhttpd.Get.{process_get}
use darkhttpd.Reply.{default_reply, redirect_https, needs_https_redirect}
use darkhttpd.Request.{parse_request}

-- The test of the credentials that a request gave against the key, if there is one.
unfoldable pub refuses : Option Bytes → Option Bytes → Bool
refuses none given = false
refuses (some key) none = true
refuses (some key) (some given) = not (password_equal given key)

unfoldable pub is_unauthorized : Env → Connection → Bool
unfolding refuses
is_unauthorized e c = refuses e.auth_key c.authorization

-- The tests of the method.
unfoldable pub by_method : Env → Connection → Connection
by_method e c =
    if str_eq (text_of c.method) (codes "GET")
    then process_get e c
    else if str_eq (text_of c.method) (codes "HEAD")
    then record (process_get e c) { header_only = true }
    else default_reply e c 501 (text "Not Implemented")
        (text "The method you specified is not implemented.")

-- The chain of tests behind `parse_request`.
unfoldable pub dispatch : Env → Bool × Connection → Connection
dispatch e (false, c) =
    default_reply e (record c { conn_close = true }) 400 (text "Bad Request")
      (text "You sent a request that the server couldn't understand.")
dispatch e (true, c) =
    if needs_https_redirect e c
    then redirect_https e c
    else if is_unauthorized e c
    then default_reply e c 401 (text "Unauthorized")
        (text "Access denied due to invalid credentials.")
    else by_method e c

unfoldable pub process_request : Env → Connection → Connection
process_request e c = record (dispatch e (parse_request e c)) {
  state = send_header;
  request = none;
}
