-- ===== src/Reply.antt =====
-- `rfc1123_date`, `keep_alive`, `generated_on`, `default_reply`, `redirect`, `redirect_https` and
-- `needs_https_redirect` of darkhttpd.c. A format string is the concatenation of its pieces.
use darkhttpd.Common.{
  ℕ, Bool, false, not, ◌&&◌, Option, none, some, List, [], ◌∷◌, ◌++◌, if◌then◌else◌, Bytes, codes,
  text, length,
}
use darkhttpd.Conn.{Connection, reply_generated, text_of}
use darkhttpd.Cstring.{c_str, decimal, str_case_eq}
use darkhttpd.Env.{Env}
use darkhttpd.Request.{parse_field}
use darkhttpd.SafeUrl.{make_safe_url}
use darkhttpd.Url.{urldecode, normalize_path}

abbrev pub pkgname : Bytes
pkgname = text "darkhttpd/1.17.from.git"

-- The pieces of a format string, in order.
abbrev pub join : List Bytes → Bytes
join [] = []
join (s ∷ ss) = s ++ join ss

-- "" where `strftime` fails.
unfoldable pub rfc1123_date : Env → ℕ → Bytes
rfc1123_date e when = text_of (e.system.format_gmt when)

unfoldable pub keep_alive : Env → Connection → Bytes
keep_alive e c = if c.conn_close then text "Connection: close\r\n" else e.keep_alive_field

-- The buffer of `generated_on` holds the longest date that `rfc1123_date` writes.
unfoldable pub generated_on : Env → Bytes → Bytes
generated_on e date =
    if e.want_server_id
    then join (text "Generated by " ∷ pkgname ∷ text " on " ∷ date ∷ text "\n" ∷ [])
    else []

unfoldable pub default_body : Env → ℕ → Bytes → Bytes → Bytes
unfolding generated_on rfc1123_date
default_body e errcode errname reason = join (
    text "<!DOCTYPE html><html><head><title>"
    ∷ decimal errcode
    ∷ text " "
    ∷ errname
    ∷ text "</title></head><body>\n<h1>"
    ∷ errname
    ∷ text "</h1>\n"
    ∷ reason
    ∷ text "\n<hr>\n"
    ∷ generated_on e (rfc1123_date e e.now)
    ∷ text "</body></html>\n"
    ∷ [])

abbrev auth_header : Option Bytes → Bytes
auth_header none = []
auth_header (some _) = text "WWW-Authenticate: Basic realm=\"User Visible Realm\"\r\n"

-- The header of `default_reply` for a body of the given length.
unfoldable pub default_header : Env → Connection → ℕ → Bytes → ℕ → Bytes
unfolding rfc1123_date keep_alive
default_header e c errcode errname reply_length = join (
    text "HTTP/1.1 "
    ∷ decimal errcode
    ∷ text " "
    ∷ errname
    ∷ text "\r\nDate: "
    ∷ rfc1123_date e e.now
    ∷ text "\r\n"
    ∷ e.server_hdr
    ∷ text "Accept-Ranges: bytes\r\n"
    ∷ keep_alive e c
    ∷ e.custom_hdrs
    ∷ text "Content-Length: "
    ∷ decimal reply_length
    ∷ text "\r\nContent-Type: text/html; charset=UTF-8\r\n"
    ∷ auth_header e.auth_key
    ∷ text "\r\n"
    ∷ [])

unfoldable pub default_reply : Env → Connection → ℕ → Bytes → Bytes → Connection
default_reply e c errcode errname reason =
    let body = default_body e errcode errname reason in
    let head = default_header e c errcode errname (length body) in
    record c {
      reply = some body;
      reply_length = length body;
      header = some head;
      header_length = length head;
      reply_type = reply_generated;
      http_code = errcode;
      reply_start = 0;
    }

unfoldable pub redirect_body : Env → Bytes → Bytes
unfolding generated_on rfc1123_date
redirect_body e where_to = join (
    text "<!DOCTYPE html><html><head><title>301 Moved Permanently</title></head><body>\n"
    ∷ text "<h1>Moved Permanently</h1>\nMoved to: <a href=\""
    ∷ where_to
    ∷ text "\">"
    ∷ where_to
    ∷ text "</a>\n<hr>\n"
    ∷ generated_on e (rfc1123_date e e.now)
    ∷ text "</body></html>\n"
    ∷ [])

unfoldable pub redirect_header : Env → Connection → Bytes → ℕ → Bytes
unfolding rfc1123_date keep_alive
redirect_header e c where_to reply_length = join (
    text "HTTP/1.1 301 Moved Permanently\r\nDate: "
    ∷ rfc1123_date e e.now
    ∷ text "\r\n"
    ∷ e.server_hdr
    ∷ text "Location: "
    ∷ where_to
    ∷ text "\r\n"
    ∷ keep_alive e c
    ∷ e.custom_hdrs
    ∷ text "Content-Length: "
    ∷ decimal reply_length
    ∷ text "\r\nContent-Type: text/html; charset=UTF-8\r\n\r\n"
    ∷ [])

-- Unlike `default_reply`, this leaves `reply_start` as it is.
unfoldable pub redirect : Env → Connection → Bytes → Connection
redirect e c where_to =
    let body = redirect_body e where_to in
    let head = redirect_header e c where_to (length body) in
    record c {
      reply = some body;
      reply_length = length body;
      header = some head;
      header_length = length head;
      reply_type = reply_generated;
      http_code = 301;
    }

abbrev pub invalid_url : Env → Connection → Connection
invalid_url e c = default_reply e c 400 (text "Bad Request") (text "You requested an invalid URL.")

-- The path that both `process_get` and `redirect_https` work with: it is decoded, made relative, and
-- resolved.
unfoldable pub requested_path : Bytes → Option Bytes
unfolding urldecode c_str normalize_path
requested_path url = make_safe_url (normalize_path (c_str (urldecode url)))

-- The redirect, for a path that is safe.
unfoldable pub redirect_host : Env → Connection → Bytes → Option Bytes → Connection
redirect_host e c path none =
    default_reply e c 400 (text "Bad Request") (text "Missing 'Host' header.")
redirect_host e c path (some host) = redirect e c (join (text "https://" ∷ host ∷ path ∷ []))

unfoldable pub redirect_safe : Env → Connection → Option Bytes → Connection
unfolding parse_field redirect_host
redirect_safe e c none = invalid_url e c
redirect_safe e c (some path) = redirect_host e c path (parse_field c (codes "\nHost: "))

unfoldable pub redirect_https : Env → Connection → Connection
unfolding requested_path redirect_safe
redirect_https e c = redirect_safe e c (requested_path (text_of c.url))

unfoldable pub needs_https_redirect : Env → Connection → Bool
unfolding parse_field str_case_eq
needs_https_redirect e c =
    e.forward_to_https && (elim (parse_field c (codes "\nX-Forwarded-Proto: ")) [
      | none ↦ false
      | some proto ↦ not (str_case_eq proto (codes "https"))
    ])
