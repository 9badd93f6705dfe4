-- ===== src/Request/Read.antt =====
-- What a whole request, its line and its fields, leaves in the connection.
use darkhttpd.Common.{
  ℕ, ◌≡◌, ◌≢◌, Bool, false, not, ◌||◌, arith, Option, none, some, ◌∷◌, ◌++◌, Bytes, codes,
}
use darkhttpd.Conn.{Connection}
use darkhttpd.Cstring.{str_case_eq}
use darkhttpd.Env.{Env}
use darkhttpd.Request.{strntoupper, parse_range_end}
use darkhttpd.Request.Behind.{find_behind}
use darkhttpd.Request.Ranged.{Bounds, Asks, asks_text, InLonglong, IsBehind, bounds_in, set_bounds}
use darkhttpd.Request.Fields.{Fields, find_field}

-- Whether the connection is to be closed behind the answer to a request of HTTP/1.1 with this
-- "Connection" field.
unfoldable pub closes : Env → Option Bytes → Bool
closes e none = not e.want_keepalive
closes e (some v) = not e.want_keepalive || str_case_eq v (codes "close")

-- What stands behind "bytes=" in the first "Range" field that begins so.
abbrev pub find_range : Fields → Option Bytes
find_range fs = find_behind (codes "Range") (codes "bytes=") fs

-- The method, the URL and the fields are those of the request, and the bounds are those of its range,
-- as far as it has them.
pub record IsRead (e : Env) (m url : Bytes) (fs : Fields) (before : Bounds) (c : Connection)
    : Type 0 where
  pub method : c.method ≡ some (strntoupper m)
  pub url_given : c.url ≡ some url
  pub referer : c.referer ≡ find_field (codes "Referer") fs
  pub user_agent : c.user_agent ≡ find_field (codes "User-Agent") fs
  pub authorization : c.authorization ≡ find_field (codes "Authorization") fs
  pub forwarded_for :
      e.trusted_ip ≢ none → c.forwarded_for ≡ find_field (codes "X-Forwarded-For") fs
  pub conn_close : c.conn_close ≡ closes e (find_field (codes "Connection") fs)
  pub no_range : find_range fs ≡ none → bounds_in c ≡ before
  pub range :
      (r : Asks) (behind : Bytes)
      → InLonglong r
      → IsBehind behind
      → find_range fs ≡ some (asks_text r ++ behind)
      → bounds_in c ≡ set_bounds r before

-- The connection without its range.
abbrev unranged : Connection → Connection
unranged c = record c {
  range_begin = 0;
  range_begin_given = false;
  range_end = 0;
  range_end_given = false;
}

parse_range_end-unranged :
    (c : Connection) (rest : Bytes) → unranged (parse_range_end c rest) ≡ unranged c
unfolding parse_range_end
parse_range_end-unranged c rest = ground arith

-- What the "Connection" field and the option against keeping connections change: one flag.
record KeepsRequest (e : Env) (v : Option Bytes) (c c' : Connection) : Type 0 where
  request : c'.request ≡ c.request
  request_length : c'.request_length ≡ c.request_length
  method : c'.method ≡ c.method
  url : c'.url ≡ c.url
  bounds : bounds_in c' ≡ bounds_in c
  conn_close : c.conn_close ≡ false → c'.conn_close ≡ closes e v

line_text : Bytes → ℕ → Bytes → Bytes
line_text m x u = m ++ (b' ' ∷ x ∷ (u ++ (b' ' ∷ codes "HTTP/1.1")))
