-- ===== src/Log.antt =====
-- `needs_logencoding`, `logencode`, `clf_date` and `log_connection` of darkhttpd.c.
pub mod Safe
use darkhttpd.Common.{
  ℕ, Bool, ◌||◌, Option, none, some, [], ◌∷◌, ◌==◌, leb, if◌then◌else◌, Bytes, text,
}
use darkhttpd.Conn.{Connection, text_of}
use darkhttpd.Cstring.{str_case_eq, before_char, decimal}
use darkhttpd.Env.{Env}
use darkhttpd.Reply.{join}
use darkhttpd.Url.{percent}

unfoldable pub needs_logencoding : ℕ → Bool
needs_logencoding c = leb c 0x1f || leb 0x7f c || c == b'"'

unfoldable pub logencode : Bytes → Bytes
unfolding needs_logencoding percent
logencode [] = []
logencode (c ∷ s) =
    let rest = logencode s in if needs_logencoding c then percent c rest else c ∷ rest

unfoldable pub clf_date : Env → Bytes
clf_date e = text_of (e.system.format_clf e.now)

-- `log_ip`: the first forwarded address where the peer is the trusted proxy, else the peer.
unfoldable pub log_ip : Env → Connection → Bytes
unfolding str_case_eq before_char logencode
log_ip e c = elim c.forwarded_for [
  | none ↦ e.system.address_text c.client
  | some forwarded ↦
      if str_case_eq (e.system.address_text c.client) (text_of e.trusted_ip)
      then logencode (before_char b',' forwarded)
      else e.system.address_text c.client
]

unfoldable pub log_line : Env → Connection → Bytes
unfolding log_ip clf_date logencode decimal
log_line e c = join (
    log_ip e c
    ∷ text " - - "
    ∷ clf_date e
    ∷ text " \""
    ∷ logencode (text_of c.method)
    ∷ text " "
    ∷ logencode (text_of c.url)
    ∷ text " HTTP/1.1\" "
    ∷ decimal c.http_code
    ∷ text " "
    ∷ decimal c.total_sent
    ∷ text " \""
    ∷ logencode (text_of c.referer)
    ∷ text "\" \""
    ∷ logencode (text_of c.user_agent)
    ∷ text "\"\n"
    ∷ [])

-- The line that `log_connection` writes, to the file or to syslog; none for a request that did not
-- parse. The log file is open whenever requests are served.
unfoldable pub log_connection : Env → Connection → Option Bytes
unfolding log_line
log_connection e c = elim c.method [
  | none ↦ none
  | some _ ↦ if c.http_code == 0 then none else some (log_line e c)
]
