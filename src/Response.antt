-- ===== src/Response.antt =====
-- What a response is, once it is built: the lengths that the sending handlers go by are those of the
-- header and of the body, and nothing is sent yet.
pub mod Replies
pub mod Files
pub mod Requests
use darkhttpd.Common.{ℕ, ◌≡◌, ◌≢◌, ◌≤◌, ◌<◌, Bytes, length}
use darkhttpd.Conn.{Connection, text_of}
use darkhttpd.Env.{System, SysResult, ok, FileKind, regular, Stat}
use darkhttpd.Poll.Message.{body}

-- Nothing of a response has been sent.
abbrev pub IsUnsent : Connection → Type 0
IsUnsent c = (c.header_sent ≡ 0) × (c.reply_sent ≡ 0) × (c.total_sent ≡ 0)

-- A connection that receives a request, as it is allocated or recycled.
abbrev pub IsFresh : Connection → Type 0
IsFresh c = IsUnsent c × (c.reply_start ≡ 0)

pub record IsBuilt (sys : System) (c : Connection) : Type 0 where
  pub unsent : IsUnsent c
  pub header_whole : length (text_of c.header) ≡ c.header_length
  pub body_whole : length (body sys c) ≡ c.reply_length
  pub answered : c.http_code ≢ 0

-- A regular file has as many bytes as `fstat` says: it is not changed while it is served.
abbrev pub Stable : System → Type 0
Stable sys =
    (fd : ℕ) (st : Stat)
    → sys.fstat fd ≡ ok st
    → st.kind ≡ regular
    → length (sys.file_bytes fd) ≡ st.size
