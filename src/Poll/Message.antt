-- ===== src/Poll/Message.antt =====
-- What a connection is to send, as one text: the header, and the part of the reply that was chosen.
use darkhttpd.Common.{ℕ, Option, none, some, [], ◌++◌, if◌then◌else◌, Bytes, take, drop}
use darkhttpd.Conn.{Connection, ReplyType, reply_generated, reply_from_file, text_of}
use darkhttpd.Env.{System}

abbrev pub file_source : System → Option ℕ → Bytes
file_source sys none = []
file_source sys (some fd) = sys.file_bytes fd

abbrev pub source_from : System → ReplyType → Option ℕ → Bytes → Bytes
source_from sys reply_generated fd reply = reply
source_from sys reply_from_file fd reply = file_source sys fd

-- The bytes that the reply is cut from.
abbrev pub source : System → Connection → Bytes
source sys c = source_from sys c.reply_type c.reply_fd (text_of c.reply)

abbrev pub body : System → Connection → Bytes
body sys c = take c.reply_length (drop c.reply_start (source sys c))

-- The whole response.
abbrev pub message : System → Connection → Bytes
message sys c = text_of c.header ++ (if c.header_only then [] else body sys c)
