-- ===== src/Conn.antt =====
-- `struct connection` of darkhttpd.c, its allocation, its release and its reuse.
use darkhttpd.Common.{
  ℕ, Bool, true, false, Option, none, some, Bytes, [], leb, ltb, ◌&&◌, ◌+◌, if◌then◌else◌,
}
use darkhttpd.Common.Int.{pos_part}
use darkhttpd.Env.{Env}

pub data State : Type 0 where
  recv_request send_header send_reply done : State

pub data ReplyType : Type 0 where
  reply_generated reply_from_file : ReplyType

-- A descriptor of -1 and a NULL pointer are `none`. A `char *` that is set is the text it points to.
pub record Connection : Type 0 where
  pub socket : Option ℕ
  pub client : ℕ
  pub last_active : ℕ
  pub state : State
  pub request : Option Bytes
  pub request_length : ℕ
  pub method : Option Bytes
  pub url : Option Bytes
  pub referer : Option Bytes
  pub user_agent : Option Bytes
  pub authorization : Option Bytes
  pub forwarded_for : Option Bytes
  pub range_begin : ℕ
  pub range_end : ℕ
  pub range_begin_given : Bool
  pub range_end_given : Bool
  pub header : Option Bytes
  pub header_length : ℕ
  pub header_sent : ℕ
  pub header_dont_free : Bool
  pub header_only : Bool
  pub http_code : ℕ
  pub conn_close : Bool
  pub reply_type : ReplyType
  pub reply : Option Bytes
  pub reply_dont_free : Bool
  pub reply_fd : Option ℕ
  pub reply_start : ℕ
  pub reply_length : ℕ
  pub reply_sent : ℕ
  pub total_sent : ℕ

-- The text behind a pointer that the code dereferences or prints as "" when it is NULL.
abbrev pub text_of : Option Bytes → Bytes
text_of none = []
text_of (some s) = s

-- `reply_type` is not initialised: it is what the allocated memory holds.
unfoldable pub new_connection : ℕ → ReplyType → Connection
new_connection now garbage = record {
  socket = none;
  client = 0;
  last_active = now;
  state = done;
  request = none;
  request_length = 0;
  method = none;
  url = none;
  referer = none;
  user_agent = none;
  authorization = none;
  forwarded_for = none;
  range_begin = 0;
  range_end = 0;
  range_begin_given = false;
  range_end_given = false;
  header = none;
  header_length = 0;
  header_sent = 0;
  header_dont_free = false;
  header_only = false;
  http_code = 0;
  conn_close = true;
  reply_type = garbage;
  reply = none;
  reply_dont_free = false;
  reply_fd = none;
  reply_start = 0;
  reply_length = 0;
  reply_sent = 0;
  total_sent = 0;
}

-- The assignments of `recycle_connection` behind its call of `free_connection`. The socket, the
-- client, `last_active` and `reply_type` stay.
unfoldable pub reset_connection : Connection → Connection
reset_connection c = record c {
  request = none;
  request_length = 0;
  method = none;
  url = none;
  referer = none;
  user_agent = none;
  authorization = none;
  forwarded_for = none;
  range_begin = 0;
  range_end = 0;
  range_begin_given = false;
  range_end_given = false;
  header = none;
  header_length = 0;
  header_sent = 0;
  header_dont_free = false;
  header_only = false;
  http_code = 0;
  conn_close = true;
  reply = none;
  reply_dont_free = false;
  reply_fd = none;
  reply_start = 0;
  reply_length = 0;
  reply_sent = 0;
  total_sent = 0;
  state = recv_request;
}

-- `now - conn->last_active >= timeout_secs`, on times that are not negative.
unfoldable pub poll_check_timeout : Env → Connection → Connection
poll_check_timeout e c =
    if ltb 0 (pos_part e.timeout_secs) && leb (c.last_active + pos_part e.timeout_secs) e.now
    then record c { conn_close = true; state = done }
    else c
