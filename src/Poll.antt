-- ===== src/Poll.antt =====
-- The connection handlers of darkhttpd.c: `poll_recv_request`, `poll_send_header`,
-- `poll_send_reply` and `send_from_file` (its Linux branch). What a system call returns is an argument.
pub mod Answers
pub mod Current
pub mod Message
pub mod Progress
pub mod Sending
pub mod Served
pub mod Valid
use darkhttpd.Common.{
  ℕ, zero, suc, ◌+◌, ◌-◌, ◌%◌, ◌^◌, min, Bool, true, false, not, ◌&&◌, ◌||◌, Option, none, some,
  List, [], ◌∷◌, ◌++◌, ◌==◌, ltb, leb, if◌then◌else◌, Bytes, codes, text, take, drop, length,
}
use darkhttpd.Conn.{
  Connection, State, recv_request, send_header, send_reply, done, ReplyType, reply_generated,
  reply_from_file, text_of,
}
use darkhttpd.Cstring.{str_eq}
use darkhttpd.Env.{Env, System}
use darkhttpd.Process.{process_request}
use darkhttpd.Reply.{default_reply}

-- The globals that the handlers change. The counters are `uint64_t`.
pub record Globals : Type 0 where
  pub num_requests : ℕ
  pub total_in : ℕ
  pub total_out : ℕ
  pub accepting : Bool
  pub log : List Bytes

-- `send` and `sendfile`: a count of bytes, 0 for closure; EAGAIN; any other error.
pub data Sent : Type 0 where
  sent : ℕ → Sent
  send_again : Sent
  send_failed : Sent

-- `recv`: the bytes, none of them at the end of the stream; EAGAIN; any other error.
pub data Received : Type 0 where
  received : Bytes → Received
  recv_again : Received
  recv_failed : Received

-- What the system calls on one connection return in one round of the main loop; `send` and
-- `sendfile` answer to the bytes that they are given.
pub record Io : Type 0 where
  pub recv : Received
  pub send_header : Bytes → Sent
  pub send_reply : Bytes → Sent

-- The new state, and the bytes that the kernel took for the connection's socket.
pub record Step : Type 0 where
  pub globals : Globals
  pub conn : Connection
  pub wire : Bytes

abbrev pub max_request_length : ℕ
max_request_length = 4000

abbrev pub add64 : ℕ → ℕ → ℕ
add64 a b = (a + b) % 2 ^ 64

abbrev pub close_conn : Connection → Connection
close_conn c = record c { conn_close = true; state = done }

-- The pointer or descriptor, the offset and the length that reach the kernel, as the bytes there.
-- `send_from_file` asks for at most 2^20 bytes.
offered_from : System → ReplyType → Option ℕ → Bytes → ℕ → ℕ → Bytes
offered_from sys reply_generated fd reply send_len start = take send_len (drop start reply)
offered_from sys reply_from_file none reply send_len start = []
offered_from sys reply_from_file (some fd) reply send_len start =
    take (min send_len (2 ^ 20)) (drop start (sys.file_bytes fd))

-- The bytes that `poll_send_reply` hands to `send` or `send_from_file`.
unfoldable pub offered_reply : Env → Connection → Bytes
unfolding offered_from
offered_reply e c =
    offered_from e.system c.reply_type c.reply_fd (text_of c.reply)
      (min (c.reply_length - c.reply_sent) (2 ^ 64 - 1)) (c.reply_start + c.reply_sent)

reply_taken : Globals → Connection → Bytes → ℕ → Step
reply_taken g c offered n =
    let total = c.reply_sent + n in
    record {
      globals = record g { total_out = add64 g.total_out n };
      conn = record c {
        reply_sent = total;
        total_sent = c.total_sent + n;
        state = if total == c.reply_length then done else c.state;
      };
      wire = take n offered;
    }

unfoldable pub poll_send_reply : Env → Globals → Connection → Sent → Step
unfolding offered_reply reply_taken
poll_send_reply e g c0 io =
    let c = record c0 { last_active = e.now } in
    elim io [
      | send_again ↦ record { globals = g; conn = c; wire = [] }
      | send_failed ↦ record { globals = g; conn = close_conn c; wire = [] }
      | sent n ↦
          if n == 0
          then record { globals = g; conn = close_conn c; wire = [] }
          else reply_taken g c (offered_reply e c0) n
    ]

-- The bytes that `poll_send_header` hands to `send`.
unfoldable pub offered_header : Connection → Bytes
offered_header c = take (c.header_length - c.header_sent) (drop c.header_sent (text_of c.header))

abbrev then_wire : Bytes → Step → Step
then_wire w s = record s { wire = w ++ s.wire }

-- Behind a `send` of header bytes `part`: is the header sent, and is it all there is to send?
behind_header : Bool → Bool → Env → Globals → Connection → Bytes → Sent → Step
unfolding poll_send_reply
behind_header false only e g c part io = record { globals = g; conn = c; wire = part }
behind_header true true e g c part io = record {
  globals = g;
  conn = record c { state = done };
  wire = part;
}
behind_header true false e g c part io =
    then_wire part (poll_send_reply e g (record c { state = send_reply }) io)

-- Behind a `send` of the header that took `n` bytes.
header_taken : Env → Globals → Connection → Bytes → ℕ → Sent → Step
unfolding behind_header
header_taken e g c offered n io =
    let total = c.header_sent + n in
    behind_header (total == c.header_length) c.header_only e
      (record g { total_out = add64 g.total_out n })
      (record c { header_sent = total; total_sent = c.total_sent + n }) (take n offered) io

unfoldable pub poll_send_header : Env → Globals → Connection → Sent → Sent → Step
unfolding offered_header header_taken
poll_send_header e g c0 io reply_io =
    let c = record c0 { last_active = e.now } in
    elim io [
      | send_again ↦ record { globals = g; conn = c; wire = [] }
      | send_failed ↦ record { globals = g; conn = close_conn c; wire = [] }
      | sent n ↦
          if n == 0
          then record { globals = g; conn = close_conn c; wire = [] }
          else header_taken e g c (offered_header c0) n reply_io
    ]

-- Does the request end in an empty line?
unfoldable pub is_complete : Connection → Bool
unfolding str_eq
is_complete c =
    let r = text_of c.request in
    ltb 2 c.request_length && str_eq (drop (c.request_length - 2) r) (codes "\n\n")
    || ltb 4 c.request_length && str_eq (drop (c.request_length - 4) r) (codes "\r\n\r\n")

-- The state after the bytes have been appended to the request.
unfoldable pub append_request : Env → Connection → Bytes → Connection
append_request e c bytes = record c {
  last_active = e.now;
  request = some (text_of c.request ++ bytes);
  request_length = c.request_length + length bytes;
}

-- `process_request`, with its counter, if the request is complete; then the check of its length.
unfoldable pub handle_request : Env → Globals → Connection → Globals × Connection
handle_request e g c =
    let full = is_complete c in
    let g1 = if full then record g { num_requests = add64 g.num_requests 1 } else g in
    let c1 = if full then process_request e c else c in
    let c2 =
      if ltb max_request_length c1.request_length
      then record (default_reply e c1 413 (text "Request Entity Too Large")
          (text "Your request was dropped because it was too long.")) { state = send_header }
      else c1 in
    (g1, c2)

abbrev is_send_header : State → Bool
is_send_header send_header = true
is_send_header _ = false

-- `poll_recv_request` behind its `recv`.
recv_step : Env → Globals → Connection → Io → Received → Step
unfolding append_request
recv_step e g c io recv_again = record { globals = g; conn = c; wire = [] }
recv_step e g c io recv_failed = record { globals = g; conn = close_conn c; wire = [] }
recv_step e g c io (received bytes) =
    let g1 = record g { total_in = add64 g.total_in (length bytes) } in
    let (g2, c2) = handle_request e g1 (append_request e c bytes) in
    if length bytes == 0
    then record { globals = g; conn = close_conn c; wire = [] }
    else if is_send_header c2.state
    then poll_send_header e g2 c2 (io.send_header (offered_header c2))
        (io.send_reply (offered_reply e c2))
    else record { globals = g2; conn = c2; wire = [] }

unfoldable pub poll_recv_request : Env → Globals → Connection → Io → Step
unfolding recv_step
poll_recv_request e g c io = recv_step e g c io io.recv
