-- ===== src/Server.antt =====
-- The main loop of darkhttpd.c: `accept_connection`, `free_connection`, `recycle_connection` and
-- `httpd_poll`. What `select`, `accept` and `time` return is an argument.
pub mod Counted
pub mod Round
pub mod Life
pub mod Transcript
pub mod Valid
use darkhttpd.Common.{
  ℕ, zero, suc, ◌+◌, Bool, true, false, not, ◌&&◌, ◌||◌, Option, none, some, List, [], ◌∷◌, ◌++◌,
  ◌==◌, ltb, leb, if◌then◌else◌, Bytes,
}
use darkhttpd.Conn.{
  Connection, State, recv_request, send_header, send_reply, done, ReplyType, new_connection,
  reset_connection, poll_check_timeout,
}
use darkhttpd.Common.Int.{is_zero}
use darkhttpd.Env.{Env}
use darkhttpd.Log.{log_connection}
use darkhttpd.Poll.{
  Globals, Io, Step, offered_header, offered_reply, poll_recv_request, poll_send_header,
  poll_send_reply,
}

-- The server between two rounds: the globals, `connlist` from its head, and the cached time.
pub record Server : Type 0 where
  pub globals : Globals
  pub connlist : List Connection
  pub now : ℕ

-- `accept`: a descriptor and the peer's address; EMFILE or ENFILE; any other error.
pub data Accepted : Type 0 where
  accepted : ℕ → ℕ → Accepted
  out_of_files : Accepted
  accept_failed : Accepted

-- `select`: the sockets to receive from and to send to, and whether `sockin` is ready; or the timeout,
-- an interruption by a signal, or any other error.
pub data Selected : Type 0 where
  ready : (ℕ → Bool) → (ℕ → Bool) → Bool → Selected
  timed_out : Selected
  interrupted : Selected
  select_failed : Selected

-- What the system gives to one round. `garbage` is what a new allocation holds.
pub record Inputs : Type 0 where
  pub selected : Selected
  pub time : ℕ
  pub accept : Accepted
  pub accept_io : Io
  pub io : ℕ → Io
  pub garbage : ReplyType

-- The new state of the server and the bytes that each socket took, or the exit by `err` or `errx`.
pub data Outcome : Type 0 where
  running : Server → List (Option ℕ × Bytes) → Outcome
  exited : Outcome

abbrev append_line : List Bytes → Option Bytes → List Bytes
append_line log none = log
append_line log (some line) = log ++ line ∷ []

-- `free_connection` closes the descriptors and frees the buffers; what stays is the log and `accepting`.
unfoldable pub free_connection : Env → Globals → Connection → Globals
free_connection e g c = record g { log = append_line g.log (log_connection e c); accepting = true }

-- `free_connection` is called with the socket hidden, and neither closes nor logs it.
unfoldable pub recycle_connection : Env → Globals → Connection → Globals × Connection
recycle_connection e g c = (free_connection e g (record c { socket = none }), reset_connection c)

abbrev pub is_set : (ℕ → Bool) → Option ℕ → Bool
is_set fds none = false
is_set fds (some fd) = fds fd

abbrev pub io_of : (ℕ → Io) → Io → Option ℕ → Io
io_of io default none = default
io_of io default (some fd) = io fd

-- The switch of `httpd_poll`.
unfoldable pub serve : Env → Globals → Connection → (ℕ → Bool) → (ℕ → Bool) → Io → State → Step
serve e g c recv_set send_set io recv_request =
    if is_set recv_set c.socket
    then poll_recv_request e g c io
    else record { globals = g; conn = c; wire = [] }
serve e g c recv_set send_set io send_header =
    if is_set send_set c.socket
    then poll_send_header e g c (io.send_header (offered_header c))
        (io.send_reply (offered_reply e c))
    else record { globals = g; conn = c; wire = [] }
serve e g c recv_set send_set io send_reply =
    if is_set send_set c.socket
    then poll_send_reply e g c (io.send_reply (offered_reply e c))
    else record { globals = g; conn = c; wire = [] }
serve e g c recv_set send_set io done = record { globals = g; conn = c; wire = [] }

-- A finished connection is removed (`none`) or made ready for another request.
unfoldable pub clean_up : Env → Globals → Connection → State → Globals × Option Connection
clean_up e g c done =
    if c.conn_close
    then (free_connection e g c, none)
    else let (g', c') = recycle_connection e g c in (g', some c')
clean_up e g c _ = (g, some c)

-- One connection in the loop: the timeout, the switch, the clean-up.
unfoldable pub visit :
    Env → Globals → Connection → (ℕ → Bool) → (ℕ → Bool) → Io → Globals × Option Connection × Bytes
visit e g c recv_set send_set io =
    let c1 = poll_check_timeout e c in
    let s = serve e g c1 recv_set send_set io c1.state in
    let (g', kept) = clean_up e s.globals s.conn s.conn.state in (g', kept, s.wire)

abbrev pub keep_conn : Option Connection → List Connection → List Connection
keep_conn none cs = cs
keep_conn (some c) cs = c ∷ cs

-- The loop over `connlist`: the globals, the connections that stay, and the bytes sent.
unfoldable pub visit_all :
    Env
    → Globals
    → List Connection
    → (ℕ → Bool)
    → (ℕ → Bool)
    → Inputs
    → Globals × List Connection × List (Option ℕ × Bytes)
visit_all e g [] recv_set send_set inputs = (g, [], [])
visit_all e g (c ∷ cs) recv_set send_set inputs =
    let (g1, kept, wire) =
      visit e g c recv_set send_set (io_of inputs.io inputs.accept_io c.socket) in
    let (g2, rest, wires) = visit_all e g1 cs recv_set send_set inputs in
    (g2, keep_conn kept rest, (c.socket, wire) ∷ wires)

-- The connection as `accept_connection` puts it at the head of the list.
unfoldable pub accepted_connection : Env → ReplyType → ℕ → ℕ → Connection
unfolding new_connection
accepted_connection e garbage fd client = record (new_connection e.now garbage) {
  socket = some fd;
  state = recv_request;
  client = client;
}

-- `accept_connection` behind its `accept`: with a read from the socket straight away.
unfoldable pub accept_step :
    Env → Globals → Inputs → Accepted → Globals × Option Connection × List (Option ℕ × Bytes)
accept_step e g inputs out_of_files = (record g { accepting = false }, none, [])
accept_step e g inputs accept_failed = (g, none, [])
accept_step e g inputs (accepted fd client) =
    let s =
      poll_recv_request e g (accepted_connection e inputs.garbage fd client) inputs.accept_io in
    (s.globals, some s.conn, (some fd, s.wire) ∷ [])

unfoldable pub accept_connection :
    Env → Globals → Inputs → Globals × Option Connection × List (Option ℕ × Bytes)
unfolding accept_step
accept_connection e g inputs = accept_step e g inputs inputs.accept

-- Does some connection wait for I/O?
unfoldable pub some_active : List Connection → Bool
some_active [] = false
some_active (c ∷ cs) = elim c.state [ done ↦ some_active cs | _ ↦ true ]

-- From the update of the time on.
unfoldable pub poll_ready : Env → Server → (ℕ → Bool) → (ℕ → Bool) → Bool → Inputs → Outcome
poll_ready e0 s recv_set send_set sockin inputs =
    let e = record e0 { now = inputs.time } in
    let (g1, fresh, first) =
      if sockin then accept_connection e s.globals inputs else (s.globals, none, []) in
    let (g2, conns, wires) = visit_all e g1 (keep_conn fresh s.connlist) recv_set send_set inputs in
    running (record { globals = g2; connlist = conns; now = inputs.time }) (first ++ wires)

-- `httpd_poll` behind its `select`.
unfoldable pub select_step : Env → Server → Inputs → Selected → Outcome
select_step e s inputs (ready recv_set send_set sockin) =
    poll_ready e s recv_set send_set (s.globals.accepting && sockin) inputs
select_step e s inputs timed_out =
    if some_active s.connlist && not (is_zero e.timeout_secs)
    then poll_ready e s (λ _. false) (λ _. false) false inputs
    else exited
select_step e s inputs interrupted = running s []
select_step e s inputs select_failed = exited

unfoldable pub httpd_poll : Env → Server → Inputs → Outcome
unfolding select_step
httpd_poll e s inputs = select_step e s inputs inputs.selected
