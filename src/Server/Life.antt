-- ===== src/Server/Life.antt =====
-- The life of one connection from `accept` to the end, over any number of rounds of the main loop, as
-- a step relation.
use darkhttpd.Common.{ℕ, ◌≡◌, Bool, none, some, [], ◌++◌, Bytes, if◌then◌else◌}
use darkhttpd.Conn.{Connection, State, recv_request, ReplyType, poll_check_timeout}
use darkhttpd.Env.{Env}
use darkhttpd.Poll.{Globals, Io, Step, poll_recv_request}
use darkhttpd.Poll.Current.{at_time, bytes_of}
use darkhttpd.Poll.Valid.{IsHonest}
use darkhttpd.Server.{accepted_connection, is_set, visit}

-- The first read of a connection, in `accept_connection`.
abbrev pub first_step : Env → ℕ → Globals → ReplyType → ℕ → ℕ → Io → Step
first_step e now g garbage fd client io =
    poll_recv_request (at_time e now) g (accepted_connection (at_time e now) garbage fd client) io

-- What a visit reads from the socket of a connection: what `recv` brings where it is called.
unfoldable pub taken_in : State → Connection → (ℕ → Bool) → Io → Bytes
taken_in recv_request c rs io = if is_set rs c.socket then bytes_of io.recv else []
taken_in _ c rs io = []

unfoldable pub taken : Env → Connection → (ℕ → Bool) → Io → Bytes
taken e c rs io = let c1 = poll_check_timeout e c in taken_in c1.state c1 rs io

-- A connection of the list, with all that it has received and all that its socket has taken since it
-- was accepted: the time, the globals, the sets of `select` and the outcomes of the calls are any in
-- each round.
pub data Life (e : Env) : Connection → Bytes → Bytes → Type 0 where
  accepted :
      (now : ℕ) (g : Globals) (garbage : ReplyType) (fd client : ℕ) (io : Io)
      → IsHonest io
      → Life e
          (first_step e now g garbage fd client io).conn
          (bytes_of io.recv)
          (first_step e now g garbage fd client io).wire
  visited :
      {c c' : Connection} {r w : Bytes} (now : ℕ) (g : Globals) (rs ws : ℕ → Bool) (io : Io)
      → IsHonest io
      → Life e c r w
      → (visit (at_time e now) g c rs ws io).1 ≡ some c'
      → Life e c' (r ++ taken (at_time e now) c rs io) (w ++ (visit (at_time e now) g c rs ws io).2)

-- All that was received and sent on a connection, of one in the list or of one that was removed.
pub data Heard (e : Env) : Bytes → Bytes → Type 0 where
  so_far : {c : Connection} {r w : Bytes} → Life e c r w → Heard e r w
  to_the_end :
      {c : Connection} {r w : Bytes} (now : ℕ) (g : Globals) (rs ws : ℕ → Bool) (io : Io)
      → IsHonest io
      → Life e c r w
      → (visit (at_time e now) g c rs ws io).1 ≡ none
      → Heard e (r ++ taken (at_time e now) c rs io) (w ++ (visit (at_time e now) g c rs ws io).2)
