-- ===== src/Server/Transcript.antt =====
-- What a client hears on one connection from `accept` to the end, over any number of rounds of the
-- main loop.
use darkhttpd.Server.Life.{
  first_step, taken_in, taken, Life, accepted, visited, Heard, so_far, to_the_end,
}
use darkhttpd.Common.{
  ℕ, ◌+◌, ◌≡◌, refl, sym, ap, ◌∙◌, inl, inr, Bool, Bool-cases, Option, none, some, [], ◌++◌,
  append-nil, append_assoc, Bytes, ltb, leb, ◌&&◌,
}
use darkhttpd.Common.Int.{pos_part}
use darkhttpd.Conn.{
  Connection, State, recv_request, send_header, send_reply, done, ReplyType, poll_check_timeout,
  reset_connection, new_connection,
}
use darkhttpd.Env.{Env}
use darkhttpd.Poll.{Globals, Io}
use mathlib.Core.Path.{subst}
use darkhttpd.Poll.Current.{
  at_time, blank, Waits, bytes_of, IsAnswer, IsPart, CurrentIn, Current, poll_recv_request-Current,
  poll_send_header-Current, poll_send_reply-Current,
}
use darkhttpd.Poll.Message.{message}
use darkhttpd.Poll.Valid.{IsHonest}
use darkhttpd.Response.{Stable}
use darkhttpd.Server.{accepted_connection, recycle_connection, is_set, serve, clean_up, visit}
use darkhttpd.Server.Valid.{accepted-Receives}

-- Received bytes in pieces, with the whole answer to each.
pub data AnsweredOf (e : Env) : Bytes → Bytes → Type 0 where
  nothing : AnsweredOf e [] []
  also :
      {asked past q m : Bytes}
      → AnsweredOf e asked past
      → IsAnswer e q m
      → AnsweredOf e (asked ++ q) (past ++ m)

abbrev pub Answered : Env → Bytes → Bytes → Type 0
Answered e asked past = AnsweredOf (at_time e 0) asked past

-- The answers to what was received piece by piece, and the beginning of the answer to the last piece.
pub record IsTranscript (e : Env) (r w : Bytes) : Type 0 where
  pub asked : Bytes
  pub last_asked : Bytes
  pub past : Bytes
  pub part : Bytes
  pub received : r ≡ asked ++ last_asked
  pub sent : w ≡ past ++ part
  pub answered : Answered e asked past
  pub unfinished : IsPart e last_asked part

record Transcript (e : Env) (c : Connection) (r w : Bytes) : Type 0 where
  asked : Bytes
  q : Bytes
  past : Bytes
  current : Bytes
  received : r ≡ asked ++ q
  sent : w ≡ past ++ current
  answered : Answered e asked past
  now : Current e c q current

current-IsPart :
    (st : State) (e : Env) (c : Connection) (q w : Bytes) → CurrentIn st e c q w → IsPart e q w
current-IsPart recv_request e c q w v = inl v.1
current-IsPart send_header e c q w v = inr (message e.system c, v.1, c.total_sent, v.0.sent_so_far)
current-IsPart send_reply e c q w v = inr (message e.system c, v.1, c.total_sent, v.0.sent_so_far)
current-IsPart done e c q w v = v.0

unchanged :
    (st : State) (e : Env) (c : Connection) (q w : Bytes)
    → c.state ≡ st
    → CurrentIn st e c q w
    → Current e c (q ++ []) (w ++ [])
unchanged st e c q w e' v =
    rw (append-nil q, append-nil w) (subst (λ s. CurrentIn s e c q w) (sym e') v)

serve-Current :
    (st : State) (e : Env) (g : Globals) (c : Connection) (rs ws : ℕ → Bool) (io : Io) (q w : Bytes)
    → Stable e.system
    → IsHonest io
    → c.state ≡ st
    → CurrentIn st e c q w
    → let s = serve e g c rs ws io st in Current e s.conn (q ++ taken_in st c rs io) (w ++ s.wire)
unfolding serve taken_in
serve-Current recv_request e g c rs ws io q w stable honest st v =
    elim (Bool-cases (is_set rs c.socket)) [
      | inl readable ↦
          rw (readable, v.1) (poll_recv_request-Current e g c q io stable honest st v.0)
      | inr blocked ↦ rw blocked (unchanged recv_request e c q w st v)
    ]
serve-Current send_header e g c rs ws io q w stable honest st v =
    elim (Bool-cases (is_set ws c.socket)) [
      | inl writable ↦
          rw (writable, append-nil q)
            (poll_send_header-Current e g c _ _ q w st v.0 v.1 (honest.header_takes _)
              (honest.reply_takes _))
      | inr blocked ↦ rw blocked (unchanged send_header e c q w st v)
    ]
serve-Current send_reply e g c rs ws io q w stable honest st v =
    elim (Bool-cases (is_set ws c.socket)) [
      | inl writable ↦
          rw (writable, append-nil q)
            (poll_send_reply-Current e g c _ q w st v.0 v.1 (honest.reply_takes _))
      | inr blocked ↦ rw blocked (unchanged send_reply e c q w st v)
    ]
serve-Current done e g c rs ws io q w stable honest st v = unchanged done e c q w st v

check_timeout-Current :
    (e : Env) (c : Connection) (q w : Bytes)
    → Current e c q w
    → Current e (poll_check_timeout e c) q w
unfolding poll_check_timeout
check_timeout-Current e c q w v =
    elim (Bool-cases
      (ltb 0 (pos_part e.timeout_secs) && leb (c.last_active + pos_part e.timeout_secs) e.now)) [
        | inl idle ↦ rw idle (current-IsPart c.state e c q w v, λ q. cc)
        | inr active ↦ rw active v
      ]

-- What stands behind a visit that keeps the connection, or removes it.
Continues : Env → Option Connection → Bytes → Bytes → Type 0
Continues e none r w = IsTranscript e r w
Continues e (some c) r w = Transcript e c r w

clean_up-Continues :
    (st : State) (e : Env) (g : Globals) (c : Connection) (asked q past current : Bytes)
    → c.state ≡ st
    → Answered e asked past
    → CurrentIn st e c q current
    → Continues e (clean_up e g c st).1 (asked ++ q) (past ++ current)
unfolding clean_up Continues recycle_connection reset_connection blank new_connection
clean_up-Continues recv_request e g c asked q past current st a v = record {
  asked = asked;
  q = q;
  past = past;
  current = current;
  received = refl;
  sent = refl;
  answered = a;
  now = subst (λ s. CurrentIn s e c q current) (sym st) v;
}
clean_up-Continues send_header e g c asked q past current st a v = record {
  asked = asked;
  q = q;
  past = past;
  current = current;
  received = refl;
  sent = refl;
  answered = a;
  now = subst (λ s. CurrentIn s e c q current) (sym st) v;
}
clean_up-Continues send_reply e g c asked q past current st a v = record {
  asked = asked;
  q = q;
  past = past;
  current = current;
  received = refl;
  sent = refl;
  answered = a;
  now = subst (λ s. CurrentIn s e c q current) (sym st) v;
}
clean_up-Continues done e g c asked q past current st a v = elim (Bool-cases c.conn_close) [
  | inl closing ↦ rw closing (record {
    asked = asked;
    last_asked = q;
    past = past;
    part = current;
    received = refl;
    sent = refl;
    answered = a;
    unfinished = v.0;
  })
  | inr kept ↦ rw kept (record {
    asked = asked ++ q;
    q = [];
    past = past ++ current;
    current = [];
    received = sym (append-nil (asked ++ q));
    sent = sym (append-nil (past ++ current));
    answered = also a (v.1 kept);
    now = (((((refl, refl, refl), refl), refl), refl, refl), refl);
  })
]

visit-Continues :
    (e : Env) (g : Globals) (c : Connection) (rs ws : ℕ → Bool) (io : Io) (r w : Bytes)
    → Stable e.system
    → IsHonest io
    → Transcript e c r w
    → let v = visit e g c rs ws io in Continues e v.1 (r ++ taken e c rs io) (w ++ v.2)
unfolding visit taken
visit-Continues e g c rs ws io r w stable honest t =
    let c1 = poll_check_timeout e c in
    let s = serve e g c1 rs ws io c1.state in
    let more = taken_in c1.state c1 rs io in
    let now =
      serve-Current c1.state e g c1 rs ws io t.q t.current stable honest refl
        (check_timeout-Current e c t.q t.current t.now) in
    let sent : w ++ s.wire ≡ t.past ++ (t.current ++ s.wire) =
      ap (λ x. x ++ s.wire) t.sent ∙ append_assoc t.past t.current s.wire in
    let received : r ++ more ≡ t.asked ++ (t.q ++ more) =
      ap (λ x. x ++ more) t.received ∙ append_assoc t.asked t.q more in
    rw (sent, received)
      (clean_up-Continues s.conn.state e s.globals s.conn t.asked (t.q ++ more) t.past
        (t.current ++ s.wire) refl t.answered now)

-- The time at which the environment was taken does not matter.
Transcript-at_time :
    {e : Env} {c : Connection} {r w : Bytes} (now : ℕ)
    → Transcript e c r w
    → Transcript (at_time e now) c r w
Transcript-at_time now t = record {
  asked = t.asked;
  q = t.q;
  past = t.past;
  current = t.current;
  received = t.received;
  sent = t.sent;
  answered = t.answered;
  now = t.now;
}

Continues-from_time :
    (e : Env) (o : Option Connection) (r w : Bytes) (now : ℕ)
    → Continues (at_time e now) o r w
    → Continues e o r w
unfolding Continues
Continues-from_time e none r w now t = record {
  asked = t.asked;
  last_asked = t.last_asked;
  past = t.past;
  part = t.part;
  received = t.received;
  sent = t.sent;
  answered = t.answered;
  unfinished = t.unfinished;
}
Continues-from_time e (some c) r w now t = record {
  asked = t.asked;
  q = t.q;
  past = t.past;
  current = t.current;
  received = t.received;
  sent = t.sent;
  answered = t.answered;
  now = t.now;
}

accepted-Waits :
    (e : Env) (garbage : ReplyType) (fd client : ℕ)
    → Waits (accepted_connection e garbage fd client) []
unfolding accepted_connection blank new_connection
accepted-Waits e garbage fd client = ((accepted-Receives e garbage fd client).0, refl, refl)

Life-Transcript :
    {e : Env} {c : Connection} {r w : Bytes} → Stable e.system → Life e c r w → Transcript e c r w
unfolding Continues
Life-Transcript {e} stable (accepted now g garbage fd client io honest) = record {
  asked = [];
  q = bytes_of io.recv;
  past = [];
  current = (first_step e now g garbage fd client io).wire;
  received = refl;
  sent = refl;
  answered = nothing;
  now =
      poll_recv_request-Current (at_time e now) g _ [] io stable honest
        (accepted-Receives (at_time e now) garbage fd client).1
        (accepted-Waits (at_time e now) garbage fd client);
}
Life-Transcript {e} stable (visited {c} {c'} {r} {w} now g rs ws io honest life kept) =
    let t = Continues-from_time e _ _ _ now (
      visit-Continues (at_time e now) g c rs ws io r w stable honest
        (Transcript-at_time now (Life-Transcript stable life))) in
    rw kept at t

-- Whatever the clients send, what a connection receives from its `accept` on, over any number of
-- rounds and requests, falls into pieces, and what is sent on it are the whole answers to these
-- pieces, one behind the other, and then nothing or the beginning of the answer to the last one, if
-- `send` and `sendfile` take no more than they are given and the files that are served do not change;
-- the calls on files answer the same way throughout. An answer to a piece is what the same server
-- builds, at some time, for a connection that is new but for having received it.
pub Heard-IsTranscript :
    {e : Env} {r w : Bytes} → Stable e.system → Heard e r w → IsTranscript e r w
unfolding Continues
Heard-IsTranscript {e} stable (so_far {c} life) =
    let t = Life-Transcript stable life in
    record {
      asked = t.asked;
      last_asked = t.q;
      past = t.past;
      part = t.current;
      received = t.received;
      sent = t.sent;
      answered = t.answered;
      unfinished = current-IsPart c.state e c t.q t.current t.now;
    }
Heard-IsTranscript {e} stable (to_the_end {c} {r} {w} now g rs ws io honest life gone) =
    let t = Continues-from_time e _ _ _ now (
      visit-Continues (at_time e now) g c rs ws io r w stable honest
        (Transcript-at_time now (Life-Transcript stable life))) in
    rw gone at t
