-- ===== src/Poll/Current.antt =====
-- What of the current answer a connection's socket has taken, through each handler.
use darkhttpd.Common.{
  ℕ, ◌+◌, ◌≡◌, refl, ap, ◌∙◌, arith, inl, inr, ◌⊎◌, Bool, true, false, Bool-cases, [], ◌++◌, ◌==◌,
  Bytes, take, take_all, append-nil, sym, length, ltb, if◌then◌else◌,
}
use darkhttpd.Conn.{
  text_of, new_connection, Connection, State, recv_request, send_header, send_reply, done,
}
use darkhttpd.Env.{Env, System}
use darkhttpd.Poll.{
  Globals, Sent, sent, send_again, send_failed, Received, received, recv_again, recv_failed, Io,
  offered_reply, offered_header, poll_send_reply, poll_send_header, recv_step, handle_request,
  append_request, is_send_header, is_complete, max_request_length, poll_recv_request, Step, add64,
  header_taken, behind_header, reply_taken,
}
use darkhttpd.Poll.Message.{message}
use darkhttpd.Poll.Sending.{Takes, IsSending, poll_send_header-IsSending, poll_send_reply-IsSending}
use darkhttpd.Poll.Served.{handle_request-waits}
use darkhttpd.Process.{process_request}
use darkhttpd.Reply.{default_reply}
use darkhttpd.Response.Requests.{process_request-IsBuilt}
use darkhttpd.Poll.Valid.{
  IsHonest, IsValid-IsSending, Receives, Sends, poll_send_header-Sends, poll_send_reply-Sends,
  sending_state, appended, IsValid, handle_request-IsValid,
}
use darkhttpd.Response.{IsFresh, Stable}

-- The environment of a round: the time is another in each.
abbrev pub at_time : Env → ℕ → Env
at_time e now = record e { now = now }

-- A connection as `new_connection` makes it and `recycle_connection` leaves it, but for its socket,
-- its client, its time, and what it has received.
unfoldable pub blank : Connection → Connection
unfolding new_connection
blank c = record (new_connection c.last_active c.reply_type) {
  socket = c.socket;
  client = c.client;
  state = recv_request;
  request = c.request;
  request_length = c.request_length;
}

-- A text is the whole answer that a server of this configuration builds, at some time, for a
-- connection that has received the bytes `q` and nothing else.
pub record AnswerOf (e : Env) (q m : Bytes) : Type 0 where
  pub now : ℕ
  pub globals : Globals
  pub conn : Connection
  pub is_blank : conn ≡ blank conn
  pub request : text_of conn.request ≡ q
  pub request_length : conn.request_length ≡ length q
  pub answered : (handle_request (at_time e now) globals conn).1.state ≡ send_header
  pub is_message : m ≡ message e.system (handle_request (at_time e now) globals conn).1

-- The time of the configuration itself does not matter.
abbrev pub IsAnswer : Env → Bytes → Bytes → Type 0
IsAnswer e q m = AnswerOf (at_time e 0) q m

-- The beginning of an answer to `q`, or nothing.
abbrev pub IsPart : Env → Bytes → Bytes → Type 0
IsPart e q w = (w ≡ []) ⊎ ((m : Bytes) × IsAnswer e q m × (n : ℕ) × (w ≡ take n m))

abbrev pub Waits : Connection → Bytes → Type 0
Waits c q = Receives c × (c ≡ blank c) × (text_of c.request ≡ q)

-- What the socket has taken since the last answer was complete, and what the connection has received
-- since then, by the state of the connection.
abbrev pub CurrentOf : State → Env → Connection → Bytes → Bytes → Type 0
CurrentOf recv_request e c q w = Waits c q × (w ≡ [])
CurrentOf send_header e c q w = IsSending e.system c w × IsAnswer e q (message e.system c)
CurrentOf send_reply e c q w = IsSending e.system c w × IsAnswer e q (message e.system c)
CurrentOf done e c q w = IsPart e q w × (c.conn_close ≡ false → IsAnswer e q w)

abbrev pub CurrentIn : State → Env → Connection → Bytes → Bytes → Type 0
CurrentIn s e c q w = CurrentOf s (at_time e 0) c q w

abbrev pub Current : Env → Connection → Bytes → Bytes → Type 0
Current e c q w = CurrentIn c.state e c q w

reply_taken-message :
    (sys : System) (g : Globals) (c : Connection) (offered : Bytes) (n : ℕ)
    → message sys (reply_taken g c offered n).conn ≡ message sys c
unfolding reply_taken
reply_taken-message sys g c offered n = refl

poll_send_reply-message :
    (sys : System) (e : Env) (g : Globals) (c : Connection) (io : Sent)
    → message sys (poll_send_reply e g c io).conn ≡ message sys c
unfolding poll_send_reply reply_taken
poll_send_reply-message sys e g c send_again = refl
poll_send_reply-message sys e g c send_failed = refl
poll_send_reply-message sys e g c (sent n) = elim (Bool-cases (n == 0)) [
  | inl nothing ↦ rw nothing refl
  | inr bytes ↦ rw bytes refl
]

behind_header-message :
    (full only : Bool) (sys : System) (e : Env) (g : Globals) (c : Connection) (part : Bytes)
    (io : Sent)
    → message sys (behind_header full only e g c part io).conn ≡ message sys c
unfolding behind_header
behind_header-message false only sys e g c part io = refl
behind_header-message true true sys e g c part io = refl
behind_header-message true false sys e g c part io =
    poll_send_reply-message sys e g (record c { state = send_reply }) io

poll_send_header-message :
    (sys : System) (e : Env) (g : Globals) (c : Connection) (io reply_io : Sent)
    → message sys (poll_send_header e g c io reply_io).conn ≡ message sys c
unfolding poll_send_header header_taken
poll_send_header-message sys e g c send_again r = refl
poll_send_header-message sys e g c send_failed r = refl
poll_send_header-message sys e g c (sent n) r = elim (Bool-cases (n == 0)) [
  | inl nothing ↦ rw nothing refl
  | inr bytes ↦ rw bytes (
      behind_header-message (c.header_sent + n == c.header_length) c.header_only sys e
        (record g { total_out = add64 g.total_out n })
        (record c {
          last_active = e.now;
          header_sent = c.header_sent + n;
          total_sent = c.total_sent + n;
        })
        (take n (offered_header c)) r)
]

-- A connection that sends, in whatever state it is left.
sending-CurrentIn :
    (s : State) (e : Env) (c : Connection) (q w : Bytes)
    → c.state ≡ s
    → Sends s
    → IsSending e.system c w
    → IsAnswer e q (message e.system c)
    → CurrentIn s e c q w
sending-CurrentIn recv_request e c q w st h v a = absurd h
sending-CurrentIn send_header e c q w st h v a = (v, a)
sending-CurrentIn send_reply e c q w st h v a = (v, a)
sending-CurrentIn done e c q w st h v a = (
  inr (message e.system c, a, c.total_sent, v.sent_so_far),
  λ open_still.
      let whole : w ≡ message e.system c =
        v.sent_so_far
        ∙ take_all c.total_sent (message e.system c) (omega (arith, v.in_done st open_still)) in
      rw whole a,
)

pub poll_send_reply-Current :
    (e : Env) (g : Globals) (c : Connection) (io : Sent) (q w : Bytes)
    → c.state ≡ send_reply
    → IsSending e.system c w
    → IsAnswer e q (message e.system c)
    → Takes io (offered_reply e c)
    → let s = poll_send_reply e g c io in Current e s.conn q (w ++ s.wire)
poll_send_reply-Current e g c io q w st v a t =
    sending-CurrentIn _ e (poll_send_reply e g c io).conn q _ refl
      (poll_send_reply-Sends e g c io st) (poll_send_reply-IsSending e g c io v st t)
      (rw (poll_send_reply-message e.system e g c io) a)

pub poll_send_header-Current :
    (e : Env) (g : Globals) (c : Connection) (io reply_io : Sent) (q w : Bytes)
    → c.state ≡ send_header
    → IsSending e.system c w
    → IsAnswer e q (message e.system c)
    → Takes io (offered_header c)
    → Takes reply_io (offered_reply e c)
    → let s = poll_send_header e g c io reply_io in Current e s.conn q (w ++ s.wire)
poll_send_header-Current e g c io r q w st v a t rt =
    sending-CurrentIn _ e (poll_send_header e g c io r).conn q _ refl
      (poll_send_header-Sends e g c io r st) (poll_send_header-IsSending e g c io r v st t rt)
      (rw (poll_send_header-message e.system e g c io r) a)

handle_request-total_sent :
    (e : Env) (g : Globals) (c : Connection)
    → Stable e.system
    → IsFresh c
    → (handle_request e g c).1.total_sent ≡ 0
unfolding handle_request default_reply
handle_request-total_sent e g c stable f = elim (Bool-cases (is_complete c)) [
  | inl full ↦
      let b = (process_request-IsBuilt e c stable f).0 in
      elim (Bool-cases (ltb max_request_length (process_request e c).request_length)) [
        | inl long ↦ simp (full, long) b.unsent.2
        | inr short ↦ simp (full, short) b.unsent.2
      ]
  | inr part ↦ elim (Bool-cases (ltb max_request_length c.request_length)) [
    | inl long ↦ simp (part, long) f.0.2
    | inr short ↦ simp (part, short) f.0.2
  ]
]

unsent_yet :
    (sys : System) (c : Connection) (w : Bytes) → IsSending sys c w → c.total_sent ≡ 0 → w ≡ []
unsent_yet sys c w v z = v.sent_so_far ∙ ap (λ n. take n (message sys c)) z

sending_valid :
    (sys : System) (c : Connection)
    → c.state ≡ send_header
    → IsValid sys c
    → c.total_sent ≡ 0
    → IsSending sys c []
sending_valid sys c st v z =
    let (w, sending) = IsValid-IsSending c.state sys c v (inl st) in
    rw (unsent_yet sys c w sending z) at sending

-- Behind `handle_request`, with the response or with the rest of the request to come.
behind_recv-Current :
    (b : Bool) (e : Env) (g : Globals) (c : Connection) (q : Bytes) (io : Io)
    → IsHonest io
    → is_send_header c.state ≡ b
    → (b ≡ true → IsSending e.system c [] × IsAnswer e q (message e.system c))
    → (b ≡ false → Current e c q [])
    → let s : Step =
        if b
        then poll_send_header e g c
            (io.send_header (offered_header c))
            (io.send_reply (offered_reply e c))
        else record { globals = g; conn = c; wire = [] } in
      Current e s.conn q s.wire
behind_recv-Current false e g c q io honest st sends waits = waits refl
behind_recv-Current true e g c q io honest st sends waits =
    let (v, a) = sends refl in
    poll_send_header-Current e g c _ _ q [] (sending_state c.state st) v a (honest.header_takes _)
      (honest.reply_takes _)

waiting_in :
    (s : State) (e : Env) (c : Connection) (q : Bytes)
    → s ≡ recv_request
    → Waits c q
    → CurrentIn s e c q []
waiting_in s e c q st v = rw st (v, refl)

waiting-Current :
    (e : Env) (c : Connection) (q : Bytes) → c.state ≡ recv_request → Waits c q → Current e c q []
waiting-Current e c q st v = waiting_in c.state e c q st v

append_request-Waits :
    (e : Env) (c : Connection) (q bytes : Bytes)
    → Waits c q
    → Waits (append_request e c bytes) (q ++ bytes)
unfolding append_request blank
append_request-Waits e c q bytes (r, b, t) =
    (appended e c bytes r, ap (λ d. append_request e d bytes) b, ap (λ s. s ++ bytes) t)

-- What a call of `recv` has brought.
pub bytes_of : Received → Bytes
bytes_of (received bytes) = bytes
bytes_of _ = []

recv_step-Current :
    (r : Received) (e : Env) (g : Globals) (c : Connection) (q : Bytes) (io : Io)
    → Stable e.system
    → IsHonest io
    → c.state ≡ recv_request
    → Waits c q
    → let s = recv_step e g c io r in Current e s.conn (q ++ bytes_of r) s.wire
unfolding recv_step bytes_of
recv_step-Current recv_again e g c q io stable honest st v =
    rw (append-nil q) (waiting-Current e c q st v)
recv_step-Current recv_failed e g c q io stable honest st v = (inl refl, λ q. cc)
recv_step-Current (received bytes) e g c q io stable honest st v =
    elim (Bool-cases (length bytes == 0)) [
      | inl closed ↦ simp closed (inl refl, λ q. cc)
      | inr opened ↦
          let g1 = record g { total_in = add64 g.total_in (length bytes) } in
          let c1 = append_request e c bytes in
          let h = handle_request e g1 c1 in
          let (more, is_blank, text) = append_request-Waits e c q bytes v in
          simp opened (
            behind_recv-Current (is_send_header h.1.state) e h.0 h.1 (q ++ bytes) io honest refl
              (λ b.
                let ready = sending_state h.1.state b in
                (
                  sending_valid e.system h.1 ready (handle_request-IsValid e g1 c1 stable st more)
                      (handle_request-total_sent e g1 c1 stable more.0),
                  record {
                    now = e.now;
                    globals = g1;
                    conn = c1;
                    is_blank = is_blank;
                    request = text;
                    request_length = sym more.1 ∙ ap length text;
                    answered = ready;
                    is_message = refl;
                  },
                ))
              (λ b.
                rw (handle_request-waits e g1 c1 b).0
                  (waiting-Current e c1 (q ++ bytes) st (more, is_blank, text))))
    ]

-- What a connection that waits for a request has received and sent behind `poll_recv_request`.
pub poll_recv_request-Current :
    (e : Env) (g : Globals) (c : Connection) (q : Bytes) (io : Io)
    → Stable e.system
    → IsHonest io
    → c.state ≡ recv_request
    → Waits c q
    → let s = poll_recv_request e g c io in Current e s.conn (q ++ bytes_of io.recv) s.wire
unfolding poll_recv_request
poll_recv_request-Current e g c q io = recv_step-Current io.recv e g c q io
