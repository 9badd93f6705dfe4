-- ===== src/Poll/Valid.antt =====
-- An invariant of a connection, by its state, for the handlers.
use darkhttpd.Common.{
  ℕ, ◌+◌, ◌≡◌, refl, sym, ◌∙◌, arith, inl, inr, ◌⊎◌, Bool, true, false, Bool-cases, [], ◌==◌, Bytes,
  take, length, length-append, ltb, text, if◌then◌else◌,
}
use darkhttpd.Conn.{Connection, State, recv_request, send_header, send_reply, done, text_of}
use darkhttpd.Env.{Env, System}
use darkhttpd.Poll.{
  Globals, Sent, sent, send_again, send_failed, Received, received, recv_again, recv_failed, Io,
  offered_reply, offered_header, poll_send_reply, poll_send_header, recv_step, poll_recv_request,
  handle_request, append_request, is_complete, max_request_length, is_send_header, add64,
  header_taken, behind_header, reply_taken,
}
use darkhttpd.Poll.Sending.{Takes, IsSending, poll_send_header-IsSending, poll_send_reply-IsSending}
use darkhttpd.Process.{process_request}
use darkhttpd.Reply.{default_reply}
use darkhttpd.Response.{IsFresh, IsBuilt, Stable}
use darkhttpd.Response.Replies.{default_reply-IsBuilt}
use darkhttpd.Response.Requests.{process_request-IsBuilt}

-- `send` and `sendfile` take no more than they are given.
pub record IsHonest (io : Io) : Type 0 where
  pub header_takes : (b : Bytes) → Takes (io.send_header b) b
  pub reply_takes : (b : Bytes) → Takes (io.send_reply b) b

abbrev pub Receives : Connection → Type 0
Receives c = IsFresh c × (length (text_of c.request) ≡ c.request_length)

abbrev pub ValidIn : State → System → Connection → Type 0
ValidIn recv_request sys c = Receives c
ValidIn send_header sys c = (w : Bytes) × IsSending sys c w
ValidIn send_reply sys c = (w : Bytes) × IsSending sys c w
ValidIn done sys c = Unit

-- A connection that receives has nothing sent and its request counted; one that sends has had a
-- prefix of its message taken; one that is done is about to be removed or reset.
abbrev pub IsValid : System → Connection → Type 0
IsValid sys c = ValidIn c.state sys c

pub built-IsSending :
    (sys : System) (c : Connection) → IsBuilt sys c → c.state ≡ send_header → IsSending sys c []
built-IsSending sys c b st = record {
  sent_so_far = rw b.unsent.2;
  header_whole = b.header_whole;
  body_whole = b.body_whole;
  in_header = λ e. (b.unsent.2 ∙ sym b.unsent.0, omega (arith, b.unsent.0), b.unsent.1);
  in_reply = λ e. cc;
  in_done = λ e k. cc;
}

-- A connection that sends is not left in the receiving state.
abbrev pub Sends : State → Type 0
Sends recv_request = ⊥
Sends _ = Unit

sending-IsValid :
    (s : State) (sys : System) (c : Connection) {w : Bytes}
    → c.state ≡ s
    → Sends s
    → IsSending sys c w
    → ValidIn s sys c
sending-IsValid recv_request sys c e h v = absurd h
sending-IsValid send_header sys c {w} e h v = (w, v)
sending-IsValid send_reply sys c {w} e h v = (w, v)
sending-IsValid done sys c e h v = tt

pub IsValid-IsSending :
    (s : State) (sys : System) (c : Connection)
    → ValidIn s sys c
    → (s ≡ send_header) ⊎ (s ≡ send_reply)
    → (w : Bytes) × IsSending sys c w
IsValid-IsSending send_header sys c v o = v
IsValid-IsSending send_reply sys c v o = v
IsValid-IsSending recv_request sys c v o = elim o [ inl st ↦ cc | inr st ↦ cc ]
IsValid-IsSending done sys c v o = elim o [ inl st ↦ cc | inr st ↦ cc ]

reply_taken-Sends :
    (g : Globals) (c : Connection) (offered : Bytes) (n : ℕ)
    → c.state ≡ send_reply
    → Sends (reply_taken g c offered n).conn.state
unfolding reply_taken
reply_taken-Sends g c offered n st = elim (Bool-cases (c.reply_sent + n == c.reply_length)) [
  | inl whole ↦ rw whole tt
  | inr part ↦ rw (part, st) tt
]

pub poll_send_reply-Sends :
    (e : Env) (g : Globals) (c : Connection) (io : Sent)
    → c.state ≡ send_reply
    → Sends (poll_send_reply e g c io).conn.state
unfolding poll_send_reply
poll_send_reply-Sends e g c send_again st = rw st tt
poll_send_reply-Sends e g c send_failed st = tt
poll_send_reply-Sends e g c (sent n) st = elim (Bool-cases (n == 0)) [
  | inl nothing ↦ rw nothing tt
  | inr some_bytes ↦
      rw some_bytes
        (reply_taken-Sends g (record c { last_active = e.now }) (offered_reply e c) n st)
]

behind_header-Sends :
    (full only : Bool) (e : Env) (g : Globals) (c : Connection) (part : Bytes) (io : Sent)
    → c.state ≡ send_header
    → Sends (behind_header full only e g c part io).conn.state
unfolding behind_header
behind_header-Sends false only e g c part io st = rw st tt
behind_header-Sends true true e g c part io st = tt
behind_header-Sends true false e g c part io st =
    poll_send_reply-Sends e g (record c { state = send_reply }) io refl

header_taken-Sends :
    (e : Env) (g : Globals) (c : Connection) (offered : Bytes) (n : ℕ) (io : Sent)
    → c.state ≡ send_header
    → Sends (header_taken e g c offered n io).conn.state
unfolding header_taken
header_taken-Sends e g c offered n io st =
    behind_header-Sends (c.header_sent + n == c.header_length) c.header_only e
      (record g { total_out = add64 g.total_out n })
      (record c { header_sent = c.header_sent + n; total_sent = c.total_sent + n }) (take n offered)
      io st

pub poll_send_header-Sends :
    (e : Env) (g : Globals) (c : Connection) (io reply_io : Sent)
    → c.state ≡ send_header
    → Sends (poll_send_header e g c io reply_io).conn.state
unfolding poll_send_header
poll_send_header-Sends e g c send_again r st = rw st tt
poll_send_header-Sends e g c send_failed r st = tt
poll_send_header-Sends e g c (sent n) r st = elim (Bool-cases (n == 0)) [
  | inl nothing ↦ rw nothing tt
  | inr some_bytes ↦
      rw some_bytes
        (header_taken-Sends e g (record c { last_active = e.now }) (offered_header c) n r st)
]

-- The state of a connection whose handler is `poll_send_reply` stays valid.
pub poll_send_reply-IsValid :
    (e : Env) (g : Globals) (c : Connection) (io : Sent)
    → c.state ≡ send_reply
    → IsValid e.system c
    → Takes io (offered_reply e c)
    → IsValid e.system (poll_send_reply e g c io).conn
poll_send_reply-IsValid e g c io st v t =
    let (w, sending) = IsValid-IsSending c.state e.system c v (inr st) in
    sending-IsValid _ e.system _ refl (poll_send_reply-Sends e g c io st)
      (poll_send_reply-IsSending e g c io sending st t)

pub poll_send_header-IsValid :
    (e : Env) (g : Globals) (c : Connection) (io reply_io : Sent)
    → c.state ≡ send_header
    → IsValid e.system c
    → Takes io (offered_header c)
    → Takes reply_io (offered_reply e c)
    → IsValid e.system (poll_send_header e g c io reply_io).conn
poll_send_header-IsValid e g c io r st v t rt =
    let (w, sending) = IsValid-IsSending c.state e.system c v (inl st) in
    sending-IsValid _ e.system _ refl (poll_send_header-Sends e g c io r st)
      (poll_send_header-IsSending e g c io r sending st t rt)

built-IsValid :
    (sys : System) (c : Connection) → IsBuilt sys c → IsValid sys (record c { state = send_header })
built-IsValid sys c b = (
  [],
  built-IsSending sys (record c { state = send_header })
      (record {
        unsent = b.unsent;
        header_whole = b.header_whole;
        body_whole = b.body_whole;
        answered = b.answered;
      })
      refl,
)

-- A request that is handled leaves a response that is ready to be sent; one that is not complete is
-- still received, or dropped for its length.
pub handle_request-IsValid :
    (e : Env) (g : Globals) (c : Connection)
    → Stable e.system
    → c.state ≡ recv_request
    → Receives c
    → IsValid e.system (handle_request e g c).1
unfolding handle_request
handle_request-IsValid e g c stable st r = elim (Bool-cases (is_complete c)) [
  | inl full ↦
      let (b, s) = process_request-IsBuilt e c stable r.0 in
      elim (Bool-cases (ltb max_request_length (process_request e c).request_length)) [
        | inl long ↦
            simp (full, long)
              (built-IsValid e.system
                (default_reply e (process_request e c) 413 (text "Request Entity Too Large")
                  (text "Your request was dropped because it was too long."))
                (default_reply-IsBuilt e (process_request e c) 413 _ _ b.unsent (omega arith)))
        | inr short ↦ simp (full, short, s) ([], built-IsSending e.system (process_request e c) b s)
      ]
  | inr part ↦ elim (Bool-cases (ltb max_request_length c.request_length)) [
    | inl long ↦
        simp (part, long)
          (built-IsValid e.system
            (default_reply e c 413 (text "Request Entity Too Large")
              (text "Your request was dropped because it was too long."))
            (default_reply-IsBuilt e c 413 _ _ r.0.0 (omega arith)))
    | inr short ↦ simp (part, short, st) r
  ]
]

pub sending_state : (s : State) → is_send_header s ≡ true → s ≡ send_header
sending_state recv_request e = cc
sending_state send_header e = refl
sending_state send_reply e = cc
sending_state done e = cc

pub appended :
    (e : Env) (c : Connection) (bytes : Bytes) → Receives c → Receives (append_request e c bytes)
unfolding append_request
appended e c bytes (f, l) = (f, omega (arith, length-append (text_of c.request) bytes))

behind_recv-IsValid :
    (b : Bool) (e : Env) (g : Globals) (c : Connection) (io : Io)
    → IsHonest io
    → is_send_header c.state ≡ b
    → IsValid e.system c
    → IsValid e.system
        (if b
          then poll_send_header e g c
              (io.send_header (offered_header c))
              (io.send_reply (offered_reply e c))
          else record { globals = g; conn = c; wire = [] }).conn
behind_recv-IsValid false e g c io honest st v = v
behind_recv-IsValid true e g c io honest st v =
    poll_send_header-IsValid e g c _ _ (sending_state c.state st) v (honest.header_takes _)
      (honest.reply_takes _)

recv_step-IsValid :
    (r : Received) (e : Env) (g : Globals) (c : Connection) (io : Io)
    → Stable e.system
    → IsHonest io
    → c.state ≡ recv_request
    → Receives c
    → IsValid e.system (recv_step e g c io r).conn
unfolding recv_step
recv_step-IsValid recv_again e g c io stable honest st r = rw st r
recv_step-IsValid recv_failed e g c io stable honest st r = tt
recv_step-IsValid (received bytes) e g c io stable honest st r =
    elim (Bool-cases (length bytes == 0)) [
      | inl closed ↦ simp closed tt
      | inr opened ↦
          let g1 = record g { total_in = add64 g.total_in (length bytes) } in
          let c1 = append_request e c bytes in
          simp opened (
            behind_recv-IsValid (is_send_header (handle_request e g1 c1).1.state) e
              (handle_request e g1 c1).0 (handle_request e g1 c1).1 io honest refl
              (handle_request-IsValid e g1 c1 stable st (appended e c bytes r)))
    ]

-- `poll_recv_request` on a connection that receives leaves a valid one, whatever is received,
-- through the handling of the request and the first attempt to send the response, if the files that
-- are served do not change and the calls take no more than they are given.
pub poll_recv_request-IsValid :
    (e : Env) (g : Globals) (c : Connection) (io : Io)
    → Stable e.system
    → IsHonest io
    → c.state ≡ recv_request
    → Receives c
    → IsValid e.system (poll_recv_request e g c io).conn
unfolding poll_recv_request
poll_recv_request-IsValid e g c io = recv_step-IsValid io.recv e g c io
