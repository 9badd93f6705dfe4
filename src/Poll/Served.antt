-- ===== src/Poll/Served.antt =====
-- What a handler does to the clock of a connection, the length of its request, and the count of bytes
-- sent, `poll_recv_request` included.
use darkhttpd.Common.{
  ◌≤◌, ◌≡◌, ◌≢◌, ◌⊎◌, refl, arith, inl, inr, Bool, true, false, Bool-cases, [], ◌==◌, ltb,
  if◌then◌else◌, length,
}
use darkhttpd.Conn.{Connection, State, recv_request, send_header, send_reply, done}
use darkhttpd.Env.{Env}
use darkhttpd.Poll.{
  Globals, Io, Received, received, recv_again, recv_failed, Step, add64, max_request_length,
  offered_header, offered_reply, poll_send_header, append_request, handle_request, is_complete,
  is_send_header, recv_step, poll_recv_request,
}
use darkhttpd.Poll.Answers.{Counts, Answers, poll_send_header-Answers}
use darkhttpd.Poll.Valid.{IsHonest}
use darkhttpd.Process.{process_request}

-- A request that is waited for is not longer than the limit.
abbrev pub IsBounded : Connection → Type 0
IsBounded c = c.state ≡ recv_request → c.request_length ≤ max_request_length

-- What a handler does to a connection.
pub record Served (e : Env) (g : Globals) (c : Connection) (s : Step) : Type 0 where
  pub active : (s.conn.last_active ≡ e.now) ⊎ (s.conn.last_active ≡ c.last_active)
  pub bounded : IsBounded c → IsBounded s.conn
  pub counted : Counts g s.globals (length s.wire)

pub Answers-Served :
    (e : Env) (g : Globals) (c : Connection) (s : Step) → Answers e g s → Served e g c s
Answers-Served e g c s a = record {
  active = inl a.active;
  bounded = λ b q. absurd (a.answering q);
  counted = a.counted;
}

pub idle-Served :
    (e : Env) (g : Globals) (c : Connection)
    → Served e g c (record { globals = g; conn = c; wire = [] })
idle-Served e g c = record { active = inr refl; bounded = λ b. b; counted = omega arith }

handle_request-total_out :
    (e : Env) (g : Globals) (c : Connection) → (handle_request e g c).0.total_out ≡ g.total_out
unfolding handle_request
handle_request-total_out e g c = elim (Bool-cases (is_complete c)) [
  | inl full ↦ rw full refl
  | inr part ↦ rw part refl
]

-- A connection that still waits behind `handle_request` is the same, and not too long.
pub handle_request-waits :
    (e : Env) (g : Globals) (c : Connection)
    → is_send_header (handle_request e g c).1.state ≡ false
    → ((handle_request e g c).1 ≡ c) × (c.request_length ≤ max_request_length)
unfolding handle_request process_request
handle_request-waits e g c h = elim (Bool-cases (is_complete c)) [
  | inl full ↦ elim (Bool-cases (ltb max_request_length (process_request e c).request_length)) [
    | inl long ↦ cc (simp (full, long) at h)
    | inr short ↦ cc (simp (full, short) at h)
  ]
  | inr part ↦ elim (Bool-cases (ltb max_request_length c.request_length)) [
    | inl long ↦ cc (simp (part, long) at h)
    | inr short ↦ simp (part, short) (refl, ground arith)
  ]
]

send_header_state : (st : State) → is_send_header st ≡ true → st ≢ recv_request
send_header_state recv_request h = cc
send_header_state send_header h = λ q. cc
send_header_state send_reply h = λ q. cc
send_header_state done h = λ q. cc

behind_recv-Served :
    (b : Bool) (e : Env) (g : Globals) (c0 c : Connection) (io : Io)
    → IsHonest io
    → is_send_header c.state ≡ b
    → (b ≡ false → (c.last_active ≡ e.now) × (c.request_length ≤ max_request_length))
    → Served e g c0 (
        if b
        then poll_send_header e g c
            (io.send_header (offered_header c))
            (io.send_reply (offered_reply e c))
        else record { globals = g; conn = c; wire = [] })
behind_recv-Served false e g c0 c io honest st w = record {
  active = inl (w refl).0;
  bounded = λ b q. (w refl).1;
  counted = omega arith;
}
behind_recv-Served true e g c0 c io honest st w = Answers-Served e g c0 _ (
    poll_send_header-Answers e g c _ _ (send_header_state c.state st) (honest.header_takes _)
      (honest.reply_takes _))

recv_step-Served :
    (r : Received) (e : Env) (g : Globals) (c : Connection) (io : Io)
    → IsHonest io
    → Served e g c (recv_step e g c io r)
unfolding recv_step append_request
recv_step-Served recv_again e g c io honest = idle-Served e g c
recv_step-Served recv_failed e g c io honest = record {
  active = inr refl;
  bounded = λ b q. cc;
  counted = omega arith;
}
recv_step-Served (received bytes) e g c io honest = elim (Bool-cases (length bytes == 0)) [
  | inl closed ↦
      rw closed (record { active = inr refl; bounded = λ b q. cc; counted = omega arith })
  | inr opened ↦
      let g1 = record g { total_in = add64 g.total_in (length bytes) } in
      let c1 = append_request e c bytes in
      let r = handle_request e g1 c1 in
      let s = behind_recv-Served (is_send_header r.1.state) e r.0 c r.1 io honest refl (λ w.
        let (same, short) = handle_request-waits e g1 c1 w in (rw same refl, rw same short)) in
      rw opened (record {
        active = s.active;
        bounded = s.bounded;
        counted = omega (arith, s.counted, handle_request-total_out e g1 c1);
      })
]

pub poll_recv_request-Served :
    (e : Env) (g : Globals) (c : Connection) (io : Io)
    → IsHonest io
    → Served e g c (poll_recv_request e g c io)
unfolding poll_recv_request
poll_recv_request-Served e g c io = recv_step-Served io.recv e g c io
