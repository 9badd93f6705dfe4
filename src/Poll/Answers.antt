-- ===== src/Poll/Answers.antt =====
-- What the handlers do to the clock of a connection, to its state and to the count of bytes sent.
use darkhttpd.Common.{
  ℕ, ◌+◌, ◌%◌, ◌^◌, ◌≤◌, ◌≡◌, ◌≢◌, refl, arith, inl, inr, Bool, true, false, Bool-cases, ◌==◌,
  Bytes, take, length, length-take, length-append,
}
use darkhttpd.Conn.{Connection, recv_request, send_reply}
use darkhttpd.Env.{Env}
use darkhttpd.Poll.{
  Globals, Sent, sent, send_again, send_failed, Step, add64, offered_header, offered_reply,
  reply_taken, poll_send_reply, behind_header, header_taken, poll_send_header,
}
use darkhttpd.Poll.Sending.{Takes}

-- The total is that of `g` with so many bytes more.
abbrev pub Counts : Globals → Globals → ℕ → Type 0
Counts g g' count = g'.total_out % 2 ^ 64 ≡ (g.total_out + count) % 2 ^ 64

-- A step that sends: the connection was active now and no longer waits for a request.
pub record Answers (e : Env) (g : Globals) (s : Step) : Type 0 where
  pub active : s.conn.last_active ≡ e.now
  pub answering : s.conn.state ≢ recv_request
  pub counted : Counts g s.globals (length s.wire)

counted_take :
    (total n : ℕ) (offered : Bytes)
    → n ≤ length offered
    → add64 total n % 2 ^ 64 ≡ (total + length (take n offered)) % 2 ^ 64
counted_take total n offered t = omega (arith, length-take n offered)

taken-Answers :
    (e : Env) (g : Globals) (c : Connection) (offered : Bytes) (n : ℕ)
    → c.last_active ≡ e.now
    → c.state ≢ recv_request
    → n ≤ length offered
    → Answers e g (reply_taken g c offered n)
unfolding reply_taken
taken-Answers e g c offered n a st t =
    let k = counted_take g.total_out n offered t in
    elim (Bool-cases (c.reply_sent + n == c.reply_length)) [
      | inl full ↦ simp full (record { active = a; answering = λ q. cc; counted = k })
      | inr part ↦ simp part (record { active = a; answering = st; counted = k })
    ]

pub poll_send_reply-Answers :
    (e : Env) (g : Globals) (c : Connection) (io : Sent)
    → c.state ≢ recv_request
    → Takes io (offered_reply e c)
    → Answers e g (poll_send_reply e g c io)
unfolding poll_send_reply
poll_send_reply-Answers e g c send_again st t = record {
  active = refl;
  answering = st;
  counted = omega arith;
}
poll_send_reply-Answers e g c send_failed st t = record {
  active = refl;
  answering = λ q. cc;
  counted = omega arith;
}
poll_send_reply-Answers e g c (sent n) st t = elim (Bool-cases (n == 0)) [
  | inl nothing ↦ rw nothing (record { active = refl; answering = λ q. cc; counted = omega arith })
  | inr bytes ↦
      rw bytes
        (taken-Answers e g (record c { last_active = e.now }) (offered_reply e c) n refl st t)
]

behind_header-Answers :
    (full only : Bool) (e : Env) (g : Globals) (c : Connection) (part : Bytes) (n : ℕ) (io : Sent)
    → c.last_active ≡ e.now
    → c.state ≢ recv_request
    → length part ≡ n
    → Takes io (offered_reply e c)
    → Answers e g
        (behind_header full only e (record g { total_out = add64 g.total_out n }) c part io)
unfolding behind_header offered_reply
behind_header-Answers false only e g c part n io a st l t = record {
  active = a;
  answering = st;
  counted = omega (arith, l);
}
behind_header-Answers true true e g c part n io a st l t = record {
  active = a;
  answering = λ q. cc;
  counted = omega (arith, l);
}
behind_header-Answers true false e g c part n io a st l t =
    let g1 = record g { total_out = add64 g.total_out n } in
    let c1 = record c { state = send_reply } in
    let r = poll_send_reply-Answers e g1 c1 io (λ q. cc) t in
    record {
      active = r.active;
      answering = r.answering;
      counted = omega (arith, l, r.counted, length-append part (poll_send_reply e g1 c1 io).wire);
    }

pub poll_send_header-Answers :
    (e : Env) (g : Globals) (c : Connection) (io reply_io : Sent)
    → c.state ≢ recv_request
    → Takes io (offered_header c)
    → Takes reply_io (offered_reply e c)
    → Answers e g (poll_send_header e g c io reply_io)
unfolding poll_send_header header_taken offered_header offered_reply
poll_send_header-Answers e g c send_again r st t k = record {
  active = refl;
  answering = st;
  counted = omega arith;
}
poll_send_header-Answers e g c send_failed r st t k = record {
  active = refl;
  answering = λ q. cc;
  counted = omega arith;
}
poll_send_header-Answers e g c (sent n) r st t k = elim (Bool-cases (n == 0)) [
  | inl nothing ↦ rw nothing (record { active = refl; answering = λ q. cc; counted = omega arith })
  | inr bytes ↦
      let c1 = record c {
        last_active = e.now;
        header_sent = c.header_sent + n;
        total_sent = c.total_sent + n;
      } in
      let part = take n (offered_header c) in
      rw bytes (
        behind_header-Answers (c.header_sent + n == c.header_length) c.header_only e g c1 part n r
          refl st (omega (arith, length-take n (offered_header c))) k)
]
