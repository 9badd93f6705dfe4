-- ===== src/Server/Round.antt =====
-- The connections in a round of the main loop: their clocks, the lengths of their requests, and the
-- bytes that are counted.
use darkhttpd.Common.{
  ℕ, ◌+◌, ◌<◌, ◌≡◌, ◌⊎◌, refl, arith, inl, inr, Bool, Bool-cases, Option, none, some, ltb, leb,
  ◌&&◌, Bytes, length,
}
use darkhttpd.Common.Int.{pos_part}
use darkhttpd.Conn.{
  Connection, State, recv_request, send_header, send_reply, done, poll_check_timeout,
  reset_connection,
}
use darkhttpd.Env.{Env}
use darkhttpd.Poll.{Globals, Io}
use darkhttpd.Poll.Answers.{Counts, poll_send_header-Answers, poll_send_reply-Answers}
use darkhttpd.Poll.Served.{IsBounded, Served, Answers-Served, idle-Served, poll_recv_request-Served}
use darkhttpd.Poll.Valid.{IsHonest}
use darkhttpd.Server.{free_connection, recycle_connection, is_set, serve, clean_up, visit}

-- With a timeout, the last activity was less than that ago.
abbrev pub IsRecent : Env → Connection → Type 0
IsRecent e c = 0 < pos_part e.timeout_secs → e.now < c.last_active + pos_part e.timeout_secs

-- What holds of what is left of a connection.
abbrev pub Kept : Env → Connection → Option Connection → Type 0
Kept e c none = Unit
Kept e c (some c') = IsRecent e c' × (IsBounded c → IsBounded c')

pub record Visited (e : Env) (g : Globals) (c : Connection)
    (r : Globals × Option Connection × Bytes) : Type 0 where
  pub kept : Kept e c r.1
  pub counted : Counts g r.0 (length r.2)

serve-Served :
    (st : State) (e : Env) (g : Globals) (c : Connection) (rs ws : ℕ → Bool) (io : Io)
    → IsHonest io
    → c.state ≡ st
    → Served e g c (serve e g c rs ws io st)
unfolding serve
serve-Served recv_request e g c rs ws io honest st = elim (Bool-cases (is_set rs c.socket)) [
  | inl readable ↦ rw readable (poll_recv_request-Served e g c io honest)
  | inr blocked ↦ rw blocked (idle-Served e g c)
]
serve-Served send_header e g c rs ws io honest st = elim (Bool-cases (is_set ws c.socket)) [
  | inl writable ↦ rw writable (
      Answers-Served e g c _ (
        poll_send_header-Answers e g c _ _ (rw st (λ q. cc)) (honest.header_takes _)
          (honest.reply_takes _)))
  | inr blocked ↦ rw blocked (idle-Served e g c)
]
serve-Served send_reply e g c rs ws io honest st = elim (Bool-cases (is_set ws c.socket)) [
  | inl writable ↦ rw writable (
      Answers-Served e g c _
        (poll_send_reply-Answers e g c _ (rw st (λ q. cc)) (honest.reply_takes _)))
  | inr blocked ↦ rw blocked (idle-Served e g c)
]
serve-Served done e g c rs ws io honest st = idle-Served e g c

clean_up-Visited :
    (st : State) (e : Env) (g0 g : Globals) (c0 c : Connection) (wire : Bytes)
    → IsRecent e c
    → (IsBounded c0 → IsBounded c)
    → Counts g0 g (length wire)
    → let r = clean_up e g c st in Visited e g0 c0 (r.0, r.1, wire)
unfolding clean_up recycle_connection free_connection reset_connection
clean_up-Visited recv_request e g0 g c0 c wire a b k = record { kept = (a, b); counted = k }
clean_up-Visited send_header e g0 g c0 c wire a b k = record { kept = (a, b); counted = k }
clean_up-Visited send_reply e g0 g c0 c wire a b k = record { kept = (a, b); counted = k }
clean_up-Visited done e g0 g c0 c wire a b k = elim (Bool-cases c.conn_close) [
  | inl close ↦ simp close (record { kept = tt; counted = k })
  | inr open_still ↦ simp open_still (record { kept = (a, λ z q. omega arith); counted = k })
]

IsRecent-still :
    (e : Env) (c c' : Connection)
    → IsRecent e c
    → (c'.last_active ≡ e.now) ⊎ (c'.last_active ≡ c.last_active)
    → IsRecent e c'
IsRecent-still e c c' r (inl now) t = omega (arith, t, now)
IsRecent-still e c c' r (inr same) t = omega (arith, r t, same)

pub visit-Visited :
    (e : Env) (g : Globals) (c : Connection) (rs ws : ℕ → Bool) (io : Io)
    → IsHonest io
    → Visited e g c (visit e g c rs ws io)
unfolding visit poll_check_timeout serve clean_up free_connection
visit-Visited e g c rs ws io honest =
    let T = pos_part e.timeout_secs in
    elim (Bool-cases (ltb 0 T && leb (c.last_active + T) e.now)) [
      | inl idle ↦ simp idle (record { kept = tt; counted = omega arith })
      | inr recent ↦
          let s = serve e g c rs ws io c.state in
          let r = serve-Served c.state e g c rs ws io honest refl in
          simp recent (
            clean_up-Visited s.conn.state e g s.globals c s.conn s.wire
              (IsRecent-still e c s.conn (λ t. ground arith) r.active) r.bounded r.counted)
    ]
