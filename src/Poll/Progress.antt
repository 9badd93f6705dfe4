-- ===== src/Poll/Progress.antt =====
-- How far `poll_send_reply` gets in successive rounds.
use darkhttpd.Common.{
  ℕ, zero, suc, ◌+◌, ◌-◌, ◌^◌, ◌≤◌, ◌<◌, ◌≡◌, ◌⊎◌, ==_iff, ap, sym, ◌∙◌, refl, arith, min, inl, inr,
  Bool, true, false, Option, none, some, [], Bytes, take, drop, length, length-take, length-drop,
  ◌==◌, if◌then◌else◌,
}
use darkhttpd.Conn.{
  Connection, ReplyType, reply_generated, reply_from_file, State, send_reply, done, text_of,
}
use darkhttpd.Env.{Env, System}
use darkhttpd.Poll.{Globals, sent, offered_from, offered_reply, poll_send_reply, reply_taken}
use darkhttpd.Poll.Message.{body, source_from}

abbrev is_done : State → Bool
is_done done = true
is_done _ = false

-- The rounds of the main loop on a connection that sends its reply, through a socket that takes
-- `takes b` of the bytes `b` it is given.
unfoldable pub send_rounds : ℕ → Env → Globals → Connection → (Bytes → ℕ) → Connection
send_rounds zero e g c takes = c
send_rounds (suc k) e g c takes =
    let s = poll_send_reply e g c (sent (takes (offered_reply e c))) in
    let rest = send_rounds k e s.globals s.conn takes in
    if is_done s.conn.state then s.conn else rest

-- A socket that takes something of what is not empty.
abbrev pub IsWilling : (Bytes → ℕ) → Type 0
IsWilling takes = (b : Bytes) → 0 < length b → (0 < takes b) × (takes b ≤ length b)

nothing : (len start : ℕ) → length {A = ℕ} (take len (drop start [])) ≡ len → len ≡ 0
nothing len start whole =
    omega (arith, length-take {A = ℕ} len (drop start []), length-drop {A = ℕ} start [])

nonzero_test : (n : ℕ) → 0 < n → (n == 0) ≡ false
nonzero_test n h = ground arith

chunk-length :
    (src : Bytes) (m len start before : ℕ)
    → length (take len (drop start src)) ≡ len
    → 0 < m
    → m ≤ len - before
    → before < len
    → (0 < length (take m (drop (start + before) src)))
      × (length (take m (drop (start + before) src)) ≤ len - before)
chunk-length src m len start before whole pos fits h =
    let all = length-take len (drop start src) in
    let behind = length-drop start src in
    let part = length-take m (drop (start + before) src) in
    let left = length-drop (start + before) src in (omega arith, omega arith)

offered_from-length :
    (sys : System) (t : ReplyType) (fd : Option ℕ) (reply : Bytes) (len start before : ℕ)
    → length (take len (drop start (source_from sys t fd reply))) ≡ len
    → before < len
    → let offered =
        offered_from sys t fd reply (min (len - before) (2 ^ 64 - 1)) (start + before) in
      (0 < length offered) × (length offered ≤ len - before)
unfolding offered_from
offered_from-length sys reply_generated fd reply len start before whole h =
    chunk-length reply _ len start before whole (omega arith) (omega arith) h
offered_from-length sys reply_from_file none reply len start before whole h =
    absurd (omega (arith, nothing len start whole))
offered_from-length sys reply_from_file (some fd) reply len start before whole h =
    chunk-length (sys.file_bytes fd) _ len start before whole (omega arith) (omega arith) h

offered_reply-length :
    (e : Env) (c : Connection)
    → length (body e.system c) ≡ c.reply_length
    → c.reply_sent < c.reply_length
    → (0 < length (offered_reply e c))
      × (length (offered_reply e c) ≤ c.reply_length - c.reply_sent)
unfolding offered_reply
offered_reply-length e c whole h =
    offered_from-length e.system c.reply_type c.reply_fd (text_of c.reply) c.reply_length
      c.reply_start c.reply_sent whole h

-- The state of a reply in which something is left to send.
abbrev pub IsPending : System → Connection → Type 0
IsPending sys c =
    (c.state ≡ send_reply)
    × (length (body sys c) ≡ c.reply_length)
    × (c.reply_sent < c.reply_length)

round_taken :
    (e : Env) (g : Globals) (c : Connection) (n : ℕ)
    → 0 < n
    → let c' = (poll_send_reply e g c (sent n)).conn in
      (c'.reply_sent ≡ c.reply_sent + n)
      × (c'.reply_length ≡ c.reply_length)
      × (length (body e.system c') ≡ length (body e.system c))
      × (c'.conn_close ≡ c.conn_close)
      × (c'.state ≡ (if c.reply_sent + n == c.reply_length then done else c.state))
unfolding poll_send_reply reply_taken
round_taken e g c n h = rw (nonzero_test n h) (refl, refl, refl, refl, refl)

-- The connection is done, all of the reply is sent, and whether to close it has not changed.
abbrev pub IsFinished : Connection → Connection → Type 0
IsFinished c c' =
    (c'.state ≡ done) × (c'.reply_sent ≡ c.reply_length) × (c'.conn_close ≡ c.conn_close)

choose :
    (b : Bool) (c a r : Connection)
    → (b ≡ true → IsFinished c a)
    → (b ≡ false → IsFinished c r)
    → IsFinished c (if b then a else r)
choose true c a r f g = f refl
choose false c a r f g = g refl

-- The state behind a round, by the test of what is sent.
state_cases :
    (t : Bool) (s : State)
    → s ≡ (if t then done else send_reply)
    → ((t ≡ true) × (s ≡ done)) ⊎ ((t ≡ false) × (s ≡ send_reply))
state_cases true s e = inl (refl, e)
state_cases false s e = inr (refl, e)

-- A reply as long as its body, of which something is left to send, through a socket that takes at least one byte of what
-- it is given, is sent whole within as many rounds as bytes are left: the connection is then done,
-- and is to be closed only if it was so before.
pub send_rounds-IsFinished :
    (k : ℕ) (e : Env) (g : Globals) (c : Connection) (takes : Bytes → ℕ)
    → IsWilling takes
    → IsPending e.system c
    → c.reply_length - c.reply_sent ≤ k
    → IsFinished c (send_rounds k e g c takes)
unfolding send_rounds
send_rounds-IsFinished zero e g c takes w (st, whole, h) enough = absurd (omega arith)
send_rounds-IsFinished (suc k) e g c takes w (st, whole, h) enough =
    let offered = offered_reply e c in
    let (some_left, bound) = offered_reply-length e c whole h in
    let (pos, fits) = w offered some_left in
    let n = takes offered in
    let s = poll_send_reply e g c (sent n) in
    let (total, len, body_len, close, state) = round_taken e g c n pos in
    let test = c.reply_sent + n == c.reply_length in
    let cases = state_cases test s.conn.state (state ∙ ap (λ x. if test then done else x) st) in
    choose (is_done s.conn.state) c s.conn (send_rounds k e s.globals s.conn takes)
      (λ d. elim cases [
        | inl (all, fin) ↦ (fin, total ∙ (==_iff _ _).0 all, close)
        | inr (part, going) ↦ cc
      ])
      (λ d. elim cases [
        | inl (all, fin) ↦ cc
        | inr (part, going) ↦
            let (fin, sent_all, close') =
              send_rounds-IsFinished k e s.globals s.conn takes w
                (going, body_len ∙ whole ∙ sym len, ground arith) (omega arith) in
            (fin, sent_all ∙ len, close' ∙ close)
      ])
