-- ===== src/Poll/Sending.antt =====
-- What a connection's socket has taken of its message, behind `poll_send_header` and
-- `poll_send_reply`.
use darkhttpd.Common.{
  ℕ, ◌+◌, ◌-◌, ◌^◌, ◌≤◌, ◌≡◌, refl, sym, ap, ◌∙◌, arith, min, Bool, true, false, Option, none, some,
  inl, inr, [], ◌++◌, if◌then◌else◌, ◌==◌, Bytes, take, drop, length, append_assoc, append-nil,
  Bool-cases, take-add, drop-add, drop-append, take-take, drop-take, length-take, length-drop,
  drop-append_le, take-append_le, length-append,
}
use darkhttpd.Conn.{
  Connection, State, send_header, send_reply, done, ReplyType, reply_generated, reply_from_file,
  text_of,
}
use darkhttpd.Env.{Env, System}
use darkhttpd.Poll.{
  Globals, Sent, sent, send_again, send_failed, offered_reply, offered_header, poll_send_reply,
  poll_send_header, offered_from, reply_taken, behind_header, header_taken, close_conn,
}
use darkhttpd.Poll.Message.{source_from, body, message}

-- A system call takes no more than it is given.
abbrev pub Takes : Sent → Bytes → Type 0
Takes (sent n) offered = n ≤ length offered
Takes _ offered = Unit

part_taken :
    (n m len start done_before : ℕ) (src : Bytes)
    → n ≤ length (take m (drop (start + done_before) src))
    → m ≤ len - done_before
    → (take n (take m (drop (start + done_before) src))
        ≡ take n (drop done_before (take len (drop start src))))
      × (n ≤ len - done_before)
part_taken n m len start done_before src h le =
    let bound = length-take m (drop (start + done_before) src) in
    let fits : n ≤ m = omega arith in
    let fits' : n ≤ len - done_before = omega arith in
    (
      take-take n m (drop (start + done_before) src) fits
          ∙ sym (
              ap (take n) (drop-take done_before len (drop start src))
              ∙ rw (drop-add start done_before src)
                  (take-take n (len - done_before) (drop (start + done_before) src) fits')),
      fits',
    )

offered_from-source :
    (sys : System) (t : ReplyType) (fd : Option ℕ) (reply : Bytes) (n len start before : ℕ)
    → n ≤ length (offered_from sys t fd reply (min (len - before) (2 ^ 64 - 1)) (start + before))
    → (take n (offered_from sys t fd reply (min (len - before) (2 ^ 64 - 1)) (start + before))
        ≡ take n (drop before (take len (drop start (source_from sys t fd reply)))))
      × (n ≤ len - before)
unfolding offered_from
offered_from-source sys reply_generated fd reply n len start before h =
    part_taken n _ len start before reply h (omega arith)
offered_from-source sys reply_from_file none reply n len start before h =
    let e : n ≡ 0 = omega arith in rw e (refl, omega arith)
offered_from-source sys reply_from_file (some fd) reply n len start before h =
    part_taken n _ len start before (sys.file_bytes fd) h (omega arith)

-- The bytes offered by `poll_send_reply` are the next ones of the body.
offered_reply-body :
    (e : Env) (c : Connection) (n : ℕ)
    → n ≤ length (offered_reply e c)
    → (take n (offered_reply e c) ≡ take n (drop c.reply_sent (body e.system c)))
      × (n ≤ c.reply_length - c.reply_sent)
unfolding offered_reply
offered_reply-body e c n h =
    offered_from-source e.system c.reply_type c.reply_fd (text_of c.reply) n c.reply_length
      c.reply_start c.reply_sent h

offered_header-part :
    (c : Connection) (n : ℕ)
    → n ≤ length (offered_header c)
    → (take n (offered_header c) ≡ take n (drop c.header_sent (text_of c.header)))
      × (n ≤ c.header_length - c.header_sent)
unfolding offered_header
offered_header-part c n h =
    let bound =
      length-take (c.header_length - c.header_sent) (drop c.header_sent (text_of c.header)) in
    let fits : n ≤ c.header_length - c.header_sent = omega arith in
    (
      take-take n (c.header_length - c.header_sent) (drop c.header_sent (text_of c.header)) fits,
      fits,
    )

-- The bookkeeping of a response of which the socket has taken the bytes `w`: they are the first
-- `total_sent` bytes of the message, and all of it if the connection is done and not to be closed.
pub record IsSending (sys : System) (c : Connection) (w : Bytes) : Type 0 where
  pub sent_so_far : w ≡ take c.total_sent (message sys c)
  pub header_whole : length (text_of c.header) ≡ c.header_length
  pub body_whole : length (body sys c) ≡ c.reply_length
  pub in_header :
      c.state ≡ send_header
      → (c.total_sent ≡ c.header_sent) × (c.header_sent ≤ c.header_length) × (c.reply_sent ≡ 0)
  pub in_reply :
      c.state ≡ send_reply
      → (c.header_only ≡ false)
        × (c.total_sent ≡ c.header_length + c.reply_sent)
        × (c.reply_sent ≤ c.reply_length)
  pub in_done : c.state ≡ done → c.conn_close ≡ false → c.total_sent ≡ length (message sys c)

-- One more part of the message.
wire-extend :
    (w m part : Bytes) (total n : ℕ)
    → w ≡ take total m
    → part ≡ take n (drop total m)
    → w ++ part ≡ take (total + n) m
wire-extend w m part total n hw hp = rw (hw, hp) (sym (take-add total n m))

-- Behind the header stands the body.
drop-message :
    (h b : Bytes) (total len k : ℕ)
    → length h ≡ len
    → total ≡ len + k
    → drop total (h ++ b) ≡ drop k b
drop-message h b total len k hl e = rw (e, ← hl) (drop-append h b k)

reply_taken-IsSending :
    (sys : System) (g : Globals) (c : Connection) (w offered : Bytes) (n : ℕ)
    → IsSending sys c w
    → c.state ≡ send_reply
    → (take n offered ≡ take n (drop c.reply_sent (body sys c)))
      × (n ≤ c.reply_length - c.reply_sent)
    → IsSending sys (reply_taken g c offered n).conn (w ++ (reply_taken g c offered n).wire)
unfolding reply_taken
reply_taken-IsSending sys g c w offered n v st (part, fits) =
    let (only, total, le) = v.in_reply st in
    let whole = length-append (text_of c.header) (body sys c) in
    let behind =
      drop-message (text_of c.header) (body sys c) c.total_sent c.header_length c.reply_sent
        v.header_whole total in
    record {
      sent_so_far =
          wire-extend w (message sys c) (take n offered) c.total_sent n v.sent_so_far
            (rw only (rw behind part));
      header_whole = v.header_whole;
      body_whole = v.body_whole;
      in_header = λ e. ground arith;
      in_reply = λ e. ground arith;
      in_done = λ e k. rw only (ground (arith, v.header_whole, v.body_whole, whole));
    }

module _ {sys : System} {c : Connection} {w : Bytes} (v : IsSending sys c w) (now : ℕ) where
  touched : IsSending sys (record c { last_active = now }) (w ++ [])
  touched = record {
    sent_so_far = append-nil w ∙ v.sent_so_far;
    header_whole = v.header_whole;
    body_whole = v.body_whole;
    in_header = v.in_header;
    in_reply = v.in_reply;
    in_done = v.in_done;
  }

  touched_plain : IsSending sys (record c { last_active = now }) w
  touched_plain = rw append-nil at touched

  closed : IsSending sys (close_conn (record c { last_active = now })) (w ++ [])
  closed = record {
    sent_so_far = append-nil w ∙ v.sent_so_far;
    header_whole = v.header_whole;
    body_whole = v.body_whole;
    in_header = λ e. cc;
    in_reply = λ e. cc;
    in_done = λ e k. cc;
  }

-- On a connection that sends its reply, with its bookkeeping right for the bytes sent so far, what
-- `poll_send_reply` sends are the next bytes of the message and the bookkeeping stays right, on
-- every outcome of a call that takes no more than it is given.
pub poll_send_reply-IsSending :
    (e : Env) (g : Globals) (c : Connection) (io : Sent) {w : Bytes}
    → IsSending e.system c w
    → c.state ≡ send_reply
    → Takes io (offered_reply e c)
    → IsSending e.system (poll_send_reply e g c io).conn (w ++ (poll_send_reply e g c io).wire)
unfolding poll_send_reply
poll_send_reply-IsSending e g c send_again v st t = touched v e.now
poll_send_reply-IsSending e g c send_failed v st t = closed v e.now
poll_send_reply-IsSending e g c (sent n) {w} v st t = elim (Bool-cases (n == 0)) [
  | inl nothing ↦ rw nothing (closed v e.now)
  | inr some_bytes ↦ rw some_bytes (
      reply_taken-IsSending e.system g _ w _ n (touched_plain v e.now) st
        (offered_reply-body e c n t))
]

within_header :
    (h b : Bytes) (k n : ℕ) → k + n ≤ length h → take n (drop k (h ++ b)) ≡ take n (drop k h)
within_header h b k n fits =
    rw (drop-append_le h b k (omega arith))
      (take-append_le (drop k h) b n (omega (arith, length-drop k h)))

length_whole :
    (sys : System) (c : Connection)
    → c.header_only ≡ true
    → length (message sys c) ≡ length (text_of c.header)
length_whole sys c h = rw (h, append-nil)

-- The state behind a header of which `n` more bytes were taken.
header_step :
    {sys : System} {c : Connection} {w : Bytes} (s : State) (n : ℕ)
    → IsSending sys c w
    → c.state ≡ send_header
    → n ≤ length (offered_header c)
    → (s ≡ send_reply → (c.header_sent + n ≡ c.header_length) × (c.header_only ≡ false))
    → (s ≡ done → (c.header_sent + n ≡ c.header_length) × (c.header_only ≡ true))
    → IsSending sys
        (record c { header_sent = c.header_sent + n; total_sent = c.total_sent + n; state = s })
        (w ++ take n (offered_header c))
header_step {sys} {c} {w} s n v st t rs ds =
    let (total, le, none_yet) = v.in_header st in
    let (part, fits) = offered_header-part c n t in
    let rest : Bytes = if c.header_only then [] else body sys c in
    let whole = v.header_whole in
    record {
      sent_so_far =
          wire-extend w (message sys c) (take n (offered_header c)) c.total_sent n v.sent_so_far (
            part
            ∙ sym (within_header (text_of c.header) rest c.header_sent n (omega arith))
            ∙ ap (λ k. take n (drop k (message sys c))) (sym total));
      header_whole = v.header_whole;
      body_whole = v.body_whole;
      in_header = λ e. omega arith;
      in_reply = λ e. ((rs e).1, omega (arith, (rs e).0), omega arith);
      in_done = λ e k. omega (arith, (ds e).0, length_whole sys c (ds e).1);
    }

behind_header-IsSending :
    (full only : Bool) (e : Env) (g : Globals) (c : Connection) (n : ℕ) (io : Sent) {w : Bytes}
    → (c.header_sent + n == c.header_length) ≡ full
    → c.header_only ≡ only
    → IsSending e.system c w
    → c.state ≡ send_header
    → n ≤ length (offered_header c)
    → Takes io (offered_reply e c)
    → let c' = record c { header_sent = c.header_sent + n; total_sent = c.total_sent + n } in
      let s = behind_header full only e g c' (take n (offered_header c)) io in
      IsSending e.system s.conn (w ++ s.wire)
unfolding behind_header offered_reply
behind_header-IsSending false only e g c n io f o v st t ht =
    header_step c.state n v st t (λ q. ground arith) (λ q. ground arith)
behind_header-IsSending true true e g c n io f o v st t ht =
    header_step done n v st t (λ q. cc) (λ q. (ground arith, o))
behind_header-IsSending true false e g c n io {w} f o v st t ht =
    rw (← append_assoc w (take n (offered_header c)) _) (
      poll_send_reply-IsSending e g _ io
        (header_step send_reply n v st t (λ q. (ground arith, o)) (λ q. cc)) refl ht)

-- On a connection that sends its header, with its bookkeeping right for the bytes sent so far, what
-- `poll_send_header` and the `poll_send_reply` behind it send are the next bytes of the message and
-- the bookkeeping stays right, on every outcome of calls that take no more than they are given.
pub poll_send_header-IsSending :
    (e : Env) (g : Globals) (c : Connection) (io reply_io : Sent) {w : Bytes}
    → IsSending e.system c w
    → c.state ≡ send_header
    → Takes io (offered_header c)
    → Takes reply_io (offered_reply e c)
    → IsSending e.system
        (poll_send_header e g c io reply_io).conn
        (w ++ (poll_send_header e g c io reply_io).wire)
unfolding poll_send_header header_taken offered_header offered_reply
poll_send_header-IsSending e g c send_again r v st t ht = touched v e.now
poll_send_header-IsSending e g c send_failed r v st t ht = closed v e.now
poll_send_header-IsSending e g c (sent n) r {w} v st t ht = elim (Bool-cases (n == 0)) [
  | inl nothing ↦ rw nothing (closed v e.now)
  | inr some_bytes ↦
      rw some_bytes
        (behind_header-IsSending _ _ e _ _ n r refl refl (touched_plain v e.now) st t ht)
]
