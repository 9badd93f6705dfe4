-- ===== src/Server/Valid.antt =====
-- An invariant of the list of connections in `httpd_poll`.
use darkhttpd.Common.{
  ℕ, ◌+◌, ltb, leb, ◌≡◌, ◌≢◌, refl, inl, inr, Bool, true, false, Bool-cases, Option, none, some,
  List, [], ◌∷◌, All, not, ◌&&◌,
}
use darkhttpd.Conn.{
  Connection, State, recv_request, send_header, send_reply, done, new_connection, reset_connection,
  poll_check_timeout, ReplyType,
}
use darkhttpd.Common.Int.{pos_part, is_zero}
use darkhttpd.Env.{Env, System}
use darkhttpd.Poll.{Globals, Io}
use darkhttpd.Poll.Valid.{
  IsHonest, IsValid, Receives, ValidIn, poll_recv_request-IsValid, poll_send_header-IsValid,
  poll_send_reply-IsValid,
}
use darkhttpd.Response.{Stable}
use darkhttpd.Server.{
  Server, Accepted, accepted, out_of_files, accept_failed, Selected, ready, timed_out, interrupted,
  select_failed, Inputs, Outcome, running, exited, recycle_connection, serve, clean_up, visit,
  visit_all, accept_connection, accept_step, accepted_connection, some_active, select_step,
  poll_ready, httpd_poll, is_set, io_of, keep_conn,
}

-- Between two rounds no connection is done, and each one is valid.
abbrev pub IsReady : System → Connection → Type 0
IsReady sys c = (c.state ≢ done) × IsValid sys c

-- The system calls on every socket take no more than they are given.
abbrev pub AreHonest : Inputs → Type 0
AreHonest inputs = ((fd : ℕ) → IsHonest (inputs.io fd)) × IsHonest inputs.accept_io

check_timeout-IsValid :
    (e : Env) (c : Connection) → IsValid e.system c → IsValid e.system (poll_check_timeout e c)
unfolding poll_check_timeout
check_timeout-IsValid e c v =
    elim (Bool-cases
      (ltb 0 (pos_part e.timeout_secs) && leb (c.last_active + pos_part e.timeout_secs) e.now)) [
        | inl idle ↦ rw idle tt
        | inr active ↦ rw active v
      ]

ValidIn-IsValid :
    (s : State) (sys : System) (c : Connection) → c.state ≡ s → ValidIn s sys c → IsValid sys c
ValidIn-IsValid s sys c st v = simp st v

serve-IsValid :
    (e : Env) (g : Globals) (c : Connection) (rs ws : ℕ → Bool) (io : Io) (s : State)
    → c.state ≡ s
    → Stable e.system
    → IsHonest io
    → ValidIn s e.system c
    → IsValid e.system (serve e g c rs ws io s).conn
unfolding serve
serve-IsValid e g c rs ws io recv_request st stable honest v =
    elim (Bool-cases (is_set rs c.socket)) [
      | inl set ↦ rw set (poll_recv_request-IsValid e g c io stable honest st v)
      | inr unset ↦ rw unset (ValidIn-IsValid _ e.system c st v)
    ]
serve-IsValid e g c rs ws io send_header st stable honest v =
    elim (Bool-cases (is_set ws c.socket)) [
      | inl set ↦ rw set (
          poll_send_header-IsValid e g c _ _ st (ValidIn-IsValid _ e.system c st v)
            (honest.header_takes _) (honest.reply_takes _))
      | inr unset ↦ rw unset (ValidIn-IsValid _ e.system c st v)
    ]
serve-IsValid e g c rs ws io send_reply st stable honest v =
    elim (Bool-cases (is_set ws c.socket)) [
      | inl set ↦ rw set (
          poll_send_reply-IsValid e g c _ st (ValidIn-IsValid _ e.system c st v)
            (honest.reply_takes _))
      | inr unset ↦ rw unset (ValidIn-IsValid _ e.system c st v)
    ]
serve-IsValid e g c rs ws io done st stable honest v = rw st tt

AllReady : System → Option Connection → Type 0
AllReady sys none = Unit
AllReady sys (some c) = IsReady sys c

clean_up-IsReady :
    (e : Env) (g : Globals) (c : Connection) (s : State)
    → c.state ≡ s
    → ValidIn s e.system c
    → AllReady e.system (clean_up e g c s).1
unfolding clean_up AllReady recycle_connection reset_connection
clean_up-IsReady e g c recv_request st v = (λ q. cc, ValidIn-IsValid _ e.system c st v)
clean_up-IsReady e g c send_header st v = (λ q. cc, ValidIn-IsValid _ e.system c st v)
clean_up-IsReady e g c send_reply st v = (λ q. cc, ValidIn-IsValid _ e.system c st v)
clean_up-IsReady e g c done st v = elim (Bool-cases c.conn_close) [
  | inl closing ↦ rw closing tt
  | inr kept ↦ rw kept (λ q. cc, (((refl, refl, refl), refl), refl))
]

visit-IsReady :
    (e : Env) (g : Globals) (c : Connection) (rs ws : ℕ → Bool) (io : Io)
    → Stable e.system
    → IsHonest io
    → IsValid e.system c
    → AllReady e.system (visit e g c rs ws io).1
unfolding visit
visit-IsReady e g c rs ws io stable honest v =
    let c1 = poll_check_timeout e c in
    let s = serve e g c1 rs ws io c1.state in
    clean_up-IsReady e s.globals s.conn s.conn.state refl
      (serve-IsValid e g c1 rs ws io c1.state refl stable honest (check_timeout-IsValid e c v))

IsReady-IsValid :
    (sys : System) (cs : List Connection) → All (IsReady sys) cs → All (IsValid sys) cs
IsReady-IsValid sys [] a = tt
IsReady-IsValid sys (c ∷ cs) a = (a.0.1, IsReady-IsValid sys cs a.1)

keep_conn-All :
    (sys : System) (kept : Option Connection) (cs : List Connection)
    → AllReady sys kept
    → All (IsReady sys) cs
    → All (IsReady sys) (keep_conn kept cs)
unfolding AllReady
keep_conn-All sys none cs k a = a
keep_conn-All sys (some c) cs k a = (k, a)

pub io_of-IsHonest :
    (inputs : Inputs) (fd : Option ℕ)
    → AreHonest inputs
    → IsHonest (io_of inputs.io inputs.accept_io fd)
io_of-IsHonest inputs none h = h.1
io_of-IsHonest inputs (some fd) h = h.0 fd

visit_all-IsReady :
    (e : Env) (g : Globals) (cs : List Connection) (rs ws : ℕ → Bool) (inputs : Inputs)
    → Stable e.system
    → AreHonest inputs
    → All (IsValid e.system) cs
    → All (IsReady e.system) (visit_all e g cs rs ws inputs).1
unfolding visit_all
visit_all-IsReady e g [] rs ws inputs stable honest a = a
visit_all-IsReady e g (c ∷ cs) rs ws inputs stable honest a =
    let io = io_of inputs.io inputs.accept_io c.socket in
    keep_conn-All e.system (visit e g c rs ws io).1 _
      (visit-IsReady e g c rs ws io stable (io_of-IsHonest inputs c.socket honest) a.0)
      (visit_all-IsReady e (visit e g c rs ws io).0 cs rs ws inputs stable honest a.1)

pub accepted-Receives :
    (e : Env) (garbage : ReplyType) (fd client : ℕ)
    → Receives (accepted_connection e garbage fd client)
      × ((accepted_connection e garbage fd client).state ≡ recv_request)
unfolding accepted_connection new_connection
accepted-Receives e garbage fd client = ((((refl, refl, refl), refl), refl), refl)

-- A connection that was just accepted and read from may be done already: the same round removes it.
AllValid : System → Option Connection → Type 0
AllValid sys none = Unit
AllValid sys (some c) = IsValid sys c

accept_step-IsValid :
    (e : Env) (g : Globals) (inputs : Inputs) (r : Accepted)
    → Stable e.system
    → AreHonest inputs
    → AllValid e.system (accept_step e g inputs r).1
unfolding accept_step AllValid
accept_step-IsValid e g inputs out_of_files stable honest = tt
accept_step-IsValid e g inputs accept_failed stable honest = tt
accept_step-IsValid e g inputs (accepted fd client) stable honest =
    let (r, st) = accepted-Receives e inputs.garbage fd client in
    poll_recv_request-IsValid e g (accepted_connection e inputs.garbage fd client) inputs.accept_io
      stable honest.1 st r

with_fresh :
    (sys : System) (fresh : Option Connection) (cs : List Connection)
    → AllValid sys fresh
    → All (IsReady sys) cs
    → All (IsValid sys) (keep_conn fresh cs)
unfolding AllValid
with_fresh sys none cs f a = IsReady-IsValid sys cs a
with_fresh sys (some c) cs f a = (f, IsReady-IsValid sys cs a)

-- Is a round's outcome a server whose connections are all ready, if it is not the exit?
abbrev pub Keeps : System → Outcome → Type 0
Keeps sys (running s wires) = All (IsReady sys) s.connlist
Keeps sys exited = Unit

poll_ready-IsReady :
    (e : Env) (s : Server) (rs ws : ℕ → Bool) (sockin : Bool) (inputs : Inputs)
    → Stable e.system
    → AreHonest inputs
    → All (IsReady e.system) s.connlist
    → Keeps e.system (poll_ready e s rs ws sockin inputs)
unfolding poll_ready accept_connection
poll_ready-IsReady e s rs ws false inputs stable honest a =
    visit_all-IsReady (record e { now = inputs.time }) s.globals s.connlist rs ws inputs stable
      honest (IsReady-IsValid e.system s.connlist a)
poll_ready-IsReady e0 s rs ws true inputs stable honest a =
    let e = record e0 { now = inputs.time } in
    let fresh = (accept_step e s.globals inputs inputs.accept).1 in
    visit_all-IsReady e (accept_step e s.globals inputs inputs.accept).0
      (keep_conn fresh s.connlist) rs ws inputs stable honest
      (with_fresh e.system fresh s.connlist
        (accept_step-IsValid e s.globals inputs inputs.accept stable honest) a)

select_step-IsReady :
    (e : Env) (s : Server) (inputs : Inputs) (r : Selected)
    → Stable e.system
    → AreHonest inputs
    → All (IsReady e.system) s.connlist
    → Keeps e.system (select_step e s inputs r)
unfolding select_step
select_step-IsReady e s inputs (ready rs ws sockin) stable honest a =
    poll_ready-IsReady e s rs ws (s.globals.accepting && sockin) inputs stable honest a
select_step-IsReady e s inputs timed_out stable honest a =
    elim (Bool-cases (some_active s.connlist && not (is_zero e.timeout_secs))) [
      | inl waiting ↦
          rw waiting (poll_ready-IsReady e s (λ _. false) (λ _. false) false inputs stable honest a)
      | inr idle ↦ rw idle tt
    ]
select_step-IsReady e s inputs interrupted stable honest a = a
select_step-IsReady e s inputs select_failed stable honest a = tt

-- A round of the main loop, whatever `select`, `accept`, `recv`, `send` and `sendfile` return, keeps
-- every connection of the list in a valid state and leaves none that is done, if the files that are
-- served do not change and the calls take no more than they are given.
pub httpd_poll-IsReady :
    (e : Env) (s : Server) (inputs : Inputs)
    → Stable e.system
    → AreHonest inputs
    → All (IsReady e.system) s.connlist
    → Keeps e.system (httpd_poll e s inputs)
unfolding httpd_poll
httpd_poll-IsReady e s inputs = select_step-IsReady e s inputs inputs.selected
