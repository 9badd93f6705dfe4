-- ===== src/Server/Counted.antt =====
-- What a round of the main loop does to all connections: none is kept that is idle or whose request is
-- too long, and the bytes sent are counted.
use darkhttpd.Common.{
  ℕ, ◌+◌, ◌≡◌, ◌≢◌, ◌⊎◌, refl, arith, inl, inr, Bool, true, false, Bool-cases, Option, none, some,
  List, All, [], ◌∷◌, ◌++◌, ◌&&◌, not, Bytes, length,
}
use darkhttpd.Common.Int.{is_zero}
use darkhttpd.Conn.{Connection}
use darkhttpd.Env.{Env}
use darkhttpd.Poll.{Globals}
use darkhttpd.Poll.Answers.{Counts}
use darkhttpd.Poll.Served.{IsBounded, poll_recv_request-Served}
use darkhttpd.Server.{
  Server, Inputs, Accepted, accepted, out_of_files, accept_failed, Selected, ready, timed_out,
  interrupted, select_failed, Outcome, running, io_of, visit, keep_conn, visit_all,
  accepted_connection, accept_step, accept_connection, some_active, poll_ready, select_step,
  httpd_poll,
}
use darkhttpd.Server.Round.{IsRecent, Kept, visit-Visited}
use darkhttpd.Server.Valid.{AreHonest, io_of-IsHonest}

-- The number of bytes that the sockets took in a round.
pub total : List (Option ℕ × Bytes) → ℕ
total [] = 0
total ((fd, wire) ∷ wires) = length wire + total wires

record VisitedAll (e : Env) (g : Globals) (cs : List Connection)
    (r : Globals × List Connection × List (Option ℕ × Bytes)) : Type 0 where
  recent : All (IsRecent e) r.1
  bounded : All IsBounded cs → All IsBounded r.1
  counted : Counts g r.0 (total r.2)

keep_conn-IsRecent :
    (e : Env) (c : Connection) (o : Option Connection) (cs : List Connection)
    → Kept e c o
    → All (IsRecent e) cs
    → All (IsRecent e) (keep_conn o cs)
keep_conn-IsRecent e c none cs k a = a
keep_conn-IsRecent e c (some c') cs k a = (k.0, a)

keep_conn-IsBounded :
    (e : Env) (c : Connection) (o : Option Connection) (cs : List Connection)
    → Kept e c o
    → IsBounded c
    → All IsBounded cs
    → All IsBounded (keep_conn o cs)
keep_conn-IsBounded e c none cs k b a = a
keep_conn-IsBounded e c (some c') cs k b a = (k.1 b, a)

visit_all-VisitedAll :
    (e : Env) (g : Globals) (cs : List Connection) (rs ws : ℕ → Bool) (inputs : Inputs)
    → AreHonest inputs
    → VisitedAll e g cs (visit_all e g cs rs ws inputs)
unfolding visit_all total
visit_all-VisitedAll e g [] rs ws inputs honest = record {
  recent = tt;
  bounded = λ b. tt;
  counted = omega arith;
}
visit_all-VisitedAll e g (c ∷ cs) rs ws inputs honest =
    let io = io_of inputs.io inputs.accept_io c.socket in
    let r = visit e g c rs ws io in
    let v = visit-Visited e g c rs ws io (io_of-IsHonest inputs c.socket honest) in
    let next = visit_all-VisitedAll e r.0 cs rs ws inputs honest in
    record {
      recent = keep_conn-IsRecent e c r.1 _ v.kept next.recent;
      bounded = λ b. keep_conn-IsBounded e c r.1 _ v.kept b.0 (next.bounded b.1);
      counted = omega (arith, v.counted, next.counted);
    }

-- The connection that `accept_connection` adds, and what its first read sends.
record Accepts (g : Globals) (r : Globals × Option Connection × List (Option ℕ × Bytes))
    : Type 0 where
  bounded : (cs : List Connection) → All IsBounded cs → All IsBounded (keep_conn r.1 cs)
  counted :
      (g' : Globals) (wires : List (Option ℕ × Bytes))
      → Counts r.0 g' (total wires)
      → Counts g g' (total (r.2 ++ wires))

accept_step-Accepts :
    (a : Accepted) (e : Env) (g : Globals) (inputs : Inputs)
    → AreHonest inputs
    → Accepts g (accept_step e g inputs a)
unfolding accept_step total accepted_connection
accept_step-Accepts out_of_files e g inputs honest = record {
  bounded = λ cs b. b;
  counted = λ g' ws k. k;
}
accept_step-Accepts accept_failed e g inputs honest = record {
  bounded = λ cs b. b;
  counted = λ g' ws k. k;
}
accept_step-Accepts (accepted fd client) e g inputs honest =
    let c = accepted_connection e inputs.garbage fd client in
    let s = poll_recv_request-Served e g c inputs.accept_io honest.1 in
    record {
      bounded = λ cs b. (s.bounded (λ q. omega arith), b);
      counted = λ g' ws k. omega (arith, s.counted, k);
    }

-- What holds of a server that is still running behind a round.
record Round (e : Env) (s : Server) (s' : Server) (wires : List (Option ℕ × Bytes)) : Type 0 where
  recent : All (IsRecent (record e { now = s'.now })) s'.connlist
  bounded : All IsBounded s.connlist → All IsBounded s'.connlist
  counted : Counts s.globals s'.globals (total wires)

abbrev IsRound : Env → Server → Outcome → Type 0
IsRound e s (running s' wires) = Round e s s' wires
IsRound e s Outcome.exited = Unit

poll_ready-IsRound :
    (e : Env) (s : Server) (rs ws : ℕ → Bool) (sockin : Bool) (inputs : Inputs)
    → AreHonest inputs
    → IsRound e s (poll_ready e s rs ws sockin inputs)
unfolding poll_ready accept_connection
poll_ready-IsRound e s rs ws true inputs honest =
    let e' = record e { now = inputs.time } in
    let a = accept_step-Accepts inputs.accept e' s.globals inputs honest in
    let r = accept_connection e' s.globals inputs in
    let w = visit_all e' r.0 (keep_conn r.1 s.connlist) rs ws inputs in
    let v = visit_all-VisitedAll e' r.0 (keep_conn r.1 s.connlist) rs ws inputs honest in
    record {
      recent = v.recent;
      bounded = λ b. v.bounded (a.bounded s.connlist b);
      counted = a.counted w.0 w.2 v.counted;
    }
poll_ready-IsRound e s rs ws false inputs honest =
    let v =
      visit_all-VisitedAll (record e { now = inputs.time }) s.globals s.connlist rs ws inputs
        honest in
    record { recent = v.recent; bounded = v.bounded; counted = v.counted }

select_step-IsRound :
    (r : Selected) (e : Env) (s : Server) (inputs : Inputs)
    → AreHonest inputs
    → r ≢ interrupted
    → IsRound e s (select_step e s inputs r)
unfolding select_step
select_step-IsRound (ready rs ws sockin) e s inputs honest k =
    poll_ready-IsRound e s rs ws (s.globals.accepting && sockin) inputs honest
select_step-IsRound timed_out e s inputs honest k =
    elim (Bool-cases (some_active s.connlist && not (is_zero e.timeout_secs))) [
      | inl active ↦
          rw active (poll_ready-IsRound e s (λ _. false) (λ _. false) false inputs honest)
      | inr idle ↦ rw idle tt
    ]
select_step-IsRound interrupted e s inputs honest k = absurd (k refl)
select_step-IsRound select_failed e s inputs honest k = tt

abbrev pub Counted : Server → Outcome → Type 0
Counted s (running s' wires) = Counts s.globals s'.globals (total wires)
Counted s Outcome.exited = Unit

abbrev pub AllBounded : Outcome → Type 0
AllBounded (running s' wires) = All IsBounded s'.connlist
AllBounded Outcome.exited = Unit

abbrev pub AllRecent : Env → Outcome → Type 0
AllRecent e (running s' wires) = All (IsRecent (record e { now = s'.now })) s'.connlist
AllRecent e Outcome.exited = Unit

Round-Counted : (e : Env) (s : Server) (o : Outcome) → IsRound e s o → Counted s o
Round-Counted e s (running s' wires) r = r.counted
Round-Counted e s Outcome.exited r = tt

Round-AllBounded :
    (e : Env) (s : Server) (o : Outcome) → IsRound e s o → All IsBounded s.connlist → AllBounded o
Round-AllBounded e s (running s' wires) r b = r.bounded b
Round-AllBounded e s Outcome.exited r b = tt

Round-AllRecent : (e : Env) (s : Server) (o : Outcome) → IsRound e s o → AllRecent e o
Round-AllRecent e s (running s' wires) r = r.recent
Round-AllRecent e s Outcome.exited r = tt

Selected-cases : (r : Selected) → (r ≡ interrupted) ⊎ (r ≢ interrupted)
Selected-cases (ready rs ws sockin) = inr (λ q. cc)
Selected-cases timed_out = inr (λ q. cc)
Selected-cases interrupted = inl refl
Selected-cases select_failed = inr (λ q. cc)

-- Behind a round that leaves the server running, `total_out` has grown, modulo 2^64, by the number of
-- bytes that all the sockets took in the round, if the calls take no more than they are given.
pub httpd_poll-Counted :
    (e : Env) (s : Server) (inputs : Inputs) → AreHonest inputs → Counted s (httpd_poll e s inputs)
unfolding httpd_poll select_step total
httpd_poll-Counted e s inputs honest = elim (Selected-cases inputs.selected) [
  | inl stop ↦ simp stop (omega arith)
  | inr go ↦ Round-Counted e s _ (select_step-IsRound inputs.selected e s inputs honest go)
]

-- If no connection waits for a request with more than 4000 bytes of it read, then none does
-- behind a round, if the calls take no more than they are given.
pub httpd_poll-AllBounded :
    (e : Env) (s : Server) (inputs : Inputs)
    → AreHonest inputs
    → All IsBounded s.connlist
    → AllBounded (httpd_poll e s inputs)
unfolding httpd_poll select_step
httpd_poll-AllBounded e s inputs honest b = elim (Selected-cases inputs.selected) [
  | inl stop ↦ simp stop b
  | inr go ↦ Round-AllBounded e s _ (select_step-IsRound inputs.selected e s inputs honest go) b
]

-- Behind a round in which `select` is not interrupted, with a timeout, no connection is left that has
-- been idle for as long, whatever state it was in, if the calls take no more than they are given.
pub httpd_poll-AllRecent :
    (e : Env) (s : Server) (inputs : Inputs)
    → AreHonest inputs
    → inputs.selected ≢ interrupted
    → AllRecent e (httpd_poll e s inputs)
unfolding httpd_poll
httpd_poll-AllRecent e s inputs honest go =
    Round-AllRecent e s _ (select_step-IsRound inputs.selected e s inputs honest go)
