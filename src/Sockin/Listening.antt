-- ===== src/Sockin/Listening.antt =====
-- The socket that `init_sockin` ends with.
use darkhttpd.Common.{ℕ, ◌≡◌, true, not, ◌||◌, Option, none, some, Bytes, refl}
use darkhttpd.Options.{Settings, given}
use darkhttpd.Options.Ends.{Ends, goes_on, leaves, Ends-bind_of, Ends-require, Holds, Ends-Holds}
use darkhttpd.Sockin.{
  reuseaddr, nodelay, v6only, SocketCalls, address_of, is_well_formed, init_sockin,
}

-- The socket is of the family that was asked for, bound to the address and the port, and listens with
-- the backlog.
pub record IsListening (n : SocketCalls) (s : Settings) (fd : ℕ) : Type 0 where
  pub opened : n.socket s.inet6 ≡ some fd
  pub both_families : (not s.inet6 || n.setsockopt fd v6only 0) ≡ true
  pub bound : n.bind fd (address_of n s) s.bindport ≡ true
  pub listening : n.listen fd s.max_connections ≡ true

given-Ends :
    {A : Type 0} (o : Option A) (message : Bytes) → Ends (λ a. o ≡ some a) (given o message)
given-Ends none message = leaves
given-Ends (some a) message = goes_on refl

-- If `init_sockin` does not end the program, the socket that it leaves listens as the settings say.
pub init_sockin-IsListening :
    (n : SocketCalls) (s : Settings) → Holds (IsListening n s) (init_sockin n s)
unfolding init_sockin
init_sockin-IsListening n s = Ends-Holds (
    Ends-require (is_well_formed n s) _ λ w. Ends-bind_of (given-Ends (n.socket s.inet6) _) λ fd o.
      Ends-require (n.setsockopt fd reuseaddr 1) _ λ reuse.
        Ends-require (n.setsockopt fd nodelay 1) _ λ delay.
          Ends-require (not s.inet6 || n.setsockopt fd v6only 0) _ λ both.
            Ends-require (n.bind fd (address_of n s) s.bindport) _ λ bound.
              Ends-require (n.getsockname fd) _ λ name.
                Ends-require (n.listen fd s.max_connections) _ λ listening. goes_on (record {
                  opened = o;
                  both_families = both;
                  bound = bound;
                  listening = listening;
                }))
