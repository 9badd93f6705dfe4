-- ===== src/Process/Gate.antt =====
-- The test of the credentials in `process_request`.
use darkhttpd.Auth.{password_equal}
use darkhttpd.Auth.Equal.{password_equal-same}
use darkhttpd.Common.{
  NonNul, ◌≡◌, ◌≢◌, ◌⊎◌, refl, ap, ◌∙◌, inl, inr, Bool, true, false, Bool-cases, Option, none, some,
  Bytes, All, text,
}
use darkhttpd.Conn.{Connection, send_header}
use darkhttpd.Env.{Env}
use darkhttpd.Process.{by_method, dispatch, is_unauthorized, refuses, process_request}
use darkhttpd.Reply.{default_reply, needs_https_redirect}
use darkhttpd.Request.{parse_request}

-- The end of `process_request`.
abbrev pub advanced : Connection → Connection
advanced c = record c { state = send_header; request = none }

abbrev pub denied : Env → Connection → Connection
denied e c =
    default_reply e c 401 (text "Unauthorized") (text "Access denied due to invalid credentials.")

-- What the gate lets through, and what it answers itself.
abbrev pub IsGated : Env → Connection → Bytes → Connection → Type 0
IsGated e c key r =
    ((c.authorization ≡ some key) × (r ≡ advanced (by_method e c)))
    ⊎ ((c.authorization ≢ some key) × (r ≡ advanced (denied e c)))

true-false : {b : Bool} → b ≡ true → b ≡ false → ⊥
true-false h k = cc

refuses_cases :
    (key : Bytes) (a : Option Bytes)
    → All NonNul key
    → ((a ≡ some key) × (refuses (some key) a ≡ false))
      ⊎ ((a ≢ some key) × (refuses (some key) a ≡ true))
unfolding refuses
refuses_cases key none h = inr (λ e. cc, refl)
refuses_cases key (some given) h = elim (Bool-cases (password_equal given key)) [
  | inl same ↦ inl (ap some ((password_equal-same given key h).0 same), rw same refl)
  | inr other ↦
      inr (λ e. true-false ((password_equal-same given key h).1 (cc)) other, rw other refl)
]

dispatch-denied :
    (e : Env) (c : Connection)
    → needs_https_redirect e c ≡ false
    → is_unauthorized e c ≡ true
    → dispatch e (true, c) ≡ denied e c
unfolding dispatch
dispatch-denied e c plain d = simp (plain, d) refl

dispatch-allowed :
    (e : Env) (c : Connection)
    → needs_https_redirect e c ≡ false
    → is_unauthorized e c ≡ false
    → dispatch e (true, c) ≡ by_method e c
unfolding dispatch
dispatch-allowed e c plain d = simp (plain, d) refl

gate :
    (e : Env) (r : Bool × Connection) (key : Bytes)
    → e.auth_key ≡ some key
    → All NonNul key
    → r.0 ≡ true
    → needs_https_redirect e r.1 ≡ false
    → IsGated e r.1 key (advanced (dispatch e r))
unfolding is_unauthorized
gate e (false, c) key k h parsed plain = cc
gate e (true, c) key k h parsed plain = elim (refuses_cases key c.authorization h) [
  | inl (right, let_in) ↦ inl (
    right,
    ap advanced (dispatch-allowed e c plain (ap (λ a. refuses a c.authorization) k ∙ let_in)),
  )
  | inr (wrong, refused) ↦ inr (
    wrong,
    ap advanced (dispatch-denied e c plain (ap (λ a. refuses a c.authorization) k ∙ refused)),
  )
]

-- With a NUL-free key set, a request that parses and is not redirected to https is handled by its method
-- exactly when its Authorization field is the key; any other value, or none, gets the 401 reply.
pub process_request-IsGated :
    (e : Env) (c : Connection) (key : Bytes)
    → e.auth_key ≡ some key
    → All NonNul key
    → (parse_request e c).0 ≡ true
    → needs_https_redirect e (parse_request e c).1 ≡ false
    → IsGated e (parse_request e c).1 key (process_request e c)
unfolding process_request
process_request-IsGated e c key = gate e (parse_request e c) key
