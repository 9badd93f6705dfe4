-- ===== src/Process/Confined.antt =====
-- Which paths `process_request` asks the system about.
use darkhttpd.Common.{◌≡◌, refl, ap, ◌∙◌, Bool, true, false, Option, Bytes, none, some, codes}
use darkhttpd.Conn.{Connection, text_of, send_header}
use darkhttpd.Env.{Env}
use darkhttpd.Get.Confined.{
  Paths, with_paths, AgreesBelowRoot, default_reply-with_paths, redirect-with_paths,
  process_get-with_paths,
}
use darkhttpd.Process.{is_unauthorized, by_method, dispatch, process_request}
use darkhttpd.Reply.{
  requested_path, redirect_host, redirect_safe, redirect_https, needs_https_redirect,
}
use darkhttpd.Request.{
  parse_field, parse_fields, deny_keepalive, parse_behind_protocol, parse_target, parse_request,
}

module _ (e : Env) (p : Paths) where
  behind_protocol-with_paths :
      (r : Bool × Connection) → parse_behind_protocol (with_paths e p) r ≡ parse_behind_protocol e r
  unfolding parse_behind_protocol parse_fields deny_keepalive
  behind_protocol-with_paths (true, c) = refl
  behind_protocol-with_paths (false, c) = refl

  parse_request-with_paths : (c : Connection) → parse_request (with_paths e p) c ≡ parse_request e c
  unfolding parse_request parse_target parse_fields deny_keepalive
  parse_request-with_paths c = simp (behind_protocol-with_paths) refl

  redirect_host-with_paths :
      (c : Connection) (path : Bytes) (o : Option Bytes)
      → redirect_host (with_paths e p) c path o ≡ redirect_host e c path o
  unfolding redirect_host
  redirect_host-with_paths c path none = default_reply-with_paths e p c 400 _ _
  redirect_host-with_paths c path (some name) = redirect-with_paths e p c _

  redirect_safe-with_paths :
      (c : Connection) (o : Option Bytes) → redirect_safe (with_paths e p) c o ≡ redirect_safe e c o
  unfolding redirect_safe
  redirect_safe-with_paths c none = default_reply-with_paths e p c 400 _ _
  redirect_safe-with_paths c (some path) =
      redirect_host-with_paths c path (parse_field c (codes "\nHost: "))

module _ (e : Env) (p : Paths) (agrees : AgreesBelowRoot e p) where
  by_method-with_paths : (c : Connection) → by_method (with_paths e p) c ≡ by_method e c
  unfolding by_method
  by_method-with_paths c =
      rw (process_get-with_paths e p agrees c, default_reply-with_paths e p c 501 _ _) refl

  dispatch-with_paths : (r : Bool × Connection) → dispatch (with_paths e p) r ≡ dispatch e r
  unfolding dispatch needs_https_redirect is_unauthorized redirect_https
  dispatch-with_paths (false, c) =
      default_reply-with_paths e p (record c { conn_close = true }) 400 _ _
  dispatch-with_paths (true, c) =
      rw
        (
          redirect_safe-with_paths e p c (requested_path (text_of c.url)),
          default_reply-with_paths e p c 401 _ _,
          by_method-with_paths c,
        )
        refl

  -- Whatever the request is, what `process_request` makes of it is the same on every system that
  -- agrees with the given one on the paths below the root, which for the entries of a listing are
  -- the names that `readdir` gives of a directory there: no request makes it ask `open`,
  -- `opendir` or `stat` about another path and answer by the result.
  pub process_request-with_paths :
      (c : Connection) → process_request (with_paths e p) c ≡ process_request e c
  unfolding process_request
  process_request-with_paths c =
      ap {A = Connection} (λ r. record r { state = send_header; request = none })
        (ap (dispatch (with_paths e p)) (parse_request-with_paths e p c)
          ∙ dispatch-with_paths (parse_request e c))
