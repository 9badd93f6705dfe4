-- ===== src/Tests/Rounds.antt =====
-- Concrete runs: a round of the main loop with its counts and clocks, and a request on a system that
-- has nothing outside the root.
use darkhttpd.Common.{false, true, some, ◌≡◌, ◌≢◌, refl, arith, if◌then◌else◌, All, codes}
use darkhttpd.Conn.{Connection, text_of, new_connection}
use darkhttpd.Cstring.{starts_with}
use darkhttpd.Env.{ok, fail, enoent}
use darkhttpd.Get.Confined.{Paths, with_paths, AgreesBelowRoot}
use darkhttpd.Poll.Served.{IsBounded}
use darkhttpd.Poll.Message.{message}
use darkhttpd.Process.{process_request, by_method}
use darkhttpd.Process.Head.{header_alone, asking_head, by_method-message}
use darkhttpd.Process.Confined.{process_request-with_paths}
use darkhttpd.Server.{interrupted, httpd_poll}
use darkhttpd.Server.Counted.{
  Counted, AllBounded, AllRecent, httpd_poll-Counted, httpd_poll-AllBounded, httpd_poll-AllRecent,
}
use darkhttpd.Server.Valid.{AreHonest}
use darkhttpd.Process.Gate.{IsGated, process_request-IsGated}
use darkhttpd.Reply.{needs_https_redirect}
use darkhttpd.Request.{parse_request, parse_target, parse_behind_protocol, parse_protocol}
use darkhttpd.Tests.Texts.{all_nonnul-NonNul}
use darkhttpd.Env.{Env}
use darkhttpd.Conn.{new_connection}
use darkhttpd.Tests.{
  site_config, site, site_system, site_stat, asking, round_inputs, busy_server, slow_io-IsHonest,
}

round_inputs-AreHonest : AreHonest round_inputs
round_inputs-AreHonest = (λ fd. slow_io-IsHonest, slow_io-IsHonest)

httpd_poll-Counted_example : Counted busy_server (httpd_poll site busy_server round_inputs)
httpd_poll-Counted_example = httpd_poll-Counted site busy_server round_inputs round_inputs-AreHonest

busy_server-IsBounded : All IsBounded busy_server.connlist
unfolding new_connection
busy_server-IsBounded = (λ q. cc, (λ q. cc, (λ q. omega arith, tt)))

httpd_poll-AllBounded_example : AllBounded (httpd_poll site busy_server round_inputs)
httpd_poll-AllBounded_example =
    httpd_poll-AllBounded site busy_server round_inputs round_inputs-AreHonest busy_server-IsBounded

not_interrupted : round_inputs.selected ≢ interrupted
not_interrupted e = cc

httpd_poll-AllRecent_example : AllRecent site (httpd_poll site busy_server round_inputs)
httpd_poll-AllRecent_example =
    httpd_poll-AllRecent site busy_server round_inputs round_inputs-AreHonest not_interrupted

-- Only paths that begin with `/w` are there.
abbrev rooted : Paths
rooted = record {
  open_file = λ path. if starts_with (codes "/w") path then ok 3 else fail enoent;
  opendir = λ path. fail enoent;
  stat = λ path. if starts_with (codes "/w") path then ok site_stat else fail enoent;
}

rooted-AgreesBelowRoot : AgreesBelowRoot site rooted
unfolding starts_with
rooted-AgreesBelowRoot = record {
  single = λ e. refl;
  files = λ path safe. refl;
  indexes = λ path safe. refl;
  listings = λ path safe. refl;
  index_stats = λ path safe. refl;
  entries = λ path name names safe o m shown. refl;
}

process_request-with_paths_example :
    process_request (with_paths site rooted) asking ≡ process_request site asking
process_request-with_paths_example =
    process_request-with_paths site rooted rooted-AgreesBelowRoot asking

-- A connection of which a GET request has been parsed.
abbrev parsed : Connection
parsed = record asking { method = some (codes "GET"); url = some (codes "/a") }

by_method-message_example :
    let head = by_method site (asking_head parsed) in
    (head ≡ header_alone (asking_head (by_method site parsed)))
    × (message site_system head ≡ text_of (by_method site parsed).header)
by_method-message_example = by_method-message site parsed refl

-- The same site behind a password.
abbrev locked : Env
locked = record site { config = record site_config { auth_key = some (codes "Basic eA==") } }

asking_parses :
    ((parse_request locked asking).0 ≡ true)
    × (needs_https_redirect locked (parse_request locked asking).1 ≡ false)
unfolding parse_request needs_https_redirect new_connection parse_target parse_behind_protocol
    parse_protocol
asking_parses = (refl, refl)

process_request-IsGated_example :
    IsGated locked
      (parse_request locked asking).1
      (codes "Basic eA==")
      (process_request locked asking)
process_request-IsGated_example =
    process_request-IsGated locked asking (codes "Basic eA==") refl
      (all_nonnul-NonNul (codes "Basic eA==") refl) asking_parses.0 asking_parses.1
