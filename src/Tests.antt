-- ===== src/Tests.antt =====
-- Concrete runs of the theorems: a server with one small file, one connection in each state, and
-- the calls that they answer to.
mod Background
mod Maps
mod Requests
mod Rounds
mod Shown
mod Wire
mod Start
mod Texts
use darkhttpd.Common.{
  ℕ, NonNul, ltb, ltb→lt, ◌+◌, ◌<◌, ◌↔◌, ◌⊎◌, ◌≡◌, ◌≤◌, refl, arith, inl, inr, min, Bool, true,
  false, not, ◌&&◌, ◌==◌, none, some, [], ◌∷◌, ◌++◌, Bytes, All, length, codes, Bool-cases,
}
use darkhttpd.Auth.{base64_encode, password_equal}
use darkhttpd.Auth.Base64.{decode, decode-base64_encode}
use darkhttpd.Auth.Equal.{password_equal-same}
use darkhttpd.Listing.{append_escaped}
use darkhttpd.Listing.Escape.{IsInert, append_escaped-IsInert}
use darkhttpd.Log.{logencode}
use darkhttpd.Log.Safe.{IsPrintable, logencode-IsPrintable}
use darkhttpd.Process.Gate.{IsGated, process_request-IsGated}
use darkhttpd.Reply.{needs_https_redirect}
use darkhttpd.Request.{parse_request, parse_target, parse_behind_protocol, parse_protocol}
use darkhttpd.Url.{urldecode, urlencode}
use darkhttpd.Url.RoundTrip.{IsByte, urldecode-urlencode}
use darkhttpd.Conn.{
  Connection, recv_request, send_header, send_reply, reply_generated, new_connection,
}
use darkhttpd.Common.Int.{pos}
use darkhttpd.Env.{Config, Env, System, ok, fail, enoent, Stat, regular}
use darkhttpd.Get.{reply_range}
use darkhttpd.Get.Range.{Asked, reply_range-Asked}
use darkhttpd.Poll.{
  Globals, Io, Sent, sent, received, offered_header, offered_reply, poll_recv_request,
  poll_send_header, poll_send_reply,
}
use darkhttpd.Poll.Progress.{IsFinished, send_rounds, send_rounds-IsFinished}
use darkhttpd.Poll.Sending.{IsSending, poll_send_header-IsSending, poll_send_reply-IsSending}
use darkhttpd.Poll.Valid.{IsHonest, IsValid, poll_recv_request-IsValid}
use darkhttpd.Process.{process_request}
use darkhttpd.Response.{Stable, IsBuilt}
use darkhttpd.Response.Requests.{process_request-IsBuilt}
use darkhttpd.SafeUrl.{make_safe_url}
use darkhttpd.SafeUrl.Safe.{IsSafe, make_safe_url-IsSafe}
use darkhttpd.SafeUrl.Spec.{safe_path, make_safe_url-safe_path}
use darkhttpd.Server.{Server, accepted, ready, Inputs, httpd_poll}
use darkhttpd.Server.Valid.{Keeps, IsReady, httpd_poll-IsReady}

abbrev pub site_config : Config
site_config = record {
  forward_map = [];
  forward_all_url = none;
  forward_to_https = false;
  mime_map = record { entries = []; longest_ext = 0 };
  default_mimetype = codes "text/plain";
  timeout_secs = pos 30;
  keep_alive_field = codes "Keep-Alive: timeout=30\r\n";
  index_name = codes "index.html";
  no_listing = false;
  humanize_sizes = false;
  wwwroot = codes "/w";
  want_keepalive = true;
  want_server_id = false;
  want_single_file = false;
  want_hide_dotfiles = false;
  server_hdr = [];
  auth_key = none;
  custom_hdrs = [];
  trusted_ip = none;
}

abbrev pub site_stat : Stat
site_stat = record { kind = regular; size = 2; mtime = 0 }

-- Every path opens a file that holds "hi".
abbrev pub site_system : System
site_system = record {
  stat = λ path. ok site_stat;
  open_file = λ path. ok 3;
  fstat = λ fd. ok site_stat;
  opendir = λ path. fail enoent;
  file_bytes = λ fd. codes "hi";
  strerror = λ err. [];
  format_gmt = λ time. none;
  format_local = λ time. [];
  format_clf = λ time. none;
  address_text = λ address. [];
}

ok_size : (st st' : Stat) → ok st ≡ ok st' → st.size ≡ st'.size
ok_size st st' e = cc

pub site-Stable : Stable site_system
site-Stable fd st e r = ok_size site_stat st e

abbrev pub site : Env
site = record { config = site_config; system = site_system; now = 100 }

abbrev pub none_yet : Globals
none_yet = record { num_requests = 0; total_in = 0; total_out = 0; accepting = true; log = [] }

-- A connection that has just been accepted.
abbrev pub waiting : Connection
waiting = record (new_connection 99 reply_generated) { socket = some 5; state = recv_request }

abbrev pub asking : Connection
asking = record waiting { request = some (codes "GET /a HTTP/1.1\r\n\r\n"); request_length = 19 }

-- A response of which nothing is sent yet.
abbrev answering : Connection
answering = record waiting {
  state = send_header;
  header = some (codes "OK\n");
  header_length = 3;
  reply = some (codes "hi");
  reply_length = 2;
  http_code = 200;
}

-- The same response with the header sent.
abbrev replying : Connection
replying = record answering { state = send_reply; header_sent = 3; total_sent = 3 }

answering-IsSending : IsSending site_system answering []
unfolding new_connection
answering-IsSending = record {
  sent_so_far = refl;
  header_whole = refl;
  body_whole = refl;
  in_header = λ e. (refl, omega arith, refl);
  in_reply = λ e. cc;
  in_done = λ e k. cc;
}

replying-IsSending : IsSending site_system replying (codes "OK\n")
unfolding new_connection
replying-IsSending = record {
  sent_so_far = refl;
  header_whole = refl;
  body_whole = refl;
  in_header = λ e. cc;
  in_reply = λ e. (refl, refl, omega arith);
  in_done = λ e k. cc;
}

poll_send_header-IsSending_example :
    IsSending site_system
      (poll_send_header site none_yet answering (sent 3) (sent 1)).conn
      ([] ++ (poll_send_header site none_yet answering (sent 3) (sent 1)).wire)
unfolding offered_header offered_reply new_connection
poll_send_header-IsSending_example =
    poll_send_header-IsSending site none_yet answering (sent 3) (sent 1) answering-IsSending refl
      (omega arith) (omega arith)

-- `send` and `sendfile` take at most two bytes at a time.
abbrev slow_sent : Bytes → Sent
slow_sent b = sent (min 2 (length b))

abbrev pub slow_io : Io
slow_io = record {
  recv = received (codes "GET /a HTTP/1.1\r\n\r\n");
  send_header = slow_sent;
  send_reply = slow_sent;
}

pub slow_io-IsHonest : IsHonest slow_io
slow_io-IsHonest = record { header_takes = λ b. omega arith; reply_takes = λ b. omega arith }

poll_recv_request-IsValid_example :
    IsValid site_system (poll_recv_request site none_yet waiting slow_io).conn
unfolding new_connection
poll_recv_request-IsValid_example =
    poll_recv_request-IsValid site none_yet waiting slow_io site-Stable slow_io-IsHonest refl
      (((refl, refl, refl), refl), refl)

process_request-IsBuilt_example :
    IsBuilt site_system (process_request site asking)
    × ((process_request site asking).state ≡ send_header)
unfolding new_connection
process_request-IsBuilt_example =
    process_request-IsBuilt site asking site-Stable ((refl, refl, refl), refl)

abbrev pub round_inputs : Inputs
round_inputs = record {
  selected = ready (λ fd. true) (λ fd. true) true;
  time = 101;
  accept = accepted 6 1;
  accept_io = slow_io;
  io = λ fd. slow_io;
  garbage = reply_generated;
}

abbrev pub busy_server : Server
busy_server = record {
  globals = none_yet;
  connlist = answering ∷ replying ∷ waiting ∷ [];
  now = 100;
}

pub busy_server-IsReady : All (IsReady site_system) busy_server.connlist
unfolding new_connection
busy_server-IsReady = (
  (λ e. cc, ([], answering-IsSending)),
  (
    (λ e. cc, (codes "OK\n", replying-IsSending)),
    ((λ e. cc, (((refl, refl, refl), refl), refl)), tt),
  ),
)

httpd_poll-IsReady_example : Keeps site_system (httpd_poll site busy_server round_inputs)
httpd_poll-IsReady_example =
    httpd_poll-IsReady site busy_server round_inputs site-Stable
      (λ fd. slow_io-IsHonest, slow_io-IsHonest) busy_server-IsReady

-- The middle of a file of ten bytes.
abbrev ranged : Connection
ranged = record waiting {
  range_begin = 2;
  range_begin_given = true;
  range_end = 5;
  range_end_given = true;
}

reply_range-Asked_example :
    let r = reply_range site ranged 10 [] [] in
    ((r.http_code ≡ 206)
      × (((r.reply_start ≤ 4) × (4 < r.reply_start + r.reply_length))
          ↔ ((4 < 10) × Asked ranged 10 4)))
    ⊎ ((r.http_code ≡ 416) × (¬ ((4 < 10) × Asked ranged 10 4)))
reply_range-Asked_example = reply_range-Asked site ranged 10 [] [] 4 refl

abbrev byte_by_byte : Bytes → ℕ
byte_by_byte b = min 1 (length b)

send_rounds-IsFinished_example :
    IsFinished replying (send_rounds 2 site none_yet replying byte_by_byte)
unfolding new_connection
send_rounds-IsFinished_example =
    send_rounds-IsFinished 2 site none_yet replying byte_by_byte (λ b h. (omega arith, omega arith))
      (refl, refl, omega arith) (omega arith)
