-- ===== src/Main.antt =====
-- `main` of darkhttpd.c: the settings that it starts with, what it makes of the command line, the
-- loop until a signal. Printing is left out.
pub mod Start
use darkhttpd.Command.{parse_commandline}
use darkhttpd.Common.{
  ℕ, Bool, true, false, Option, none, some, List, [], ◌∷◌, ◌++◌, if◌then◌else◌, Bytes, codes, text,
}
use darkhttpd.Common.Int.{ℤ, pos, negsuc}
use darkhttpd.Conn.{Connection}
use darkhttpd.Daemon.{
  StartCalls, FinishCalls, Files, lifeline_files, foreground_files, daemonize_start,
  daemonize_finish,
}
use darkhttpd.Env.{Config, Env, MimeMap, System}
use darkhttpd.Mime.{parse_default_extension_map, sort_mime_map}
use darkhttpd.Numbers.{decimal_int}
use darkhttpd.Options.{Settings, Result, ok, exited, ◌>>=◌, ◌>>◌, require, Host}
use darkhttpd.Pidfile.{Calls, Disk, Run, done, ended, pidfile_create}
use darkhttpd.Poll.{Globals}
use darkhttpd.Reply.{pkgname}
use darkhttpd.Security.{ProcessState, Directories, secure}
use darkhttpd.Sockin.{SocketCalls, init_sockin}
use darkhttpd.Server.{Server, Inputs, Outcome, running, httpd_poll, free_connection}

-- `default_extension_map`
unfoldable pub default_extension_map : List Bytes
default_extension_map =
    codes "application/java-archive jar"
    ∷ codes "application/json json"
    ∷ codes "application/pdf pdf"
    ∷ codes "application/rss+xml rss"
    ∷ codes "application/wasm wasm"
    ∷ codes "application/xhtml+xml xhtml xhtm xht"
    ∷ codes "application/xml-dtd dtd"
    ∷ codes "application/xml xsl xml"
    ∷ codes "application/xslt+xml xslt"
    ∷ codes "application/zip zip"
    ∷ codes "audio/flac flac"
    ∷ codes "audio/mp4 m4a"
    ∷ codes "audio/mpeg mp2 mp3 mpga"
    ∷ codes "audio/ogg ogg opus oga spx"
    ∷ codes "audio/wav wav"
    ∷ codes "audio/x-matroska mka"
    ∷ codes "audio/x-mpegurl m3u m3u8"
    ∷ codes "font/otf otf"
    ∷ codes "font/ttf ttf"
    ∷ codes "font/woff woff"
    ∷ codes "font/woff2 woff2"
    ∷ codes "image/apng apng"
    ∷ codes "image/avif avif"
    ∷ codes "image/gif gif"
    ∷ codes "image/jpeg jpeg jpe jpg jfif"
    ∷ codes "image/jxl jxl"
    ∷ codes "image/png png"
    ∷ codes "image/svg+xml svg svgz"
    ∷ codes "image/webp webp"
    ∷ codes "text/css css"
    ∷ codes "text/html html htm"
    ∷ codes "text/javascript js mjs"
    ∷ codes "text/plain txt asc conf log"
    ∷ codes "video/mp4 mp4 m4v"
    ∷ codes "video/mpeg mpeg mpe mpg"
    ∷ codes "video/quicktime qt mov"
    ∷ codes "video/webm webm"
    ∷ codes "video/x-matroska mkv"
    ∷ codes "video/x-msvideo avi"
    ∷ []

-- The values of the globals when the program starts.
unfoldable pub initial_settings : Settings
initial_settings = record {
  wwwroot = [];
  bindport = 8080;
  bindaddr = none;
  max_connections = negsuc 0;
  logfile_name = none;
  want_chroot = false;
  want_daemon = false;
  index_name = codes "index.html";
  no_listing = false;
  humanize_sizes = false;
  mime_map = record { entries = []; longest_ext = 0 };
  default_mimetype = codes "application/octet-stream";
  drop_uid = none;
  drop_gid = none;
  pidfile_name = none;
  want_keepalive = true;
  want_accf = false;
  syslog_enabled = false;
  want_single_file = false;
  want_hide_dotfiles = false;
  forward_map = [];
  forward_all_url = none;
  want_server_id = true;
  timeout_secs = pos 30;
  auth_key = none;
  trusted_ip = none;
  forward_to_https = false;
  custom_hdrs = [];
  inet6 = false;
}

sorted_map : Settings → Settings
sorted_map s = record s {
  mime_map = record s.mime_map { entries = sort_mime_map s.mime_map.entries };
}

-- The first calls of `main`: the default map, the command line, the sorting.
unfoldable pub read_settings : Host → List Bytes → Result Settings
unfolding initial_settings sorted_map
read_settings h args =
    let s = initial_settings in
    let m = parse_default_extension_map default_extension_map s.mime_map in
    parse_commandline h args (record s { mime_map = m }) >>= λ s'. ok (sorted_map s')

-- The globals that the request handlers read. `main` makes `keep_alive_field` and `server_hdr` before
-- it changes the root.
unfoldable pub config_of : Settings → Config
unfolding decimal_int
config_of s = record {
  forward_map = s.forward_map;
  forward_all_url = s.forward_all_url;
  forward_to_https = s.forward_to_https;
  mime_map = s.mime_map;
  default_mimetype = s.default_mimetype;
  timeout_secs = s.timeout_secs;
  keep_alive_field = codes "Keep-Alive: timeout=" ++ (decimal_int s.timeout_secs ++ codes "\r\n");
  index_name = s.index_name;
  no_listing = s.no_listing;
  humanize_sizes = s.humanize_sizes;
  wwwroot = s.wwwroot;
  want_keepalive = s.want_keepalive;
  want_server_id = s.want_server_id;
  want_single_file = s.want_single_file;
  want_hide_dotfiles = s.want_hide_dotfiles;
  server_hdr = if s.want_server_id then codes "Server: " ++ (pkgname ++ codes "\r\n") else [];
  auth_key = s.auth_key;
  custom_hdrs = s.custom_hdrs;
  trusted_ip = s.trusted_ip;
}

-- Whether each call of `signal` succeeds.
pub record Signals : Type 0 where
  pub ignores_pipe : Bool
  pub stops_on_int : Bool
  pub stops_on_term : Bool

-- What the start of the program asks of the system besides the command line's calls. `opens_log` is
-- the outcome of `fopen` on the log.
pub record Machine : Type 0 where
  pub host : Host
  pub sockets : SocketCalls
  pub opens_log : Bytes → Bool
  pub signals : Signals
  pub background : StartCalls
  pub finish : FinishCalls
  pub directories : Directories
  pub process : ProcessState
  pub pid : ℕ
  pub pidfile : Calls
  pub disk : Disk

-- Each part of `main` that may end the program, in order.
open_log : Machine → Option Bytes → Result (Unit {0})
open_log m none = ok tt
open_log m (some name) =
    if m.opens_log name
    then ok tt
    else exited 1 (text "opening logfile: fopen(\"" ++ name ++ text "\")")

-- What `daemonize_start` leaves in `fd_null`, and the descriptors, if it is called at all.
go_background : Machine → Bool → Result (Option ℕ × Files)
go_background m false = ok (none, foreground_files)
go_background m true = do fd_null ← daemonize_start m.background; ok (some fd_null, lifeline_files)

set_signals : Machine → Result (Unit {0})
set_signals m = do
  require m.signals.ignores_pipe (text "signal(ignore SIGPIPE)")
  require m.signals.stops_on_int (text "signal(SIGINT)")
  require m.signals.stops_on_term (text "signal(SIGTERM)")
  ok tt

of_run : Run (Unit {0}) → Result Disk
of_run (done _ d) = ok d
of_run (ended status message d) = exited status message

create_pidfile : Machine → Option Bytes → Result Disk
unfolding of_run
create_pidfile m none = ok m.disk
create_pidfile m (some name) = of_run (pidfile_create m.pidfile m.pid m.disk)

stay_background : Machine → Bool → Option ℕ × Files → Result Files
stay_background m false (fd_null, f) = ok f
stay_background m true (fd_null, f) = daemonize_finish m.finish fd_null f

-- The state in which `main` enters its loop.
pub record Started : Type 0 where
  pub sockin : ℕ
  pub settings : Settings
  pub process : ProcessState
  pub disk : Disk
  pub files : Files

unfoldable pub start : Machine → List Bytes → Result Started
unfolding open_log go_background set_signals create_pidfile stay_background
start m args = do
  s ← read_settings m.host args
  sockin ← init_sockin m.sockets s
  l ← open_log m s.logfile_name
  b ← go_background m s.want_daemon
  g ← set_signals m
  r ← secure m.directories s m.process
  d ← create_pidfile m r.0.pidfile_name
  f ← stay_background m r.0.want_daemon b
  ok (record { sockin = sockin; settings = r.0; process = r.1; disk = d; files = f })

-- The globals of the loop, with nothing counted and no connection.
unfoldable pub first_server : ℕ → Server
first_server now = record {
  globals = record { num_requests = 0; total_in = 0; total_out = 0; accepting = true; log = [] };
  connlist = [];
  now = now;
}

-- `while (running) httpd_poll();`: one round for each element, until a signal stops the loop behind
-- the last one. `now` is what the last round has left in the cache, and the files and their
-- descriptors are others in each round.
unfoldable main_loop : Env → Server → List (System × Inputs) → Outcome
main_loop e s [] = running s []
main_loop e s ((system, round) ∷ rounds) =
    elim (httpd_poll (record e { system = system; now = s.now }) s round) as (λ o. Outcome) [
      | running s' wires ↦ main_loop e s' rounds
      | Outcome.exited ↦ Outcome.exited
    ]
