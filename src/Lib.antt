-- ===== src/Lib.antt =====
-- A verification library for darkhttpd, a single-threaded web server for static files.
--
-- The program is `darkhttpd.c`. One loop, `httpd_poll`, waits in `select`, accepts connections, and
-- gives each connection of the list `connlist` to the handler of its state: `poll_recv_request`
-- collects a request and hands it to `process_request`, which parses it and builds a response;
-- `poll_send_header` and `poll_send_reply` send it. A finished connection is freed or recycled.
--
-- Common: bytes as natural numbers, Boolean tests, lists with native lengths, integers (Common.Tests,
--   Common.Lists, Common.Int).
-- Cstring: the functions of the C library that the program calls on strings.
-- Url: `urldecode`, `urlencode`, `normalize_path`; Url.RoundTrip relates the first two,
--   Url.NonNul is about the bytes that are left.
-- SafeUrl: `make_safe_url`, on a buffer that is read and written in place. Its children compare
--   the buffer's loop with a walk over path components.
-- Env: the options as the record Config, and the system as the record System: each call (`open`,
--   `fstat`, `stat`, `readdir`, `strftime`, ...) is a function that the handlers are given.
-- Conn: `struct connection`, `new_connection`, the reset of `recycle_connection`, and
--   `poll_check_timeout`.
-- Request: `parse_request`, `parse_field`, `parse_range_field`; Request.Line is about the request
--   line, Request.Fields about `parse_field`, Request.Behind and Request.Ranged about the Range field,
--   Request.Read about all together.
-- Mime: the mime map and `url_content_type`; Mime.Order is about `strcasecmp`, Mime.Lookup about the
--   sorting, Mime.Search about the binary search, Mime.Built about the map that the lines build.
-- Auth: `password_equal` (Auth.Equal), `base64_encode` (Auth.Base64).
-- Reply: `default_reply`, `redirect`, `redirect_https`. Listing: `generate_dir_listing`; Listing.Escape
--   is about `append_escaped`, Listing.Sorted about `make_sorted_dirlist`, Listing.Order about
--   its sorting. Sizes: `humanize_size`.
-- Get: `process_get`; Get.Range is about its ranges, Get.Confined about the paths that it
--   hands to the system. Process: `process_request`; Process.Gate is about its test of the
--   credentials, Process.Confined about paths, Process.Head about HEAD.
-- Log: `logencode` (Log.Safe), `log_connection`.
-- Poll: the three handlers of a connection. Poll.Message says what a connection is to send,
--   Poll.Sending what has been sent, Poll.Valid what holds of a connection in each state,
--   Poll.Progress how many rounds a reply takes, Poll.Answers and Poll.Served what the handlers do to the
--   clock, the length of the request and the counter of bytes sent, Poll.Current that a message
--   stays the same while it is sent.
-- Response: what a built response is, for each part of `process_request`.
-- Server: `accept_connection`, `free_connection`, `recycle_connection`, `httpd_poll`; Server.Valid is
--   the invariant of the list, Server.Round and Server.Counted are about clocks, lengths and counts,
--   Server.Life has the life of one connection as a step relation, and
--   Server.Transcript is about what is received and sent in it.
-- Options: what the command line sets, and results that may end the program (Options.Ends).
-- Numbers: `str_to_num`, `xstr_to_num` over the C library's `strtoll`; Numbers.RoundTrip is about what
--   `printf` writes.
-- Command: `parse_commandline`, `add_forward_mapping`; Command.Spelling has options as data,
--   Command.Flags is about the loop over their arguments, Command.Sane about an
--   invariant of the settings.
-- Security: `change_root` and the part of `main` that drops privileges (Security.Dropped,
--   Security.Secured).
-- Daemon: `daemonize_start`, `daemonize_finish`; Daemon.Lifeline has parent and child as a
--   step relation, with a step for each call of `daemonize_finish`.
-- Pidfile: `pidfile_create`, `pidfile_read`, `pidfile_remove` (Pidfile.Locked).
-- Sockin: `init_sockin` (Sockin.Listening).
-- Main: the initial globals, the start of `main` (Main.Start), its loop. Exit: the clean exit of
--   `main` (Exit.Closed).
-- Apbuf: `make_apbuf`, `appendl` on memory of a known size (Apbuf.Contents). The listings and replies
--   use texts in its place.
-- Tests and its children: concrete runs.
--
-- Correspondence. A `char *` is a list of bytes without its NUL, and a pointer that may be NULL an
-- Option. The globals that the handlers change are the record Globals; those that the command line
-- sets are Config. Format strings are concatenations of their pieces. A file descriptor of -1 is
-- `none`. The counters `num_requests`, `total_in` and `total_out` wrap at 2^64. What `select`,
-- `accept`, `recv`, `send`, `sendfile` and `time` return in a round of the loop is an argument of
-- the round, so that every behaviour of the system is covered; `send` and `sendfile` are functions
-- of the bytes they are given. The sets that `select` returns are arbitrary. The calls on files are
-- functions of their arguments within a round; `main_loop` takes another System in each round, and
-- Server.Life one for the life of a connection. At the start, the
-- databases of users and groups, `inet_pton` and files are the record Host, the calls of the
-- socket library the record SocketCalls, those on the pid file the record Calls, and `chdir`,
-- `chroot`, `setgroups`, `setgid` and `setuid` change the record ProcessState; `exit`, `err` and
-- `errx` are the result `exited`.
--
-- Fuel. The loop of `make_safe_url` runs on the length of what is left of the source, which falls
-- in every round; binary search runs on the size of the map, the loops over the lines of a file of
-- mime types and over the words of a line on their lengths, the loop over the arguments on their
-- number, and the growth of an append buffer on the size that is needed. `to_double` doubles the
-- unit of the last place ten times at most, which is enough for sizes below 2^63. Other loops
-- are structural.
--
-- Not modelled: the text of `usage`; what warnings print; signals, which only end the list of
-- rounds of the loop; what `main` prints at its start; what `init_sockin` prints, and the accept
-- filter of FreeBSD; memory allocation, whose failure ends the program; the copied LIST macros;
-- debug output; `sendfile` of FreeBSD and the loop with `read` for systems without `sendfile`.
mod Common
pub mod Cstring
pub mod Url
pub mod Sizes
pub mod SafeUrl
pub mod Daemon
pub mod Env
pub mod Conn
pub mod Request
pub mod Mime
pub mod Auth
pub mod Reply
pub mod Listing
pub mod Get
pub mod Process
pub mod Log
pub mod Poll
pub mod Server
pub mod Response
pub mod Command
pub mod Security
pub mod Pidfile
pub mod Sockin
pub mod Main
pub mod Exit
pub mod Apbuf
pub mod Options
pub mod Numbers
mod Tests
