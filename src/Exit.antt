-- ===== src/Exit.antt =====
-- The clean exit of `main` in darkhttpd.c, behind its loop: the listening socket, the log file and the
-- pid file are closed, the connections are freed, and the statistics are printed. A stream that is
-- written behind its `fclose` is an outcome of its own, since C says nothing of it.
pub mod Closed
use darkhttpd.Common.{
  ℕ, ◌/◌, ◌%◌, ◌^◌, Bool, true, false, not, Option, none, some, List, [], ◌∷◌, ◌++◌, ltb,
  if◌then◌else◌, Bytes, text,
}
use darkhttpd.Conn.{Connection}
use darkhttpd.Cstring.{decimal}
use darkhttpd.Env.{Env}
use darkhttpd.Log.{log_connection}
use darkhttpd.Options.{Settings}
use darkhttpd.Pidfile.{Calls, Disk, Run, done, ended, pidfile_remove}
use darkhttpd.Poll.{Globals}
use darkhttpd.Reply.{join}
use darkhttpd.Server.{free_connection}

-- What `getrusage` says: seconds and microseconds.
pub record Usage : Type 0 where
  pub user_sec : ℕ
  pub user_usec : ℕ
  pub system_sec : ℕ
  pub system_usec : ℕ

-- How the program ends: with what it has printed on its standard output, or by a call that fails, or
-- with a write to a stream that is closed.
pub data Ended : Type 0 where
  finished : Globals → Disk → Bytes → Ended
  failed : ℕ → Bytes → Disk → Ended
  written_closed : Ended

-- `%u` and `%02u` of a number cast to `unsigned int`.
unsigned_text : ℕ → Bytes
unfolding decimal
unsigned_text n = decimal (n % 2 ^ 32)

two_digits : ℕ → Bytes
unfolding decimal
two_digits n =
    let digits = decimal (n % 2 ^ 32) in if ltb (n % 2 ^ 32) 10 then b'0' ∷ digits else digits

unfoldable pub stats_text : Usage → Globals → Bytes
unfolding unsigned_text two_digits decimal
stats_text u g = join (
    text "CPU time used: "
    ∷ unsigned_text u.user_sec
    ∷ text "."
    ∷ two_digits (u.user_usec / 10000)
    ∷ text " user, "
    ∷ unsigned_text u.system_sec
    ∷ text "."
    ∷ two_digits (u.system_usec / 10000)
    ∷ text " system\nRequests: "
    ∷ decimal g.num_requests
    ∷ text "\nBytes: "
    ∷ decimal g.total_in
    ∷ text " in, "
    ∷ decimal g.total_out
    ∷ text " out\n"
    ∷ [])

-- `free_connection` with the log file closed: `log_connection` writes to it, but with `--syslog`.
free_logged : Env → Bool → Globals → Connection → Option Bytes → Option Globals
free_logged e syslog g c none = some (free_connection e g c)
free_logged e true g c (some line) = some (free_connection e g c)
free_logged e false g c (some line) = none

-- The loop over the connections.
unfoldable pub free_connections : Env → Bool → Globals → List Connection → Option Globals
unfolding free_logged
free_connections e syslog g [] = some g
free_connections e syslog g (c ∷ cs) = elim (free_logged e syslog g c (log_connection e c)) [
  | none ↦ none
  | some g' ↦ free_connections e syslog g' cs
]

remove_pidfile : Calls → Option Bytes → Disk → Run (Unit {0})
unfolding pidfile_remove
remove_pidfile calls none d = done tt d
remove_pidfile calls (some name) d = pidfile_remove calls d

-- The statistics go to the standard output, which was the log file if no other was named.
print_stats : Option Bytes → Usage → Disk → Option Globals → Ended
unfolding stats_text
print_stats logfile_name u d none = written_closed
print_stats none u d (some g) = written_closed
print_stats (some name) u d (some g) = finished g d (stats_text u g)

behind_remove : Settings → Usage → Env → Globals → List Connection → Run (Unit {0}) → Ended
unfolding free_connections print_stats
behind_remove s u e g cs (done _ d) =
    print_stats s.logfile_name u d (free_connections e s.syslog_enabled g cs)
behind_remove s u e g cs (ended status message d) = failed status message d

-- `closes_sockin` is the outcome of the `close` of the listening socket.
unfoldable pub clean_exit :
    Bool → Calls → Settings → Usage → Env → Disk → Globals → List Connection → Ended
unfolding remove_pidfile behind_remove
clean_exit closes_sockin calls s u e d g cs =
    if closes_sockin
    then behind_remove s u e g cs (remove_pidfile calls s.pidfile_name d)
    else failed 1 (text "close()") d
