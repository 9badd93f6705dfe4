-- ===== src/Exit/Closed.antt =====
-- When the clean exit writes to a stream that it has closed.
use darkhttpd.Common.{
  ◌≡◌, refl, sym, not, ap, ◌∙◌, inl, inr, Bool, true, false, ◌&&◌, ◌||◌, Option, Option-cases, none,
  some, List, [], ◌∷◌, Bytes, every, if◌then◌else◌,
}
use darkhttpd.Conn.{Connection}
use darkhttpd.Env.{Env}
use darkhttpd.Exit.{
  Usage, finished, written_closed, stats_text, free_logged, free_connections, remove_pidfile,
  print_stats, behind_remove, clean_exit,
}
use darkhttpd.Log.{log_connection}
use darkhttpd.Options.{Settings}
use darkhttpd.Pidfile.{Calls, Disk, done, pidfile_remove}
use darkhttpd.Poll.{Globals}
use darkhttpd.Server.{free_connection}

abbrev pub is_given : Option Bytes → Bool
is_given none = false
is_given (some name) = true

-- No line is logged of the connection.
abbrev pub is_silent : Env → Connection → Bool
is_silent e c = not (is_given (log_connection e c))

-- What freeing every connection leaves of the globals.
unfoldable pub all_freed : Env → Globals → List Connection → Globals
all_freed e g [] = g
all_freed e g (c ∷ cs) = all_freed e (free_connection e g c) cs

-- What is left of the pid file.
abbrev pub disk_left : Option Bytes → Disk → Disk
disk_left none d = d
disk_left (some name) d = record { content = none; pidfile_fd = none }

free_connections-all_freed :
    (e : Env) (syslog : Bool) (g : Globals) (cs : List Connection)
    → free_connections e syslog g cs
      ≡ (if syslog || every (is_silent e) cs then some (all_freed e g cs) else none)
unfolding free_connections free_logged all_freed
free_connections-all_freed e true g [] = refl
free_connections-all_freed e false g [] = refl
free_connections-all_freed e true g (c ∷ cs) = elim (Option-cases (log_connection e c)) [
  | inl q ↦ rw (q, free_connections) (free_connections-all_freed e true (free_connection e g c) cs)
  | inr (line, q) ↦
      rw (q, free_connections) (free_connections-all_freed e true (free_connection e g c) cs)
]
free_connections-all_freed e false g (c ∷ cs) = elim (Option-cases (log_connection e c)) [
  | inl q ↦
      let first : free_connections e false g (c ∷ cs)
          ≡ free_connections e false (free_connection e g c) cs =
        rw (q, free_connections) refl in
      let silent : every (is_silent e) cs ≡ every (is_silent e) (c ∷ cs) =
        sym (ap (λ o. not (is_given o) && every (is_silent e) cs) q) in
      first
      ∙ free_connections-all_freed e false (free_connection e g c) cs
      ∙ ap (λ b. if b then some (all_freed e (free_connection e g c) cs) else none) silent
  | inr (line, q) ↦
      let first : free_connections e false g (c ∷ cs) ≡ none = rw (q, free_connections) refl in
      let logged : false ≡ every (is_silent e) (c ∷ cs) =
        sym (ap (λ o. not (is_given o) && every (is_silent e) cs) q) in
      first ∙ ap (λ b. if b then some (all_freed e (free_connection e g c) cs) else none) logged
]

stats_text-all_freed :
    (u : Usage) (e : Env) (g : Globals) (cs : List Connection)
    → stats_text u (all_freed e g cs) ≡ stats_text u g
unfolding stats_text all_freed free_connection
stats_text-all_freed u e g [] = refl
stats_text-all_freed u e g (c ∷ cs) = stats_text-all_freed u e (free_connection e g c) cs

remove_pidfile-done :
    (calls : Calls) (name : Option Bytes) (d : Disk)
    → calls.unlinked ≡ true
    → calls.closed ≡ true
    → remove_pidfile calls name d ≡ done tt (disk_left name d)
unfolding remove_pidfile pidfile_remove
remove_pidfile-done calls none d h k = refl
remove_pidfile-done calls (some name) d h k = simp (h, k, pidfile_remove) refl

print_stats-finished :
    (logfile_name : Option Bytes) (u : Usage) (e : Env) (d : Disk) (g : Globals)
    (cs : List Connection) (quiet : Bool)
    → print_stats logfile_name u d (if quiet then some (all_freed e g cs) else none) ≡ (
        if is_given logfile_name && quiet
        then finished (all_freed e g cs) d (stats_text u g)
        else written_closed)
unfolding print_stats
print_stats-finished none u e d g cs true = refl
print_stats-finished none u e d g cs false = refl
print_stats-finished (some name) u e d g cs true =
    ap (λ b. finished (all_freed e g cs) d b) (stats_text-all_freed u e g cs)
print_stats-finished (some name) u e d g cs false = refl

-- If the listening socket and the pid file can be closed and removed, the clean exit comes to its
-- end, with the pid file gone, the connections freed and the counts of the loop printed,
-- exactly when a log file was named and, unless the log is syslog, no connection that is
-- left has a line to be logged; else it writes to a stream that it has closed.
pub clean_exit-finished :
    (calls : Calls) (s : Settings) (u : Usage) (e : Env) (d : Disk) (g : Globals)
    (cs : List Connection)
    → calls.unlinked ≡ true
    → calls.closed ≡ true
    → clean_exit true calls s u e d g cs ≡ (
        if is_given s.logfile_name && (s.syslog_enabled || every (is_silent e) cs)
        then finished (all_freed e g cs) (disk_left s.pidfile_name d) (stats_text u g)
        else written_closed)
unfolding clean_exit behind_remove
clean_exit-finished calls s u e d g cs h k =
    ap (behind_remove s u e g cs) (remove_pidfile-done calls s.pidfile_name d h k)
    ∙ ap (print_stats s.logfile_name u (disk_left s.pidfile_name d))
        (free_connections-all_freed e s.syslog_enabled g cs)
    ∙ print_stats-finished s.logfile_name u e (disk_left s.pidfile_name d) g cs _
