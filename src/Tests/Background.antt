-- ===== src/Tests/Background.antt =====
-- Concrete runs: the start of a daemon, a child whose failure its parent does not see, and the clean
-- exit.
use darkhttpd.Common.{◌≡◌, true, false, some, List, [], ◌∷◌, Bytes, codes, refl}
use darkhttpd.Daemon.{in_child, FinishCalls}
use darkhttpd.Daemon.Lifeline.{World, left, ended, status_of}
use darkhttpd.Main
use darkhttpd.Main.{Machine, initial_settings}
use darkhttpd.Conn.{new_connection}
use darkhttpd.Exit.{Usage, finished, stats_text, clean_exit}
use darkhttpd.Exit.Closed.{all_freed, clean_exit-finished}
use darkhttpd.Log.{log_connection}
use darkhttpd.Options.{Settings}
use darkhttpd.Tests.{site, none_yet, waiting}
use darkhttpd.Tests.Start.{host, socket_calls, directories, root_process, calls, no_disk}

abbrev finish_calls : FinishCalls
finish_calls = record {
  makes_session = true;
  closes_read = true;
  closes_write = true;
  sets_stdin = true;
  sets_stdout = true;
  sets_stderr = true;
  closes_null = true;
}

-- Every call succeeds, and this is the child.
abbrev machine : Machine
machine = record {
  host = host;
  sockets = socket_calls;
  opens_log = λ name. true;
  signals = record { ignores_pipe = true; stops_on_int = true; stops_on_term = true };
  background = record { makes_pipe = true; opens_null = some 5; forks = in_child };
  finish = finish_calls;
  directories = directories;
  process = root_process;
  pid = 1234;
  pidfile = calls;
  disk = no_disk;
}

abbrev words : List Bytes
words = codes "/srv" ∷ codes "--daemon" ∷ codes "--chroot" ∷ []

-- The child fails with status 1; the parent reads the end of the lifeline and asks too early, and the
-- child has ended when the parent is gone.
abbrev too_early : World
too_early = record {
  parent = left 0;
  parent_write = false;
  read_failed = false;
  child = ended (status_of 1);
  files = record {
    read_end = false;
    write_end = false;
    null_open = false;
    stdin_null = false;
    stdout_null = false;
    stderr_null = false;
  };
}

-- The daemon is stopped while a connection waits for its first request.
abbrev stopped : Settings
stopped = record initial_settings {
  logfile_name = some (codes "/log");
  pidfile_name = some (codes "/run/d.pid");
}

abbrev usage : Usage
usage = record { user_sec = 1; user_usec = 20000; system_sec = 0; system_usec = 0 }

clean_exit-finished_example :
    clean_exit true calls stopped usage site no_disk none_yet (waiting ∷ [])
    ≡ finished (all_freed site none_yet (waiting ∷ [])) no_disk (stats_text usage none_yet)
unfolding log_connection new_connection initial_settings
clean_exit-finished_example =
    clean_exit-finished calls stopped usage site no_disk none_yet (waiting ∷ []) refl refl
