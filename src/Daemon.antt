-- ===== src/Daemon.antt =====
-- `daemonize_start` and `daemonize_finish` of darkhttpd.c: the program goes into the background in a
-- child, and the parent waits at a pipe, the lifeline, until the child has cut it. What `warn` prints
-- is left out, so that of a `close` or a `dup2` it matters only what becomes of the descriptors.
pub mod Lifeline
use darkhttpd.Common.{
  zero, suc, ℕ, ◌/◌, ◌%◌, Bool, true, false, not, ◌&&◌, ◌||◌, Option, none, some, [], Bytes, text,
  ltb,
}
use darkhttpd.Options.{Result, ok, exited, ◌>>=◌, ◌>>◌, require, given}

-- What `waitpid(f, &status, WNOHANG)` returns: -1, 0, or the process, with its status.
pub data Waited : Type 0 where
  no_child : Waited
  not_yet : Waited
  child_status : ℕ → Waited

-- `WEXITSTATUS`: the second byte of a status.
unfoldable pub wexitstatus : ℕ → ℕ
wexitstatus status = status / 256 % 256

-- The status with which the parent exits.
unfoldable pub exit_status : Waited → ℕ
exit_status no_child = 1
exit_status not_yet = 0
exit_status (child_status status) = wexitstatus status

abbrev pub last_words : Waited → Bytes
last_words no_child = text "waitpid"
last_words _ = []

-- What `fork` returns: -1, a process in the parent, which then waits for it, or 0 in the child.
pub data Forked : Type 0 where
  no_process : Forked
  in_parent : Waited → Forked
  in_child : Forked

pub record StartCalls : Type 0 where
  pub makes_pipe : Bool
  pub opens_null : Option ℕ
  pub forks : Forked

forked : ℕ → Forked → Result ℕ
unfolding exit_status
forked fd_null no_process = exited 1 (text "fork")
forked fd_null (in_parent w) = exited (exit_status w) (last_words w)
forked fd_null in_child = ok fd_null

-- In the child it returns with `fd_null`; the parent exits.
unfoldable pub daemonize_start : StartCalls → Result ℕ
unfolding forked
daemonize_start calls = do
  require calls.makes_pipe (text "pipe(lifeline)")
  fd_null ← given calls.opens_null (text "open(/dev/null)")
  forked fd_null calls.forks

-- The descriptors of the child that the helpers change: which are open, and which of the standard
-- ones are /dev/null.
pub record Files : Type 0 where
  pub read_end : Bool
  pub write_end : Bool
  pub null_open : Bool
  pub stdin_null : Bool
  pub stdout_null : Bool
  pub stderr_null : Bool

-- As they are behind `pipe` and `open`, and in a program that stays in the foreground.
abbrev pub lifeline_files : Files
lifeline_files = record {
  read_end = true;
  write_end = true;
  null_open = true;
  stdin_null = false;
  stdout_null = false;
  stderr_null = false;
}

abbrev pub foreground_files : Files
foreground_files = record {
  read_end = false;
  write_end = false;
  null_open = false;
  stdin_null = false;
  stdout_null = false;
  stderr_null = false;
}

-- Whether each `close` takes its descriptor away, and whether each `dup2` puts another in its place.
pub record FinishCalls : Type 0 where
  pub makes_session : Bool
  pub closes_read : Bool
  pub closes_write : Bool
  pub sets_stdin : Bool
  pub sets_stdout : Bool
  pub sets_stderr : Bool
  pub closes_null : Bool

-- Where `daemonize_finish` is: at each of its calls, in the order of the source, or at its end.
pub data FinishAt : Type 0 where
  at_setsid : FinishAt
  at_close_read : FinishAt
  at_close_write : FinishAt
  at_stdin : FinishAt
  at_stdout : FinishAt
  at_stderr : FinishAt
  at_close_null : FinishAt
  returned : FinishAt

-- One call.
unfoldable pub finish_step : FinishCalls → ℕ → FinishAt → Files → Result (FinishAt × Files)
finish_step calls fd_null at_setsid f =
    require calls.makes_session (text "setsid") >> ok (at_close_read, f)
finish_step calls fd_null at_close_read f =
    ok (at_close_write, record f { read_end = f.read_end && not calls.closes_read })
finish_step calls fd_null at_close_write f =
    ok (at_stdin, record f { write_end = f.write_end && not calls.closes_write })
finish_step calls fd_null at_stdin f =
    ok (at_stdout, record f { stdin_null = f.stdin_null || calls.sets_stdin })
finish_step calls fd_null at_stdout f =
    ok (at_stderr, record f { stdout_null = f.stdout_null || calls.sets_stdout })
finish_step calls fd_null at_stderr f =
    ok (at_close_null, record f { stderr_null = f.stderr_null || calls.sets_stderr })
finish_step calls fd_null at_close_null f =
    ok (returned, record f { null_open = f.null_open && not (ltb 2 fd_null && calls.closes_null) })
finish_step calls fd_null returned f = ok (returned, f)

unfoldable pub finish_steps : ℕ → FinishCalls → ℕ → FinishAt → Files → Result Files
unfolding finish_step
finish_steps zero calls fd_null at f = ok f
finish_steps (suc n) calls fd_null at f =
    finish_step calls fd_null at f >>= λ r. finish_steps n calls fd_null r.0 r.1

-- `fd_null` is `none`, -1, where `daemonize_start` was not called. There are seven calls.
unfoldable pub daemonize_finish : FinishCalls → Option ℕ → Files → Result Files
unfolding finish_steps
daemonize_finish calls none f = ok f
daemonize_finish calls (some fd_null) f = finish_steps 7 calls fd_null at_setsid f
