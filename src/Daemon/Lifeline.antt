-- ===== src/Daemon/Lifeline.antt =====
-- The parent of `daemonize_start` and the child beside it, step by step in any order.
use darkhttpd.Common.{ℕ, ◌*◌, ◌%◌, Bool, true, false, not, ◌≡◌, ◌≢◌, ◌⊎◌, Bytes}
use darkhttpd.Daemon.{
  Waited, no_child, not_yet, child_status, wexitstatus, exit_status, Files, lifeline_files,
  FinishCalls, FinishAt, at_setsid, at_close_read, at_close_write, returned, finish_step,
}
use darkhttpd.Options.{ok, exited}

-- Where the parent is: at its `close`, at its `read`, at its `waitpid`, or gone with a status.
pub data ParentAt : Type 0 where
  closing : ParentAt
  reading : ParentAt
  waiting : ParentAt
  left : ℕ → ParentAt

-- Where the child is: between `daemonize_start` and `daemonize_finish`, at a call of the latter, in
-- the main loop, ending with a status, or ended.
pub data ChildAt : Type 0 where
  initializing : ChildAt
  finishing : FinishAt → ChildAt
  serving : ChildAt
  ending : ℕ → ChildAt
  ended : ℕ → ChildAt

-- Both, with what the parent holds of the lifeline and whether its `read` has failed.
pub record World : Type 0 where
  pub parent : ParentAt
  pub parent_write : Bool
  pub read_failed : Bool
  pub child : ChildAt
  pub files : Files

-- What `waitpid` can say of a child: it fails where the parent was started with SIGCHLD ignored, and
-- it returns a status only behind the end of the child.
pub data Tells : ChildAt → Waited → Type 0 where
  ignored : {c : ChildAt} → Tells c no_child
  running_on : {c : ChildAt} → ((status : ℕ) → c ≢ ended status) → Tells c not_yet
  reaped : {status : ℕ} → Tells (ended status) (child_status status)

-- The status of a process that calls `exit`, as `waitpid` reports it.
abbrev pub status_of : ℕ → ℕ
status_of code = code % 256 * 256

-- One call of either process. The end of the pipe is read when no process holds its other end. A process
-- that ends loses its descriptors before its parent can be told of it.
pub data Step (fd_null : ℕ) : World → World → Type 0 where
  parent_closes :
      {w : World} (gone : Bool)
      → w.parent ≡ closing
      → Step fd_null w (record w { parent = reading; parent_write = not gone })
  parent_hears :
      {w : World}
      → w.parent ≡ reading
      → w.parent_write ≡ false
      → w.files.write_end ≡ false
      → Step fd_null w (record w { parent = waiting })
  read_fails :
      {w : World}
      → w.parent ≡ reading
      → Step fd_null w (record w { parent = waiting; read_failed = true })
  parent_leaves :
      {w : World} (r : Waited)
      → w.parent ≡ waiting
      → Tells w.child r
      → Step fd_null w (record w { parent = left (exit_status r) })
  child_fails :
      {w : World} (status : ℕ)
      → w.child ≡ initializing
      → Step fd_null w (record w { child = ending status })
  child_begins :
      {w : World}
      → w.child ≡ initializing
      → Step fd_null w (record w { child = finishing at_setsid })
  child_goes_on :
      {w : World} (calls : FinishCalls) (at at' : FinishAt) (f : Files)
      → w.child ≡ finishing at
      → finish_step calls fd_null at w.files ≡ ok (at', f)
      → Step fd_null w (record w { child = finishing at'; files = f })
  child_refused :
      {w : World} (calls : FinishCalls) (at : FinishAt) (code : ℕ) (message : Bytes)
      → w.child ≡ finishing at
      → finish_step calls fd_null at w.files ≡ exited code message
      → Step fd_null w (record w { child = ending (status_of code) })
  child_killed :
      {w : World} (at : FinishAt) (status : ℕ)
      → w.child ≡ finishing at
      → Step fd_null w (record w { child = ending status })
  child_serves :
      {w : World} → w.child ≡ finishing returned → Step fd_null w (record w { child = serving })
  child_stops :
      {w : World} (status : ℕ)
      → w.child ≡ serving
      → Step fd_null w (record w { child = ending status })
  child_closes :
      {w : World} {status : ℕ}
      → w.child ≡ ending status
      → Step fd_null w (record w {
        files = record w.files { read_end = false; write_end = false; null_open = false };
      })
  child_ends :
      {w : World} {status : ℕ}
      → w.child ≡ ending status
      → w.files.write_end ≡ false
      → Step fd_null w (record w { child = ended status })

-- Behind `fork` both processes hold both ends.
abbrev pub forked : World
forked = record {
  parent = closing;
  parent_write = true;
  read_failed = false;
  child = initializing;
  files = lifeline_files;
}

pub data Reach (fd_null : ℕ) : World → Type 0 where
  start : Reach fd_null forked
  later : {w w' : World} → Reach fd_null w → Step fd_null w w' → Reach fd_null w'

-- The child has not yet been at the call that cuts the lifeline, the last but before it `setsid`.
abbrev pub IsBeforeCut : ChildAt → Type 0
IsBeforeCut initializing = Unit
IsBeforeCut (finishing at_setsid) = Unit
IsBeforeCut (finishing at_close_read) = Unit
IsBeforeCut (finishing at_close_write) = Unit
IsBeforeCut _ = ⊥

-- A status that is told of the child: 0, the 1 of a failing `waitpid`, or that of a child that ended.
abbrev pub IsTold : ChildAt → ℕ → Type 0
IsTold c status =
    ((status ≡ 0) ⊎ (status ≡ 1)) ⊎ ((s : ℕ) × (c ≡ ended s) × (status ≡ wexitstatus s))

-- The child has its session and has cut the lifeline, or it is ending.
pub record Verdict (c : ChildAt) (status : ℕ) : Type 0 where
  pub past : ¬ IsBeforeCut c
  pub told : IsTold c status

-- What the parent's place says, given that its `read` did not fail.
Heard : ParentAt → ChildAt → Files → Type 0
Heard closing c f = Unit
Heard reading c f = Unit
Heard waiting c f = f.write_end ≡ false
Heard (left status) c f = (f.write_end ≡ false) × IsTold c status

record Inv (w : World) : Type 0 where
  held : IsBeforeCut w.child → w.files.write_end ≡ true
  heard : w.read_failed ≡ false → Heard w.parent w.child w.files

-- A call of the child never takes the lifeline up again, and cuts it only where the cut has its place.
Goes : FinishAt → FinishAt → Files → Files → Type 0
Goes at at' f f' =
    (f.write_end ≡ false → f'.write_end ≡ false)
    × (IsBeforeCut (finishing at') → IsBeforeCut (finishing at) × (f'.write_end ≡ f.write_end))
