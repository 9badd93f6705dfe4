-- ===== src/Pidfile.antt =====
-- `pidfile_create`, `pidfile_read` and `pidfile_remove` of darkhttpd.c, on the one file that they
-- name.
pub mod Locked
use darkhttpd.Common.{
  ℕ, zero, suc, ◌+◌, Bool, true, false, not, Option, none, some, [], ◌∷◌, ◌++◌, ◌==◌, if◌then◌else◌,
  Bytes, text, take, length,
}
use darkhttpd.Common.Int.{ℤ, pos}
use darkhttpd.Conn.{text_of}
use darkhttpd.Cstring.{c_str, decimal}
use darkhttpd.Numbers.{str_to_num, to_int, decimal_int}

-- The file, if there is one, and the descriptor that holds its lock.
pub record Disk : Type 0 where
  pub content : Option Bytes
  pub pidfile_fd : Option ℕ

-- How `open` ends: with a descriptor and an empty file, or with the lock taken, or in another way.
pub data Opened : Type 0 where
  opened : ℕ → Opened
  busy : Opened
  open_failed : Opened

-- The name of the file, and what the calls on it return. `written` is the count of `pwrite`, `none` for -1.
pub record Calls : Type 0 where
  pub name : Bytes
  pub opening : Opened
  pub truncated : Bool
  pub written : Bytes → Option ℕ
  pub unlinked : Bool
  pub closed : Bool
  pub readable : Bool

-- A value with what is on the disk, or the end of the program with what it leaves there.
pub data Run {ℓ} (A : Type ℓ) : Type ℓ where
  done : A → Disk → Run A
  ended : ℕ → Bytes → Disk → Run A

infixl 5 ◌>>=◌
abbrev pub ◌>>=◌ {ℓ κ} : {A : Type ℓ} {B : Type κ} → Run A → (A → Disk → Run B) → Run B
done a d >>= f = f a d
ended status message d >>= f = ended status message d

unfoldable pub pidfile_remove : Calls → Disk → Run (Unit {0})
pidfile_remove s d =
    if not s.unlinked
    then ended 1 (text "unlink(pidfile) failed") d
    else if not s.closed
    then ended 1 (text "close()") (record d { content = none })
    else done tt (record { content = none; pidfile_fd = none })

read_number : Bytes → Disk → Option ℤ → Run ℤ
read_number buf d (some n) = done (to_int n) d
read_number buf d none = ended 1 (text "invalid pidfile contents: \"" ++ buf ++ text "\"") d

-- At most 15 bytes are read, and a NUL is put behind them.
read_buffer : Calls → Disk → Option Bytes → Run ℤ
unfolding read_number
read_buffer s d none = ended 1 (text " after create failed") d
read_buffer s d (some content) =
    let buf = c_str (take 15 content) in
    if not s.readable
    then ended 1 (text "read from pidfile failed") d
    else if not s.closed
    then ended 1 (text "close()") d
    else read_number buf d (str_to_num buf)

unfoldable pub pidfile_read : Calls → Disk → Run ℤ
unfolding read_buffer
pidfile_read s d = read_buffer s d d.content

-- `pidfile_remove(); err(1, message);`
give_up : Calls → Bytes → Disk → Run (Unit {0})
unfolding pidfile_remove
give_up s message d = pidfile_remove s d >>= λ _ d'. ended 1 message d'

-- Behind the `pwrite` of `pidstr`, which put `n` bytes into the file or failed.
behind_write : Calls → Bytes → Disk → Option ℕ → Run (Unit {0})
unfolding give_up
behind_write s pidstr d none = give_up s (text "pwrite() failed") d
behind_write s pidstr d (some n) =
    let d' = record d { content = some (take n pidstr) } in
    if n == length pidstr then done tt d' else give_up s (text "pwrite() failed") d'

-- `pidstr` has room for 15 characters.
behind_open : Calls → ℕ → Disk → Opened → Run (Unit {0})
unfolding pidfile_read behind_write decimal_int
behind_open s pid d busy = pidfile_read s d >>= λ other d'.
    ended 1 (text "daemon already running with PID " ++ decimal_int other) d'
behind_open s pid d open_failed = ended 1 (text "can't create pidfile " ++ s.name) d
behind_open s pid d (opened fd) =
    let d' : Disk = record { content = some []; pidfile_fd = some fd } in
    let pidstr = take 15 (decimal pid) in
    if not s.truncated
    then give_up s (text "ftruncate() failed") d'
    else behind_write s pidstr d' (s.written pidstr)

unfoldable pub pidfile_create : Calls → ℕ → Disk → Run (Unit {0})
unfolding behind_open
pidfile_create s pid d = behind_open s pid d s.opening
