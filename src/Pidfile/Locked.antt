-- ===== src/Pidfile/Locked.antt =====
-- What the pid file says to another process of the program.
use darkhttpd.Common.{
  ℕ, zero, suc, ◌+◌, ◌*◌, ◌/◌, ◌^◌, ◌%◌, ◌≤◌, ◌<◌, ◌≡◌, refl, ap, ◌∙◌, arith, inl, inr, true,
  Bool-cases, Option, none, some, [], ◌∷◌, ◌++◌, ◌==◌, Bytes, All, text, take, take_all, length,
}
use darkhttpd.Common.Int.{pos}
use darkhttpd.Cstring.{c_str, decimal, decimal_onto}
use darkhttpd.Command.Flags.{to_int-int}
use darkhttpd.Numbers.RoundTrip.{IsDigit, decimal-IsNumeral, str_to_num-decimal}
use darkhttpd.Pidfile.{
  Disk, opened, busy, Calls, Run, done, ended, pidfile_read, give_up, behind_write, behind_open,
  pidfile_create,
}

pow10 : ℕ → ℕ
pow10 zero = 1
pow10 (suc k) = 10 * pow10 k

length-decimal_onto :
    (k fuel n : ℕ) (out : Bytes)
    → n < pow10 (suc k)
    → length (decimal_onto fuel n out) ≤ suc k + length out
unfolding pow10 decimal_onto
length-decimal_onto k zero n out h = omega arith
length-decimal_onto zero (suc fuel) n out h = ground arith
length-decimal_onto (suc k) (suc fuel) n out h =
    ground (arith, length-decimal_onto k fuel (n / 10) ((b'0' + n % 10) ∷ out))

below : (n : ℕ) → n < 2 ^ 31 → n < pow10 10
unfolding pow10
below n h = omega arith

-- A process number has at most ten digits.
length-decimal : (n : ℕ) → n < 2 ^ 31 → length (decimal n) ≤ 10
unfolding decimal
length-decimal n h = length-decimal_onto 9 (suc n) n [] (below n h)

c_str-digits : (s : Bytes) → All IsDigit s → c_str s ≡ s
unfolding c_str
c_str-digits [] a = refl
c_str-digits (c ∷ s) a = ground (arith, c_str-digits s)

pidstr_whole : (pid : ℕ) → pid < 2 ^ 31 → take 15 (decimal pid) ≡ decimal pid
pidstr_whole pid h = take_all 15 (decimal pid) (omega (arith, length-decimal pid h))

-- What an attempt to create the file leaves, if the file could be opened.
abbrev pub Leaves : ℕ → ℕ → Run (Unit {0}) → Type 0
Leaves pid fd (done _ d) = (d.content ≡ some (decimal pid)) × (d.pidfile_fd ≡ some fd)
Leaves pid fd (ended status message d) = (status ≡ 1) × (d.content ≡ none)

give_up-Leaves :
    (pid fd : ℕ) (s : Calls) (message : Bytes) (d : Disk)
    → s.unlinked ≡ true
    → Leaves pid fd (give_up s message d)
unfolding give_up
give_up-Leaves pid fd s message d u = elim (Bool-cases s.closed) [
  | inl closed ↦ simp (u, closed) (refl, refl)
  | inr not_closed ↦ simp (u, not_closed) (refl, refl)
]

behind_write-Leaves :
    (pid fd : ℕ) (s : Calls) (d : Disk) (n : Option ℕ)
    → s.unlinked ≡ true
    → d.pidfile_fd ≡ some fd
    → Leaves pid fd (behind_write s (decimal pid) d n)
unfolding behind_write
behind_write-Leaves pid fd s d none u f = give_up-Leaves pid fd s _ d u
behind_write-Leaves pid fd s d (some n) u f = elim (Bool-cases (n == length (decimal pid))) [
  | inl whole ↦ rw whole (ap some (take_all n (decimal pid) (ground arith)), f)
  | inr part ↦ rw part (give_up-Leaves pid fd s _ _ u)
]

behind_open-Leaves :
    (pid fd : ℕ) (s : Calls) (d : Disk)
    → pid < 2 ^ 31
    → s.unlinked ≡ true
    → Leaves pid fd (behind_open s pid d (opened fd))
unfolding behind_open
behind_open-Leaves pid fd s d small u = elim (Bool-cases s.truncated) [
  | inl empty ↦ simp (empty, pidstr_whole pid small) (behind_write-Leaves pid fd s _ _ u refl)
  | inr full ↦ simp full (give_up-Leaves pid fd s _ _ u)
]

-- If the file can be opened and unlinked, then `pidfile_create`, for a number below 2^31, either leaves it with the process's
-- number and its descriptor, or ends the program with status 1 and leaves no file.
pub pidfile_create-Leaves :
    (pid fd : ℕ) (s : Calls) (d : Disk)
    → pid < 2 ^ 31
    → s.opening ≡ opened fd
    → s.unlinked ≡ true
    → Leaves pid fd (pidfile_create s pid d)
unfolding pidfile_create
pidfile_create-Leaves pid fd s d small o u = simp o (behind_open-Leaves pid fd s d small u)

buffer : (pid : ℕ) → pid < 2 ^ 31 → c_str (take 15 (decimal pid)) ≡ decimal pid
buffer pid h =
    ap c_str (pidstr_whole pid h) ∙ c_str-digits (decimal pid) (decimal-IsNumeral pid).digits

read_back :
    (s : Calls) (d : Disk) (pid : ℕ)
    → pid < 2 ^ 31
    → s.readable ≡ true
    → s.closed ≡ true
    → d.content ≡ some (decimal pid)
    → pidfile_read s d ≡ done (pos pid) d
unfolding pidfile_read
read_back s d pid small r c e =
    simp
      (e, buffer pid small, r, c, str_to_num-decimal pid (omega arith), to_int-int (pos pid) small)
      refl

-- A process that finds the file locked, and can read and close it, ends with status 1 and a message
-- with the number below 2^31 of the process that wrote it, and leaves the file as it is.
pub pidfile_create-busy :
    (pid other : ℕ) (s : Calls) (d : Disk)
    → other < 2 ^ 31
    → d.content ≡ some (decimal other)
    → s.opening ≡ busy
    → s.readable ≡ true
    → s.closed ≡ true
    → pidfile_create s pid d ≡ ended 1 (text "daemon already running with PID " ++ decimal other) d
unfolding pidfile_create
pidfile_create-busy pid other s d small e o r c = simp (o, read_back s d other small r c e) refl
