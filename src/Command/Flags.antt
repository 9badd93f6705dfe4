-- ===== src/Command/Flags.antt =====
-- The loop over the arguments, on those that spell a list of options.
use darkhttpd.Command.{parse_options, option, quoted}
use darkhttpd.Command.Spelling.{
  Flag, port, addr, log, index, default_mimetype, pidfile, forward_all, trusted_ip, maxconn,
  timeout, mimetypes, uid, gid, forward, auth, header, chroot, daemon, no_listing, human_readable,
  no_keepalive, accf, syslog, single_file, hide_dotfiles, no_server_id, forward_https, ipv6,
  args_of, applied, IsInt, IsGood, all_args, all_applied, option_names, IsUnknown,
}
use darkhttpd.Common.{
  ℕ, zero, suc, ◌+◌, ◌-◌, ◌^◌, ◌≤◌, ◌<◌, ◌≡◌, refl, ap, ◌∙◌, arith, true, false, List, [], ◌∷◌,
  ◌++◌, Bytes, All, codes, length, length-append, append-nil, append_assoc, text,
}
use darkhttpd.Common.Int.{ℤ, pos, negsuc}
use darkhttpd.Cstring.{str_eq, strcmp, has_char, contains, starts_with}
use darkhttpd.Numbers.{xstr_to_num, to_unsigned, to_int, decimal_int}
use darkhttpd.Numbers.RoundTrip.{str_to_num-decimal_int}
use darkhttpd.Options.{Settings, ok, exited, ◌>>=◌, Host}

has_char-append_colon : (c : ℕ) (a b : Bytes) → has_char c (a ++ c ∷ b) ≡ true
unfolding has_char
has_char-append_colon c [] b = ground arith
has_char-append_colon c (x ∷ a) b = ground (arith, has_char-append_colon c a b)

has_char-header :
    (a b : Bytes)
    → has_char b'\n' a ≡ false
    → has_char b'\n' b ≡ false
    → has_char b'\n' (a ++ b':' ∷ b' ' ∷ b) ≡ false
unfolding has_char
has_char-header [] b ha hb = hb
has_char-header (x ∷ a) b ha hb = ground (arith, has_char-header a b)

contains-header : (a b : Bytes) → contains (codes ": ") (a ++ b':' ∷ b' ' ∷ b) ≡ true
unfolding contains starts_with
contains-header [] b = refl
contains-header (x ∷ a) b = ground (arith, contains-header a b)

number-read : (z : ℤ) → IsInt z → xstr_to_num (decimal_int z) ≡ ok z
unfolding xstr_to_num
number-read (pos n) h = rw (str_to_num-decimal_int (pos n) (omega arith))
number-read (negsuc n) h = rw (str_to_num-decimal_int (negsuc n) (omega arith))

pub to_int-int : (z : ℤ) → IsInt z → to_int z ≡ z
unfolding to_int to_unsigned
to_int-int (pos n) h = ground arith
to_int-int (negsuc n) h = ground arith

to_unsigned-small : (n : ℕ) → n < 2 ^ 16 → to_unsigned 16 (pos n) ≡ n
unfolding to_unsigned
to_unsigned-small n h = omega arith

parsed_all : (fuel : ℕ) (h : Host) (s : Settings) → parse_options fuel h [] s ≡ ok s
unfolding parse_options
parsed_all zero h s = refl
parsed_all (suc fuel) h s = refl

-- One option is read as it is meant.
option_applied :
    (f : Flag) (fuel : ℕ) (h : Host) (rest : List Bytes) (s : Settings)
    → IsGood h f
    → parse_options (suc fuel) h (args_of f ++ rest) s ≡ parse_options fuel h rest (applied f s)
unfolding parse_options args_of applied str_eq strcmp
option_applied (port n) fuel h rest s g =
    rw (number-read (pos n) (omega arith)) (rw (to_unsigned-small n g))
option_applied (addr v) fuel h rest s g = refl
option_applied (log v) fuel h rest s g = refl
option_applied (index v) fuel h rest s g = refl
option_applied (default_mimetype v) fuel h rest s g = refl
option_applied (pidfile v) fuel h rest s g = refl
option_applied (forward_all v) fuel h rest s g = refl
option_applied (trusted_ip v) fuel h rest s g = rw g
option_applied (maxconn z) fuel h rest s g = rw (number-read z g, to_int-int z g)
option_applied (timeout z) fuel h rest s g = rw (number-read z g, to_int-int z g)
option_applied (mimetypes v file) fuel h rest s g = rw g
option_applied (uid v id) fuel h rest s g = rw g
option_applied (gid v id) fuel h rest s g = rw g
option_applied (forward host url) fuel h rest s g = refl
option_applied (auth user password) fuel h rest s g = rw (has_char-append_colon b':' user password)
option_applied (header field value) fuel h rest s g =
    rw (has_char-header field value g.0 g.1, contains-header field value)
option_applied chroot fuel h rest s g = refl
option_applied daemon fuel h rest s g = refl
option_applied no_listing fuel h rest s g = refl
option_applied human_readable fuel h rest s g = refl
option_applied no_keepalive fuel h rest s g = refl
option_applied accf fuel h rest s g = refl
option_applied syslog fuel h rest s g = refl
option_applied single_file fuel h rest s g = refl
option_applied hide_dotfiles fuel h rest s g = refl
option_applied no_server_id fuel h rest s g = refl
option_applied forward_https fuel h rest s g = refl
option_applied ipv6 fuel h rest s g = refl

args_pos : (f : Flag) → 0 < length (args_of f)
unfolding args_of
args_pos (port n) = omega arith
args_pos _ = omega arith

-- The loop behind the arguments of some options.
all_args-then :
    (fs : List Flag) (fuel : ℕ) (h : Host) (tail : List Bytes) (s : Settings)
    → All (IsGood h) fs
    → parse_options (length fs + fuel) h (all_args fs ++ tail) s
      ≡ parse_options fuel h tail (all_applied fs s)
unfolding all_args all_applied
all_args-then [] fuel h tail s g = rw (let e : 0 + fuel ≡ fuel = omega arith in e)
all_args-then (f ∷ fs) fuel h tail s g =
    rw (let e : suc (length fs) + fuel ≡ suc (length fs + fuel) = omega arith in e) (
      ap (λ args. parse_options (suc (length fs + fuel)) h args s)
        (append_assoc (args_of f) (all_args fs) tail)
      ∙ option_applied f (length fs + fuel) h (all_args fs ++ tail) s g.0
      ∙ all_args-then fs fuel h tail (applied f s) g.1)

length-all_args : (fs : List Flag) → length fs ≤ length (all_args fs)
unfolding all_args
length-all_args [] = omega arith
length-all_args (f ∷ fs) =
    omega (arith, args_pos f, length-append (args_of f) (all_args fs), length-all_args fs)

-- With the arguments that spell a list of options that can be taken, in any order and number, the
-- loop ends with the settings of the options one after the other, without an exit, on any fuel from
-- the number of arguments up. What the Base64 encoder makes of a user with its password, and the
-- reader of mime types of a file, is taken as these functions give it.
pub parse_options-all_args :
    (fs : List Flag) (fuel : ℕ) (h : Host) (s : Settings)
    → All (IsGood h) fs
    → length (all_args fs) ≤ fuel
    → parse_options fuel h (all_args fs) s ≡ ok (all_applied fs s)
parse_options-all_args fs fuel h s g enough =
    let e : fuel ≡ length fs + (fuel - length fs) = omega (arith, length-all_args fs) in
    rw (e, ← append-nil (all_args fs))
      (all_args-then fs (fuel - length fs) h [] s g
        ∙ parsed_all (fuel - length fs) h (all_applied fs s))

option-unknown :
    (h : Host) (arg : Bytes) (rest : List Bytes) (s : Settings)
    → IsUnknown arg
    → option h arg rest s ≡ exited 1 (quoted (text "unknown argument") arg)
unfolding option option_names
option-unknown h arg rest s u = ground (arith, u)

-- Behind options that can be taken, an argument that is the name of no option ends the program with
-- status 1 and a message that names it, whatever follows.
pub parse_options-unknown :
    (fs : List Flag) (arg : Bytes) (rest : List Bytes) (h : Host) (s : Settings)
    → All (IsGood h) fs
    → IsUnknown arg
    → let args = all_args fs ++ arg ∷ rest in
      parse_options (length args) h args s ≡ exited 1 (quoted (text "unknown argument") arg)
unfolding parse_options
parse_options-unknown fs arg rest h s g u =
    let args = all_args fs ++ arg ∷ rest in
    let k = length args - length fs - 1 in
    let e : length args ≡ length fs + suc k =
      omega (arith, length-all_args fs, length-append (all_args fs) (arg ∷ rest)) in
    ap (λ fuel. parse_options fuel h args s) e
    ∙ all_args-then fs (suc k) h (arg ∷ rest) s g
    ∙ ap (λ r. r >>= λ r. parse_options k h r.1 r.0)
        (option-unknown h arg rest (all_applied fs s) u)
