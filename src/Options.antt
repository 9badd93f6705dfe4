-- ===== src/Options.antt =====
-- What the command line of darkhttpd.c sets: its globals as one record, the exits of the start of the
-- program, and the calls on the system that the start makes.
pub mod Ends
use darkhttpd.Common.{ℕ, Bool, true, false, Option, none, some, List, Bytes}
use darkhttpd.Common.Int.{ℤ}
use darkhttpd.Env.{ForwardMapping, MimeMap}

-- The globals that `parse_commandline` assigns, and `wwwroot`, which `change_root` shortens.
pub record Settings : Type 0 where
  pub wwwroot : Bytes
  pub bindport : ℕ
  pub bindaddr : Option Bytes
  pub max_connections : ℤ
  pub logfile_name : Option Bytes
  pub want_chroot : Bool
  pub want_daemon : Bool
  pub index_name : Bytes
  pub no_listing : Bool
  pub humanize_sizes : Bool
  pub mime_map : MimeMap
  pub default_mimetype : Bytes
  pub drop_uid : Option ℕ
  pub drop_gid : Option ℕ
  pub pidfile_name : Option Bytes
  pub want_keepalive : Bool
  pub want_accf : Bool
  pub syslog_enabled : Bool
  pub want_single_file : Bool
  pub want_hide_dotfiles : Bool
  pub forward_map : List ForwardMapping
  pub forward_all_url : Option Bytes
  pub want_server_id : Bool
  pub timeout_secs : ℤ
  pub auth_key : Option Bytes
  pub trusted_ip : Option Bytes
  pub forward_to_https : Bool
  pub custom_hdrs : Bytes
  pub inet6 : Bool

-- A value, or the end of the program with a status and what it prints last: `exit`, `err`, `errx`.
pub data Result {ℓ} (A : Type ℓ) : Type ℓ where
  ok : A → Result A
  exited : ℕ → Bytes → Result A

infixl 5 ◌>>=◌ ◌>>◌
abbrev pub ◌>>=◌ {ℓ κ} : {A : Type ℓ} {B : Type κ} → Result A → (A → Result B) → Result B
ok a >>= f = f a
exited status message >>= f = exited status message

abbrev pub ◌>>◌ {ℓ} : {B : Type ℓ} → Result (Unit {0}) → Result B → Result B
m >> k = m >>= λ _. k

-- `errx(1, ...)` if the test fails.
abbrev pub require : Bool → Bytes → Result (Unit {0})
require true message = ok tt
require false message = exited 1 message

-- A call on the system whose failure ends the program.
abbrev pub given {ℓ} : {A : Type ℓ} → Option A → Bytes → Result A
given (some a) message = ok a
given none message = exited 1 message

-- What `parse_commandline` asks of the system. `is_address` is `inet_pton` for either family, and
-- `read_file` the contents of a file that `fopen` opens.
pub record Host : Type 0 where
  pub is_root : Bool
  pub user_of_name : Bytes → Option ℕ
  pub user_of_id : ℕ → Option ℕ
  pub group_of_name : Bytes → Option ℕ
  pub group_of_id : ℕ → Option ℕ
  pub is_address : Bytes → Bool
  pub read_file : Bytes → Option Bytes
