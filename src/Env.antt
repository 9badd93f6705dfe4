-- ===== src/Env.antt =====
-- The options of darkhttpd.c that the request handlers read, and what they ask of the system. The
-- system is not part of the program: each call is a function that the handlers are given.
use darkhttpd.Common.{ℕ, Bool, Option, List, Bytes}
use darkhttpd.Common.Int.{ℤ}

-- `struct forward_mapping`
pub record ForwardMapping : Type 0 where
  pub host : Bytes
  pub target_url : Bytes

-- `struct mime_mapping`
pub record MimeMapping : Type 0 where
  pub extension : Bytes
  pub mimetype : Bytes

-- The globals `mime_map`, `mime_map_size` and `longest_ext`.
pub record MimeMap : Type 0 where
  pub entries : List MimeMapping
  pub longest_ext : ℕ

-- The other globals that the command line sets.
pub record Config : Type 0 where
  pub forward_map : List ForwardMapping
  pub forward_all_url : Option Bytes
  pub forward_to_https : Bool
  pub mime_map : MimeMap
  pub default_mimetype : Bytes
  pub timeout_secs : ℤ
  pub keep_alive_field : Bytes
  pub index_name : Bytes
  pub no_listing : Bool
  pub humanize_sizes : Bool
  pub wwwroot : Bytes
  pub want_keepalive : Bool
  pub want_server_id : Bool
  pub want_single_file : Bool
  pub want_hide_dotfiles : Bool
  pub server_hdr : Bytes
  pub auth_key : Option Bytes
  pub custom_hdrs : Bytes
  pub trusted_ip : Option Bytes

-- The values of `errno` that the program tells apart.
pub data Errno : Type 0 where
  eacces : Errno
  enoent : Errno
  other : ℕ → Errno

pub data SysResult {ℓ} (A : Type ℓ) : Type ℓ where
  ok : A → SysResult A
  fail : Errno → SysResult A

pub data FileKind : Type 0 where
  regular directory special : FileKind

-- What the program reads of a `struct stat`.
pub record Stat : Type 0 where
  pub kind : FileKind
  pub size : ℕ
  pub mtime : ℕ

-- The system calls and the library's formatting of dates, addresses and errors. `format_local` is what
-- the buffer holds behind `strftime`, whether that failed or not.
pub record System : Type 0 where
  pub stat : Bytes → SysResult Stat
  pub open_file : Bytes → SysResult ℕ
  pub fstat : ℕ → SysResult Stat
  pub opendir : Bytes → SysResult (List Bytes)
  pub file_bytes : ℕ → Bytes
  pub strerror : Errno → Bytes
  pub format_gmt : ℕ → Option Bytes
  pub format_local : ℕ → Bytes
  pub format_clf : ℕ → Option Bytes
  pub address_text : ℕ → Bytes

-- What every handler reads: the options, the system, and the cached time `now`.
pub record Env : Type 0 where
  pub config : Config
  pub open config use *
  pub system : System
  pub now : ℕ
