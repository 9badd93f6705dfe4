-- ===== src/Command/Spelling.antt =====
-- Options as data: the arguments that spell one, and what it asks for.
use darkhttpd.Auth.{base64_encode}
use darkhttpd.Common.{
  ℕ, ◌^◌, ◌-◌, ◌<◌, ◌==◌, if◌then◌else◌, none, ◌≡◌, true, false, some, List, [], ◌∷◌, ◌++◌, Bytes,
  All, codes,
}
use darkhttpd.Common.Int.{ℤ, pos, negsuc}
use darkhttpd.Cstring.{str_eq, has_char}
use darkhttpd.Mime.{parse_extension_map_file}
use darkhttpd.Numbers.{decimal_int}
use darkhttpd.Options.{Settings, Host}

-- One option with its meaning: a file for `mimetypes` is given with its contents, a user or group
-- with its number.
pub data Flag : Type 0 where
  port : ℕ → Flag
  addr log index default_mimetype pidfile forward_all trusted_ip : Bytes → Flag
  maxconn timeout : ℤ → Flag
  mimetypes : Bytes → Bytes → Flag
  uid gid : Bytes → ℕ → Flag
  forward auth header : Bytes → Bytes → Flag
  chroot daemon no_listing human_readable no_keepalive accf syslog single_file hide_dotfiles : Flag
  no_server_id forward_https ipv6 : Flag

-- How an option is spelled.
unfoldable pub args_of : Flag → List Bytes
args_of (port n) = codes "--port" ∷ decimal_int (pos n) ∷ []
args_of (addr v) = codes "--addr" ∷ v ∷ []
args_of (log v) = codes "--log" ∷ v ∷ []
args_of (index v) = codes "--index" ∷ v ∷ []
args_of (default_mimetype v) = codes "--default-mimetype" ∷ v ∷ []
args_of (pidfile v) = codes "--pidfile" ∷ v ∷ []
args_of (forward_all v) = codes "--forward-all" ∷ v ∷ []
args_of (trusted_ip v) = codes "--trusted-ip" ∷ v ∷ []
args_of (maxconn z) = codes "--maxconn" ∷ decimal_int z ∷ []
args_of (timeout z) = codes "--timeout" ∷ decimal_int z ∷ []
args_of (mimetypes v file) = codes "--mimetypes" ∷ v ∷ []
args_of (uid v id) = codes "--uid" ∷ v ∷ []
args_of (gid v id) = codes "--gid" ∷ v ∷ []
args_of (forward host url) = codes "--forward" ∷ host ∷ url ∷ []
args_of (auth user password) = codes "--auth" ∷ (user ++ b':' ∷ password) ∷ []
args_of (header field value) = codes "--header" ∷ (field ++ b':' ∷ b' ' ∷ value) ∷ []
args_of chroot = codes "--chroot" ∷ []
args_of daemon = codes "--daemon" ∷ []
args_of no_listing = codes "--no-listing" ∷ []
args_of human_readable = codes "--human-readable" ∷ []
args_of no_keepalive = codes "--no-keepalive" ∷ []
args_of accf = codes "--accf" ∷ []
args_of syslog = codes "--syslog" ∷ []
args_of single_file = codes "--single-file" ∷ []
args_of hide_dotfiles = codes "--hide-dotfiles" ∷ []
args_of no_server_id = codes "--no-server-id" ∷ []
args_of forward_https = codes "--forward-https" ∷ []
args_of ipv6 = codes "--ipv6" ∷ []

-- What an option asks for.
unfoldable pub applied : Flag → Settings → Settings
applied (port n) s = record s { bindport = n }
applied (addr v) s = record s { bindaddr = some v }
applied (log v) s = record s { logfile_name = some v }
applied (index v) s = record s { index_name = v }
applied (default_mimetype v) s = record s { default_mimetype = v }
applied (pidfile v) s = record s { pidfile_name = some v }
applied (forward_all v) s = record s { forward_all_url = some v }
applied (trusted_ip v) s = record s { trusted_ip = some v }
applied (maxconn z) s = record s { max_connections = z }
applied (timeout z) s = record s { timeout_secs = z }
applied (mimetypes v file) s = record s { mime_map = parse_extension_map_file file s.mime_map }
applied (uid v id) s = record s { drop_uid = if id == 2 ^ 32 - 1 then none else some id }
applied (gid v id) s = record s { drop_gid = if id == 2 ^ 32 - 1 then none else some id }
applied (forward host url) s = record s {
  forward_map = s.forward_map ++ record { host = host; target_url = url } ∷ [];
}
applied (auth user password) s = record s {
  auth_key = some (codes "Basic " ++ base64_encode (user ++ b':' ∷ password));
}
applied (header field value) s = record s {
  custom_hdrs = s.custom_hdrs ++ (field ++ b':' ∷ b' ' ∷ value) ++ codes "\r\n";
}
applied chroot s = record s { want_chroot = true }
applied daemon s = record s { want_daemon = true }
applied no_listing s = record s { no_listing = true }
applied human_readable s = record s { humanize_sizes = true }
applied no_keepalive s = record s { want_keepalive = false }
applied accf s = record s { want_accf = true }
applied syslog s = record s { syslog_enabled = true }
applied single_file s = record s { want_single_file = true }
applied hide_dotfiles s = record s { want_hide_dotfiles = true }
applied no_server_id s = record s { want_server_id = false }
applied forward_https s = record s { forward_to_https = true }
applied ipv6 s = record s { inet6 = true }

-- The values of an `int`.
abbrev pub IsInt : ℤ → Type 0
IsInt (pos n) = n < 2 ^ 31
IsInt (negsuc n) = n < 2 ^ 31

-- The options that the system and the program can take as they are meant.
abbrev pub IsGood : Host → Flag → Type 0
IsGood h (port n) = n < 2 ^ 16
IsGood h (maxconn z) = IsInt z
IsGood h (timeout z) = IsInt z
IsGood h (mimetypes v file) = h.read_file v ≡ some file
IsGood h (uid v id) = h.user_of_name v ≡ some id
IsGood h (gid v id) = h.group_of_name v ≡ some id
IsGood h (trusted_ip v) = h.is_address v ≡ true
IsGood h (header field value) = (has_char b'\n' field ≡ false) × (has_char b'\n' value ≡ false)
IsGood h _ = Unit

unfoldable pub all_args : List Flag → List Bytes
all_args [] = []
all_args (f ∷ fs) = args_of f ++ all_args fs

unfoldable pub all_applied : List Flag → Settings → Settings
all_applied [] s = s
all_applied (f ∷ fs) s = all_applied fs (applied f s)

-- The names of the options.
unfoldable pub option_names : List Bytes
option_names =
    codes "--chroot"
    ∷ codes "--daemon"
    ∷ codes "--no-listing"
    ∷ codes "--human-readable"
    ∷ codes "--no-keepalive"
    ∷ codes "--accf"
    ∷ codes "--syslog"
    ∷ codes "--single-file"
    ∷ codes "--hide-dotfiles"
    ∷ codes "--no-server-id"
    ∷ codes "--forward-https"
    ∷ codes "--ipv6"
    ∷ codes "--port"
    ∷ codes "--addr"
    ∷ codes "--maxconn"
    ∷ codes "--log"
    ∷ codes "--index"
    ∷ codes "--mimetypes"
    ∷ codes "--default-mimetype"
    ∷ codes "--uid"
    ∷ codes "--gid"
    ∷ codes "--pidfile"
    ∷ codes "--forward"
    ∷ codes "--forward-all"
    ∷ codes "--timeout"
    ∷ codes "--auth"
    ∷ codes "--trusted-ip"
    ∷ codes "--header"
    ∷ []

abbrev pub IsUnknown : Bytes → Type 0
IsUnknown arg = All (λ name. str_eq arg name ≡ false) option_names
