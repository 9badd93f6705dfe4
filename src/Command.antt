-- ===== src/Command.antt =====
-- `parse_commandline` and `add_forward_mapping` of darkhttpd.c. The loop goes on from the argument
-- that `i` has reached.
pub mod Flags
pub mod Sane
pub mod Spelling
use darkhttpd.Auth.{base64_encode}
use darkhttpd.Common.{
  ℕ, zero, suc, ◌-◌, ◌^◌, Bool, true, false, not, ◌&&◌, ◌||◌, Option, none, some, List, [], ◌∷◌,
  ◌++◌, ◌==◌, ltb, if◌then◌else◌, Bytes, codes, text, take, length, get_or,
}
use darkhttpd.Common.Int.{ℤ, pos, negsuc}
use darkhttpd.Cstring.{str_eq, has_char, contains}
use darkhttpd.Env.{ForwardMapping, MimeMap}
use darkhttpd.Mime.{parse_extension_map_file}
use darkhttpd.Numbers.{xstr_to_num, to_unsigned, to_int}
use darkhttpd.Options.{Settings, Result, ok, exited, ◌>>=◌, ◌>>◌, require, given, Host}

-- The settings, and the arguments that are left.
abbrev pub Progress : Type 0
Progress = Settings × List Bytes

-- `if (++i >= argc) errx(1, message)`, and what is done with the argument.
pub with_value : List Bytes → Bytes → (Bytes → Result Settings) → Result Progress
with_value [] message f = exited 1 message
with_value (v ∷ rest) message f = do s ← f v; ok (s, rest)

-- `p = getpwnam(arg); if (!p) p = getpwuid((uid_t)xstr_to_num(arg));`, and so for groups.
id_or_number : Option ℕ → (ℕ → Option ℕ) → Bytes → Bytes → Result ℕ
id_or_number (some id) of_id message v = ok id
id_or_number none of_id message v = do n ← xstr_to_num v; given (of_id (to_unsigned 32 n)) message

find_id : (Bytes → Option ℕ) → (ℕ → Option ℕ) → Bytes → Bytes → Result ℕ
unfolding id_or_number
find_id of_name of_id message v = id_or_number (of_name v) of_id message v

-- `drop_uid` and `drop_gid` as options: `none` is INVALID_UID and INVALID_GID, the largest number of 32
-- bits, also where a database gives that number.
abbrev pub valid_id : ℕ → Option ℕ
valid_id id = if id == 2 ^ 32 - 1 then none else some id

pub quoted : Bytes → Bytes → Bytes
quoted message v = message ++ text " `" ++ v ++ text "'"

pub add_forward_mapping : Bytes → Bytes → Settings → Settings
add_forward_mapping host url s = record s {
  forward_map = s.forward_map ++ record { host = host; target_url = url } ∷ [];
}

-- `--forward` takes two arguments.
pub forward_option : List Bytes → Settings → Result Progress
unfolding add_forward_mapping
forward_option [] s = exited 1 (text "missing host after --forward")
forward_option (host ∷ []) s = exited 1 (text "missing url after --forward")
forward_option (host ∷ url ∷ rest) s = ok (add_forward_mapping host url s, rest)

-- `--auth`: the same message for a missing argument and for one without a colon.
pub auth_option : List Bytes → Settings → Result Progress
auth_option [] s = exited 1 (text "missing 'user:pass' after --auth")
auth_option (v ∷ rest) s = do
  require (has_char b':' v) (text "missing 'user:pass' after --auth")
  ok (record s { auth_key = some (codes "Basic " ++ base64_encode v) }, rest)

pub add_header : Settings → Bytes → Result Settings
add_header s v = do
  require (not (has_char b'\n' v) && contains (codes ": ") v)
      (text "malformed argument after --header")
  ok (record s { custom_hdrs = s.custom_hdrs ++ v ++ codes "\r\n" })

-- The options that take arguments.
pub valued_option : Host → Bytes → List Bytes → Settings → Result Progress
unfolding with_value find_id forward_option auth_option add_header quoted
valued_option h arg rest s =
    if str_eq arg (codes "--port")
    then with_value rest (text "missing number after --port")
        (λ v. do n ← xstr_to_num v; ok (record s { bindport = to_unsigned 16 n }))
    else if str_eq arg (codes "--addr")
    then with_value rest (text "missing ip after --addr") (λ v. ok (record s { bindaddr = some v }))
    else if str_eq arg (codes "--maxconn")
    then with_value rest (text "missing number after --maxconn")
        (λ v. do n ← xstr_to_num v; ok (record s { max_connections = to_int n }))
    else if str_eq arg (codes "--log")
    then with_value rest (text "missing filename after --log")
        (λ v. ok (record s { logfile_name = some v }))
    else if str_eq arg (codes "--index")
    then with_value rest (text "missing filename after --index")
        (λ v. ok (record s { index_name = v }))
    else if str_eq arg (codes "--mimetypes")
    then with_value rest (text "missing filename after --mimetypes") (λ v. do
      file ← given (h.read_file v) (text "fopen(\"" ++ v ++ text "\")")
      ok (record s { mime_map = parse_extension_map_file file s.mime_map }))
    else if str_eq arg (codes "--default-mimetype")
    then with_value rest (text "missing string after --default-mimetype")
        (λ v. ok (record s { default_mimetype = v }))
    else if str_eq arg (codes "--uid")
    then with_value rest (text "missing uid after --uid") (λ v. do
      id ← find_id h.user_of_name h.user_of_id (quoted (text "no such uid:") v) v
      ok (record s { drop_uid = valid_id id }))
    else if str_eq arg (codes "--gid")
    then with_value rest (text "missing gid after --gid") (λ v. do
      id ← find_id h.group_of_name h.group_of_id (quoted (text "no such gid:") v) v
      ok (record s { drop_gid = valid_id id }))
    else if str_eq arg (codes "--pidfile")
    then with_value rest (text "missing filename after --pidfile")
        (λ v. ok (record s { pidfile_name = some v }))
    else if str_eq arg (codes "--forward")
    then forward_option rest s
    else if str_eq arg (codes "--forward-all")
    then with_value rest (text "missing url after --forward-all")
        (λ v. ok (record s { forward_all_url = some v }))
    else if str_eq arg (codes "--timeout")
    then with_value rest (text "missing number after --timeout")
        (λ v. do n ← xstr_to_num v; ok (record s { timeout_secs = to_int n }))
    else if str_eq arg (codes "--auth")
    then auth_option rest s
    else if str_eq arg (codes "--trusted-ip")
    then with_value rest (text "missing ip after --trusted-ip") (λ v. do
      require (h.is_address v) (quoted (text "invalid ip address specified for --trusted-ip:") v)
      ok (record s { trusted_ip = some v }))
    else if str_eq arg (codes "--header")
    then with_value rest (text "missing argument after --header") (add_header s)
    else exited 1 (quoted (text "unknown argument") arg)

-- The options that stand alone, before the others. No two options have the same name, so the order of
-- the tests is free.
pub option : Host → Bytes → List Bytes → Settings → Result Progress
unfolding valued_option
option h arg rest s =
    if str_eq arg (codes "--chroot")
    then ok (record s { want_chroot = true }, rest)
    else if str_eq arg (codes "--daemon")
    then ok (record s { want_daemon = true }, rest)
    else if str_eq arg (codes "--no-listing")
    then ok (record s { no_listing = true }, rest)
    else if str_eq arg (codes "--human-readable")
    then ok (record s { humanize_sizes = true }, rest)
    else if str_eq arg (codes "--no-keepalive")
    then ok (record s { want_keepalive = false }, rest)
    else if str_eq arg (codes "--accf")
    then ok (record s { want_accf = true }, rest)
    else if str_eq arg (codes "--syslog")
    then ok (record s { syslog_enabled = true }, rest)
    else if str_eq arg (codes "--single-file")
    then ok (record s { want_single_file = true }, rest)
    else if str_eq arg (codes "--hide-dotfiles")
    then ok (record s { want_hide_dotfiles = true }, rest)
    else if str_eq arg (codes "--no-server-id")
    then ok (record s { want_server_id = false }, rest)
    else if str_eq arg (codes "--forward-https")
    then ok (record s { forward_to_https = true }, rest)
    else if str_eq arg (codes "--ipv6")
    then ok (record s { inet6 = true }, rest)
    else valued_option h arg rest s

-- The loop over the arguments. Each round takes at least one of them, so their number is fuel enough.
pub parse_options : ℕ → Host → List Bytes → Settings → Result Settings
unfolding option
parse_options fuel h [] s = ok s
parse_options zero h (arg ∷ rest) s = ok s
parse_options (suc fuel) h (arg ∷ rest) s =
    option h arg rest s >>= λ r. parse_options fuel h r.1 r.0

-- The slash at the end of a root that is longer goes.
pub strip_slash : Bytes → Bytes
strip_slash root =
    if ltb 1 (length root) && get_or root (length root - 1) 0 == b'/'
    then take (length root - 1) root
    else root

abbrev pub asks_help : List Bytes → Bool
asks_help [] = true
asks_help (arg ∷ []) = str_eq arg (codes "--help") || str_eq arg (codes "-h")
asks_help _ = false

pub with_root : Host → List Bytes → Settings → Result Settings
unfolding strip_slash parse_options
with_root h [] s = exited 0 []
with_root h (root ∷ args) s = do
  require (not (length root == 0)) (text "/path/to/wwwroot cannot be empty")
  parse_options (length args) h args (record s {
    wwwroot = strip_slash root;
    custom_hdrs = [];
    bindport = if h.is_root then 80 else s.bindport;
  })

-- `parse_commandline` on the arguments behind the program's name. What `usage` prints is left out.
unfoldable pub parse_commandline : Host → List Bytes → Settings → Result Settings
unfolding with_root str_eq
parse_commandline h args s = if asks_help args then exited 0 [] else with_root h args s
