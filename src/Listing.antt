-- ===== src/Listing.antt =====
-- Directory listings of darkhttpd.c: `make_sorted_dirlist`, `append_escaped` and
-- `generate_dir_listing`. The append buffer is the text that it holds.
pub mod Escape
pub mod Order
pub mod Sorted
use Prim.Native.Nat.{Ordering}
use darkhttpd.Common.{
  ℕ, zero, suc, ◌-◌, Bool, true, false, not, ◌&&◌, ◌||◌, some, List, [], ◌∷◌, ◌++◌, ◌==◌, ltb,
  if◌then◌else◌, Bytes, codes, text, get_or, length,
}
use darkhttpd.Conn.{Connection, reply_generated, text_of}
use darkhttpd.Cstring.{strcmp, str_eq, starts_with, decimal}
use darkhttpd.Env.{Env, Errno, eacces, enoent, SysResult, ok, fail, FileKind, directory}
use darkhttpd.Reply.{join, rfc1123_date, generated_on, keep_alive, default_reply}
use darkhttpd.Sizes.{spaces, decimal_padded, humanize_size}
use darkhttpd.Url.{urlencode}

-- `struct dlent`
pub record Dlent : Type 0 where
  pub name : Bytes
  pub is_dir : Bool
  pub size : ℕ
  pub mtime : ℕ

abbrev pub max_nam_len : ℕ
max_nam_len = 255

abbrev pub is_directory : FileKind → Bool
is_directory directory = true
is_directory _ = false

-- The names that `readdir` gives and the loop passes over before it calls `stat`.
unfoldable pub skips_name : Env → Bytes → Bool
unfolding str_eq
skips_name e name =
    str_eq name (codes ".")
    || str_eq name (codes "..")
    || e.want_hide_dotfiles && get_or name 0 0 == b'.'
    || ltb max_nam_len (length name)

unfoldable pub collect_entries : Env → Bytes → List Bytes → List Dlent
unfolding skips_name
collect_entries e path [] = []
collect_entries e path (name ∷ names) =
    let rest = collect_entries e path names in
    if skips_name e name then rest else elim (e.system.stat (path ++ name)) [
      | fail _ ↦ rest
      | ok s ↦
          record { name = name; is_dir = is_directory s.kind; size = s.size; mtime = s.mtime }
          ∷ rest
    ]

pub insert_entry : Dlent → List Dlent → List Dlent
unfolding strcmp
insert_entry d [] = d ∷ []
insert_entry d (x ∷ xs) =
    let rest = x ∷ insert_entry d xs in
    elim (strcmp d.name x.name) [ Ordering.gt ↦ rest | _ ↦ d ∷ x ∷ xs ]

-- `qsort` by `dlent_cmp`.
unfoldable pub sort_entries : List Dlent → List Dlent
unfolding insert_entry
sort_entries [] = []
sort_entries (d ∷ ds) = insert_entry d (sort_entries ds)

unfoldable pub make_sorted_dirlist : Env → Bytes → SysResult (List Dlent)
unfolding collect_entries sort_entries
make_sorted_dirlist e path = elim (e.system.opendir path) [
  | fail err ↦ fail err
  | ok names ↦ ok (sort_entries (collect_entries e path names))
]

-- What `append_escaped` appends for one character.
unfoldable pub escape_char : ℕ → Bytes
escape_char c =
    if c == b'<'
    then codes "&lt;"
    else if c == b'>'
    then codes "&gt;"
    else if c == b'&'
    then codes "&amp;"
    else if c == b'\''
    then codes "&apos;"
    else if c == b'"'
    then codes "&quot;"
    else c ∷ []

unfoldable pub append_escaped : Bytes → Bytes → Bytes
unfolding escape_char
append_escaped dst [] = dst
append_escaped dst (c ∷ src) = append_escaped (dst ++ escape_char c) src

unfoldable pub name_width : List Dlent → ℕ
name_width [] = 0
name_width (d ∷ ds) =
    let width = if d.is_dir then suc (length d.name) else length d.name in
    let rest = name_width ds in if ltb rest width then width else rest

-- What the loop appends for one entry.
unfoldable pub list_entry : Env → ℕ → Bytes → Dlent → Bytes
unfolding append_escaped urlencode spaces humanize_size decimal_padded
list_entry e maxlen listing d =
    let href = join (
      listing
      ∷ text "<a href=\""
      ∷ urlencode d.name
      ∷ (if d.is_dir then text "/" else [])
      ∷ text "\">"
      ∷ []) in
    let named = append_escaped href d.name ++ text "</a>" in
    let when = e.system.format_local d.mtime in
    let gap = spaces (maxlen - length d.name) in
    let count = if e.humanize_sizes then humanize_size d.size else decimal_padded d.size in
    if d.is_dir
    then join (named ∷ text "/" ∷ gap ∷ when ∷ text "\n" ∷ [])
    else join (named ∷ gap ∷ text " " ∷ when ∷ text " " ∷ count ∷ text "\n" ∷ [])

unfoldable pub list_entries : Env → ℕ → Bytes → List Dlent → Bytes
unfolding list_entry
list_entries e maxlen listing [] = listing
list_entries e maxlen listing (d ∷ ds) = list_entries e maxlen (list_entry e maxlen listing d) ds

but_last : Bytes → Bytes
but_last [] = []
but_last (c ∷ []) = []
but_last (c ∷ d ∷ s) = c ∷ but_last (d ∷ s)

-- `strncmp(path, wwwroot, strlen(path) - 1) != 0`: the path without its last slash is not a prefix.
unfoldable pub below_root : Env → Bytes → Bool
unfolding starts_with but_last
below_root e path = not (starts_with (but_last path) e.wwwroot)

unfoldable pub listing_body : Env → Bytes → Bytes → List Dlent → Bytes
unfolding append_escaped name_width list_entries below_root generated_on rfc1123_date
listing_body e path decoded_url ds =
    let title = append_escaped (text "<!DOCTYPE html>\n<html>\n<head>\n<title>") decoded_url in
    let head =
      title
      ++ text
          "</title>\n<meta name=\"viewport\" content=\"width=device-width, initial-scale=1\">\n</head>\n<body>\n<h1>" in
    let top = append_escaped head decoded_url ++ text "</h1>\n<pre>\n" in
    let up = if below_root e path then top ++ text "<a href=\"../\">..</a>/\n" else top in
    let body = list_entries e (name_width ds) up ds in
    join (
      body
      ∷ text "</pre>\n<hr>\n"
      ∷ generated_on e (rfc1123_date e e.now)
      ∷ text "</body>\n</html>\n"
      ∷ [])

unfoldable pub listing_header : Env → Connection → ℕ → Bytes
unfolding rfc1123_date keep_alive
listing_header e c reply_length = join (
    text "HTTP/1.1 200 OK\r\nDate: "
    ∷ rfc1123_date e e.now
    ∷ text "\r\n"
    ∷ e.server_hdr
    ∷ text "Accept-Ranges: bytes\r\n"
    ∷ keep_alive e c
    ∷ e.custom_hdrs
    ∷ text "Content-Length: "
    ∷ decimal reply_length
    ∷ text "\r\nContent-Type: text/html; charset=UTF-8\r\n\r\n"
    ∷ [])

-- The reply to a failed `opendir`.
unfoldable pub listing_error : Env → Connection → Errno → Connection
listing_error e c eacces =
    default_reply e c 403 (text "Forbidden") (text "You don't have permission to access this URL.")
listing_error e c enoent =
    default_reply e c 404 (text "Not Found") (text "The URL you requested was not found.")
listing_error e c err =
    default_reply e c 500 (text "Internal Server Error")
      (text "Couldn't list directory: " ++ e.system.strerror err)

-- The reply for what `make_sorted_dirlist` returned.
unfoldable pub reply_listing :
    Env → Connection → Bytes → Bytes → SysResult (List Dlent) → Connection
unfolding listing_error
reply_listing e c path decoded_url (fail err) = listing_error e c err
reply_listing e c path decoded_url (ok ds) =
    let body = listing_body e path decoded_url ds in
    let head = listing_header e c (length body) in
    record c {
      reply = some body;
      reply_length = length body;
      header = some head;
      header_length = length head;
      reply_type = reply_generated;
      http_code = 200;
    }

unfoldable pub generate_dir_listing : Env → Connection → Bytes → Bytes → Connection
unfolding make_sorted_dirlist reply_listing
generate_dir_listing e c path decoded_url =
    reply_listing e c path decoded_url (make_sorted_dirlist e path)
