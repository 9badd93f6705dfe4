-- ===== src/Get.antt =====
-- `file_exists` and `process_get` of darkhttpd.c. The handler is cut where it returns early: each
-- part is a function of what the code has computed so far.
pub mod Confined
pub mod Range
use darkhttpd.Common.{
  ℕ, zero, suc, ◌+◌, ◌-◌, Bool, true, false, not, ◌&&◌, ◌||◌, Option, none, some, List, [], ◌∷◌,
  ◌++◌, ◌==◌, ltb, leb, if◌then◌else◌, Bytes, codes, text, get_or, length,
}
use darkhttpd.Common.Int.{ℤ, pos, pos_part, sub_ℕ, ◌+ℤ◌, ◌-ℤ◌, ltb_ℤ}
use darkhttpd.Conn.{Connection, reply_generated, reply_from_file, text_of}
use darkhttpd.Cstring.{str_eq, str_case_eq, before_char, decimal}
use darkhttpd.Env.{
  Env, Config, System, ForwardMapping, Errno, eacces, enoent, other, SysResult, ok, fail, FileKind,
  regular, directory, special, Stat,
}
use darkhttpd.Listing.{generate_dir_listing}
use darkhttpd.Mime.{url_content_type}
use darkhttpd.Reply.{
  join, rfc1123_date, keep_alive, default_reply, redirect, invalid_url, requested_path,
}
use darkhttpd.Request.{parse_field}

unfoldable pub file_exists : Env → Bytes → Bool
file_exists e path = elim (e.system.stat path) [ fail enoent ↦ false | _ ↦ true ]

-- The first mapping whose host is the given one, with case ignored.
unfoldable pub find_forward : List ForwardMapping → Bytes → Option Bytes
unfolding str_case_eq
find_forward [] host = none
find_forward (m ∷ ms) host =
    let rest = find_forward ms host in if str_case_eq m.host host then some m.target_url else rest

-- `forward_to`: by the Host field, else `forward_all_url`. The field is read only if there is a map.
unfoldable pub forward_target : Env → Connection → Option Bytes
unfolding find_forward parse_field
forward_target e c = elim (parse_field c (codes "\nHost: ")) [
  | none ↦ e.forward_all_url
  | some host ↦ elim (find_forward e.forward_map host) [
    | none ↦ e.forward_all_url
    | some target ↦ some target
  ]
]

-- Does some component of the path begin with a dot?
unfoldable pub has_dotfile : Bytes → Bool
has_dotfile [] = false
has_dotfile (c ∷ s) = c == b'/' && get_or s 0 0 == b'.' || has_dotfile s

abbrev pub not_found : Env → Connection → Connection
not_found e c =
    default_reply e c 404 (text "Not Found") (text "The URL you requested was not found.")

-- `from` and `to`, by which parts of the range are given.
unfoldable pub bounds_of : Bool → Bool → ℕ → ℕ → ℕ → ℤ × ℤ
bounds_of true true begin end size =
    let last = sub_ℕ size 1 in (pos begin, if ltb_ℤ last (pos end) then last else pos end)
bounds_of true false begin end size = (pos begin, sub_ℕ size 1)
bounds_of false _ begin end size =
    let last = sub_ℕ size 1 in
    let from = last -ℤ pos end +ℤ pos 1 in (if ltb_ℤ from (pos 0) then pos 0 else from, last)

unfoldable pub range_bounds : Connection → ℕ → ℤ × ℤ
unfolding bounds_of
range_bounds c size = bounds_of c.range_begin_given c.range_end_given c.range_begin c.range_end size

-- The common part of the headers with a body from a file.
unfoldable pub file_header : Env → Connection → Bytes → ℕ → Bytes → Bytes → Bytes → Bytes
unfolding rfc1123_date keep_alive
file_header e c status reply_length content_range mimetype lastmod = join (
    text "HTTP/1.1 "
    ∷ status
    ∷ text "\r\nDate: "
    ∷ rfc1123_date e e.now
    ∷ text "\r\n"
    ∷ e.server_hdr
    ∷ text "Accept-Ranges: bytes\r\n"
    ∷ keep_alive e c
    ∷ e.custom_hdrs
    ∷ text "Content-Length: "
    ∷ decimal reply_length
    ∷ text "\r\n"
    ∷ content_range
    ∷ text "Content-Type: "
    ∷ mimetype
    ∷ text "\r\nLast-Modified: "
    ∷ lastmod
    ∷ text "\r\n\r\n"
    ∷ [])

unfoldable pub content_range : ℕ → ℕ → ℕ → Bytes
unfolding decimal
content_range from to size = join (
    text "Content-Range: bytes "
    ∷ decimal from
    ∷ text "-"
    ∷ decimal to
    ∷ text "/"
    ∷ decimal size
    ∷ text "\r\n"
    ∷ [])

unfoldable pub not_modified_header : Env → Connection → Bytes
unfolding rfc1123_date keep_alive
not_modified_header e c = join (
    text "HTTP/1.1 304 Not Modified\r\nDate: "
    ∷ rfc1123_date e e.now
    ∷ text "\r\n"
    ∷ e.server_hdr
    ∷ text "Accept-Ranges: bytes\r\n"
    ∷ keep_alive e c
    ∷ e.custom_hdrs
    ∷ text "\r\n"
    ∷ [])

-- The branch for a range.
unfoldable pub reply_range : Env → Connection → ℕ → Bytes → Bytes → Connection
unfolding range_bounds
reply_range e c size mimetype lastmod =
    let (from, to) = range_bounds c size in
    let len = pos_part (to -ℤ from +ℤ pos 1) in
    let range = content_range (pos_part from) (pos_part to) size in
    let head = file_header e c (text "206 Partial Content") len range mimetype lastmod in
    if not (ltb_ℤ from (pos size))
    then default_reply e c 416 (text "Requested Range Not Satisfiable")
        (text "You requested a range outside of the file.")
    else if ltb_ℤ to from
    then default_reply e c 416 (text "Requested Range Not Satisfiable")
        (text "You requested a backward range.")
    else record c {
      reply_start = pos_part from;
      reply_length = len;
      header = some head;
      header_length = length head;
      http_code = 206;
    }

unfoldable pub reply_whole : Env → Connection → ℕ → Bytes → Bytes → Connection
reply_whole e c size mimetype lastmod =
    let head = file_header e c (text "200 OK") size [] mimetype lastmod in
    record c {
      reply_length = size;
      header = some head;
      header_length = length head;
      http_code = 200;
    }

unfoldable pub reply_not_modified : Env → Connection → Connection
reply_not_modified e c =
    let head = not_modified_header e c in
    record c {
      http_code = 304;
      header = some head;
      header_length = length head;
      reply_length = 0;
      reply_type = reply_generated;
      header_only = true;
    }

-- `strcmp(if_mod_since, lastmod) == 0` where the field is given.
unfoldable pub is_unmodified : Connection → Bytes → Bool
unfolding parse_field str_eq
is_unmodified c lastmod = elim (parse_field c (codes "\nIf-Modified-Since: ")) [
  | none ↦ false
  | some date ↦ str_eq date lastmod
]

-- A regular file is open.
unfoldable pub reply_file : Env → Connection → Stat → Bytes → Connection
unfolding is_unmodified reply_not_modified reply_range reply_whole rfc1123_date
reply_file e c0 st mimetype =
    let c = record c0 { reply_type = reply_from_file } in
    let lastmod = rfc1123_date e st.mtime in
    if is_unmodified c lastmod
    then reply_not_modified e c
    else if c.range_begin_given || c.range_end_given
    then reply_range e c st.size mimetype lastmod
    else reply_whole e c st.size mimetype lastmod

-- What is open, by its kind.
unfoldable pub reply_kind : Env → Connection → Stat → Bytes → FileKind → Connection
unfolding reply_file
reply_kind e c st mimetype directory =
    if e.want_single_file
    then default_reply e c 403 (text "Forbidden") (text "Not a regular file.")
    else redirect e c (text_of c.url ++ text "/")
reply_kind e c st mimetype regular = reply_file e c st mimetype
reply_kind e c st mimetype special =
    default_reply e c 403 (text "Forbidden") (text "Not a regular file.")

unfoldable pub open_error : Env → Connection → Errno → Connection
open_error e c eacces =
    default_reply e c 403 (text "Forbidden") (text "You don't have permission to access this URL.")
open_error e c enoent = not_found e c
open_error e c err = default_reply e c 500 (text "Internal Server Error") (
    join
      (text "The URL you requested cannot be returned: " ∷ e.system.strerror err ∷ text "." ∷ []))

-- What `fstat` says of the open file.
unfoldable pub reply_fstat : Env → Connection → Bytes → SysResult Stat → Connection
unfolding reply_kind
reply_fstat e c mimetype (fail err) =
    default_reply e c 500 (text "Internal Server Error")
      (join (text "fstat() failed: " ∷ e.system.strerror err ∷ text "." ∷ []))
reply_fstat e c mimetype (ok st) = reply_kind e c st mimetype st.kind

-- What `open` returned.
unfoldable pub reply_opened : Env → Connection → Bytes → SysResult ℕ → Connection
unfolding open_error reply_fstat
reply_opened e c mimetype (fail err) = open_error e c err
reply_opened e c mimetype (ok fd) =
    reply_fstat e (record c { reply_fd = some fd }) mimetype (e.system.fstat fd)

-- From `open` on.
unfoldable pub reply_target : Env → Connection → Bytes → Bytes → Connection
unfolding reply_opened
reply_target e c target mimetype = reply_opened e c mimetype (e.system.open_file target)

abbrev pub ends_in_slash : Bytes → Bool
ends_in_slash path = get_or path (length path - 1) 0 == b'/'

-- From the choice of the target on.
unfoldable pub reply_path : Env → Connection → Bytes → Connection
unfolding file_exists reply_target generate_dir_listing
reply_path e c path =
    if e.want_single_file
    then reply_target e c e.wwwroot (url_content_type e.config e.wwwroot)
    else if ends_in_slash path
    then (if file_exists e (e.wwwroot ++ path ++ e.index_name)
        then reply_target e c (e.wwwroot ++ path ++ e.index_name)
            (url_content_type e.config e.index_name)
        else if e.no_listing
        then not_found e c
        else generate_dir_listing e c (e.wwwroot ++ path) path)
    else reply_target e c (e.wwwroot ++ path) (url_content_type e.config path)

-- Behind the test against the forward options.
unfoldable pub reply_forward : Env → Connection → Bytes → Option Bytes → Connection
unfolding has_dotfile reply_path
reply_forward e c path (some target) = redirect e c (target ++ path)
reply_forward e c path none =
    if e.want_hide_dotfiles && has_dotfile path then not_found e c else reply_path e c path

-- Behind `make_safe_url`.
unfoldable pub reply_requested : Env → Connection → Option Bytes → Connection
unfolding forward_target reply_forward
reply_requested e c none = invalid_url e c
reply_requested e c (some path) = reply_forward e c path (forward_target e c)

-- `*end = 0` at the question mark of the URL.
abbrev pub strip_query : Connection → Connection
strip_query c = record c { url = some (before_char b'?' (text_of c.url)) }

unfoldable pub process_get : Env → Connection → Connection
unfolding requested_path reply_requested before_char
process_get e c = reply_requested e (strip_query c) (requested_path (text_of (strip_query c).url))
