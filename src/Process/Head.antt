-- ===== src/Process/Head.antt =====
-- A HEAD request is a GET request of which only the header is sent: the method has no other use in
-- `process_get`.
use darkhttpd.Common.{
  ◌≡◌, refl, sym, ap, ◌∙◌, true, Option, inl, inr, Bool-cases, append-nil, List, none, some, Bytes,
  codes, ◌++◌, ◌&&◌, ◌||◌, not, ℕ,
}
use darkhttpd.Common.Int.{pos, ltb_ℤ}
use darkhttpd.Conn.{Connection, reply_from_file, text_of}
use darkhttpd.Env.{
  Env, Errno, eacces, enoent, other, Stat, SysResult, ok, fail, FileKind, directory, regular,
  special,
}
use darkhttpd.Get.{
  file_exists, forward_target, has_dotfile, range_bounds, file_header, reply_range, reply_whole,
  not_modified_header, reply_not_modified, is_unmodified, reply_file, reply_kind, open_error,
  reply_fstat, reply_opened, reply_target, ends_in_slash, strip_query, reply_path, reply_forward,
  reply_requested, process_get,
}
use darkhttpd.Listing.{
  generate_dir_listing, make_sorted_dirlist, reply_listing, listing_error, listing_header, Dlent,
}
use darkhttpd.Poll.Message.{message}
use darkhttpd.Cstring.{str_eq}
use darkhttpd.Process.{by_method}
use darkhttpd.Reply.{
  rfc1123_date, keep_alive, default_header, default_reply, redirect, redirect_header,
  requested_path,
}
use darkhttpd.Request.{parse_field}

module _ (e : Env) (m : Option Bytes) where
  -- The same connection with another method.
  abbrev named : Connection → Connection
  named c = record c { method = m }

  default_reply-named :
      (c : Connection) (errcode : ℕ) (errname reason : Bytes)
      → default_reply e (named c) errcode errname reason
        ≡ named (default_reply e c errcode errname reason)
  unfolding default_reply default_header keep_alive
  default_reply-named c errcode errname reason = refl

  redirect-named : (c : Connection) (to : Bytes) → redirect e (named c) to ≡ named (redirect e c to)
  unfolding redirect redirect_header keep_alive
  redirect-named c to = refl

  reply_range-named :
      (c : Connection) (size : ℕ) (mimetype lastmod : Bytes)
      → reply_range e (named c) size mimetype lastmod
        ≡ named (reply_range e c size mimetype lastmod)
  unfolding reply_range file_header keep_alive range_bounds
  reply_range-named c size mimetype lastmod =
      elim (Bool-cases (not (ltb_ℤ (range_bounds c size).0 (pos size)))) [
        | inl far ↦ rw (far, reply_range) (default_reply-named c 416 _ _)
        | inr near ↦ elim (Bool-cases (ltb_ℤ (range_bounds c size).1 (range_bounds c size).0)) [
          | inl backward ↦ rw (near, backward, reply_range) (default_reply-named c 416 _ _)
          | inr forward ↦ rw (near, forward, reply_range) refl
        ]
      ]

  parse_field-named :
      (c : Connection) (field : Bytes) → parse_field (named c) field ≡ parse_field c field
  unfolding parse_field
  parse_field-named c field = refl

  reply_file-named :
      (c : Connection) (st : Stat) (mimetype : Bytes)
      → reply_file e (named c) st mimetype ≡ named (reply_file e c st mimetype)
  unfolding reply_file is_unmodified reply_not_modified not_modified_header reply_whole file_header
      keep_alive parse_field
  reply_file-named c st mimetype =
      let c1 = record c { reply_type = reply_from_file } in
      elim (Bool-cases (is_unmodified c1 (rfc1123_date e st.mtime))) [
        | inl old ↦ rw (old, reply_file) refl
        | inr new ↦ elim (Bool-cases (c.range_begin_given || c.range_end_given)) [
          | inl ranged ↦ rw (new, ranged, reply_file) (reply_range-named c1 st.size mimetype _)
          | inr whole ↦ rw (new, whole, reply_file) refl
        ]
      ]

  reply_kind-named :
      (c : Connection) (st : Stat) (mimetype : Bytes) (k : FileKind)
      → reply_kind e (named c) st mimetype k ≡ named (reply_kind e c st mimetype k)
  unfolding reply_kind
  reply_kind-named c st mimetype directory = elim (Bool-cases e.want_single_file) [
    | inl single ↦ simp (single, reply_kind) (default_reply-named c 403 _ _)
    | inr site ↦ simp (site, reply_kind) (redirect-named c _)
  ]
  reply_kind-named c st mimetype regular = reply_file-named c st mimetype
  reply_kind-named c st mimetype special = default_reply-named c 403 _ _

  open_error-named :
      (c : Connection) (err : Errno) → open_error e (named c) err ≡ named (open_error e c err)
  unfolding open_error
  open_error-named c eacces = default_reply-named c 403 _ _
  open_error-named c enoent = default_reply-named c 404 _ _
  open_error-named c (other n) = default_reply-named c 500 _ _

  reply_fstat-named :
      (c : Connection) (mimetype : Bytes) (r : SysResult Stat)
      → reply_fstat e (named c) mimetype r ≡ named (reply_fstat e c mimetype r)
  unfolding reply_fstat
  reply_fstat-named c mimetype (fail err) = default_reply-named c 500 _ _
  reply_fstat-named c mimetype (ok st) = reply_kind-named c st mimetype st.kind

  reply_opened-named :
      (c : Connection) (mimetype : Bytes) (r : SysResult ℕ)
      → reply_opened e (named c) mimetype r ≡ named (reply_opened e c mimetype r)
  unfolding reply_opened
  reply_opened-named c mimetype (fail err) = open_error-named c err
  reply_opened-named c mimetype (ok fd) =
      reply_fstat-named (record c { reply_fd = some fd }) mimetype (e.system.fstat fd)

  reply_listing-named :
      (c : Connection) (path url : Bytes) (r : SysResult (List Dlent))
      → reply_listing e (named c) path url r ≡ named (reply_listing e c path url r)
  unfolding reply_listing listing_error listing_header keep_alive
  reply_listing-named c path url (fail eacces) = default_reply-named c 403 _ _
  reply_listing-named c path url (fail enoent) = default_reply-named c 404 _ _
  reply_listing-named c path url (fail (other n)) = default_reply-named c 500 _ _
  reply_listing-named c path url (ok ds) = refl

  reply_target-named :
      (c : Connection) (target mimetype : Bytes)
      → reply_target e (named c) target mimetype ≡ named (reply_target e c target mimetype)
  unfolding reply_target
  reply_target-named c target mimetype = reply_opened-named c mimetype (e.system.open_file target)

  generate_dir_listing-named :
      (c : Connection) (path url : Bytes)
      → generate_dir_listing e (named c) path url ≡ named (generate_dir_listing e c path url)
  unfolding generate_dir_listing
  generate_dir_listing-named c path url =
      reply_listing-named c path url (make_sorted_dirlist e path)

  reply_path-named :
      (c : Connection) (path : Bytes) → reply_path e (named c) path ≡ named (reply_path e c path)
  unfolding reply_path
  reply_path-named c path = elim (Bool-cases e.want_single_file) [
    | inl single ↦ simp (single, reply_path) (reply_target-named c _ _)
    | inr site ↦ elim (Bool-cases (ends_in_slash path)) [
      | inl slash ↦ elim (Bool-cases (file_exists e (e.wwwroot ++ path ++ e.index_name))) [
        | inl index ↦ simp (site, slash, index, reply_path) (reply_target-named c _ _)
        | inr missing ↦ elim (Bool-cases e.no_listing) [
          | inl hidden ↦
              simp (site, slash, missing, hidden, reply_path) (default_reply-named c 404 _ _)
          | inr shown ↦
              simp (site, slash, missing, shown, reply_path) (generate_dir_listing-named c _ _)
        ]
      ]
      | inr file ↦ simp (site, file, reply_path) (reply_target-named c _ _)
    ]
  ]

  reply_forward-named :
      (c : Connection) (path : Bytes) (to : Option Bytes)
      → reply_forward e (named c) path to ≡ named (reply_forward e c path to)
  unfolding reply_forward
  reply_forward-named c path (some to) = redirect-named c (to ++ path)
  reply_forward-named c path none = elim (Bool-cases (e.want_hide_dotfiles && has_dotfile path)) [
    | inl hidden ↦ rw (hidden, reply_forward) (default_reply-named c 404 _ _)
    | inr shown ↦ rw (shown, reply_forward) (reply_path-named c path)
  ]

  reply_requested-named :
      (c : Connection) (path : Option Bytes)
      → reply_requested e (named c) path ≡ named (reply_requested e c path)
  unfolding reply_requested forward_target parse_field
  reply_requested-named c none = default_reply-named c 400 _ _
  reply_requested-named c (some path) = reply_forward-named c path (forward_target e c)

  process_get-named : (c : Connection) → process_get e (named c) ≡ named (process_get e c)
  unfolding process_get
  process_get-named c =
      reply_requested-named (strip_query c) (requested_path (text_of (strip_query c).url))

-- A response as that to HEAD: the header is all there is to send.
abbrev pub header_alone : Connection → Connection
header_alone c = record c { header_only = true }

abbrev pub asking_head : Connection → Connection
asking_head c = record c { method = some (codes "HEAD") }

by_method-process_get :
    (e : Env) (c : Connection) → c.method ≡ some (codes "GET") → by_method e c ≡ process_get e c
unfolding by_method str_eq
by_method-process_get e c get = simp (get, by_method) refl

-- Behind the tests of a request, HEAD gets the response of GET, and of that response the header is to
-- be sent and no byte of a body.
pub by_method-message :
    (e : Env) (c : Connection)
    → c.method ≡ some (codes "GET")
    → let head = by_method e (asking_head c) in
      (head ≡ header_alone (asking_head (by_method e c)))
      × (message e.system head ≡ text_of (by_method e c).header)
unfolding by_method str_eq
by_method-message e c get =
    let same = process_get-named e (some (codes "HEAD")) c in
    let gets = sym (by_method-process_get e c get) in
    (
      ap header_alone same ∙ ap (λ d. header_alone (asking_head d)) gets,
      append-nil _ ∙ ap (λ d. text_of d.header) same ∙ ap (λ d. text_of d.header) gets,
    )
