-- ===== src/Get/Confined.antt =====
-- Which paths `process_get` asks the system about: the reply on a system that answers otherwise about
-- any other path is the same.
use mathlib.Core.List.{Memᴰ}
use darkhttpd.Common.{
  ℕ, ◌≡◌, refl, ap, ◌∙◌, Bool, true, false, Bool-cases, inl, inr, Option, none, some, List, [], ◌∷◌,
  ◌++◌, if◌then◌else◌, Bytes, ◌&&◌,
}
use darkhttpd.Conn.{Connection, text_of}
use darkhttpd.Cstring.{c_str}
use darkhttpd.Env.{
  Env, eacces, enoent, other, SysResult, ok, fail, FileKind, Stat, regular, directory, special,
}
use darkhttpd.Get.{
  file_exists, has_dotfile, forward_target, ends_in_slash, not_found, file_header,
  not_modified_header, reply_range, reply_whole, reply_not_modified, reply_file, reply_kind,
  open_error, reply_fstat, reply_opened, reply_target, reply_path, reply_forward, reply_requested,
  strip_query, process_get,
}
use darkhttpd.Listing.{
  Dlent, is_directory, skips_name, collect_entries, sort_entries, make_sorted_dirlist, list_entry,
  list_entries, below_root, listing_body, listing_header, listing_error, reply_listing,
  generate_dir_listing,
}
use darkhttpd.Mime.{url_content_type}
use darkhttpd.Reply.{
  rfc1123_date, keep_alive, generated_on, default_body, default_header, default_reply,
  redirect_body, redirect_header, redirect, requested_path,
}
use darkhttpd.SafeUrl.Safe.{IsSafe, make_safe_url-IsSafe}
use darkhttpd.Url.{urldecode, normalize_path}
use darkhttpd.Url.NonNul.{normalize_path-NonNul, c_str-NonNul}

-- The calls that take a path.
pub record Paths : Type 0 where
  pub open_file : Bytes → SysResult ℕ
  pub opendir : Bytes → SysResult (List Bytes)
  pub stat : Bytes → SysResult Stat

-- The environment in which those calls are the given ones.
abbrev pub with_paths : Env → Paths → Env
with_paths e p = record e {
  system = record e.system { open_file = p.open_file; opendir = p.opendir; stat = p.stat };
}

-- The calls are those of the environment on the paths below the root: for a single file, on
-- that file; else on the root followed by a safe path, on the index name behind it, and, for `stat`,
-- on the index name and on the names that `readdir` gives of that directory and a listing does not
-- pass over (as it passes over "." and "..").
pub record AgreesBelowRoot (e : Env) (p : Paths) : Type 0 where
  pub single : e.want_single_file ≡ true → p.open_file e.wwwroot ≡ e.system.open_file e.wwwroot
  pub files :
      (path : Bytes)
      → IsSafe path
      → p.open_file (e.wwwroot ++ path) ≡ e.system.open_file (e.wwwroot ++ path)
  pub indexes :
      (path : Bytes)
      → IsSafe path
      → p.open_file (e.wwwroot ++ path ++ e.index_name)
        ≡ e.system.open_file (e.wwwroot ++ path ++ e.index_name)
  pub listings :
      (path : Bytes)
      → IsSafe path
      → p.opendir (e.wwwroot ++ path) ≡ e.system.opendir (e.wwwroot ++ path)
  pub index_stats :
      (path : Bytes)
      → IsSafe path
      → p.stat (e.wwwroot ++ path ++ e.index_name)
        ≡ e.system.stat (e.wwwroot ++ path ++ e.index_name)
  pub entries :
      (path name : Bytes) (names : List Bytes)
      → IsSafe path
      → e.system.opendir (e.wwwroot ++ path) ≡ ok names
      → Memᴰ name names
      → skips_name e name ≡ false
      → p.stat (e.wwwroot ++ path ++ name) ≡ e.system.stat (e.wwwroot ++ path ++ name)

-- What one name adds to the entries behind it.
entry_step : Bool → Bytes → SysResult Stat → List Dlent → List Dlent
entry_step skipped name r rest = if skipped then rest else elim r [
  | fail _ ↦ rest
  | ok s ↦
      record { name = name; is_dir = is_directory s.kind; size = s.size; mtime = s.mtime } ∷ rest
]

module _ (e : Env) (p : Paths) where
  pub default_reply-with_paths :
      (c : Connection) (n : ℕ) (name reason : Bytes)
      → default_reply (with_paths e p) c n name reason ≡ default_reply e c n name reason
  unfolding default_reply default_header default_body generated_on rfc1123_date keep_alive
  default_reply-with_paths c n name reason = refl

  pub redirect-with_paths :
      (c : Connection) (where_to : Bytes)
      → redirect (with_paths e p) c where_to ≡ redirect e c where_to
  unfolding redirect redirect_header redirect_body generated_on rfc1123_date keep_alive
  redirect-with_paths c where_to = refl

  file-with_paths :
      (c : Connection) (st : Stat) (mimetype : Bytes)
      → reply_file (with_paths e p) c st mimetype ≡ reply_file e c st mimetype
  unfolding reply_file reply_not_modified not_modified_header reply_range reply_whole file_header
      rfc1123_date keep_alive default_reply default_header default_body generated_on
  file-with_paths c st mimetype = refl

  kind-with_paths :
      (c : Connection) (st : Stat) (mimetype : Bytes) (k : FileKind)
      → reply_kind (with_paths e p) c st mimetype k ≡ reply_kind e c st mimetype k
  unfolding reply_kind
  kind-with_paths c st mimetype regular = file-with_paths c st mimetype
  kind-with_paths c st mimetype directory =
      rw (default_reply-with_paths c 403 _ _, redirect-with_paths c _) refl
  kind-with_paths c st mimetype special = default_reply-with_paths c 403 _ _

  fstat-with_paths :
      (c : Connection) (mimetype : Bytes) (r : SysResult Stat)
      → reply_fstat (with_paths e p) c mimetype r ≡ reply_fstat e c mimetype r
  unfolding reply_fstat
  fstat-with_paths c mimetype (fail err) = default_reply-with_paths c 500 _ _
  fstat-with_paths c mimetype (ok st) = kind-with_paths c st mimetype st.kind

  opened-with_paths :
      (c : Connection) (mimetype : Bytes) (r : SysResult ℕ)
      → reply_opened (with_paths e p) c mimetype r ≡ reply_opened e c mimetype r
  unfolding reply_opened open_error
  opened-with_paths c mimetype (fail eacces) = default_reply-with_paths c 403 _ _
  opened-with_paths c mimetype (fail enoent) = default_reply-with_paths c 404 _ _
  opened-with_paths c mimetype (fail (other n)) = default_reply-with_paths c 500 _ _
  opened-with_paths c mimetype (ok fd) =
      fstat-with_paths (record c { reply_fd = some fd }) mimetype (e.system.fstat fd)

  file_exists-with_paths :
      (path : Bytes)
      → p.stat path ≡ e.system.stat path
      → file_exists (with_paths e p) path ≡ file_exists e path
  unfolding file_exists
  file_exists-with_paths path same =
      ap (λ r. elim r as (λ r. Bool) [ fail enoent ↦ false | _ ↦ true ]) same

  target-with_paths :
      (c : Connection) (target mimetype : Bytes)
      → p.open_file target ≡ e.system.open_file target
      → reply_target (with_paths e p) c target mimetype ≡ reply_target e c target mimetype
  unfolding reply_target
  target-with_paths c target mimetype same =
      ap (λ r. reply_opened (with_paths e p) c mimetype r) same
      ∙ opened-with_paths c mimetype (e.system.open_file target)

  collect_entries-with_paths :
      (path : Bytes) (names : List Bytes)
      → ((name : Bytes)
          → Memᴰ name names
          → skips_name e name ≡ false
          → p.stat (path ++ name) ≡ e.system.stat (path ++ name))
      → collect_entries (with_paths e p) path names ≡ collect_entries e path names
  unfolding collect_entries skips_name entry_step
  collect_entries-with_paths path [] same = refl
  collect_entries-with_paths path (name ∷ names) same =
      let rest = collect_entries (with_paths e p) path names in
      let later = collect_entries-with_paths path names (λ n m. same n (Memᴰ.tail m)) in
      elim (Bool-cases (skips_name e name)) [
        | inl skipped ↦ rw (skipped, collect_entries) later
        | inr shown ↦
            ap (λ r. entry_step (skips_name e name) name r rest) (same name (Memᴰ.head refl) shown)
            ∙ ap (entry_step (skips_name e name) name (e.system.stat (path ++ name))) later
      ]

  make_sorted_dirlist-with_paths :
      (path : Bytes)
      → p.opendir path ≡ e.system.opendir path
      → ((name : Bytes) (names : List Bytes)
          → e.system.opendir path ≡ ok names
          → Memᴰ name names
          → skips_name e name ≡ false
          → p.stat (path ++ name) ≡ e.system.stat (path ++ name))
      → make_sorted_dirlist (with_paths e p) path ≡ make_sorted_dirlist e path
  unfolding make_sorted_dirlist
  make_sorted_dirlist-with_paths path o s = rw o (listed (e.system.opendir path) refl)
    where
      listed :
          (r : SysResult (List Bytes))
          → e.system.opendir path ≡ r
          → (elim r [
            | fail err ↦ fail err
            | ok names ↦ ok (sort_entries (collect_entries (with_paths e p) path names))
          ])
            ≡ (elim r [
              | fail err ↦ fail err
              | ok names ↦ ok (sort_entries (collect_entries e path names))
            ])
      listed (fail err) q = refl
      listed (ok names) q = rw (collect_entries-with_paths path names (λ n. s n names q)) refl

  list_entries-with_paths :
      (maxlen : ℕ) (ds : List Dlent) (listing : Bytes)
      → list_entries (with_paths e p) maxlen listing ds ≡ list_entries e maxlen listing ds
  unfolding list_entries list_entry
  list_entries-with_paths maxlen [] listing = refl
  list_entries-with_paths maxlen (d ∷ ds) listing = list_entries-with_paths maxlen ds _

  listing-with_paths :
      (c : Connection) (path decoded_url : Bytes) (r : SysResult (List Dlent))
      → reply_listing (with_paths e p) c path decoded_url r ≡ reply_listing e c path decoded_url r
  unfolding reply_listing listing_error listing_body listing_header rfc1123_date keep_alive
      generated_on below_root
  listing-with_paths c path decoded_url (fail eacces) = default_reply-with_paths c 403 _ _
  listing-with_paths c path decoded_url (fail enoent) = default_reply-with_paths c 404 _ _
  listing-with_paths c path decoded_url (fail (other n)) = default_reply-with_paths c 500 _ _
  listing-with_paths c path decoded_url (ok ds) = simp (list_entries-with_paths) refl

  pub generate_dir_listing-with_paths :
      (c : Connection) (path decoded_url : Bytes)
      → p.opendir path ≡ e.system.opendir path
      → ((name : Bytes) (names : List Bytes)
          → e.system.opendir path ≡ ok names
          → Memᴰ name names
          → skips_name e name ≡ false
          → p.stat (path ++ name) ≡ e.system.stat (path ++ name))
      → generate_dir_listing (with_paths e p) c path decoded_url
        ≡ generate_dir_listing e c path decoded_url
  unfolding generate_dir_listing
  generate_dir_listing-with_paths c path decoded_url o s =
      ap (reply_listing (with_paths e p) c path decoded_url)
        (make_sorted_dirlist-with_paths path o s)
      ∙ listing-with_paths c path decoded_url (make_sorted_dirlist e path)

module _ (e : Env) (p : Paths) (agrees : AgreesBelowRoot e p) where
  path-with_paths :
      (c : Connection) (path : Bytes)
      → IsSafe path
      → reply_path (with_paths e p) c path ≡ reply_path e c path
  unfolding reply_path
  path-with_paths c path safe = elim (Bool-cases e.want_single_file) [
    | inl single ↦ simp single (target-with_paths e p c e.wwwroot _ (agrees.single single))
    | inr site ↦ simp site (elim (Bool-cases (ends_in_slash path)) [
      | inr file ↦ rw file (target-with_paths e p c (e.wwwroot ++ path) _ (agrees.files path safe))
      | inl folder ↦
          simp
            (
              folder,
              file_exists-with_paths e p _ (agrees.index_stats path safe),
              target-with_paths e p c (e.wwwroot ++ path ++ e.index_name)
                  (url_content_type e.config e.index_name) (agrees.indexes path safe),
              default_reply-with_paths e p c,
              generate_dir_listing-with_paths e p c (e.wwwroot ++ path) path
                  (agrees.listings path safe) (λ name names. agrees.entries path name names safe),
            )
            refl
    ])
  ]

  forward-with_paths :
      (c : Connection) (path : Bytes) (t : Option Bytes)
      → IsSafe path
      → reply_forward (with_paths e p) c path t ≡ reply_forward e c path t
  unfolding reply_forward
  forward-with_paths c path (some target) safe = redirect-with_paths e p c _
  forward-with_paths c path none safe =
      let hides = e.want_hide_dotfiles && has_dotfile path in
      ap (λ r. if hides then r else reply_path (with_paths e p) c path)
        (default_reply-with_paths e p c 404 _ _)
      ∙ ap (λ r. if hides then not_found e c else r) (path-with_paths c path safe)

  requested-with_paths :
      (c : Connection) (o : Option Bytes)
      → ((path : Bytes) → o ≡ some path → IsSafe path)
      → reply_requested (with_paths e p) c o ≡ reply_requested e c o
  unfolding reply_requested forward_target
  requested-with_paths c none safe = default_reply-with_paths e p c 400 _ _
  requested-with_paths c (some path) safe =
      forward-with_paths c path (forward_target e c) (safe path refl)

  requested_path-IsSafe : (url path : Bytes) → requested_path url ≡ some path → IsSafe path
  unfolding requested_path
  requested_path-IsSafe url path h =
      make_safe_url-IsSafe (normalize_path (c_str (urldecode url)))
        (normalize_path-NonNul _ (c_str-NonNul (urldecode url))) h

  -- The reply of `process_get` to any URL is the same on every system that agrees with the given one
  -- on the paths below the root: about no other path does it ask.
  pub process_get-with_paths : (c : Connection) → process_get (with_paths e p) c ≡ process_get e c
  unfolding process_get
  process_get-with_paths c =
      let url = text_of (strip_query c).url in
      requested-with_paths (strip_query c) (requested_path url) (requested_path-IsSafe url)
