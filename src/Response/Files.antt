-- ===== src/Response/Files.antt =====
-- The replies from a file are built, if the file has the size that `fstat` gives.
use darkhttpd.Common.{
  ℕ, ◌+◌, ◌≡◌, ◌≤◌, refl, arith, inl, inr, true, ◌||◌, ◌&&◌, Bool-cases, Option, none, some, ◌++◌,
  Bytes, length, take, drop, length-take, length-drop,
}
use darkhttpd.Common.Int.{pos, ltb_ℤ}
use darkhttpd.Conn.{Connection, text_of, reply_from_file}
use darkhttpd.Env.{
  Env, System, Errno, eacces, enoent, other, SysResult, ok, fail, FileKind, regular, directory,
  special, Stat,
}
use darkhttpd.Get.{
  range_bounds, reply_range, reply_whole, reply_file, is_unmodified, reply_kind, reply_fstat,
  reply_opened, open_error, reply_target, reply_path, reply_forward, reply_requested, process_get,
  forward_target, strip_query, file_exists, ends_in_slash, has_dotfile,
}
use darkhttpd.Get.Range.{range_bounds-fits}
use darkhttpd.Poll.Message.{file_source}
use darkhttpd.Reply.{rfc1123_date, requested_path}
use darkhttpd.Response.{IsUnsent, IsFresh, IsBuilt, Stable}
use darkhttpd.Response.Replies.{
  default_reply-IsBuilt, redirect-IsBuilt, reply_not_modified-IsBuilt, generate_dir_listing-IsBuilt,
}

-- A fresh connection that replies from an open file of the given size.
record IsOpen (sys : System) (c : Connection) (size : ℕ) : Type 0 where
  fresh : IsFresh c
  from_file : c.reply_type ≡ reply_from_file
  whole_file : length (file_source sys c.reply_fd) ≡ size

part_length :
    (src : Bytes) (start len size : ℕ)
    → length src ≡ size
    → start + len ≤ size
    → length (take len (drop start src)) ≡ len
part_length src start len size h fits =
    omega (arith, length-take len (drop start src), length-drop start src)

module _ {sys : System} (e : Env) {c : Connection} {size : ℕ} (o : IsOpen sys c size)
    (mimetype lastmod : Bytes) where
  reply_whole-IsBuilt : IsBuilt sys (reply_whole e c size mimetype lastmod)
  unfolding reply_whole
  reply_whole-IsBuilt = record {
    unsent = o.fresh.0;
    header_whole = refl;
    body_whole =
        rw (o.from_file, o.fresh.1)
          (part_length (file_source sys c.reply_fd) 0 size size o.whole_file (omega arith));
    answered = omega arith;
  }

  reply_range-IsBuilt :
      (c.range_begin_given || c.range_end_given) ≡ true
      → IsBuilt sys (reply_range e c size mimetype lastmod)
  unfolding reply_range
  reply_range-IsBuilt given = elim (Bool-cases (ltb_ℤ (range_bounds c size).0 (pos size))) [
    | inr out ↦ rw out (default_reply-IsBuilt e c 416 _ _ o.fresh.0 (omega arith))
    | inl inside ↦ elim (Bool-cases (ltb_ℤ (range_bounds c size).1 (range_bounds c size).0)) [
      | inl back ↦ rw (inside, back) (default_reply-IsBuilt e c 416 _ _ o.fresh.0 (omega arith))
      | inr forward ↦
          rw (inside, forward)
            (record {
              unsent = o.fresh.0;
              header_whole = refl;
              body_whole = rw o.from_file (
                  part_length (file_source sys c.reply_fd) _ _ size o.whole_file
                    (range_bounds-fits c size given (inside, forward)).1);
              answered = omega arith;
            })
    ]
  ]

reply_file-IsBuilt :
    {sys : System} (e : Env) (c : Connection) (st : Stat) (mimetype : Bytes)
    → IsFresh c
    → length (file_source sys c.reply_fd) ≡ st.size
    → IsBuilt sys (reply_file e c st mimetype)
unfolding reply_file
reply_file-IsBuilt {sys} e c st mimetype f h =
    let c' = record c { reply_type = reply_from_file } in
    let o : IsOpen sys c' st.size = record { fresh = f; from_file = refl; whole_file = h } in
    elim (Bool-cases (is_unmodified c' (rfc1123_date e st.mtime))) [
      | inl same ↦ rw same (reply_not_modified-IsBuilt e c' f)
      | inr changed ↦ elim (Bool-cases (c.range_begin_given || c.range_end_given)) [
        | inl given ↦ simp (changed, given) (reply_range-IsBuilt e o mimetype _ given)
        | inr none_given ↦ simp (changed, none_given) (reply_whole-IsBuilt e o mimetype _)
      ]
    ]

reply_kind-IsBuilt :
    {sys : System} (e : Env) (c : Connection) (st : Stat) (mimetype : Bytes) (k : FileKind)
    → IsFresh c
    → (k ≡ regular → length (file_source sys c.reply_fd) ≡ st.size)
    → IsBuilt sys (reply_kind e c st mimetype k)
unfolding reply_kind
reply_kind-IsBuilt e c st mimetype regular f h = reply_file-IsBuilt e c st mimetype f (h refl)
reply_kind-IsBuilt e c st mimetype special f h = default_reply-IsBuilt e c 403 _ _ f.0 (omega arith)
reply_kind-IsBuilt e c st mimetype directory f h = elim (Bool-cases e.want_single_file) [
  | inl single ↦ simp single (default_reply-IsBuilt e c 403 _ _ f.0 (omega arith))
  | inr many ↦ simp many (redirect-IsBuilt e c _ f)
]

module _ (e : Env) (stable : Stable e.system) where
  reply_fstat-IsBuilt :
      (c : Connection) (fd : ℕ) (mimetype : Bytes) (r : SysResult Stat)
      → e.system.fstat fd ≡ r
      → c.reply_fd ≡ some fd
      → IsFresh c
      → IsBuilt e.system (reply_fstat e c mimetype r)
  unfolding reply_fstat
  reply_fstat-IsBuilt c fd mimetype (fail err) h hf f =
      default_reply-IsBuilt e c 500 _ _ f.0 (omega arith)
  reply_fstat-IsBuilt c fd mimetype (ok st) h hf f =
      reply_kind-IsBuilt e c st mimetype st.kind f λ k. rw hf (stable fd st h k)

  open_error-IsBuilt :
      (c : Connection) (err : Errno) → IsUnsent c → IsBuilt e.system (open_error e c err)
  unfolding open_error
  open_error-IsBuilt c eacces u = default_reply-IsBuilt e c 403 _ _ u (omega arith)
  open_error-IsBuilt c enoent u = default_reply-IsBuilt e c 404 _ _ u (omega arith)
  open_error-IsBuilt c (other n) u = default_reply-IsBuilt e c 500 _ _ u (omega arith)

  reply_opened-IsBuilt :
      (c : Connection) (mimetype : Bytes) (r : SysResult ℕ)
      → IsFresh c
      → IsBuilt e.system (reply_opened e c mimetype r)
  unfolding reply_opened
  reply_opened-IsBuilt c mimetype (fail err) f = open_error-IsBuilt c err f.0
  reply_opened-IsBuilt c mimetype (ok fd) f =
      reply_fstat-IsBuilt (record c { reply_fd = some fd }) fd mimetype _ refl refl f

  reply_target-IsBuilt :
      (c : Connection) (target mimetype : Bytes)
      → IsFresh c
      → IsBuilt e.system (reply_target e c target mimetype)
  unfolding reply_target
  reply_target-IsBuilt c target mimetype =
      reply_opened-IsBuilt c mimetype (e.system.open_file target)

  reply_path-IsBuilt :
      (c : Connection) (path : Bytes) → IsFresh c → IsBuilt e.system (reply_path e c path)
  unfolding reply_path
  reply_path-IsBuilt c path f = elim (Bool-cases e.want_single_file) [
    | inl single ↦ simp single (reply_target-IsBuilt c _ _ f)
    | inr many ↦ elim (Bool-cases (ends_in_slash path)) [
      | inr file ↦ simp (many, file) (reply_target-IsBuilt c _ _ f)
      | inl dir ↦ elim (Bool-cases (file_exists e (e.wwwroot ++ path ++ e.index_name))) [
        | inl index ↦ simp (many, dir, index) (reply_target-IsBuilt c _ _ f)
        | inr no_index ↦ elim (Bool-cases e.no_listing) [
          | inl hidden ↦
              simp (many, dir, no_index, hidden)
                (default_reply-IsBuilt e c 404 _ _ f.0 (omega arith))
          | inr shown ↦
              simp (many, dir, no_index, shown) (generate_dir_listing-IsBuilt e c _ path f)
        ]
      ]
    ]
  ]

  reply_forward-IsBuilt :
      (c : Connection) (path : Bytes) (target : Option Bytes)
      → IsFresh c
      → IsBuilt e.system (reply_forward e c path target)
  unfolding reply_forward
  reply_forward-IsBuilt c path (some target) f = redirect-IsBuilt e c _ f
  reply_forward-IsBuilt c path none f =
      elim (Bool-cases (e.want_hide_dotfiles && has_dotfile path)) [
        | inl hidden ↦ simp hidden (default_reply-IsBuilt e c 404 _ _ f.0 (omega arith))
        | inr shown ↦ simp shown (reply_path-IsBuilt c path f)
      ]

  reply_requested-IsBuilt :
      (c : Connection) (path : Option Bytes)
      → IsFresh c
      → IsBuilt e.system (reply_requested e c path)
  unfolding reply_requested
  reply_requested-IsBuilt c none f = default_reply-IsBuilt e c 400 _ _ f.0 (omega arith)
  reply_requested-IsBuilt c (some path) f = reply_forward-IsBuilt c path (forward_target e c) f

  pub process_get-IsBuilt : (c : Connection) → IsFresh c → IsBuilt e.system (process_get e c)
  unfolding process_get
  process_get-IsBuilt c f =
      reply_requested-IsBuilt (strip_query c) (requested_path (text_of (strip_query c).url)) f
