-- ===== src/Security/Dropped.antt =====
-- Where the process stands behind the part of `main` about security.
use darkhttpd.Common.{
  ℕ, zero, suc, ◌+◌, ◌-◌, ◌≡◌, refl, sym, ap, ◌∙◌, arith, inl, inr, true, false, Bool-cases, some,
  [], ◌∷◌, ◌++◌, ◌==◌, Bytes, codes, text, take, drop, length, get_or, get_or-append, length-append,
  append_assoc, append_assoc,
}
use Prim.Native.Nat.{Ordering}
use darkhttpd.Cstring.{str_eq, strcmp, has_char}
use darkhttpd.Options.{Settings, ok, exited, ◌>>=◌}
use darkhttpd.Security.{
  ProcessState, Directories, is_absolute, ends_in_slash, resolve_dir, chdir, chroot, last_slash,
  change_root, secure,
}

not_slash : (name : Bytes) (k : ℕ) → has_char b'/' name ≡ false → (get_or name k 0 == b'/') ≡ false
unfolding has_char
not_slash [] k h = refl
not_slash (c ∷ name) zero h = ground arith
not_slash (c ∷ name) (suc k) h = ground (arith, not_slash name k)

behind :
    (d name : Bytes) (k : ℕ)
    → has_char b'/' name ≡ false
    → (get_or (d ++ b'/' ∷ name) (suc (length d + k)) 0 == b'/') ≡ false
behind d name k h =
    ap (λ n. get_or (d ++ b'/' ∷ name) n 0 == b'/')
      (let e : suc (length d + k) ≡ length d + suc k = omega arith in e)
    ∙ ap (λ c. c == b'/') (get_or-append d (b'/' ∷ name) (suc k) 0)
    ∙ not_slash name k h

-- The backward loop finds the slash before the name.
last_slash-found :
    (d name : Bytes) (k : ℕ)
    → has_char b'/' name ≡ false
    → last_slash (d ++ b'/' ∷ name) (length d + k) ≡ some (length d)
unfolding last_slash
last_slash-found [] name zero h = refl
last_slash-found (x ∷ d) name zero h =
    let at_slash : get_or (d ++ b'/' ∷ name) (length d) 0 ≡ b'/' =
      ap (λ k. get_or (d ++ b'/' ∷ name) k 0) (let e : length d ≡ length d + 0 = omega arith in e)
      ∙ get_or-append d (b'/' ∷ name) 0 0 in
    rw (let e : suc (length d) + 0 ≡ suc (length d) = omega arith in e) (rw at_slash refl)
last_slash-found d name (suc k) h =
    rw (let e : length d + suc k ≡ suc (length d + k) = omega arith in e)
      (rw (behind d name k h) (last_slash-found d name k h))

take_dir : (d name : Bytes) → take (suc (length d)) (d ++ b'/' ∷ name) ≡ d ++ codes "/"
take_dir [] name = refl
take_dir (x ∷ d) name = ap (◌∷◌ x) (take_dir d name)

drop_dir : (d name : Bytes) → drop (length d) (d ++ b'/' ∷ name) ≡ b'/' ∷ name
drop_dir [] name = refl
drop_dir (x ∷ d) name = drop_dir d name

slash_at_end : (d : Bytes) → ends_in_slash (d ++ codes "/") ≡ true
slash_at_end d =
    ap (λ n. get_or (d ++ codes "/") n 0 == b'/')
      (let e : length (d ++ codes "/") - 1 ≡ length d + 0 =
          omega (arith, length-append d (codes "/")) in
        e)
    ∙ ap (λ c. c == b'/') (get_or-append d (codes "/") 0 0)

-- The path of a single file, in its two parts.
module _ (exists : Directories) (d name : Bytes) (s : Settings) (p : ProcessState) where
  -- What `change_root` does for the file `d/name`: it enters the directory, and calls `chroot` with
  -- the same text from there.
  change_root-file :
      s.want_single_file ≡ true
      → s.wwwroot ≡ d ++ b'/' ∷ name
      → has_char b'/' name ≡ false
      → change_root exists s p ≡ (do
        p1 ← chdir exists (d ++ codes "/") (text "chdir(" ++ (d ++ codes "/") ++ text ")") p
        p2 ← chroot exists (d ++ codes "/") p1
        ok (record s { wwwroot = b'/' ∷ name }, p2))
  unfolding change_root
  change_root-file single w h =
      let found : last_slash s.wwwroot (length s.wwwroot) ≡ some (length d) =
        ap (λ t. last_slash t (length t)) w
        ∙ ap (last_slash (d ++ b'/' ∷ name)) (length-append d (b'/' ∷ name))
        ∙ last_slash-found d name (suc (length name)) h in
      simp (single, found) (simp (w, take_dir d name, drop_dir d name))

nonempty_gt : (d : Bytes) → strcmp (d ++ codes "/") [] ≡ Ordering.gt
unfolding strcmp
nonempty_gt [] = refl
nonempty_gt (x ∷ d) = refl

dir-not-dot : (d : Bytes) → str_eq (d ++ codes "/") (codes ".") ≡ false
unfolding str_eq strcmp
dir-not-dot [] = refl
dir-not-dot (x ∷ d) = ground (arith, nonempty_gt d)

resolve_dir-absolute :
    (cwd d : Bytes)
    → is_absolute (d ++ codes "/") ≡ true
    → resolve_dir cwd (d ++ codes "/") ≡ d ++ codes "/"
unfolding resolve_dir
resolve_dir-absolute cwd d h = simp (h, dir-not-dot d, slash_at_end d) refl

resolve_dir-relative :
    (cwd d : Bytes)
    → is_absolute (d ++ codes "/") ≡ false
    → resolve_dir cwd (d ++ codes "/") ≡ cwd ++ (d ++ codes "/")
unfolding resolve_dir
resolve_dir-relative cwd d h =
    simp (h, dir-not-dot d)
      (rw (ap ends_in_slash (sym (append_assoc cwd d (codes "/"))) ∙ slash_at_end (cwd ++ d)) refl)

chdir-ok :
    (exists : Directories) (path dir : Bytes) (p : ProcessState)
    → resolve_dir p.cwd path ≡ dir
    → exists dir ≡ true
    → (message : Bytes) → chdir exists path message p ≡ ok (record p { cwd = dir })
unfolding chdir
chdir-ok exists path dir p r h message = simp (r, h) refl

chroot-ok :
    (exists : Directories) (path dir : Bytes) (p : ProcessState)
    → p.uid ≡ 0
    → resolve_dir p.cwd path ≡ dir
    → exists dir ≡ true
    → chroot exists path p ≡ ok (record p { root = dir })
unfolding chroot
chroot-ok exists path dir p u r h = simp (u, r, h) refl

chroot-fails :
    (exists : Directories) (path dir : Bytes) (p : ProcessState)
    → resolve_dir p.cwd path ≡ dir
    → exists dir ≡ false
    → chroot exists path p ≡ exited 1 (text "chroot(\"" ++ path ++ text "\")")
unfolding chroot
chroot-fails exists path dir p r h = elim (Bool-cases (p.uid == 0)) [
  | inl root ↦ simp (root, r, h) refl
  | inr other ↦ simp other refl
]

-- What holds of the path of the file `d/name` with `--single-file`.
pub record IsFile (s : Settings) (d name : Bytes) : Type 0 where
  pub single : s.want_single_file ≡ true
  pub path : s.wwwroot ≡ d ++ b'/' ∷ name
  pub plain : has_char b'/' name ≡ false

-- For an absolute path `d/name` of a single file whose directory exists, root calls `chroot` on that
-- directory, and serves `/name` below it.
pub change_root-absolute :
    (exists : Directories) (d name : Bytes) (s : Settings) (p : ProcessState)
    → IsFile s d name
    → p.uid ≡ 0
    → is_absolute (d ++ codes "/") ≡ true
    → exists (d ++ codes "/") ≡ true
    → change_root exists s p
      ≡ ok (
        record s { wwwroot = b'/' ∷ name },
        record p { cwd = d ++ codes "/"; root = d ++ codes "/" },
      )
change_root-absolute exists d name s p f u a h =
    let dir = d ++ codes "/" in
    let p1 = record p { cwd = dir } in
    rw (
      change_root-file exists d name s p f.single f.path f.plain,
      chdir-ok exists dir dir p (resolve_dir-absolute p.cwd d a) h _,
      chroot-ok exists dir dir p1 u (resolve_dir-absolute dir d a) h,
    )

-- For a relative path `d/name` of a single file, `chroot` is called on `d` below `d`: where there
-- is no such directory the program ends with status 1, though the file is there.
pub change_root-relative :
    (exists : Directories) (d name : Bytes) (s : Settings) (p : ProcessState)
    → IsFile s d name
    → is_absolute (d ++ codes "/") ≡ false
    → exists (p.cwd ++ (d ++ codes "/")) ≡ true
    → exists ((p.cwd ++ (d ++ codes "/")) ++ (d ++ codes "/")) ≡ false
    → change_root exists s p ≡ exited 1 (text "chroot(\"" ++ (d ++ codes "/") ++ text "\")")
change_root-relative exists d name s p f a h k =
    let dir = d ++ codes "/" in
    let below = p.cwd ++ dir in
    let p1 = record p { cwd = below } in
    rw (
      change_root-file exists d name s p f.single f.path f.plain,
      chdir-ok exists dir below p (resolve_dir-relative p.cwd d a) h _,
      chroot-fails exists dir (below ++ dir) p1 (resolve_dir-relative below d a) k,
    )

pub resolve_dir-dot : (cwd : Bytes) → resolve_dir cwd (codes ".") ≡ cwd
unfolding resolve_dir
resolve_dir-dot cwd = refl

change_root-dir :
    (exists : Directories) (s : Settings) (p : ProcessState) (dir : Bytes)
    → s.want_single_file ≡ false
    → p.uid ≡ 0
    → resolve_dir p.cwd s.wwwroot ≡ dir
    → exists dir ≡ true
    → change_root exists s p ≡ ok (record s { wwwroot = [] }, record p { cwd = dir; root = dir })
unfolding change_root
change_root-dir exists s p dir plain root r h =
    simp
      (
        plain,
        chdir-ok exists s.wwwroot dir p r h _,
        chroot-ok exists (codes ".") dir (record p { cwd = dir }) root (resolve_dir-dot dir) h,
      )
      refl

-- Started by root with `--chroot`, `--gid` and `--uid`, without `--single-file`, for a directory
-- that exists, the process ends up inside it, with the user and the group that were asked for and
-- no other group.
pub secure-dropped :
    (exists : Directories) (s : Settings) (p : ProcessState) (g u : ℕ) (dir : Bytes)
    → s.want_chroot ≡ true
    → s.want_single_file ≡ false
    → s.drop_gid ≡ some g
    → s.drop_uid ≡ some u
    → p.uid ≡ 0
    → resolve_dir p.cwd s.wwwroot ≡ dir
    → exists dir ≡ true
    → secure exists s p
      ≡ ok (
        record s { wwwroot = [] },
        record { uid = u; gid = g; groups = g ∷ []; cwd = dir; root = dir },
      )
unfolding secure
secure-dropped exists s p g u dir want plain gid uid root r h =
    simp (want, change_root-dir exists s p dir plain root r h, gid, uid, root) refl
