-- ===== src/Security.antt =====
-- `change_root` of darkhttpd.c and the block of `main` that drops the group and the user. What the
-- system calls do to the process is written out: `chroot`, `setgroups`, `setgid` and `setuid` are
-- for root alone.
pub mod Dropped
pub mod Secured
use darkhttpd.Common.{
  ℕ, zero, suc, ◌+◌, ◌-◌, Bool, true, false, not, ◌&&◌, ◌||◌, Option, none, some, List, [], ◌∷◌,
  ◌++◌, ◌==◌, if◌then◌else◌, Bytes, codes, text, take, drop, length, get_or,
}
use darkhttpd.Common.Int.{pos}
use darkhttpd.Cstring.{str_eq}
use darkhttpd.Numbers.{decimal_int, to_int}
use darkhttpd.Options.{Settings, Result, ok, exited, ◌>>=◌, ◌>>◌, require}

-- What the system knows of the process. Directories are absolute texts that end in a slash.
pub record ProcessState : Type 0 where
  pub uid : ℕ
  pub gid : ℕ
  pub groups : List ℕ
  pub cwd : Bytes
  pub root : Bytes

abbrev pub ends_in_slash : Bytes → Bool
ends_in_slash p = get_or p (length p - 1) 0 == b'/'

abbrev pub is_absolute : Bytes → Bool
is_absolute p = get_or p 0 0 == b'/'

-- The directory that a path names for a process that stands in `cwd`.
unfoldable pub resolve_dir : Bytes → Bytes → Bytes
unfolding str_eq
resolve_dir cwd path =
    let whole = if is_absolute path then path else cwd ++ path in
    if str_eq path (codes ".")
    then cwd
    else if ends_in_slash whole
    then whole
    else whole ++ codes "/"

-- Which absolute texts name a directory.
abbrev pub Directories : Type 0
Directories = Bytes → Bool

-- `message` is what `err` prints.
unfoldable pub chdir : Directories → Bytes → Bytes → ProcessState → Result ProcessState
unfolding resolve_dir
chdir exists path message p = do
  require (exists (resolve_dir p.cwd path)) message
  ok (record p { cwd = resolve_dir p.cwd path })

unfoldable pub chroot : Directories → Bytes → ProcessState → Result ProcessState
unfolding resolve_dir
chroot exists path p = do
  require (p.uid == 0 && exists (resolve_dir p.cwd path)) (text "chroot(\"" ++ path ++ text "\")")
  ok (record p { root = resolve_dir p.cwd path })

-- The loop `for (ofs = strlen(wwwroot); ofs >= 0 && wwwroot[ofs] != '/'; ofs--)`, on the index that
-- it has reached; at `strlen` stands the terminator.
last_slash : Bytes → ℕ → Option ℕ
last_slash path zero = if get_or path 0 0 == b'/' then some 0 else none
last_slash path (suc ofs) =
    let before = last_slash path ofs in
    if get_or path (suc ofs) 0 == b'/' then some (suc ofs) else before

-- The directory of the single file, and the file as it is named below it.
root_of_file : Directories → Option ℕ → Settings → ProcessState → Result (Settings × ProcessState)
unfolding chdir chroot
root_of_file exists (some ofs) s p = do
  let path = take (suc ofs) s.wwwroot
  p1 ← chdir exists path (text "chdir(" ++ path ++ text ")") p
  p2 ← chroot exists path p1
  ok (record s { wwwroot = drop ofs s.wwwroot }, p2)
root_of_file exists none s p = do p1 ← chroot exists (codes ".") p; ok (s, p1)

root_of_dir : Directories → Settings → ProcessState → Result (Settings × ProcessState)
unfolding chdir chroot
root_of_dir exists s p = do
  p1 ← chdir exists s.wwwroot (text "chdir(\"" ++ s.wwwroot ++ text "\")") p
  p2 ← chroot exists (codes ".") p1
  ok (record s { wwwroot = [] }, p2)

unfoldable pub change_root :
    Directories → Settings → ProcessState → Result (Settings × ProcessState)
unfolding last_slash root_of_file root_of_dir
change_root exists s p =
    if s.want_single_file
    then root_of_file exists (last_slash s.wwwroot (length s.wwwroot)) s p
    else root_of_dir exists s p

-- `printf("%d", (int)id)`
as_int : ℕ → Bytes
unfolding decimal_int to_int
as_int id = decimal_int (to_int (pos id))

-- `setgroups` and `setgid`, where a group is asked for.
drop_group : Option ℕ → ProcessState → Result ProcessState
unfolding as_int
drop_group none p = ok p
drop_group (some g) p = do
  require (p.uid == 0) (text "setgroups([" ++ as_int g ++ text "])")
  require (p.uid == 0) (text "setgid(" ++ as_int g ++ text ")")
  ok (record p { groups = g ∷ []; gid = g })

drop_user : Option ℕ → ProcessState → Result ProcessState
unfolding as_int
drop_user none p = ok p
drop_user (some u) p = do
  require (p.uid == 0 || p.uid == u) (text "setuid(" ++ as_int u ++ text ")")
  ok (record p { uid = u })

-- The part of `main` under the comment "security".
unfoldable pub secure : Directories → Settings → ProcessState → Result (Settings × ProcessState)
unfolding drop_group drop_user
secure exists s p = do
  r ← if s.want_chroot then change_root exists s p else ok (s, p)
  p1 ← drop_group s.drop_gid r.1
  p2 ← drop_user s.drop_uid p1
  ok (r.0, p2)
