-- ===== src/Listing/Sorted.antt =====
-- The list that `make_sorted_dirlist` makes of a directory.
use mathlib.Core.List.{Memᴰ, Permᴰ}
use mathlib.Core.List.Permᴰ
use darkhttpd.Common.{
  sym, ap, ◌∙◌, ◌≡◌, refl, ◌⊎◌, inl, inr, true, false, Bool-cases, List, [], ◌∷◌, ◌++◌, Bytes, All,
}
use darkhttpd.Env.{Errno, Env, Stat, SysResult, ok, fail}
use darkhttpd.Listing.{
  Dlent, is_directory, skips_name, collect_entries, sort_entries, make_sorted_dirlist,
}
use darkhttpd.Listing.Order.{
  IsSorted, sort_entries-IsSorted, sort_entries-Permᴰ, sort_entries-All, Permᴰ-Memᴰ,
}

abbrev pub entry_of : Bytes → Stat → Dlent
entry_of name s = record {
  name = name;
  is_dir = is_directory s.kind;
  size = s.size;
  mtime = s.mtime;
}

-- An entry that the listing is to have: a name of the directory that is not passed over, with what
-- `stat` says of the path.
pub record IsEntry (e : Env) (path : Bytes) (names : List Bytes) (d : Dlent) : Type 0 where
  pub named : Memᴰ d.name names
  pub shown : skips_name e d.name ≡ false
  pub found : (s : Stat) × (e.system.stat (path ++ d.name) ≡ ok s) × (d ≡ entry_of d.name s)

-- What a name adds to the entries behind it.
data Collected (e : Env) (path name : Bytes) (rest : List Dlent) : List Dlent → Type 0 where
  skipped : skips_name e name ≡ true → Collected e path name rest rest
  failed : (err : Errno) → e.system.stat (path ++ name) ≡ fail err → Collected e path name rest rest
  listed :
      (s : Stat)
      → skips_name e name ≡ false
      → e.system.stat (path ++ name) ≡ ok s
      → Collected e path name rest (entry_of name s ∷ rest)

collect_entries-Collected :
    (e : Env) (path name : Bytes) (names : List Bytes)
    → Collected e path name (collect_entries e path names) (collect_entries e path (name ∷ names))
unfolding collect_entries
collect_entries-Collected e path name names = elim (Bool-cases (skips_name e name)) [
  | inl h ↦ rw (h, collect_entries) (skipped h)
  | inr h ↦ elim (stat_cases (e.system.stat (path ++ name))) [
    | inl (err, k) ↦ rw (h, k, collect_entries) (failed err k)
    | inr (s, k) ↦ rw (h, k, collect_entries) (listed s h k)
  ]
]
  where
    stat_cases : (r : SysResult Stat) → ((err : Errno) × (r ≡ fail err)) ⊎ ((s : Stat) × (r ≡ ok s))
    stat_cases (fail err) = inl (err, refl)
    stat_cases (ok s) = inr (s, refl)

All-onward :
    (P Q : Dlent → Type 0) (xs : List Dlent) → ((x : Dlent) → P x → Q x) → All P xs → All Q xs
All-onward P Q [] f h = tt
All-onward P Q (x ∷ xs) f h = (f x h.0, All-onward P Q xs f h.1)

collect_entries-IsEntry :
    (e : Env) (path : Bytes) (names : List Bytes)
    → All (IsEntry e path names) (collect_entries e path names)
unfolding collect_entries
collect_entries-IsEntry e path [] = tt
collect_entries-IsEntry e path (name ∷ names) =
    grown (collect_entries e path names) _ (collect_entries-Collected e path name names) (
      All-onward (IsEntry e path names) (IsEntry e path (name ∷ names))
        (collect_entries e path names)
        (λ d i. record { named = Memᴰ.tail i.named; shown = i.shown; found = i.found })
        (collect_entries-IsEntry e path names))
  where
    grown :
        (rest ds : List Dlent)
        → Collected e path name rest ds
        → All (IsEntry e path (name ∷ names)) rest
        → All (IsEntry e path (name ∷ names)) ds
    grown rest _ (skipped h) a = a
    grown rest _ (failed err k) a = a
    grown rest _ (listed s h k) a =
        (record { named = Memᴰ.head refl; shown = h; found = (s, k, refl) }, a)

ok_same : (s t : Stat) → ok s ≡ ok t → s ≡ t
ok_same s t e = cc

-- Every name that is not passed over and has a status is among the entries.
collect_entries-Memᴰ :
    (e : Env) (path : Bytes) (names : List Bytes) (name : Bytes) (s : Stat)
    → Memᴰ name names
    → skips_name e name ≡ false
    → e.system.stat (path ++ name) ≡ ok s
    → Memᴰ (entry_of name s) (collect_entries e path names)
collect_entries-Memᴰ e path [] name s m h k = elim m [ ]
collect_entries-Memᴰ e path (first ∷ names) name s (Memᴰ.head at) h k =
    here _ _ (collect_entries-Collected e path first names)
  where
    here : (rest ds : List Dlent) → Collected e path first rest ds → Memᴰ (entry_of name s) ds
    here rest _ (skipped g) = let h' = rw at at h in cc
    here rest _ (failed err g) = let k' = rw at at k in cc
    here rest _ (listed t g l) =
        let k' : e.system.stat (path ++ first) ≡ ok s = rw at at k in
        Memᴰ.head (ap (λ n. entry_of n s) at ∙ ap (entry_of first) (ok_same s t (sym k' ∙ l)))
collect_entries-Memᴰ e path (first ∷ names) name s (Memᴰ.tail m) h k =
    behind _ _ (collect_entries-Collected e path first names)
      (collect_entries-Memᴰ e path names name s m h k)
  where
    behind :
        (rest ds : List Dlent)
        → Collected e path first rest ds
        → Memᴰ (entry_of name s) rest
        → Memᴰ (entry_of name s) ds
    behind rest _ (skipped g) i = i
    behind rest _ (failed err g) i = i
    behind rest _ (listed t g l) i = Memᴰ.tail i

-- The entries of names in the order in which they are read, one for each time that a name is read.
pub data EntriesOf (e : Env) (path : Bytes) : List Bytes → List Dlent → Type 0 where
  no_names : EntriesOf e path [] []
  passed_over :
      {name : Bytes} {names : List Bytes} {ds : List Dlent}
      → skips_name e name ≡ true
      → EntriesOf e path names ds
      → EntriesOf e path (name ∷ names) ds
  without_stat :
      {name : Bytes} {names : List Bytes} {ds : List Dlent} (err : Errno)
      → e.system.stat (path ++ name) ≡ fail err
      → EntriesOf e path names ds
      → EntriesOf e path (name ∷ names) ds
  with_stat :
      {name : Bytes} {names : List Bytes} {ds : List Dlent} (s : Stat)
      → skips_name e name ≡ false
      → e.system.stat (path ++ name) ≡ ok s
      → EntriesOf e path names ds
      → EntriesOf e path (name ∷ names) (entry_of name s ∷ ds)

collect_entries-EntriesOf :
    (e : Env) (path : Bytes) (names : List Bytes)
    → EntriesOf e path names (collect_entries e path names)
unfolding collect_entries
collect_entries-EntriesOf e path [] = no_names
collect_entries-EntriesOf e path (name ∷ names) =
    grown _ _ (collect_entries-Collected e path name names) (collect_entries-EntriesOf e path names)
  where
    grown :
        (rest ds : List Dlent)
        → Collected e path name rest ds
        → EntriesOf e path names rest
        → EntriesOf e path (name ∷ names) ds
    grown rest _ (skipped h) r = passed_over h r
    grown rest _ (failed err k) r = without_stat err k r
    grown rest _ (listed s h k) r = with_stat s h k r

-- A listing of the names of a directory.
pub record IsListing (e : Env) (path : Bytes) (names : List Bytes) (ds : List Dlent) : Type 0 where
  pub in_order : IsSorted ds
  pub each_once : (read : List Dlent) × EntriesOf e path names read × Permᴰ ds read
  pub no_other : All (IsEntry e path names) ds
  pub every_one :
      (name : Bytes) (s : Stat)
      → Memᴰ name names
      → skips_name e name ≡ false
      → e.system.stat (path ++ name) ≡ ok s
      → Memᴰ (entry_of name s) ds

-- What `make_sorted_dirlist` is to return for what `opendir` and `readdir` return.
pub Lists : Env → Bytes → SysResult (List Bytes) → SysResult (List Dlent) → Type 0
Lists e path (fail err) r = r ≡ fail err
Lists e path (ok names) r = (ds : List Dlent) × (r ≡ ok ds) × IsListing e path names ds

make_sorted_dirlist-ok :
    (e : Env) (path : Bytes) (o : SysResult (List Bytes))
    → e.system.opendir path ≡ o
    → Lists e path o (make_sorted_dirlist e path)
unfolding make_sorted_dirlist Lists
make_sorted_dirlist-ok e path (fail err) o = rw (o, make_sorted_dirlist) refl
make_sorted_dirlist-ok e path (ok names) o =
    let ds = collect_entries e path names in
    (
      sort_entries ds,
      rw (o, make_sorted_dirlist) refl,
      record {
        in_order = sort_entries-IsSorted ds;
        each_once = (ds, collect_entries-EntriesOf e path names, sort_entries-Permᴰ ds);
        no_other =
            sort_entries-All (IsEntry e path names) ds (collect_entries-IsEntry e path names);
        every_one = λ name s m h k.
            Permᴰ-Memᴰ (Permᴰ.symm (sort_entries-Permᴰ ds))
              (collect_entries-Memᴰ e path names name s m h k);
      },
    )

-- A directory that `opendir` opens is listed in the order of `strcmp`: each name that `readdir` gives
-- and that is not passed over, with what `stat` says of its path, where `stat` succeeds; no
-- other entry, and each as often as its name was read. If `opendir` fails the error is
-- passed on.
pub make_sorted_dirlist-Lists :
    (e : Env) (path : Bytes) → Lists e path (e.system.opendir path) (make_sorted_dirlist e path)
make_sorted_dirlist-Lists e path = make_sorted_dirlist-ok e path (e.system.opendir path) refl
