-- ===== src/Security/Secured.antt =====
-- What the block of `main` under the comment "security" leaves, whatever the settings are.
use darkhttpd.Common.{
  suc, if◌then◌else◌, ℕ, ◌==◌, ◌&&◌, ◌||◌, ◌≡◌, refl, sym, ap, ◌∙◌, true, false, Option, none, some,
  [], ◌∷◌, ◌++◌, Bytes, codes, text, take, drop, length,
}
use darkhttpd.Options.{Settings, ok}
use darkhttpd.Options.Ends.{Ends, goes_on, Ends-if_of, Ends-bind_of, Ends-bind, Ends-require}
use darkhttpd.Security.{
  ProcessState, Directories, resolve_dir, chdir, chroot, last_slash, root_of_file, root_of_dir,
  change_root, drop_group, drop_user, secure,
}
use darkhttpd.Security.Dropped.{resolve_dir-dot}

-- Only `wwwroot` is another; a process that is to be confined to a directory stands in its root, and
-- `wwwroot` is empty.
pub record IsConfined (s : Settings) (r : Settings × ProcessState) : Type 0 where
  pub others : r.0 ≡ record s { wwwroot = r.0.wwwroot }
  pub inside :
      s.want_chroot ≡ true → s.want_single_file ≡ false → (r.1.root ≡ r.1.cwd) × (r.0.wwwroot ≡ [])

chroot-Ends :
    (exists : Directories) (path : Bytes) (p : ProcessState)
    → Ends (λ q. q ≡ record p { root = resolve_dir p.cwd path }) (chroot exists path p)
unfolding chroot
chroot-Ends exists path p =
    Ends-require (p.uid == 0 && exists (resolve_dir p.cwd path)) _ λ h. goes_on refl

root_of_dir-IsConfined :
    (exists : Directories) (s : Settings) (p : ProcessState)
    → Ends (IsConfined s) (root_of_dir exists s p)
unfolding root_of_dir
root_of_dir-IsConfined exists s p = Ends-bind (chdir exists s.wwwroot _ p) λ p1.
    Ends-bind_of (chroot-Ends exists (codes ".") p1) λ p2 e. goes_on (record {
      others = refl;
      inside = λ want single.
          (ap (λ q. q.root) e ∙ resolve_dir-dot p1.cwd ∙ sym (ap (λ q. q.cwd) e), refl);
    })

root_of_file-IsConfined :
    (exists : Directories) (o : Option ℕ) (s : Settings) (p : ProcessState)
    → s.want_single_file ≡ true
    → Ends (IsConfined s) (root_of_file exists o s p)
unfolding root_of_file
root_of_file-IsConfined exists none s p single =
    Ends-bind (chroot exists (codes ".") p)
      λ p1. goes_on (record { others = refl; inside = λ want plain. cc })
root_of_file-IsConfined exists (some ofs) s p single =
    let path = take (suc ofs) s.wwwroot in
    let s' = record s { wwwroot = drop ofs s.wwwroot } in
    Ends-bind (chdir exists path (text "chdir(" ++ path ++ text ")") p) λ p1.
      Ends-bind (chroot exists path p1) λ p2.
        let c : IsConfined s (s', p2) = record { others = refl; inside = λ want plain. cc } in
        goes_on c

change_root-IsConfined :
    (exists : Directories) (s : Settings) (p : ProcessState)
    → Ends (IsConfined s) (change_root exists s p)
unfolding change_root
change_root-IsConfined exists s p =
    Ends-if_of s.want_single_file
      (λ single.
        root_of_file-IsConfined exists (last_slash s.wwwroot (length s.wwwroot)) s p single)
      (λ plain. root_of_dir-IsConfined exists s p)

-- What asking for a group leaves: the directories and the user as they were.
record HasGroup (o : Option ℕ) (p q : ProcessState) : Type 0 where
  same : q ≡ record p { gid = q.gid; groups = q.groups }
  given_up : (g : ℕ) → o ≡ some g → (q.gid ≡ g) × (q.groups ≡ g ∷ [])

some_same : (g h : ℕ) → some g ≡ some h → g ≡ h
some_same g h e = cc

drop_group-HasGroup : (o : Option ℕ) (p : ProcessState) → Ends (HasGroup o p) (drop_group o p)
unfolding drop_group
drop_group-HasGroup none p = goes_on (record { same = refl; given_up = λ g e. cc })
drop_group-HasGroup (some g) p = Ends-require (p.uid == 0) _ λ h. Ends-require (p.uid == 0) _ λ k.
    let q = record p { groups = g ∷ []; gid = g } in
    let c : HasGroup (some g) p q = record {
      same = refl;
      given_up = λ n e. (some_same g n e, ap (λ x. x ∷ []) (some_same g n e));
    } in
    goes_on c

record HasUser (o : Option ℕ) (p q : ProcessState) : Type 0 where
  same : q ≡ record p { uid = q.uid }
  given_up : (u : ℕ) → o ≡ some u → q.uid ≡ u

drop_user-HasUser : (o : Option ℕ) (p : ProcessState) → Ends (HasUser o p) (drop_user o p)
unfolding drop_user
drop_user-HasUser none p = goes_on (record { same = refl; given_up = λ u e. cc })
drop_user-HasUser (some u) p = Ends-require (p.uid == 0 || p.uid == u) _ λ h.
    let q = record p { uid = u } in
    let c : HasUser (some u) p q = record { same = refl; given_up = λ n e. some_same u n e } in
    goes_on c

-- A program that goes on has the user and the group that it was to have, and no other group, and it is
-- confined if it was to be.
pub record IsSecured (s : Settings) (r : Settings × ProcessState) : Type 0 where
  pub others : r.0 ≡ record s { wwwroot = r.0.wwwroot }
  pub inside :
      s.want_chroot ≡ true → s.want_single_file ≡ false → (r.1.root ≡ r.1.cwd) × (r.0.wwwroot ≡ [])
  pub user : (u : ℕ) → s.drop_uid ≡ some u → r.1.uid ≡ u
  pub group : (g : ℕ) → s.drop_gid ≡ some g → (r.1.gid ≡ g) × (r.1.groups ≡ g ∷ [])

confine :
    (exists : Directories) (s : Settings) (p : ProcessState)
    → Ends (IsConfined s) (if s.want_chroot then change_root exists s p else ok (s, p))
confine exists s p =
    Ends-if_of s.want_chroot (λ want. change_root-IsConfined exists s p)
      (λ none_wanted. goes_on (record { others = refl; inside = λ want. cc }))

pub secure-IsSecured :
    (exists : Directories) (s : Settings) (p : ProcessState)
    → Ends (IsSecured s) (secure exists s p)
unfolding secure
secure-IsSecured exists s p = Ends-bind_of (confine exists s p) λ r c.
    Ends-bind_of (drop_group-HasGroup s.drop_gid r.1) λ p1 g.
      Ends-bind_of (drop_user-HasUser s.drop_uid p1) λ p2 u.
        let d : IsSecured s (r.0, p2) = record {
          others = c.others;
          inside = λ want plain.
              let h = c.inside want plain in
              (
                ap (λ q. q.root) u.same
                    ∙ ap (λ q. q.root) g.same
                    ∙ h.0
                    ∙ sym (ap (λ q. q.cwd) u.same ∙ ap (λ q. q.cwd) g.same),
                h.1,
              );
          user = u.given_up;
          group = λ n e.
              let h = g.given_up n e in
              (ap (λ q. q.gid) u.same ∙ h.0, ap (λ q. q.groups) u.same ∙ h.1);
        } in
        goes_on d
