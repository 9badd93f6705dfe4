-- ===== src/Main/Start.antt =====
-- What the start of the program has reached when `main` enters its loop.
use darkhttpd.Command.Sane.{IsSane}
use darkhttpd.Common.{ℕ, Bool, true, false, Option, some, none, [], ◌∷◌, ◌≡◌}
use darkhttpd.Daemon.{Files, lifeline_files, foreground_files}
use darkhttpd.Main.{Machine, Started}
use darkhttpd.Options.Ends.{Ends}
use darkhttpd.Sockin.Listening.{IsListening}

-- The state of a program that serves: sane settings, a listening socket, the privileges and the root
-- that the settings ask for, and in the background a lifeline that is cut and no terminal.
pub record IsStarted (m : Machine) (st : Started) : Type 0 where
  pub sane : IsSane st.settings
  pub listening : IsListening m.sockets st.settings st.sockin
  pub inside :
      st.settings.want_chroot ≡ true
      → st.settings.want_single_file ≡ false
      → (st.process.root ≡ st.process.cwd) × (st.settings.wwwroot ≡ [])
  pub user : (u : ℕ) → st.settings.drop_uid ≡ some u → st.process.uid ≡ u
  pub group :
      (g : ℕ) → st.settings.drop_gid ≡ some g → (st.process.gid ≡ g) × (st.process.groups ≡ g ∷ [])
  pub cut : m.finish.closes_write ≡ true → st.files.write_end ≡ false
  pub quiet :
      st.settings.want_daemon ≡ true → m.finish.sets_stdout ≡ true → st.files.stdout_null ≡ true

-- What `daemonize_finish` leaves of the descriptors.
record IsCut (m : Machine) (want : Bool) (f : Files) : Type 0 where
  cut : m.finish.closes_write ≡ true → f.write_end ≡ false
  quiet : want ≡ true → m.finish.sets_stdout ≡ true → f.stdout_null ≡ true

Begun : Bool → Option ℕ × Files → Type 0
Begun false b = b ≡ (none, foreground_files)
Begun true b = (fd : ℕ) × (b ≡ (some fd, lifeline_files))
