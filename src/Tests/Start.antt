-- ===== src/Tests/Start.antt =====
-- Concrete runs of the start of the program: a command line, a root that is left for good, a pid
-- file, two rounds of the main loop, and an append buffer.
use darkhttpd.Apbuf.{Apbuf, make_apbuf, appendl}
use darkhttpd.Apbuf.Contents.{IsValid, contents, make_apbuf-IsValid, appendl-contents}
use darkhttpd.Command.{quoted, parse_options, parse_commandline}
use darkhttpd.Command.Flags.{parse_options-all_args, parse_options-unknown}
use darkhttpd.Command.Spelling.{
  Flag, port, maxconn, trusted_ip, header, auth, forward, chroot, IsGood, all_args, all_applied,
  IsUnknown, option_names,
}
use darkhttpd.Command.Sane.{IsSane, parse_commandline-IsSane}
use darkhttpd.Common.{
  ℕ, zero, suc, ◌≡◌, refl, arith, true, false, none, some, List, [], ◌∷◌, ◌++◌, ◌||◌, Bytes, All,
  codes, text, length, ap,
}
use darkhttpd.Common.Int.{negsuc}
use darkhttpd.Cstring.{decimal, has_char, str_eq}
use darkhttpd.Main.{initial_settings}
use darkhttpd.Numbers.{str_to_num, decimal_int}
use darkhttpd.Numbers.RoundTrip.{str_to_num-decimal_int}
use darkhttpd.Options.{Settings, Host, ok, exited}
use darkhttpd.Options.Ends.{Holds}
use darkhttpd.Pidfile.{Disk, Calls, opened, busy, ended, pidfile_create}
use darkhttpd.Pidfile.Locked.{Leaves, pidfile_create-Leaves, pidfile_create-busy}
use darkhttpd.Security.{ProcessState, Directories, resolve_dir, change_root, secure}
use darkhttpd.Security.Dropped.{change_root-absolute, change_root-relative, secure-dropped}
use darkhttpd.Sockin.{SocketCalls}

str_to_num-decimal_int_example : str_to_num (decimal_int (negsuc 41)) ≡ some (negsuc 41)
str_to_num-decimal_int_example = str_to_num-decimal_int (negsuc 41) (omega arith)

-- Root starts the program on a system without names or files, which takes every address.
abbrev pub host : Host
host = record {
  is_root = true;
  user_of_name = λ name. none;
  user_of_id = λ id. none;
  group_of_name = λ name. none;
  group_of_id = λ id. none;
  is_address = λ address. true;
  read_file = λ name. none;
}

abbrev flags : List Flag
flags =
    port 8000
    ∷ maxconn (negsuc 0)
    ∷ trusted_ip (codes "10.0.0.1")
    ∷ header (codes "X-A") (codes "1")
    ∷ auth (codes "me") (codes "secret")
    ∷ forward (codes "a.org") (codes "http://b.org")
    ∷ chroot
    ∷ []

flags-IsGood : All (IsGood host) flags
unfolding has_char
flags-IsGood = (omega arith, (omega arith, (refl, ((refl, refl), (tt, (tt, (tt, tt)))))))

parse_options-all_args_example :
    parse_options (length (all_args flags)) host (all_args flags) initial_settings
    ≡ ok (all_applied flags initial_settings)
parse_options-all_args_example =
    parse_options-all_args flags (length (all_args flags)) host initial_settings flags-IsGood
      (omega arith)

no_option : IsUnknown (codes "--prot")
unfolding str_eq option_names
no_option = (
  refl,
  (
    refl,
    (
      refl,
      (
        refl,
        (
          refl,
          (
            refl,
            (
              refl,
              (
                refl,
                (
                  refl,
                  (
                    refl,
                    (
                      refl,
                      (
                        refl,
                        (
                          refl,
                          (
                            refl,
                            (
                              refl,
                              (
                                refl,
                                (
                                  refl,
                                  (
                                    refl,
                                    (
                                      refl,
                                      (
                                        refl,
                                        (
                                          refl,
                                          (
                                            refl,
                                            (refl, (refl, (refl, (refl, (refl, (refl, tt)))))),
                                          ),
                                        ),
                                      ),
                                    ),
                                  ),
                                ),
                              ),
                            ),
                          ),
                        ),
                      ),
                    ),
                  ),
                ),
              ),
            ),
          ),
        ),
      ),
    ),
  ),
)

parse_options-unknown_example :
    let args = all_args flags ++ codes "--prot" ∷ [] in
    parse_options (length args) host args initial_settings
    ≡ exited 1 (quoted (text "unknown argument") (codes "--prot"))
parse_options-unknown_example =
    parse_options-unknown flags (codes "--prot") [] host initial_settings flags-IsGood no_option

-- A port too large for 16 bits is cut.
abbrev cut_port : List Bytes
cut_port = codes "/srv" ∷ codes "--port" ∷ codes "70000" ∷ []

parse_commandline-IsSane_example : Holds IsSane (parse_commandline host cut_port initial_settings)
unfolding initial_settings
parse_commandline-IsSane_example =
    parse_commandline-IsSane host cut_port initial_settings (omega arith, omega arith, omega arith)

-- Every call on sockets succeeds, with the descriptor 3.
abbrev pub socket_calls : SocketCalls
socket_calls = record {
  parses6 = λ addr. true;
  inet_addr = λ addr. 2130706433;
  socket = λ inet6. some 3;
  setsockopt = λ fd o value. true;
  bind = λ fd address number. true;
  getsockname = λ fd. true;
  listen = λ fd backlog. true;
}

-- The directories of the system.
abbrev pub directories : Directories
directories path =
    str_eq path (codes "/") || str_eq path (codes "/srv/") || str_eq path (codes "/srv/www/")

abbrev pub root_process : ProcessState
root_process = record { uid = 0; gid = 0; groups = 0 ∷ []; cwd = codes "/srv/"; root = codes "/" }

abbrev absolute_file : Settings
absolute_file = record initial_settings {
  want_single_file = true;
  wwwroot = codes "/srv/www/page.html";
}

change_root-absolute_example :
    change_root directories absolute_file root_process
    ≡ ok (
      record absolute_file { wwwroot = codes "/page.html" },
      record root_process { cwd = codes "/srv/www/"; root = codes "/srv/www/" },
    )
unfolding has_char str_eq
change_root-absolute_example =
    change_root-absolute directories (codes "/srv/www") (codes "page.html") absolute_file
      root_process (record { single = refl; path = refl; plain = refl }) refl refl refl

abbrev relative_file : Settings
relative_file = record absolute_file { wwwroot = codes "www/page.html" }

change_root-relative_example :
    change_root directories relative_file root_process
    ≡ exited 1 (text "chroot(\"" ++ codes "www/" ++ text "\")")
unfolding has_char str_eq
change_root-relative_example =
    change_root-relative directories (codes "www") (codes "page.html") relative_file root_process
      (record { single = refl; path = refl; plain = refl }) refl refl refl

abbrev dropping : Settings
dropping = record initial_settings {
  want_chroot = true;
  want_single_file = false;
  wwwroot = codes "www";
  drop_uid = some 80;
  drop_gid = some 81;
}

secure-dropped_example :
    secure directories dropping root_process
    ≡ ok (
      record dropping { wwwroot = [] },
      record {
        uid = 80;
        gid = 81;
        groups = 81 ∷ [];
        cwd = codes "/srv/www/";
        root = codes "/srv/www/";
      },
    )
unfolding resolve_dir str_eq
secure-dropped_example =
    secure-dropped directories dropping root_process 81 80 (codes "/srv/www/") refl refl refl refl
      refl refl refl

abbrev pub no_disk : Disk
no_disk = record { content = none; pidfile_fd = none }

-- The disk is full: `pwrite` writes two bytes.
abbrev pub calls : Calls
calls = record {
  name = codes "/run/d.pid";
  opening = opened 4;
  truncated = true;
  written = λ b. some 2;
  unlinked = true;
  closed = true;
  readable = true;
}

pidfile_create-Leaves_example : Leaves 1234 4 (pidfile_create calls 1234 no_disk)
pidfile_create-Leaves_example = pidfile_create-Leaves 1234 4 calls no_disk (omega arith) refl refl

pidfile_create-busy_example :
    pidfile_create
      (record calls { opening = busy })
      1300
      (record no_disk { content = some (decimal 1234) })
    ≡ ended 1
        (text "daemon already running with PID " ++ decimal 1234)
        (record no_disk { content = some (decimal 1234) })
pidfile_create-busy_example =
    pidfile_create-busy 1300 1234 (record calls { opening = busy })
      (record no_disk { content = some (decimal 1234) }) (omega arith) refl refl refl refl

-- New memory is full of zeros.
zeros : ℕ → Bytes
zeros zero = []
zeros (suc n) = 0 ∷ zeros n

length-zeros : (n : ℕ) → length (zeros n) ≡ n
unfolding zeros
length-zeros zero = refl
length-zeros (suc n) = ap suc (length-zeros n)

appendl-contents_example :
    (buf' : Apbuf) × (appendl zeros (make_apbuf zeros) (codes "hi") ≡ some buf')
    × IsValid buf'
    × (contents buf' ≡ contents (make_apbuf zeros) ++ codes "hi")
appendl-contents_example =
    appendl-contents zeros length-zeros (make_apbuf zeros) (codes "hi")
      (make_apbuf-IsValid zeros length-zeros).0
