-- ===== src/Command/Sane.antt =====
-- An invariant of the settings while the command line is read.
use darkhttpd.Command.{
  Progress, with_root, asks_help, parse_options, parse_commandline, option, valued_option,
  with_value, quoted, add_header, forward_option, auth_option,
}
use darkhttpd.Command.Spelling.{IsInt}
use darkhttpd.Common.Int.{ℤ, pos, negsuc}
use darkhttpd.Numbers.{to_int, to_unsigned}
use darkhttpd.Options.Ends.{
  Ends, goes_on, leaves, Ends-if, Ends-bind, Ends-bind_of, Ends-require, Holds, Ends-Holds,
}
use darkhttpd.Common.{
  ℕ, zero, suc, ◌<◌, ◌^◌, ◌≡◌, refl, arith, true, false, not, ◌&&◌, length, ◌==◌, List, [], ◌∷◌,
  ◌++◌, Bytes, codes, text,
}
use Prim.Native.String.{String}
use darkhttpd.Cstring.{str_eq, has_char, contains}
use darkhttpd.Options.{Settings, Result, ok, Host}

-- A text of whole header lines: each holds a colon and a space, has no newline of its own, and ends
-- in CRLF.
pub data IsHeaders : Bytes → Type 0 where
  nil : IsHeaders []
  snoc :
      (hs line : Bytes)
      → IsHeaders hs
      → has_char b'\n' line ≡ false
      → contains (codes ": ") line ≡ true
      → IsHeaders (hs ++ line ++ codes "\r\n")

-- What the command line keeps true of the settings: whole header lines, a port of 16 bits, numbers of
-- an `int`.
pub record IsSane (s : Settings) : Type 0 where
  pub headers : IsHeaders s.custom_hdrs
  pub port : s.bindport < 2 ^ 16
  pub connections : IsInt s.max_connections
  pub seconds : IsInt s.timeout_secs

to_int-IsInt : (z : ℤ) → IsInt (to_int z)
unfolding to_int to_unsigned
to_int-IsInt (pos n) = ground arith
to_int-IsInt (negsuc n) = ground arith

to_unsigned-lt : (z : ℤ) → to_unsigned 16 z < 2 ^ 16
unfolding to_unsigned
to_unsigned-lt (pos n) = omega arith
to_unsigned-lt (negsuc n) = omega arith

-- Such settings behind an option, with the arguments that are left.
abbrev SaneProgress : Progress → Type 0
SaneProgress r = IsSane r.0

with_value-Ends :
    (rest : List Bytes) (message : Bytes) {f : Bytes → Result Settings}
    → ((v : Bytes) → Ends IsSane (f v))
    → Ends SaneProgress (with_value rest message f)
unfolding with_value
with_value-Ends [] message h = leaves
with_value-Ends (v ∷ rest) message h = Ends-bind_of (h v) (λ s p. goes_on p)

module _ {s : Settings} (v : IsSane s) where
  -- An option that assigns to none of the four.
  same :
      (s' : Settings)
      → s'.custom_hdrs ≡ s.custom_hdrs
      → s'.bindport ≡ s.bindport
      → s'.max_connections ≡ s.max_connections
      → s'.timeout_secs ≡ s.timeout_secs
      → IsSane s'
  same s' h p c t = record {
    headers = rw h v.headers;
    port = rw p v.port;
    connections = rw c v.connections;
    seconds = rw t v.seconds;
  }

  unchanged : {s' : Settings} {rest : List Bytes} → IsSane s' → Ends SaneProgress (ok (s', rest))
  unchanged p = goes_on p

  add_header-Ends : (line : Bytes) → Ends IsSane (add_header s line)
  unfolding add_header
  add_header-Ends line =
      Ends-require (not (has_char b'\n' line) && contains (codes ": ") line) _ λ h.
        goes_on (record {
          headers = snoc s.custom_hdrs line v.headers (ground arith) (ground arith);
          port = v.port;
          connections = v.connections;
          seconds = v.seconds;
        })

  forward_option-Ends : (rest : List Bytes) → Ends SaneProgress (forward_option rest s)
  unfolding forward_option
  forward_option-Ends [] = leaves
  forward_option-Ends (host ∷ []) = leaves
  forward_option-Ends (host ∷ url ∷ rest) = goes_on (same _ refl refl refl refl)

  auth_option-Ends : (rest : List Bytes) → Ends SaneProgress (auth_option rest s)
  unfolding auth_option
  auth_option-Ends [] = leaves
  auth_option-Ends (key ∷ rest) =
      Ends-require (has_char b':' key) _ λ h. goes_on (same _ refl refl refl refl)

  valued_option-Ends :
      (h : Host) (arg : Bytes) (rest : List Bytes) → Ends SaneProgress (valued_option h arg rest s)
  unfolding valued_option
  valued_option-Ends h arg rest =
      let is = λ (name : String). str_eq arg (codes name) in
      Ends-if (is "--port")
        (with_value-Ends rest _ λ a. Ends-bind _ λ n. goes_on (record {
          headers = v.headers;
          port = to_unsigned-lt n;
          connections = v.connections;
          seconds = v.seconds;
        }))
        (Ends-if (is "--addr") (with_value-Ends rest _ λ a. goes_on (same _ refl refl refl refl)) (
          Ends-if (is "--maxconn")
            (with_value-Ends rest _ λ a. Ends-bind _ λ n. goes_on (record {
              headers = v.headers;
              port = v.port;
              connections = to_int-IsInt n;
              seconds = v.seconds;
            }))
            (Ends-if (is "--log") (with_value-Ends rest _ λ a. goes_on (same _ refl refl refl refl))
              (Ends-if (is "--index")
                (with_value-Ends rest _ λ a. goes_on (same _ refl refl refl refl))
                (Ends-if (is "--mimetypes")
                  (with_value-Ends rest _
                    λ a. Ends-bind _ λ file. goes_on (same _ refl refl refl refl))
                  (Ends-if (is "--default-mimetype")
                    (with_value-Ends rest _ λ a. goes_on (same _ refl refl refl refl))
                    (Ends-if (is "--uid")
                      (with_value-Ends rest _
                        λ a. Ends-bind _ λ id. goes_on (same _ refl refl refl refl))
                      (Ends-if (is "--gid")
                        (with_value-Ends rest _
                          λ a. Ends-bind _ λ id. goes_on (same _ refl refl refl refl))
                        (Ends-if (is "--pidfile")
                          (with_value-Ends rest _ λ a. goes_on (same _ refl refl refl refl))
                          (Ends-if (is "--forward") (forward_option-Ends rest) (
                            Ends-if (is "--forward-all")
                              (with_value-Ends rest _ λ a. goes_on (same _ refl refl refl refl))
                              (Ends-if (is "--timeout")
                                (with_value-Ends rest _ λ a. Ends-bind _ λ n. goes_on (record {
                                  headers = v.headers;
                                  port = v.port;
                                  connections = v.connections;
                                  seconds = to_int-IsInt n;
                                }))
                                (Ends-if (is "--auth") (auth_option-Ends rest) (
                                  Ends-if (is "--trusted-ip")
                                    (with_value-Ends rest _ λ a.
                                      Ends-require (h.is_address a)
                                        (quoted
                                          (text "invalid ip address specified for --trusted-ip:") a)
                                        λ k. goes_on (same _ refl refl refl refl))
                                    (Ends-if (is "--header")
                                      (with_value-Ends rest _ add_header-Ends) leaves)))))))))))))))

  option-Ends :
      (h : Host) (arg : Bytes) (rest : List Bytes) → Ends SaneProgress (option h arg rest s)
  unfolding option
  option-Ends h arg rest =
      let is = λ (name : String). str_eq arg (codes name) in
      (Ends-if (is "--chroot") (goes_on (same _ refl refl refl refl)) (
        Ends-if (is "--daemon") (goes_on (same _ refl refl refl refl)) (
          Ends-if (is "--no-listing") (goes_on (same _ refl refl refl refl)) (
            Ends-if (is "--human-readable") (goes_on (same _ refl refl refl refl)) (
              Ends-if (is "--no-keepalive") (goes_on (same _ refl refl refl refl)) (
                Ends-if (is "--accf") (goes_on (same _ refl refl refl refl)) (
                  Ends-if (is "--syslog") (goes_on (same _ refl refl refl refl)) (
                    Ends-if (is "--single-file") (goes_on (same _ refl refl refl refl)) (
                      Ends-if (is "--hide-dotfiles") (goes_on (same _ refl refl refl refl)) (
                        Ends-if (is "--no-server-id") (goes_on (same _ refl refl refl refl)) (
                          Ends-if (is "--forward-https") (goes_on (same _ refl refl refl refl)) (
                            Ends-if (is "--ipv6") (goes_on (same _ refl refl refl refl))
                              (valued_option-Ends h arg rest)))))))))))))

parse_options-Ends :
    (fuel : ℕ) (h : Host) (args : List Bytes) (s : Settings)
    → IsSane s
    → Ends IsSane (parse_options fuel h args s)
unfolding parse_options
parse_options-Ends zero h [] s v = goes_on v
parse_options-Ends (suc fuel) h [] s v = goes_on v
parse_options-Ends zero h (arg ∷ rest) s v = goes_on v
parse_options-Ends (suc fuel) h (arg ∷ rest) s v =
    Ends-bind_of (option-Ends v h arg rest) λ r p. parse_options-Ends fuel h r.1 r.0 p

-- The port and the two numbers are those that the program starts with.
abbrev pub IsInitial : Settings → Type 0
IsInitial s = (s.bindport < 2 ^ 16) × IsInt s.max_connections × IsInt s.timeout_secs

with_root-Ends :
    (h : Host) (args : List Bytes) (s : Settings) → IsInitial s → Ends IsSane (with_root h args s)
unfolding with_root
with_root-Ends h [] s i = leaves
with_root-Ends h (root ∷ args) s i = Ends-require (not (length root == 0)) _ λ k.
    parse_options-Ends (length args) h args _
      (record { headers = nil; port = ground (arith, i.0); connections = i.1; seconds = i.2 })

-- Whatever the arguments are, the settings that `parse_commandline` ends with, if it does not exit,
-- have custom headers that are whole header lines, a port of 16 bits and numbers of an `int`, if the
-- port and the numbers were so at the start.
pub parse_commandline-IsSane :
    (h : Host) (args : List Bytes) (s : Settings)
    → IsInitial s
    → Holds IsSane (parse_commandline h args s)
unfolding parse_commandline
parse_commandline-IsSane h args s i =
    Ends-Holds (Ends-if (asks_help args) leaves (with_root-Ends h args s i))
