-- ===== src/Sockin.antt =====
-- `init_sockin` of darkhttpd.c: the socket that connections are accepted from. The calls of the
-- socket library are a record, and what is printed is left out, as is the accept filter of FreeBSD.
pub mod Listening
use darkhttpd.Common.{
  ℕ, ◌-◌, ◌^◌, Bool, true, false, not, ◌||◌, Option, none, some, ◌++◌, ◌==◌, if◌then◌else◌, Bytes,
  codes, text,
}
use darkhttpd.Common.Int.{ℤ}
use darkhttpd.Cstring.{decimal}
use darkhttpd.Options.{Settings, Result, ok, ◌>>=◌, ◌>>◌, require, given}

-- The options that are set: SO_REUSEADDR, TCP_NODELAY, IPV6_V6ONLY.
pub data SocketOption : Type 0 where
  reuseaddr nodelay v6only : SocketOption

-- An address of either family: a text that `inet_pton` takes, or a number.
pub data Address : Type 0 where
  address6 : Bytes → Address
  address4 : ℕ → Address

-- What the calls return: `parses6` and the functions that give a Bool, whether they succeed;
-- `socket` the descriptor for the family, IPv6 or not.
pub record SocketCalls : Type 0 where
  pub parses6 : Bytes → Bool
  pub inet_addr : Bytes → ℕ
  pub socket : Bool → Option ℕ
  pub setsockopt : ℕ → SocketOption → ℕ → Bool
  pub bind : ℕ → Address → ℕ → Bool
  pub getsockname : ℕ → Bool
  pub listen : ℕ → ℤ → Bool

abbrev or_default : Option Bytes → Bytes → Bytes
or_default none default = default
or_default (some addr) default = addr

-- `bindaddr ? inet_addr(bindaddr) : INADDR_ANY`
abbrev number_of : SocketCalls → Option Bytes → ℕ
number_of n none = 0
number_of n (some addr) = n.inet_addr addr

abbrev inaddr_none : ℕ
inaddr_none = 2 ^ 32 - 1

unfoldable pub address_of : SocketCalls → Settings → Address
address_of n s =
    if s.inet6
    then address6 (or_default s.bindaddr (codes "::"))
    else address4 (number_of n s.bindaddr)

is_well_formed : SocketCalls → Settings → Bool
is_well_formed n s =
    if s.inet6
    then n.parses6 (or_default s.bindaddr (codes "::"))
    else not (number_of n s.bindaddr == inaddr_none)

unfoldable pub init_sockin : SocketCalls → Settings → Result ℕ
unfolding is_well_formed address_of
init_sockin n s = do
  require (is_well_formed n s) (text "malformed --addr argument")
  sockin ← given (n.socket s.inet6) (text "socket()")
  require (n.setsockopt sockin reuseaddr 1) (text "setsockopt(SO_REUSEADDR)")
  require (n.setsockopt sockin nodelay 1) (text "setsockopt(TCP_NODELAY)")
  require (not s.inet6 || n.setsockopt sockin v6only 0) (text "setsockopt (IPV6_V6ONLY)")
  require (n.bind sockin (address_of n s) s.bindport)
      (text "bind(port " ++ decimal s.bindport ++ text ")")
  require (n.getsockname sockin) (text "getsockname()")
  require (n.listen sockin s.max_connections) (text "listen()")
  ok sockin
