-- ===== src/Targets.antt =====
-- webhooks.py: which addresses a webhook may be delivered to. An IP address is its version and its
-- number; What `urllib.parse` and `ipaddress` answer are the fields of `Net`.
pub mod Policy
mod Tests
use Prim.Native.Char.{code}
use Prim.Native.String
use memoratum.Base.{
  ℕ, zero, suc, ◌+◌, ◌*◌, ◌/◌, ◌%◌, ◌^◌, ◌-◌, String, Bool, true, false, ◌&&◌, ◌||◌, not, Option,
  none, some, List, [], ◌∷◌, ◌==◌, eqb, ltb, if◌then◌else◌, is_some, is_truthy, strip, len,
  is_blank, strip_prefix,
}

pub data Address : Type 0 where
  v4 v6 : ℕ → Address

-- The address of a network and the number of its bits that count.
pub record Network : Type 0 where
  pub base : Address
  pub bits : ℕ

abbrev octets : ℕ → ℕ → ℕ → ℕ → Address
octets a b c d = v4 (((a * 256 + b) * 256 + c) * 256 + d)

-- The first groups of sixteen bits, and zeroes behind them.
abbrev groups : ℕ → ℕ → ℕ → Address
groups a b c = v6 (((a * 65536 + b) * 65536 + c) * 2 ^ 80)

-- address in network
unfoldable pub is_inside : Address → Network → Bool
is_inside (v4 n) k = elim k.base [
  | v4 b ↦ eqb (n / 2 ^ (32 - k.bits)) (b / 2 ^ (32 - k.bits))
  | v6 b ↦ false
]
is_inside (v6 n) k = elim k.base [
  | v6 b ↦ eqb (n / 2 ^ (128 - k.bits)) (b / 2 ^ (128 - k.bits))
  | v4 b ↦ false
]

abbrev network : Address → ℕ → Network
network a n = record { base = a; bits = n }

abbrev pub nat64 : Network
nat64 = network (groups 100 65435 0) 96

abbrev pub six_to_four : Network
six_to_four = network (groups 8194 0 0) 16

-- _BLOCKED_NETWORKS
abbrev pub blocked_networks : List Network
blocked_networks =
    network (octets 100 64 0 0) 10
    ∷ network (octets 192 0 0 0) 24
    ∷ network (octets 192 0 2 0) 24
    ∷ network (octets 192 88 99 0) 24
    ∷ network (octets 198 18 0 0) 15
    ∷ network (octets 198 51 100 0) 24
    ∷ network (octets 203 0 113 0) 24
    ∷ network (groups 8193 0 0) 23
    ∷ network (groups 8193 32 0) 28
    ∷ network (groups 8194 0 0) 16
    ∷ network (groups 9760 79 32768) 48
    ∷ network (groups 16383 0 0) 20
    ∷ network (groups 24320 0 0) 16
    ∷ network (groups 100 65435 0) 96
    ∷ []

-- address.ipv4_mapped: ::ffff:0:0/96
abbrev pub is_mapped : ℕ → Bool
is_mapped n = eqb (n / 2 ^ 32) 65535

-- One turn of the loop; `none` is its break.
unfoldable pub unwrap_once : Address → Option Address
unfolding is_inside
unwrap_once (v4 n) = none
unwrap_once (v6 n) =
    if is_mapped n
    then some (v4 (n % 2 ^ 32))
    else if is_inside (v6 n) nat64
    then some (v4 (n % 2 ^ 32))
    else if is_inside (v6 n) six_to_four
    then some (v4 ((n / 2 ^ 80) % 2 ^ 32))
    else none

abbrev pub turns : ℕ
turns = 4

abbrev pub onward : Address → (Address → Address) → Option Address → Address
onward a more none = a
onward a more (some b) = more b

unfoldable pub unwrap_turns : ℕ → Address → Address
unfolding unwrap_once
unwrap_turns zero a = a
unwrap_turns (suc n) a = onward a (unwrap_turns n) (unwrap_once a)

unfoldable pub unwrap_v4_in_v6 : Address → Address
unfolding unwrap_turns
unwrap_v4_in_v6 a = unwrap_turns turns a

unfoldable pub is_blocked_address : Address → List Network → Bool
unfolding is_inside
is_blocked_address a [] = false
is_blocked_address a (k ∷ ks) = is_inside a k || is_blocked_address a ks

-- A URL as `urlsplit` takes it apart; the port is a number, none, or none that is one.
pub data Port : Type 0 where
  no_port bad_port : Port
  port : ℕ → Port

pub record Url : Type 0 where
  pub scheme : String
  pub netloc : String
  pub path : String
  pub query : String
  pub fragment : Option String
  pub username : Option String
  pub password : Option String
  pub hostname : Option String
  pub port : Port

-- The libraries: `none` is the ValueError of `ip_address`, of `urlsplit` and of `int`.
pub record Net : Type 0 where
  pub ip_address : String → Option Address
  pub is_global : Address → Bool
  pub is_multicast : Address → Bool
  pub urlsplit : String → Option Url
  pub urlunsplit : Url → String
  pub lower : String → String
  pub int : String → Option ℕ

-- An element of a resolver's answer: a text, a pair of an address and a port, or the five values
-- of getaddrinfo, of which `is_stream` is whether the type is the constant SOCK_STREAM.
pub data PortValue : Type 0 where
  number : ℕ → PortValue
  text : String → PortValue

pub record SockAddress : Type 0 where
  pub host : String
  pub port : ℕ
  pub extra : List ℕ

pub data Resolved : Type 0 where
  plain : String → Resolved
  pair : String → PortValue → Resolved
  full : ℕ → Bool → ℕ → SockAddress → Resolved
  unusable : Resolved

-- Family and protocol are the numbers of the socket module.
pub record SocketEntry : Type 0 where
  pub family : ℕ
  pub protocol : ℕ
  pub address : SockAddress

pub record Families : Type 0 where
  pub inet : ℕ
  pub inet6 : ℕ
  pub tcp : ℕ

module _ (net : Net) (names : Families) where
  abbrev pub is_public_address : Address → Bool
  is_public_address a =
      net.is_global a && not (net.is_multicast a) && not (is_blocked_address a blocked_networks)

  unfoldable pub is_public_ip : String → Bool
  unfolding unwrap_v4_in_v6 is_blocked_address
  is_public_ip value = elim (net.ip_address value) [
    | none ↦ false
    | some a ↦ is_public_address (unwrap_v4_in_v6 a)
  ]

  abbrev pub with_port : String → Option Address → Option ℕ → Option SocketEntry
  with_port host none p = none
  with_port host (some a) none = none
  with_port host (some (v4 n)) (some p) = some (record {
    family = names.inet;
    protocol = names.tcp;
    address = record { host = host; port = p; extra = [] };
  })
  with_port host (some (v6 n)) (some p) = some (record {
    family = names.inet6;
    protocol = names.tcp;
    address = record { host = host; port = p; extra = 0 ∷ 0 ∷ [] };
  })

  unfoldable pub normalize_entry : Resolved → ℕ → Option SocketEntry
  normalize_entry (plain host) p = with_port host (net.ip_address host) (some p)
  normalize_entry (pair host (number p)) q = with_port host (net.ip_address host) (some p)
  normalize_entry (pair host (text t)) q = with_port host (net.ip_address host) (net.int t)
  normalize_entry (full family is_stream protocol address) q =
      if is_stream
      then some (record { family = family; protocol = protocol; address = address })
      else none
  normalize_entry unusable q = none

  -- The loop over the answer; `none` is UnsafeWebhookTarget.
  abbrev pub add_entry :
      Bool → Option SocketEntry → Option (List SocketEntry) → Option (List SocketEntry)
  add_entry allow_private none rest = rest
  add_entry allow_private (some e) rest =
      if not allow_private && not (is_public_ip e.address.host)
      then none
      else elim rest [ none ↦ none | some es ↦ some (e ∷ es) ]

  unfoldable pub check_entries : Bool → ℕ → List Resolved → Option (List SocketEntry)
  unfolding normalize_entry is_public_ip
  check_entries allow_private p [] = some []
  check_entries allow_private p (r ∷ rs) =
      add_entry allow_private (normalize_entry r p) (check_entries allow_private p rs)

  abbrev pub some_entry : Option (List SocketEntry) → Option (List SocketEntry)
  some_entry none = none
  some_entry (some []) = none
  some_entry (some (e ∷ es)) = some (e ∷ es)

  -- The resolver's answer is `none` on an OSError.
  abbrev pub check_answer : Bool → ℕ → Option (List Resolved) → Option (List SocketEntry)
  check_answer allow_private p none = none
  check_answer allow_private p (some rs) = some_entry (check_entries allow_private p rs)

  unfoldable pub validated_entries :
      Bool → (String → ℕ → Option (List Resolved)) → String → ℕ → Option (List SocketEntry)
  unfolding check_entries
  validated_entries allow_private resolver hostname p =
      check_answer allow_private p (resolver hostname p)

-- _RESERVED_HOSTS
abbrev pub is_reserved : String → Bool
is_reserved h =
    h == "localhost"
    || h == "localhost.localdomain"
    || h == "metadata.google.internal"
    || h == "metadata"
    || h == "instance-data"

-- s[:-1] if s.endswith("]")
unfoldable pub without_bracket : String → Option String
without_bracket String.[] = none
without_bracket (String.◌∷◌ c String.[]) = if eqb (code c) 93 then some "" else none
without_bracket (String.◌∷◌ c (String.◌∷◌ d s)) = elim (without_bracket (String.◌∷◌ d s)) [
  | none ↦ none
  | some t ↦ some (String.◌∷◌ c t)
]

abbrev pub or_self : String → Option String → String
or_self s none = s
or_self s (some t) = t

-- hostname[1:-1] if hostname.startswith("[") and hostname.endswith("]") else hostname
unfoldable pub literal_of : String → String
unfolding without_bracket strip_prefix
literal_of h = elim (strip_prefix "[" h) [ none ↦ h | some t ↦ or_self h (without_bracket t) ]

abbrev pub port_of : Url → Option ℕ
port_of u =
    let default = if u.scheme == "https" then 443 else 80 in
    elim u.port [
      | bad_port ↦ none
      | no_port ↦ some default
      | port p ↦ some (if eqb p 0 then default else p)
    ]

-- What a target comes to: its URL, the name of its host and its port.
pub record Target : Type 0 where
  pub url : String
  pub hostname : String
  pub port : ℕ

module _ (net : Net) (names : Families) (allow_private : Bool) where
  -- What the checks of a URL refuse, but for its host and its port.
  abbrev pub is_refused_url : Url → Bool
  is_refused_url u =
      not (u.scheme == "https" || u.scheme == "http")
      || (u.scheme == "http" && not allow_private)
      || is_truthy u.username
      || is_truthy u.password
      || is_truthy u.fragment

  abbrev pub is_refused_host : String → Bool
  is_refused_host h =
      (is_reserved (net.lower h) && not allow_private)
      || (is_some (net.ip_address (literal_of h))
          && not allow_private
          && not (is_public_ip net names (literal_of h)))

  abbrev pub target_of : Url → String → Option ℕ → Option Target
  target_of u h none = none
  target_of u h (some p) = some (record {
    url =
        net.urlunsplit
          (record u { path = (if u.path == "" then "/" else u.path); fragment = none });
    hostname = h;
    port = p;
  })

  abbrev pub check_host : Url → Option String → Option Target
  check_host u none = none
  check_host u (some h) = if h == "" || is_refused_host h then none else target_of u h (port_of u)

  abbrev pub check_url : Option Url → Option Target
  check_url none = none
  check_url (some u) = if is_refused_url u then none else check_host u u.hostname

  -- `none` is UnsafeWebhookTarget, or the ValueError of `urlsplit`.
  unfoldable pub normalize_webhook_url : String → Option Target
  unfolding literal_of is_public_ip is_blank strip len
  normalize_webhook_url url =
      if is_blank url || ltb 2048 (len (strip url))
      then none
      else check_url (net.urlsplit (strip url))

  abbrev pub carrying : Target → Option (List SocketEntry) → Option (Target × List SocketEntry)
  carrying t none = none
  carrying t (some es) = some (t, es)

  abbrev pub resolve_target :
      (String → ℕ → Option (List Resolved)) → Option Target → Option (Target × List SocketEntry)
  resolve_target resolver none = none
  resolve_target resolver (some t) =
      carrying t (validated_entries net names allow_private resolver t.hostname t.port)

  unfoldable pub resolve_webhook_target :
      (String → ℕ → Option (List Resolved)) → String → Option (Target × List SocketEntry)
  unfolding normalize_webhook_url validated_entries
  resolve_webhook_target resolver url = resolve_target resolver (normalize_webhook_url url)

-- The loop over the validated entries: `dial` connects to an address or fails; what it connects to
-- comes first, and `none` is that every entry has failed.
unfoldable pub connect_pinned : (SocketEntry → Bool) → List SocketEntry → Option SocketEntry
connect_pinned dial [] = none
connect_pinned dial (e ∷ es) = if dial e then some e else connect_pinned dial es
