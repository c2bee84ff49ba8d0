-- ===== src/Targets/Tests.antt =====
-- The policy at concrete addresses.
use memoratum.Base.{
  ℕ, String, Bool, true, false, ◌≡◌, refl, Option, none, some, List, [], ◌∷◌, ◌==◌, if◌then◌else◌,
}
use memoratum.Targets.{
  Address, v4, v6, Net, Families, Url, no_port, Target, SocketEntry, Resolved, plain,
  is_blocked_address, blocked_networks, unwrap_once, resolve_webhook_target, connect_pinned,
}
use memoratum.Targets.Policy.{IsPublic, delivery-IsPublic}

-- 127.0.0.1, and 64:ff9b::7f00:1, which carries it
abbrev loopback : ℕ
loopback = 2130706433

abbrev carries_loopback : ℕ
carries_loopback = 524413980667603649783483183442952193

-- 93.184.216.34
abbrev example : Address
example = v4 1572395042

abbrev parse : String → Option Address
parse s = if s == "93.184.216.34" then some example else none

abbrev is_not_loopback : Address → Bool
is_not_loopback (v4 n) = true
is_not_loopback (v6 n) = false

abbrev no_multicast : Address → Bool
no_multicast a = false

abbrev parts : Url
parts = record {
  scheme = "https";
  netloc = "example.com";
  path = "/hook";
  query = "";
  fragment = none;
  username = none;
  password = none;
  hostname = some "example.com";
  port = no_port;
}

abbrev split_all : String → Option Url
split_all s = some parts

abbrev join_all : Url → String
join_all u = "https://example.com/hook"

abbrev same : String → String
same s = s

abbrev no_int : String → Option ℕ
no_int s = none

abbrev net : Net
net = record {
  ip_address = parse;
  is_global = is_not_loopback;
  is_multicast = no_multicast;
  urlsplit = split_all;
  urlunsplit = join_all;
  lower = same;
  int = no_int;
}

abbrev names : Families
names = record { inet = 2; inet6 = 10; tcp = 6 }

abbrev resolver : String → ℕ → Option (List Resolved)
resolver h p = some (plain "93.184.216.34" ∷ [])

abbrev entry : SocketEntry
entry = record {
  family = 2;
  protocol = 6;
  address = record { host = "93.184.216.34"; port = 443; extra = [] };
}

abbrev dial : SocketEntry → Bool
dial e = true

abbrev target : Target
target = record { url = "https://example.com/hook"; hostname = "example.com"; port = 443 }

-- 100.100.100.200, the address of a cloud's metadata service, is in the range of CGNAT.
metadata_service : is_blocked_address (v4 1684301000) blocked_networks ≡ true
unfolding is_blocked_address
metadata_service = refl

carries : unwrap_once (v6 carries_loopback) ≡ some (v4 loopback)
unfolding unwrap_once
carries = refl

resolved :
    resolve_webhook_target net names false resolver "https://example.com/hook"
    ≡ some (target, entry ∷ [])
unfolding resolve_webhook_target
resolved = refl

delivery-IsPublic_example : IsPublic net names entry
delivery-IsPublic_example =
    delivery-IsPublic net names resolver dial "https://example.com/hook" target (entry ∷ []) entry
      resolved (unfold connect_pinned in refl)
