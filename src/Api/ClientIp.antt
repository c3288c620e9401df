-- ===== src/Api/ClientIp.antt =====
-- api/ratelimit.py: the address that limits and lockouts are keyed by. `parse` is
-- `ipaddress.ip_address`.
pub mod Spoof
use getarp.Base.{
  String, ◌==◌, Bool, ◌&&◌, eqb, true, false, Option, none, some, List, any, before_char, strip,
  if◌then◌else◌,
}
use getarp.Ingest.Source.{Address, Network, in_network}

-- `addr in net`: networks of the other version hold no address
abbrev contains : Address → Network → Bool
contains addr net = eqb addr.version net.version && in_network addr.number net

-- `_peer_is_trusted`
unfoldable pub peer_is_trusted : (String → Option Address) → List Network → String → Bool
peer_is_trusted parse proxies peer = elim (parse peer) [
  | none ↦ false
  | some addr ↦ any (contains addr) proxies
]

-- `xff.split(",")[0].strip()`
unfoldable pub leftmost : String → String
leftmost xff = strip (before_char 44 xff)

-- the header of a trusted proxy; `""` where there is none
unfoldable pub forwarded : (String → Option Address) → String → String → String
forwarded parse peer xff =
    if xff == ""
    then peer
    else elim (parse (leftmost xff)) [ none ↦ peer | some addr ↦ leftmost xff ]

-- `client_ip`
unfoldable pub client_ip : (String → Option Address) → List Network → String → String → String
client_ip parse proxies peer xff =
    if peer_is_trusted parse proxies peer then forwarded parse peer xff else peer
