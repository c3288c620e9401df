-- ===== src/Api/ClientIp/Spoof.antt =====
-- Who decides on the key of a request.
use getarp.Base.{
  String, ◌==◌, true, Option, List, is_some, ◌≡◌, ◌⊎◌, inl, inr, refl, Bool-cases, Option-cases,
}
use getarp.Ingest.Source.{Address, Network}
use getarp.Api.ClientIp.{peer_is_trusted, leftmost, forwarded, client_ip}

-- The key is the socket's peer, whatever the header says, unless the peer is a trusted proxy and the
-- leftmost entry of its header is an address; then it is that entry.
pub client_ip_lem :
    (parse : String → Option Address) (proxies : List Network) (peer xff : String)
    → (client_ip parse proxies peer xff ≡ peer)
      ⊎ ((peer_is_trusted parse proxies peer ≡ true)
          × (is_some (parse (leftmost xff)) ≡ true)
          × (client_ip parse proxies peer xff ≡ leftmost xff))
unfolding client_ip forwarded
client_ip_lem parse proxies peer xff = elim (Bool-cases (peer_is_trusted parse proxies peer)) [
  | inr out ↦ rw out (inl refl)
  | inl trusted ↦ elim (Bool-cases (xff == "")) [
    | inl e ↦ rw (trusted, e) (inl refl)
    | inr e ↦ elim (Option-cases (parse (leftmost xff))) [
      | inl p ↦ rw (trusted, e, p) (inl refl)
      | inr (a, p) ↦ rw (trusted, e, p) (inr (refl, refl, refl))
    ]
  ]
]
