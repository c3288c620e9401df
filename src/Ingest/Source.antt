-- ===== src/Ingest/Source.antt =====
-- The source filter of pipeline/ingestor.py: PRIVATE_SRC_NETS and `_is_private_src`.
pub mod Ranges
use getarp.Base.{ℕ, ◌+◌, ◌*◌, ◌/◌, ◌^◌, Bool, ◌&&◌, eqb, List, [], ◌∷◌, any}

-- what `ipaddress.ip_address` returns: the version, and the address as a number
pub record Address : Type 0 where
  pub version : ℕ
  pub number : ℕ

-- `ipaddress.ip_network`, with the number of bits that its prefix leaves open
pub record Network : Type 0 where
  pub version : ℕ
  pub number : ℕ
  pub host_bits : ℕ

-- `address in network`, for one version
abbrev pub in_network : ℕ → Network → Bool
in_network a net = eqb (a / 2 ^ net.host_bits) (net.number / 2 ^ net.host_bits)

-- dotted decimal
abbrev pub ipv4 : ℕ → ℕ → ℕ → ℕ → ℕ
ipv4 a b c d = ((a * 256 + b) * 256 + c) * 256 + d

-- 10.0.0.0/8, 172.16.0.0/12, 192.168.0.0/16, 127.0.0.0/8, 169.254.0.0/16, ::1/128, fe80::/10 and
-- fc00::/7
abbrev private_src_nets : List Network
private_src_nets =
    record { version = 4; number = ipv4 10 0 0 0; host_bits = 24 }
    ∷ record { version = 4; number = ipv4 172 16 0 0; host_bits = 20 }
    ∷ record { version = 4; number = ipv4 192 168 0 0; host_bits = 16 }
    ∷ record { version = 4; number = ipv4 127 0 0 0; host_bits = 24 }
    ∷ record { version = 4; number = ipv4 169 254 0 0; host_bits = 16 }
    ∷ record { version = 6; number = 1; host_bits = 0 }
    ∷ record { version = 6; number = 0xfe80 * 2 ^ 112; host_bits = 118 }
    ∷ record { version = 6; number = 0xfc00 * 2 ^ 112; host_bits = 121 }
    ∷ []

-- `_is_private_src`
unfoldable pub is_private_src : Address → Bool
is_private_src a =
    any (λ net. eqb net.version a.version && in_network a.number net) private_src_nets
