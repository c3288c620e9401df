-- ===== src/Ingest/Source/Ranges.antt =====
-- The private ranges, written as intervals.
use getarp.Base.{ℕ, ◌≤◌, ◌≡◌, ◌⊎◌, ◌↔◌, true, arith}
use getarp.Ingest.Source.{ipv4, is_private_src}

abbrev pub Within : ℕ → ℕ → ℕ → Type 0
Within lo hi a = (lo ≤ a) × (a ≤ hi)

-- An IPv4 source is private exactly in 10.0.0.0 to 10.255.255.255, 172.16.0.0 to 172.31.255.255,
-- 192.168.0.0 to 192.168.255.255, 127.0.0.0 to 127.255.255.255 and 169.254.0.0 to 169.254.255.255.
pub is_private_src-ipv4 :
    (a : ℕ)
    → (is_private_src (record { version = 4; number = a }) ≡ true) ↔ (
        Within (ipv4 10 0 0 0) (ipv4 10 255 255 255) a
        ⊎ Within (ipv4 172 16 0 0) (ipv4 172 31 255 255) a
        ⊎ Within (ipv4 192 168 0 0) (ipv4 192 168 255 255) a
        ⊎ Within (ipv4 127 0 0 0) (ipv4 127 255 255 255) a
        ⊎ Within (ipv4 169 254 0 0) (ipv4 169 254 255 255) a)
unfolding is_private_src
is_private_src-ipv4 a = (ground arith, ground arith)
