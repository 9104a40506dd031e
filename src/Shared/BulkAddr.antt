-- ===== src/Shared/BulkAddr.antt =====
-- The bulk lane's address, as the connector and the listener derive it.
use rtp_mux.Prelude.{◌+◌, ◌^◌, ◌<◌, ◌≡◌, ◌⊎◌, inl, inr, arith, ltb, Bool-cases, ok, err}
use rtp_mux.Shared.{SocketAddr, ErrorKind, bulk_lane_addr}

-- For a 16-bit port the derivation fails on port 65535 only, with InvalidInput; otherwise it keeps
-- the IP address and gives the successor port, which is again a 16-bit port.
pub bulk_lane_addr-cases :
    (a : SocketAddr)
    → a.port < 2 ^ 16
    → ((a.port ≡ 65535) × (bulk_lane_addr a ≡ err ErrorKind.invalid_input))
      ⊎ ((b : SocketAddr) × (bulk_lane_addr a ≡ ok b)
          × (b.ip ≡ a.ip)
          × (b.port ≡ a.port + 1)
          × (b.port < 2 ^ 16))
unfolding bulk_lane_addr
bulk_lane_addr-cases a h = elim (Bool-cases (ltb (a.port + 1) (2 ^ 16))) [
  | inl fits ↦
      inr (record a { port = a.port + 1 }, ground arith, ground arith, ground arith, ground arith)
  | inr full ↦ inl (ground arith)
]

-- Two interactive addresses with the same bulk address are the same address.
pub bulk_lane_addr-injective :
    (a b c : SocketAddr) → bulk_lane_addr a ≡ ok c → bulk_lane_addr b ≡ ok c → a ≡ b
unfolding bulk_lane_addr
bulk_lane_addr-injective a b c p q = ground arith
