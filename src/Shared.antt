-- ===== src/Shared.antt =====
-- src/shared.rs: the constants of the composition and the address of the bulk lane. Durations and
-- instants are milliseconds.
pub mod BulkAddr
use rtp_mux.Prelude.{
  ℕ, ◌+◌, ◌^◌, ◌≡◌, ◌≢◌, ◌↔◌, refl, Bool, true, false, ◌&&◌, arith, Keyed, eqb, eqb_iff, ltb,
  if◌then◌else◌, Result, ok, err,
}

-- `std::net::SocketAddr`; an IP address is a number.
pub record SocketAddr : Type 0 where
  pub ip : ℕ
  pub port : ℕ

abbrev pub beq_addr : SocketAddr → SocketAddr → Bool
beq_addr a b = eqb a.ip b.ip && eqb a.port b.port

pub beq_addr_iff : (a b : SocketAddr) → (beq_addr a b ≡ true) ↔ (a ≡ b)
beq_addr_iff a b = ground (arith, eqb_iff a.ip b.ip, eqb_iff a.port b.port)

instance abbrev pub addr_eq : Keyed SocketAddr
addr_eq = record { same = beq_addr; decides = beq_addr_iff }

-- `mux::LaneClass`: the two lanes of a session.
pub data LaneClass : Type 0 where
  interactive bulk : LaneClass

abbrev pub beq_class : LaneClass → LaneClass → Bool
beq_class interactive interactive = true
beq_class interactive bulk = false
beq_class bulk interactive = false
beq_class bulk bulk = true

pub beq_class_refl : (a : LaneClass) → beq_class a a ≡ true
beq_class_refl interactive = refl
beq_class_refl bulk = refl

pub beq_class_iff : (a b : LaneClass) → (beq_class a b ≡ true) ↔ (a ≡ b)
beq_class_iff a b = ground arith

pub beq_class_ne : (a b : LaneClass) → beq_class a b ≡ false → a ≢ b
beq_class_ne interactive interactive h = cc
beq_class_ne interactive bulk h = λ e. cc
beq_class_ne bulk interactive h = λ e. cc
beq_class_ne bulk bulk h = cc

pub ne-beq_class : (a b : LaneClass) → a ≢ b → beq_class a b ≡ false
ne-beq_class a b h = ground arith

abbrev pub pairing_deadline : ℕ
pairing_deadline = 10000

abbrev pub max_pending_lanes : ℕ
max_pending_lanes = 1024

abbrev pub max_pending_lanes_per_peer : ℕ
max_pending_lanes_per_peer = 32

abbrev pub max_dual_connect_attempts : ℕ
max_dual_connect_attempts = 3

abbrev pub max_concurrent_dual_dials : ℕ
max_concurrent_dual_dials = 32

abbrev pub max_dial_waiters_per_addr : ℕ
max_dial_waiters_per_addr = 256

-- `io::ErrorKind`: the kinds that the code names, and all others.
pub data ErrorKind : Type 0 where
  invalid_input invalid_data permission_denied addr_not_available : ErrorKind
  not_connected unsupported addr_in_use broken_pipe timed_out : ErrorKind
  connection_aborted would_block : ErrorKind
  other : ℕ → ErrorKind

-- `u16::checked_add(1)` on the port, and the address with the new port.
unfoldable pub bulk_lane_addr : SocketAddr → Result ErrorKind SocketAddr
bulk_lane_addr a =
    if ltb (a.port + 1) (2 ^ 16)
    then ok (record a { port = a.port + 1 })
    else err ErrorKind.invalid_input
