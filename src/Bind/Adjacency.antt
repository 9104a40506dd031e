-- ===== src/Bind/Adjacency.antt =====
-- What bind_adjacent_pair of src/server.rs promises to its caller.
use rtp_mux.Prelude.{
  ℕ, zero, suc, ◌≡◌, ◌≢◌, Bool, true, false, Option, none, some, if◌then◌else◌, ok, err, returns,
  panics, arith, Result-cases, refl, inl, inr, ◌⊎◌,
}
use rtp_mux.Shared.{SocketAddr, ErrorKind, bulk_lane_addr}
use rtp_mux.Bind.{Sockets, try_pairs, bind_adjacent_pair, ephemeral_pair_attempts, attempt}

-- Some attempt bound the interactive listener where the caller asked, or after a collision on a port
-- of the system's choice, and then the bulk listener at that listener's bulk address.
pub Acquired : Sockets → Sockets → SocketAddr → Bool → SocketAddr × SocketAddr → Type 0
Acquired first second requested ephemeral pair =
    (n : ℕ) × (candidate : SocketAddr) × (bulk : SocketAddr) × ((candidate ≡ requested)
      ⊎ ((ephemeral ≡ true) × (candidate ≡ record requested { port = 0 })))
    × (first n candidate ≡ ok pair.0)
    × (bulk_lane_addr pair.0 ≡ ok bulk)
    × (second n bulk ≡ ok pair.1)

module _ (first second : Sockets) (requested : SocketAddr) where
  try_pairs-no_panic :
      (ephemeral : Bool) (n : ℕ) (candidate : SocketAddr) (error : ErrorKind)
      → try_pairs first second requested ephemeral n candidate (some error) ≢ panics
  unfolding try_pairs
  try_pairs-no_panic ephemeral zero candidate error h = ground (arith, h)
  try_pairs-no_panic ephemeral (suc n) candidate error h =
      elim (Result-cases (attempt first second n ephemeral candidate)) [
        | inl (result, e) ↦ ground (arith, h, e)
        | inr (collision, e) ↦
            try_pairs-no_panic ephemeral n (record requested { port = 0 }) collision
              (ground (arith, h, e))
      ]

  try_pairs-no_panic_at_first :
      (ephemeral : Bool) (n : ℕ) (candidate : SocketAddr)
      → try_pairs first second requested ephemeral (suc n) candidate none ≢ panics
  unfolding try_pairs
  try_pairs-no_panic_at_first ephemeral n candidate h =
      elim (Result-cases (attempt first second n ephemeral candidate)) [
        | inl (result, e) ↦ ground (arith, h, e)
        | inr (collision, e) ↦
            try_pairs-no_panic ephemeral n (record requested { port = 0 }) collision
              (ground (arith, h, e))
      ]

  -- The acquisition never panics: when its loop runs out, it has kept a collision to return.
  pub bind_adjacent_pair-no_panic :
      (ephemeral : Bool) → bind_adjacent_pair first second requested ephemeral ≢ panics
  unfolding bind_adjacent_pair try_pairs
  bind_adjacent_pair-no_panic true h = try_pairs-no_panic_at_first true 63 requested h
  bind_adjacent_pair-no_panic false h = try_pairs-no_panic_at_first false 0 requested h

  attempt-Acquired :
      (n : ℕ) (ephemeral : Bool) (candidate : SocketAddr) (pair : SocketAddr × SocketAddr)
      → attempt first second n ephemeral candidate ≡ ok (ok pair)
      → (bulk : SocketAddr) × (first n candidate ≡ ok pair.0)
        × (bulk_lane_addr pair.0 ≡ ok bulk)
        × (second n bulk ≡ ok pair.1)
  unfolding attempt
  attempt-Acquired n ephemeral candidate pair h = elim (Result-cases (first n candidate)) [
    | inr (e, f) ↦ ground (arith, h, f)
    | inl (interactive, f) ↦ elim (Result-cases (bulk_lane_addr interactive)) [
      | inr (e, b) ↦ ground (arith, h, f, b)
      | inl (bulk, b) ↦
          (bulk, ground (arith, h, f, b), ground (arith, h, f, b), ground (arith, h, f, b))
    ]
  ]

  attempt-collision :
      (n : ℕ) (ephemeral : Bool) (candidate : SocketAddr) (error : ErrorKind)
      → attempt first second n ephemeral candidate ≡ err error
      → ephemeral ≡ true
  unfolding attempt
  attempt-collision n ephemeral candidate error h = ground (arith, h)

  try_pairs-Acquired :
      (ephemeral : Bool) (n : ℕ) (candidate : SocketAddr) (last : Option ErrorKind)
      (pair : SocketAddr × SocketAddr)
      → (candidate ≡ requested) ⊎ ((ephemeral ≡ true) × (candidate ≡ record requested { port = 0 }))
      → try_pairs first second requested ephemeral n candidate last ≡ returns (ok pair)
      → Acquired first second requested ephemeral pair
  unfolding try_pairs Acquired
  try_pairs-Acquired ephemeral zero candidate none pair asked h = ground (arith, h)
  try_pairs-Acquired ephemeral zero candidate (some e) pair asked h = ground (arith, h)
  try_pairs-Acquired ephemeral (suc n) candidate last pair asked h =
      elim (Result-cases (attempt first second n ephemeral candidate)) [
        | inl (result, e) ↦
            let a = attempt-Acquired n ephemeral candidate pair (ground (arith, h, e)) in
            (n, candidate, a.0, asked, a.1, a.2, a.3)
        | inr (error, e) ↦
            try_pairs-Acquired ephemeral n (record requested { port = 0 }) (some error) pair
              (inr (attempt-collision n ephemeral candidate error e, refl)) (ground (arith, h, e))
      ]

  -- A pair that the acquisition returns has its bulk listener at the bulk address of its interactive
  -- listener, both bound in one attempt; the interactive listener was bound at the address asked
  -- for, or, only if the port is ephemeral, at port 0 of its IP address.
  pub bind_adjacent_pair-Acquired :
      (ephemeral : Bool) (pair : SocketAddr × SocketAddr)
      → bind_adjacent_pair first second requested ephemeral ≡ returns (ok pair)
      → Acquired first second requested ephemeral pair
  unfolding bind_adjacent_pair
  bind_adjacent_pair-Acquired ephemeral pair h =
      try_pairs-Acquired ephemeral (if ephemeral then ephemeral_pair_attempts else 1) requested none
        pair (inl refl) h
