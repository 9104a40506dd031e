-- ===== src/Bind/Examples.antt =====
-- bind_adjacent_pair of src/server.rs on a system where port 40001 is taken at the first attempt.
use rtp_mux.Prelude.{ℕ, ◌≡◌, refl, true, ok, err, returns, eqb, if◌then◌else◌}
use rtp_mux.Shared.{SocketAddr, ErrorKind, bulk_lane_addr}
use rtp_mux.Bind.{Sockets, bind_adjacent_pair, try_pairs, attempt}
use rtp_mux.Bind.Adjacency.{Acquired, bind_adjacent_pair-Acquired}

abbrev at : ℕ → SocketAddr
at port = record { ip = 1; port = port }

-- 64 attempts count down from 63.
abbrev drawn : Sockets
drawn n asked = if eqb n 63 then ok (at 40000) else ok (at 50000)

abbrev derived : Sockets
derived n asked = if eqb n 63 then err ErrorKind.addr_in_use else ok asked

acquires : bind_adjacent_pair drawn derived (at 0) true ≡ returns (ok (at 50000, at 50001))
unfolding bind_adjacent_pair try_pairs attempt bulk_lane_addr
acquires = refl

bind_adjacent_pair-Acquired_example : Acquired drawn derived (at 0) true (at 50000, at 50001)
bind_adjacent_pair-Acquired_example =
    bind_adjacent_pair-Acquired drawn derived (at 0) true (at 50000, at 50001) acquires
