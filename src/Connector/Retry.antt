-- ===== src/Connector/Retry.antt =====
-- src/connector/dial.rs, connect_dual_lane and retry_dual_connect: `once` is connect_dual_lane_once at
-- an attempt, by the attempt's number and the socket that it is given. `other 0` is ErrorKind::Other.
use rtp_mux.Prelude.{
  ℕ, zero, suc, ◌+◌, ◌*◌, ◌≡◌, Option, none, List, [], ◌∷◌, ltb, if◌then◌else◌, Result, ok, err,
  Result-cases, inl, inr, arith,
}
use rtp_mux.Shared.{ErrorKind, max_dual_connect_attempts}

module _ {B C : Type 0} (once : ℕ → Option C → Result ErrorKind B) where
  -- The attempts that are left, the number of the next one, and the kind of the last error. The result
  -- has the milliseconds of each sleep.
  attempts : ℕ → ℕ → Option C → ErrorKind → Result ErrorKind B × List ℕ
  attempts zero attempt socket last_kind = (err last_kind, [])
  attempts (suc left) attempt socket last_kind = elim (once attempt socket) [
    | ok birth ↦ (ok birth, [])
    | err kind ↦
        let (result, sleeps) = attempts left (attempt + 1) none kind in
        (result, if ltb attempt max_dual_connect_attempts then 25 * attempt ∷ sleeps else sleeps)
  ]

  pub connect_dual_lane : Option C → Result ErrorKind B × List ℕ
  unfolding attempts
  connect_dual_lane socket = attempts max_dual_connect_attempts 1 socket (ErrorKind.other 0)

  -- The three attempts written out.
  pub three_attempts : Option C → Result ErrorKind B × List ℕ
  three_attempts socket = elim (once 1 socket) [
    | ok birth ↦ (ok birth, [])
    | err _ ↦ elim (once 2 none) [
      | ok birth ↦ (ok birth, 25 ∷ [])
      | err _ ↦ (once 3 none, 25 ∷ 50 ∷ [])
    ]
  ]

  -- A dial makes at most three attempts, the first alone on the socket it was given, sleeps 25 ms
  -- after the first failure and 50 ms after the second, and has the result of the last attempt made.
  pub connect_dual_lane_lem : (socket : Option C) → connect_dual_lane socket ≡ three_attempts socket
  unfolding connect_dual_lane attempts three_attempts
  connect_dual_lane_lem socket = elim (Result-cases (once 1 socket)) [
    | inl (b, e) ↦ ground (arith, e)
    | inr (k, e) ↦ elim (Result-cases (once 2 none)) [
      | inl (b, f) ↦ ground (arith, e, f)
      | inr (l, f) ↦ elim (Result-cases (once 3 none)) [
        | inl (b, g) ↦ ground (arith, e, f, g)
        | inr (m, g) ↦ ground (arith, e, f, g)
      ]
    ]
  ]
