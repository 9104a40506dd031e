-- ===== src/AcceptError/Delay.antt =====
-- The retry delay of src/accept_error.rs.
use native.Mathlib.Nat.{pow-le-pow_right}
use rtp_mux.Prelude.{
  ℕ, ◌-◌, ◌^◌, ◌≤◌, ◌≡◌, min, arith, ltb, if◌then◌else◌, Bool-cases, inl, inr, ap,
}
use rtp_mux.AcceptError.{AcceptErrorBackoff, retry_delay}

pow-ge-cap : (n : ℕ) → 7 ≤ n → 128 ≤ 2 ^ n
pow-ge-cap n h = pow-le-pow_right {n = 2} (omega arith) {i = 7} {j = n} h

pow-le-cap : (n : ℕ) → n ≤ 6 → 2 ^ n ≤ 64
pow-le-cap n h = pow-le-pow_right {n = 2} (omega arith) {i = n} {j = 6} h

near : (n : ℕ) → n ≤ 6 → min n 16 ≡ n
near n h = omega arith

-- No delay before the third error in a row; from there the delay doubles from 1 ms with each error
-- to 64 ms at the ninth, and from the tenth on it is 100 ms.
pub retry_delay-cases :
    (b : AcceptErrorBackoff)
    → retry_delay b ≡ (
        if ltb b.error_count 3
        then 0
        else if ltb b.error_count 10
        then 2 ^ (b.error_count - 3)
        else 100)
unfolding retry_delay
retry_delay-cases b =
    let over = b.error_count - 3 in
    elim (Bool-cases (ltb b.error_count 10)) [
      | inl early ↦
          ground (arith, pow-le-cap over, early, ap (λ (k : ℕ). 2 ^ k) (near over (ground arith)))
      | inr late ↦ ground (arith, late, pow-ge-cap (min over 16))
    ]
