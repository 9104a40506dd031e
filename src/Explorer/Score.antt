-- ===== src/Explorer/Score.antt =====
-- src/explorer/path_score.rs: the cost of a path, and when one path beats another. The arithmetic of
-- f64 is the parameter `Floats`.
use rtp_mux.Prelude.{◌≡◌, ◌⊎◌, ℕ, Bool, true, false, ◌&&◌, Option, none, some, if◌then◌else◌}
use rtp_mux.TupleStats.{PathScore, Averages}

-- `as_secs` is Duration::as_secs_f64, `larger` is f64::max, `at_most` is the operator <=, and
-- `total_le` holds where `total_cmp` does not answer Greater. `min_delivery` is the literal 0.05.
pub record Floats (F : Type 0) : Type 0 where
  pub averages : Averages F
  pub as_secs : ℕ → F
  pub plus : F → F → F
  pub minus : F → F → F
  pub times : F → F → F
  pub divided : F → F → F
  pub larger : F → F → F
  pub at_most : F → F → Bool
  pub total_le : F → F → Bool
  pub one : F
  pub infinity : F
  pub min_delivery : F
  pub reopt_rtt_margin : F
  pub reopt_loss_margin : F
  pub reopt_loss_tolerance : F

pub data MigrationRule : Type 0 where
  rtt loss : MigrationRule

pub data MigrationVerdict (F : Type 0) : Type 0 where
  migrate : MigrationRule → PathScore F → PathScore F → MigrationVerdict F
  active_unmeasured : MigrationVerdict F
  no_live_candidate : PathScore F → MigrationVerdict F
  within_margin : PathScore F → PathScore F → MigrationVerdict F

module _ {F : Type 0} where
  pub wants_migration : MigrationVerdict F → Bool
  wants_migration (MigrationVerdict.migrate rule active best) = true
  wants_migration MigrationVerdict.active_unmeasured = false
  wants_migration (MigrationVerdict.no_live_candidate active) = false
  wants_migration (MigrationVerdict.within_margin active best) = false

module _ {F : Type 0} (floats : Floats F) where
  pub cost : PathScore F → F
  cost s =
      floats.divided (floats.as_secs s.rtt)
        (floats.larger (floats.minus floats.one s.loss) floats.min_delivery)

  rtt_wins : PathScore F → PathScore F → Bool
  rtt_wins s active =
      floats.at_most (floats.as_secs s.rtt)
        (floats.times (floats.as_secs active.rtt) (floats.minus floats.one floats.reopt_rtt_margin))
      && floats.at_most s.loss (floats.plus active.loss floats.reopt_loss_tolerance)

  loss_wins : PathScore F → PathScore F → Bool
  loss_wins s active =
      floats.at_most (floats.plus s.loss floats.reopt_loss_margin) active.loss
      && floats.at_most (floats.as_secs s.rtt) (
          floats.times (floats.as_secs active.rtt) (floats.plus floats.one floats.reopt_rtt_margin))

  pub beats_by_margin : PathScore F → PathScore F → Option MigrationRule
  unfolding rtt_wins loss_wins
  beats_by_margin s active =
      if rtt_wins s active
      then some MigrationRule.rtt
      else if loss_wins s active
      then some MigrationRule.loss
      else none

-- What IEEE 754 says of the order of `total_cmp`.
pub record TotalOrder {F : Type 0} (floats : Floats F) : Type 0 where
  pub total : (a b : F) → (floats.total_le a b ≡ true) ⊎ (floats.total_le b a ≡ true)
  pub transitive :
      (a b c : F)
      → floats.total_le a b ≡ true
      → floats.total_le b c ≡ true
      → floats.total_le a c ≡ true
