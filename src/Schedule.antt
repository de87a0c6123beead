-- ===== src/Schedule.antt =====
-- app/mana_operation_ai/application/scheduling.py: the next instant at which a cron expression
-- matches. The zones and the expressions are the libraries': a zone turns an instant into its wall
-- time and the fold, and an expression is valid or not, and matches a wall time or not.
pub mod Next
pub mod Claims
mod Examples
use manaai.Prelude.{
  ℕ, zero, suc, ◌+◌, ◌-◌, ◌*◌, ◌%◌, Option, none, some, String, Bool, true, false, not, ◌&&◌, ◌==◌,
  if◌then◌else◌,
}
use manaai.Prelude.Exec.{Result, ok, err}

pub data ScheduleError : Type 0 where
  unknown_timezone naive_timestamp invalid_expression no_occurrence : ScheduleError

-- A wall time is a number of microseconds, as an instant is.
pub record LocalTime : Type 0 where
  pub wall : ℕ
  pub fold : ℕ

pub record Calendar : Type 0 where
  pub zone_info : String → Option (ℕ → LocalTime)
  pub is_valid : String → Bool
  pub is_match : String → ℕ → Bool

-- `after`: its instant, and whether it has a zone of its own.
pub record Timestamp : Type 0 where
  pub instant : ℕ
  pub is_aware : Bool

abbrev pub minute : ℕ
minute = 60000000

-- The minutes that the loop tries: five years of 366 days.
abbrev pub horizon : ℕ
horizon = 60 * 24 * 366 * 5

-- `replace(second=0, microsecond=0) + timedelta(minutes=1)`.
abbrev pub first_candidate : ℕ → ℕ
first_candidate instant = instant - instant % minute + minute

-- The repeated hour at the end of the summer time counts once.
abbrev pub is_occurrence : (ℕ → Bool) → LocalTime → Bool
is_occurrence matches local_time = (local_time.fold == 0) && matches local_time.wall

-- The loop, on the number of the minutes left.
unfoldable pub search : (ℕ → Bool) → ℕ → ℕ → Option ℕ
search test zero candidate = none
search test (suc n) candidate =
    let rest = search test n (candidate + minute) in if test candidate then some candidate else rest

module _ (calendar : Calendar) where
  open calendar use {zone_info, is_valid, is_match}

  abbrev pub occurs : String → (ℕ → LocalTime) → ℕ → Bool
  occurs expression zone candidate = is_occurrence (is_match expression) (zone candidate)

  abbrev pub found_or_error : Option ℕ → Result ScheduleError ℕ
  found_or_error none = err no_occurrence
  found_or_error (some candidate) = ok candidate

  -- `next_cron_occurrence`, for the zone that was found.
  unfoldable pub occurrence_in :
      Option (ℕ → LocalTime) → String → Timestamp → Result ScheduleError ℕ
  occurrence_in none expression after = err unknown_timezone
  occurrence_in (some zone) expression after =
      if not after.is_aware
      then err naive_timestamp
      else if not (is_valid expression)
      then err invalid_expression
      else found_or_error (search (occurs expression zone) horizon (first_candidate after.instant))

  unfoldable pub next_cron_occurrence : String → String → Timestamp → Result ScheduleError ℕ
  next_cron_occurrence expression timezone after =
      occurrence_in (zone_info timezone) expression after
