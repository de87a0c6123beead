-- ===== src/Schedule/Examples.antt =====
-- The hourly jobs of a zone without summer time.
use manaai.Prelude.{ℕ, ◌%◌, ◌≡◌, ◌==◌, refl, none, some, [], ◌∷◌, true, false}
use manaai.Prelude.Exec.{ok}
use manaai.Schedule.Claims.{AgentSchedule, due_schedules, claim_schedule, claimed_once}
use manaai.Schedule.{LocalTime, Calendar, Timestamp, next_cron_occurrence}
use manaai.Schedule.Next.{IsNext, next_cron_occurrence-first}

abbrev zone : ℕ → LocalTime
zone instant = record { wall = instant; fold = 0 }

abbrev calendar : Calendar
calendar = record {
  zone_info = λ name. some zone;
  is_valid = λ expression. true;
  is_match = λ expression wall. wall % 3600000000 == 0;
}

abbrev after : Timestamp
after = record { instant = 3600000007; is_aware = true }

next_cron_occurrence-first_example :
    IsNext calendar "0 * * * *" zone after (next_cron_occurrence calendar "0 * * * *" "UTC" after)
next_cron_occurrence-first_example =
    next_cron_occurrence-first calendar "0 * * * *" "UTC" after zone refl refl refl

-- The hourly job is claimed by two schedulers that read it at once.
abbrev hourly : AgentSchedule
hourly = record {
  schedule_id = "s1";
  agent_id = "marketing";
  capability_key = "growth";
  job_type = "daily";
  cron_expression = "0 * * * *";
  timezone = "UTC";
  enabled = true;
  next_run_at = some 100;
  last_run_at = none;
}

abbrev moved : AgentSchedule
moved = record hourly { next_run_at = some 200; last_run_at = some 101 }

abbrev moved_too : AgentSchedule
moved_too = record hourly { next_run_at = some 200; last_run_at = some 102 }

first_claim : claim_schedule hourly moved (hourly ∷ []) ≡ (ok true, moved ∷ [])
unfolding claim_schedule
first_claim = refl

is_due_once :
    (due_schedules 150 (hourly ∷ []) ≡ hourly ∷ []) × (due_schedules 150 (moved ∷ []) ≡ [])
unfolding due_schedules
is_due_once = (refl, refl)

claimed_once_example : claim_schedule hourly moved_too (moved ∷ []) ≡ (ok false, moved ∷ [])
claimed_once_example =
    claimed_once hourly moved moved_too (hourly ∷ []) (moved ∷ []) first_claim refl refl
