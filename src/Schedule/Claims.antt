-- ===== src/Schedule/Claims.antt =====
-- `due_schedules` and `claim_schedule` of infrastructure/persistence/repository.py, by which the
-- scheduler runs an occurrence.
use manaai.Prelude.{
  ℕ, ◌≡◌, refl, Option, none, some, List, [], ◌∷◌, String, str_eq, Bool, true, false, not, ◌&&◌,
  leb, ◌==◌, if◌then◌else◌, count, filter, modify, arith, ap, ◌∙◌,
}
use manaai.Prelude.Exec.{Result, ok, err}

pub record AgentSchedule : Type 0 where
  pub schedule_id : String
  pub agent_id : String
  pub capability_key : String
  pub job_type : String
  pub cron_expression : String
  pub timezone : String
  pub enabled : Bool
  pub next_run_at : Option ℕ
  pub last_run_at : Option ℕ

abbrev same_instant : Option ℕ → Option ℕ → Bool
same_instant none none = true
same_instant none (some b) = false
same_instant (some a) none = false
same_instant (some a) (some b) = a == b

-- The row is enabled and still has the instant that was read.
abbrev pub is_current : AgentSchedule → AgentSchedule → Bool
is_current current row =
    str_eq row.schedule_id current.schedule_id
    && row.enabled
    && same_instant row.next_run_at current.next_run_at

abbrev has_come : ℕ → Option ℕ → Bool
has_come now none = false
has_come now (some instant) = leb instant now

abbrev pub is_due : ℕ → AgentSchedule → Bool
is_due now row = row.enabled && has_come now row.next_run_at

unfoldable pub due_schedules : ℕ → List AgentSchedule → List AgentSchedule
due_schedules now = filter (is_due now)

-- A claim that would change the schedule's id.
pub data ClaimError : Type 0 where
  changed_id : ClaimError

unfoldable pub claim_schedule :
    AgentSchedule → AgentSchedule → List AgentSchedule → Result ClaimError Bool × List AgentSchedule
claim_schedule current advanced rows =
    if not (str_eq current.schedule_id advanced.schedule_id) then (err changed_id, rows) else (
      ok (count (is_current current) rows == 1),
      modify (is_current current) (λ row. advanced) rows,
    )

-- After a claim with another instant no row is as it was read.
none-current :
    (current advanced : AgentSchedule) (rows : List AgentSchedule)
    → same_instant advanced.next_run_at current.next_run_at ≡ false
    → count (is_current current) (modify (is_current current) (λ row. advanced) rows) ≡ 0
none-current current advanced [] h = refl
none-current current advanced (row ∷ rows) h = ground (arith, h, none-current current advanced rows)

modify-none :
    (current advanced : AgentSchedule) (rows : List AgentSchedule)
    → count (is_current current) rows ≡ 0
    → modify (is_current current) (λ row. advanced) rows ≡ rows
modify-none current advanced [] h = refl
modify-none current advanced (row ∷ rows) h = ground (arith, h, modify-none current advanced rows)

claim-after :
    (current first : AgentSchedule) (rows after : List AgentSchedule)
    → claim_schedule current first rows ≡ (ok true, after)
    → after ≡ modify (is_current current) (λ row. first) rows
unfolding claim_schedule
claim-after current first rows after h = ground arith

-- Once a claim of a schedule with another next instant went through, a second claim by somebody who
-- read the same schedule is declined and changes nothing.
pub claimed_once :
    (current first second : AgentSchedule) (rows after : List AgentSchedule)
    → claim_schedule current first rows ≡ (ok true, after)
    → same_instant first.next_run_at current.next_run_at ≡ false
    → str_eq current.schedule_id second.schedule_id ≡ true
    → claim_schedule current second after ≡ (ok false, after)
unfolding claim_schedule
claimed_once current first second rows after h moved same =
    let unread : count (is_current current) after ≡ 0 =
      ap (count (is_current current)) (claim-after current first rows after h)
      ∙ none-current current first rows moved in
    rw (same, unread)
      (ap (λ (r : List AgentSchedule). (ok false, r)) (modify-none current second after unread))
