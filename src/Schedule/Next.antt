-- ===== src/Schedule/Next.antt =====
-- The next occurrence of a cron expression, against the instants at which it is due.
use manaai.Prelude.{
  ℕ, zero, suc, ◌+◌, ◌-◌, ◌*◌, ◌/◌, ◌%◌, ◌<◌, ◌≤◌, ◌≡◌, refl, ◌⊎◌, inl, inr, Option, none, some,
  String, Bool, true, false, arith, Bool-cases, subst, sym, ap, ◌∙◌,
}
use manaai.Prelude.Exec.{Result, ok, err}
use manaai.Schedule.{
  ScheduleError, no_occurrence, LocalTime, Calendar, Timestamp, minute, horizon, first_candidate,
  search, occurs, found_or_error, occurrence_in, next_cron_occurrence,
}

-- No minute of so many from the start on passes.
abbrev pub NoneBefore : (ℕ → Bool) → ℕ → ℕ → Type 0
NoneBefore test start n = (j : ℕ) → j < n → test (start + j * minute) ≡ false

-- The outcome of a search among so many minutes from the start on.
pub data IsFirst (test : ℕ → Bool) (start n : ℕ) : Option ℕ → Type 0 where
  at_minute :
      {candidate : ℕ} (k : ℕ)
      → k < n
      → candidate ≡ start + k * minute
      → test candidate ≡ true
      → NoneBefore test start k
      → IsFirst test start n (some candidate)
  nowhere : NoneBefore test start n → IsFirst test start n none

NoneBefore-suc :
    (test : ℕ → Bool) (start n : ℕ)
    → test start ≡ false
    → NoneBefore test (start + minute) n
    → NoneBefore test start (suc n)
NoneBefore-suc test start n h rest zero l = subst (λ c. test c ≡ false) (omega arith) h
NoneBefore-suc test start n h rest (suc j) l =
    subst (λ c. test c ≡ false) (omega arith) (rest j (omega (arith, l)))

later :
    (test : ℕ → Bool) (start n : ℕ) (o : Option ℕ)
    → test start ≡ false
    → IsFirst test (start + minute) n o
    → IsFirst test start (suc n) o
later test start n _ h (at_minute k l e m free) =
    at_minute (suc k) (omega (arith, l)) (omega (arith, e)) m (NoneBefore-suc test start k h free)
later test start n _ h (nowhere free) = nowhere (NoneBefore-suc test start n h free)

search-IsFirst : (test : ℕ → Bool) (n start : ℕ) → IsFirst test start n (search test n start)
unfolding search
search-IsFirst test zero start = nowhere (λ j l. ground (arith, l))
search-IsFirst test (suc n) start = elim (Bool-cases (test start)) [
  | inl e ↦ rw e (at_minute 0 (omega arith) (omega arith) e (λ j l. ground (arith, l)))
  | inr e ↦ rw e (
      later test start n (search test n (start + minute)) e
        (search-IsFirst test n (start + minute)))
]

-- Five years of 366 days, in microseconds.
abbrev pub five_years : ℕ
five_years = 5 * 366 * 24 * 60 * 60000000

-- The number of minutes after the first candidate.
abbrev minutes_after : ℕ → ℕ → ℕ
minutes_after instant m = m / 60000000 - instant / 60000000 - 1

whole_minute :
    (instant m : ℕ)
    → m % 60000000 ≡ 0
    → instant < m
    → first_candidate instant + minutes_after instant m * minute ≡ m
whole_minute instant m w l = omega (arith, w, l)

first_candidate_whole :
    (instant k : ℕ)
    → ((first_candidate instant + k * minute) % 60000000 ≡ 0)
      × (instant < first_candidate instant + k * minute)
first_candidate_whole instant k = (omega arith, omega arith)

minutes_after-lt :
    (instant m k : ℕ)
    → m % 60000000 ≡ 0
    → instant < m
    → m < first_candidate instant + k * minute
    → minutes_after instant m < k
minutes_after-lt instant m k w l b = omega (arith, w, l, b)

minutes_after-horizon :
    (instant m : ℕ)
    → m % 60000000 ≡ 0
    → instant < m
    → m ≤ instant + five_years
    → minutes_after instant m < horizon
minutes_after-horizon instant m w l b = omega (arith, w, l, b)

module _ (calendar : Calendar) where
  abbrev search_result : String → (ℕ → LocalTime) → Timestamp → Result ScheduleError ℕ
  search_result expression zone after =
      found_or_error calendar
        (search (occurs calendar expression zone) horizon (first_candidate after.instant))

  next-search :
      (expression timezone : String) (after : Timestamp) (zone : ℕ → LocalTime)
      → calendar.zone_info timezone ≡ some zone
      → after.is_aware ≡ true
      → calendar.is_valid expression ≡ true
      → next_cron_occurrence calendar expression timezone after
        ≡ search_result expression zone after
  unfolding next_cron_occurrence occurrence_in
  next-search expression timezone after zone z a v =
      ap (λ o. occurrence_in calendar o expression after) z ∙ rw (a, v) refl

  -- Of the whole minutes, those at which the expression matches the wall time, not in the second
  -- of a repeated hour.
  abbrev pub IsDue : String → (ℕ → LocalTime) → ℕ → Type 0
  IsDue expression zone m =
      (m % 60000000 ≡ 0) × ((zone m).fold ≡ 0) × (calendar.is_match expression (zone m).wall ≡ true)

  -- The two outcomes of the search, as the caller sees them.
  abbrev pub IsNext : String → (ℕ → LocalTime) → Timestamp → Result ScheduleError ℕ → Type 0
  IsNext expression zone after result =
      ((candidate : ℕ) × (result ≡ ok candidate)
        × (after.instant < candidate)
        × IsDue expression zone candidate
        × ((m : ℕ) → after.instant < m → m < candidate → ¬ IsDue expression zone m))
      ⊎ ((result ≡ err no_occurrence)
          × ((m : ℕ)
              → after.instant < m
              → m ≤ after.instant + five_years
              → ¬ IsDue expression zone m))

  occurs-Due :
      (expression : String) (zone : ℕ → LocalTime) (m : ℕ)
      → m % 60000000 ≡ 0
      → occurs calendar expression zone m ≡ true
      → IsDue expression zone m
  occurs-Due expression zone m w h = (w, ground (arith, h), ground (arith, h))

  Due-occurs :
      (expression : String) (zone : ℕ → LocalTime) (m : ℕ)
      → IsDue expression zone m
      → occurs calendar expression zone m ≡ false
      → ⊥
  Due-occurs expression zone m (w, f, h) off = ground (arith, f, h, off)

  -- The minutes that were tried include every whole one of the span.
  minutes_passed :
      (expression : String) (zone : ℕ → LocalTime) (instant k m : ℕ)
      → NoneBefore (occurs calendar expression zone) (first_candidate instant) k
      → (m % 60000000 ≡ 0 → minutes_after instant m < k)
      → instant < m
      → ¬ IsDue expression zone m
  minutes_passed expression zone instant k m free inside l due = Due-occurs expression zone m due (
      subst (λ c. occurs calendar expression zone c ≡ false) (whole_minute instant m due.0 l)
        (free (minutes_after instant m) (inside due.0)))

  IsFirst-Next :
      (expression : String) (zone : ℕ → LocalTime) (after : Timestamp) (o : Option ℕ)
      → IsFirst (occurs calendar expression zone) (first_candidate after.instant) horizon o
      → IsNext expression zone after (found_or_error calendar o)
  IsFirst-Next expression zone after _ (at_minute {candidate} k l e m free) =
      let (whole, later_than) = first_candidate_whole after.instant k in
      inl (
        candidate,
        refl,
        subst (λ c. after.instant < c) (sym e) later_than,
        occurs-Due expression zone candidate (subst (λ c. c % 60000000 ≡ 0) (sym e) whole) m,
        λ m l before.
            minutes_passed expression zone after.instant k m free
              (λ w. minutes_after-lt after.instant m k w l (subst (λ c. m < c) e before)) l,
      )
  IsFirst-Next expression zone after _ (nowhere free) = inr (
    refl,
    λ m l before.
        minutes_passed expression zone after.instant horizon m free
          (λ w. minutes_after-horizon after.instant m w l before) l,
  )

  -- For a known zone, a timestamp with a zone and a valid expression, the next occurrence is the
  -- first instant after the timestamp that is due: a whole minute whose wall time matches the
  -- expression and is not in the second of a repeated hour. If there is none in the five years of
  -- 366 days after the timestamp, the result is the error that says so.
  pub next_cron_occurrence-first :
      (expression timezone : String) (after : Timestamp) (zone : ℕ → LocalTime)
      → calendar.zone_info timezone ≡ some zone
      → after.is_aware ≡ true
      → calendar.is_valid expression ≡ true
      → IsNext expression zone after (next_cron_occurrence calendar expression timezone after)
  next_cron_occurrence-first expression timezone after zone z a v =
      subst (IsNext expression zone after) (sym (next-search expression timezone after zone z a v))
        (IsFirst-Next expression zone after _ (
          search-IsFirst (occurs calendar expression zone) horizon (first_candidate after.instant)))
