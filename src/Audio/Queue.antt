-- ===== src/Audio/Queue.antt =====
-- `AudioModerationService` as the states of its queue. A step is what one task does without giving
-- way, or under the lock: a submission, a worker that takes a job or is done with one, and the stop
-- of the service. Which of the queued jobs a worker gets is left to `asyncio.Queue`. A job is its `audio_id` and the instant at which it came.
pub mod Invariant
use manaai.Prelude.{
  ℕ, zero, suc, ◌+◌, ◌-◌, ◌≡◌, Option, none, some, List, [], ◌∷◌, ◌++◌, Bool, true, false, not,
  ◌&&◌, ◌||◌, ltb, leb, ◌==◌, if◌then◌else◌, length, any, filter, map,
}

pub record QueuedJob : Type 0 where
  pub audio_id : ℕ
  pub enqueued_at : ℕ

-- `in_flight` are the jobs that the workers hold; `completed` is in the order of insertion.
pub record State : Type 0 where
  pub is_running : Bool
  pub queue : List QueuedJob
  pub in_flight : List QueuedJob
  pub active : List ℕ
  pub completed : List ℕ

-- `queue_capacity` and `completed_cache_size`.
pub record Sizes : Type 0 where
  pub queue_capacity : ℕ
  pub completed_cache_size : ℕ

abbrev pub init : State
init = record { is_running = false; queue = []; in_flight = []; active = []; completed = [] }

abbrev pub contains : ℕ → List ℕ → Bool
contains i = any (λ j. j == i)

abbrev pub discard : ℕ → List ℕ → List ℕ
discard i = filter (λ j. not (j == i))

abbrev pub add : ℕ → List ℕ → List ℕ
add i ids = if contains i ids then ids else ids ++ i ∷ []

-- A queue of capacity 0 is never full.
abbrev pub is_full : Sizes → List QueuedJob → Bool
is_full sizes queue = ltb 0 sizes.queue_capacity && leb sizes.queue_capacity (length queue)

pub data Submission : Type 0 where
  queued duplicate unavailable queue_full : Submission

-- `submit`, for a job whose URLs passed.
unfoldable pub submit : Sizes → QueuedJob → State → Submission × State
submit sizes job s =
    if not s.is_running
    then (unavailable, s)
    else if contains job.audio_id s.active || contains job.audio_id s.completed
    then (duplicate, s)
    else if is_full sizes s.queue
    then (queue_full, s)
    else (queued, record s { queue = s.queue ++ job ∷ []; active = add job.audio_id s.active })

-- The oldest entries go while there are more than the cache holds.
unfoldable pub shrink : ℕ → List ℕ → List ℕ
shrink size [] = []
shrink size (i ∷ ids) =
    let rest = shrink size ids in if ltb size (length (i ∷ ids)) then rest else i ∷ ids

-- `_remember_completed`.
unfoldable pub remember_completed : Sizes → ℕ → List ℕ → List ℕ
unfolding shrink
remember_completed sizes audio_id completed =
    shrink sizes.completed_cache_size (discard audio_id completed ++ audio_id ∷ [])

-- A worker gets a job, and the others stay queued.
unfoldable pub take : QueuedJob → List QueuedJob → State → State
take job others s = record s { queue = others; in_flight = job ∷ s.in_flight }

-- The end of `_worker` for a job that it holds.
unfoldable pub finish : Sizes → ℕ → Bool → State → State
unfolding remember_completed
finish sizes audio_id completed s = record s {
  in_flight = filter (λ (job : QueuedJob). not (job.audio_id == audio_id)) s.in_flight;
  active = discard audio_id s.active;
  completed = if completed then remember_completed sizes audio_id s.completed else s.completed;
}

unfoldable pub start : State → State
start s = record s { is_running = true }

-- `stop`: the workers are cancelled, so none is done with its job; then all is cleared.
unfoldable pub stop : State → State
stop s = record { is_running = false; queue = []; in_flight = []; active = []; completed = [] }

abbrev pub holds : ℕ → State → Bool
holds audio_id s = any (λ (job : QueuedJob). job.audio_id == audio_id) s.in_flight

-- What can happen next.
pub data Step (sizes : Sizes) (s s' : State) : Type 0 where
  starts : s' ≡ start s → Step sizes s s'
  stops : s' ≡ stop s → Step sizes s s'
  submits : (job : QueuedJob) → s' ≡ (submit sizes job s).1 → Step sizes s s'
  takes :
      (before after : List QueuedJob) (job : QueuedJob)
      → s.queue ≡ before ++ job ∷ after
      → s' ≡ take job (before ++ after) s
      → Step sizes s s'
  finishes :
      (audio_id : ℕ) (completed : Bool)
      → holds audio_id s ≡ true
      → s' ≡ finish sizes audio_id completed s
      → Step sizes s s'

pub data Reachable (sizes : Sizes) : State → Type 0 where
  here : Reachable sizes init
  next : {s s' : State} → Reachable sizes s → Step sizes s s' → Reachable sizes s'
