-- ===== src/Audio/Queue/Invariant.antt =====
-- What the queue of the moderation keeps, whatever happens: no recording is in it twice.
use manaai.Prelude.{
  ℕ, zero, suc, ◌+◌, ◌≤◌, ◌<◌, ◌≡◌, refl, List, [], ◌∷◌, ◌++◌, Bool, true, not, ltb, ◌==◌,
  if◌then◌else◌, length, any, filter, count, arith, count-append, inl, inr, length-append, ap, ◌⊎◌,
  subst, sym,
}
use manaai.Audio.Queue.{
  QueuedJob, State, Sizes, init, contains, discard, submit, shrink, remember_completed, take,
  finish, start, stop, holds, Step, starts, stops, submits, takes, finishes, Reachable, here, next,
}

abbrev is_job : ℕ → QueuedJob → Bool
is_job i job = job.audio_id == i

-- How often a recording is queued or worked on.
abbrev pub copies : ℕ → State → ℕ
copies i s = count (is_job i) s.queue + count (is_job i) s.in_flight

abbrev pub times_in : ℕ → List ℕ → ℕ
times_in i = count (λ j. j == i)

pub record IsSound (sizes : Sizes) (s : State) : Type 0 where
  pub active_once : (i : ℕ) → copies i s ≡ times_in i s.active
  pub at_most_once : (i : ℕ) → times_in i s.active + times_in i s.completed ≤ 1
  pub capacity : 0 < sizes.queue_capacity → length s.queue ≤ sizes.queue_capacity
  pub cache : length s.completed ≤ sizes.completed_cache_size

count-contains : (i : ℕ) (ids : List ℕ) → contains i ids ≡ ltb 0 (times_in i ids)
count-contains i [] = refl
count-contains i (j ∷ ids) = ground (arith, count-contains i ids)

count-discard :
    (i k : ℕ) (ids : List ℕ) → times_in i (discard k ids) ≡ (if k == i then 0 else times_in i ids)
count-discard i k [] = ground arith
count-discard i k (j ∷ ids) = ground (arith, count-discard i k ids)

count-done :
    (i k : ℕ) (jobs : List QueuedJob)
    → count (is_job i) (filter (λ job. not (is_job k job)) jobs)
      ≡ (if k == i then 0 else count (is_job i) jobs)
count-done i k [] = ground arith
count-done i k (job ∷ jobs) = ground (arith, count-done i k jobs)

length-shrink : (size : ℕ) (ids : List ℕ) → length (shrink size ids) ≤ size
unfolding shrink
length-shrink size [] = omega arith
length-shrink size (i ∷ ids) = ground (arith, length-shrink size ids)

count-shrink-le : (i size : ℕ) (ids : List ℕ) → times_in i (shrink size ids) ≤ times_in i ids
unfolding shrink
count-shrink-le i size [] = omega arith
count-shrink-le i size (j ∷ ids) = ground (arith, count-shrink-le i size ids)

any-holds : (i : ℕ) (jobs : List QueuedJob) → any (is_job i) jobs ≡ ltb 0 (count (is_job i) jobs)
any-holds i [] = refl
any-holds i (job ∷ jobs) = ground (arith, any-holds i jobs)

submit-IsSound :
    (sizes : Sizes) (job : QueuedJob) (s : State)
    → IsSound sizes s
    → IsSound sizes (submit sizes job s).1
unfolding submit
submit-IsSound sizes job s v = record {
  active_once = λ i. ground (
    arith,
    v.active_once i,
    count-append (is_job i) s.queue (job ∷ []),
    count-append (λ j. j == i) s.active (job.audio_id ∷ []),
  );
  at_most_once = λ i. ground (
    arith,
    v.at_most_once i,
    count-append (λ j. j == i) s.active (job.audio_id ∷ []),
    count-contains job.audio_id s.active,
    count-contains job.audio_id s.completed,
    same i,
  );
  capacity = λ h. ground (arith, v.capacity h, length-append s.queue (job ∷ []));
  cache = ground (arith, v.cache);
}
  where
    same :
        (i : ℕ)
        → (job.audio_id == i) ≡ true
        → (times_in job.audio_id s.active ≡ times_in i s.active)
          × (times_in job.audio_id s.completed ≡ times_in i s.completed)
    same i h = let e : job.audio_id ≡ i = ground (arith, h) in rw e (refl, refl)

take-IsSound :
    (sizes : Sizes) (before after : List QueuedJob) (job : QueuedJob) (s : State)
    → s.queue ≡ before ++ job ∷ after
    → IsSound sizes s
    → IsSound sizes (take job (before ++ after) s)
unfolding take
take-IsSound sizes before after job s e v = record {
  active_once = λ i. ground (
    arith,
    v.active_once i,
    ap (count (is_job i)) e,
    count-append (is_job i) before (job ∷ after),
    count-append (is_job i) before after,
  );
  at_most_once = v.at_most_once;
  capacity = λ p. omega (
    arith,
    v.capacity p,
    ap length e,
    length-append before (job ∷ after),
    length-append before after,
  );
  cache = v.cache;
}

-- A recording that a worker holds is not in the queue too.
held_not_queued :
    (sizes : Sizes) (k i : ℕ) (s : State)
    → holds k s ≡ true
    → IsSound sizes s
    → (k == i) ≡ true
    → count (is_job i) s.queue ≡ 0
held_not_queued sizes k i s h v same =
    let e : i ≡ k = ground (arith, same) in
    rw e (ground (arith, h, v.active_once k, v.at_most_once k, any-holds k s.in_flight))

finish-IsSound :
    (sizes : Sizes) (k : ℕ) (completed : Bool) (s : State)
    → holds k s ≡ true
    → IsSound sizes s
    → IsSound sizes (finish sizes k completed s)
unfolding finish remember_completed
finish-IsSound sizes k completed s h v = record {
  active_once = λ i. ground (
    arith,
    count-discard i k s.active,
    count-done i k s.in_flight,
    v.active_once i,
    held_not_queued sizes k i s h v,
  );
  at_most_once = λ i. ground (
    arith,
    count-discard i k s.active,
    count-discard i k s.completed,
    count-append (λ j. j == i) (discard k s.completed) (k ∷ []),
    count-shrink-le i sizes.completed_cache_size (discard k s.completed ++ k ∷ []),
    v.at_most_once i,
  );
  capacity = λ p. v.capacity p;
  cache =
      ground (
        arith,
        v.cache,
        length-shrink sizes.completed_cache_size (discard k s.completed ++ k ∷ []),
      );
}

-- The service before its start, and after its stop.
emptied-IsSound : (sizes : Sizes) → IsSound sizes init
emptied-IsSound sizes = record {
  active_once = λ i. refl;
  at_most_once = λ i. omega arith;
  capacity = λ p. omega arith;
  cache = omega arith;
}

start-IsSound : (sizes : Sizes) (s : State) → IsSound sizes s → IsSound sizes (start s)
unfolding start
start-IsSound sizes s v = record {
  active_once = v.active_once;
  at_most_once = v.at_most_once;
  capacity = v.capacity;
  cache = v.cache;
}

Step-IsSound : (sizes : Sizes) (s s' : State) → Step sizes s s' → IsSound sizes s → IsSound sizes s'
unfolding stop
Step-IsSound sizes s s' (starts e) v = subst (IsSound sizes) (sym e) (start-IsSound sizes s v)
Step-IsSound sizes s s' (stops e) v = subst (IsSound sizes) (sym e) (emptied-IsSound sizes)
Step-IsSound sizes s s' (submits job e) v =
    subst (IsSound sizes) (sym e) (submit-IsSound sizes job s v)
Step-IsSound sizes s s' (takes before after job q e) v =
    subst (IsSound sizes) (sym e) (take-IsSound sizes before after job s q v)
Step-IsSound sizes s s' (finishes k completed h e) v =
    subst (IsSound sizes) (sym e) (finish-IsSound sizes k completed s h v)

pub Reachable-IsSound : (sizes : Sizes) (s : State) → Reachable sizes s → IsSound sizes s
Reachable-IsSound sizes _ here = emptied-IsSound sizes
Reachable-IsSound sizes s' (next {s} r step) =
    Step-IsSound sizes s s' step (Reachable-IsSound sizes s r)

-- In every state that the service reaches, a recording is queued, or worked on, or done, at most
-- once in all; a bounded queue holds at most its capacity, and the completed ones fit their cache.
pub handled_once :
    (sizes : Sizes) (s : State) (i : ℕ)
    → Reachable sizes s
    → (copies i s + times_in i s.completed ≤ 1)
      × ((sizes.queue_capacity ≡ 0) ⊎ (length s.queue ≤ sizes.queue_capacity))
      × (length s.completed ≤ sizes.completed_cache_size)
handled_once sizes s i r =
    let v = Reachable-IsSound sizes s r in
    (
      ground (arith, v.active_once i, v.at_most_once i),
      bounded sizes.queue_capacity v.capacity,
      v.cache,
    )
  where
    bounded : (n : ℕ) → (0 < n → length s.queue ≤ n) → (n ≡ 0) ⊎ (length s.queue ≤ n)
    bounded zero _ = inl refl
    bounded (suc n) h = inr (h (omega arith))
