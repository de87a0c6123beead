-- ===== src/Audio/Examples.antt =====
-- The moderation at concrete jobs.
use manaai.Prelude.{ℕ, ◌+◌, ◌≡◌, ◌≤◌, ◌⊎◌, refl, none, some, List, [], ◌∷◌, true, false}
use manaai.Audio.{
  assessed, AudioRiskAssessment, no_speech, AudioModerationCallback, rejected, sent, process,
  to_callback, withheld_only_if_quiet, Analysis, is_quiet,
}
use manaai.Audio.{none as no_severity}
use manaai.Audio.Queue.{
  QueuedJob, State, Sizes, start, submit, take, finish, remember_completed, shrink, Reachable, here,
  next, starts, submits, takes, finishes,
}
use manaai.Audio.Queue.Invariant.{copies, times_in, handled_once}
use manaai.Audio.Urls.{SplitResult, Urls, UrlPolicy, Text, is_empty, https, expected_path, validate}
use manaai.Audio.Urls.Accepted.{IsAcceptable, accepted_urls}

abbrev calm : AudioRiskAssessment
calm = record { category = no_speech; severity = no_severity; confidence = 95 }

abbrev hidden : AudioModerationCallback
hidden = record { status = rejected; reason = "no_speech_detected" }

withheld_only_if_quiet_example :
    (20 ≤ 30)
    × ((assessment : AudioRiskAssessment) × (assessed calm ≡ assessed assessment)
        × (is_quiet assessment.category ≡ true)
        × (90 ≤ assessment.confidence))
unfolding process to_callback
withheld_only_if_quiet_example =
    withheld_only_if_quiet 30 90 5 25 (assessed calm) (λ _. true) hidden refl refl

abbrev sizes : Sizes
sizes = record { queue_capacity = 2; completed_cache_size = 1 }

abbrev job : ℕ → QueuedJob
job i = record { audio_id = i; enqueued_at = 0 }

-- Recording 7 is done, 8 is worked on and 9 is queued.
abbrev busy : State
busy = record {
  is_running = true;
  queue = job 9 ∷ [];
  in_flight = job 8 ∷ [];
  active = 8 ∷ 9 ∷ [];
  completed = 7 ∷ [];
}

busy_reached : Reachable sizes busy
unfolding start submit take finish remember_completed shrink
busy_reached =
    next
      (next
        (next
          (next
            (next (next (next here (starts refl)) (submits (job 7) refl))
              (takes [] [] (job 7) refl refl))
            (submits (job 8) refl))
          (finishes 7 true refl refl))
        (takes [] [] (job 8) refl refl))
      (submits (job 9) refl)

handled_once_example :
    (copies 8 busy + times_in 8 (7 ∷ []) ≤ 1) × ((sizes.queue_capacity ≡ 0) ⊎ (1 ≤ 2)) × (1 ≤ 1)
handled_once_example = handled_once sizes busy 8 busy_reached

abbrev url : Text → Text → SplitResult
url path query = record {
  scheme = https;
  username = none;
  password = none;
  hostname = some (1 ∷ 46 ∷ 2 ∷ []);
  port = some none;
  path = path;
  query = query;
  fragment = [];
}

-- Of an id below ten, the digit.
abbrev str : ℕ → Text
str i = (48 + i) ∷ []

abbrev hosts : List Text
hosts = (42 ∷ 46 ∷ 2 ∷ []) ∷ []

abbrev policy : UrlPolicy
policy = record { allowed_audio_hosts = hosts; allowed_callback_hosts = hosts }

abbrev urls : Urls
urls = record {
  audio_url = url [] (1 ∷ []);
  callback_url = url (expected_path str 7) [];
  audio_id = 7;
}

accepted_urls_example :
    IsAcceptable (λ t. t) hosts (url [] (1 ∷ []))
    × IsAcceptable (λ t. t) hosts (url (expected_path str 7) [])
    × (false ≡ false)
    × (true ≡ true)
    × (urls.callback_url.path ≡ expected_path str 7)
    × ((other : ℕ) → urls.callback_url.path ≡ expected_path str other → str other ≡ str 7)
unfolding validate manaai.Audio.Urls.text_eq manaai.Audio.Urls.strip_dots
    manaai.Audio.Urls.ends_with
accepted_urls_example = accepted_urls (λ t. t) str policy urls refl
