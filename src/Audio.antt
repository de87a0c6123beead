-- ===== src/Audio.antt =====
-- app/mana_ai/domain/audio_moderation.py and application/audio_moderation.py: the moderation of a
-- child's audio recordings. A confidence counts units of a fixed fraction and an instant of the
-- monotonic clock counts nanoseconds, since the code only compares them.
pub mod Urls
pub mod Queue
mod Examples
use manaai.Prelude.{
  ℕ, ◌-◌, ◌≤◌, ◌<◌, ◌≡◌, refl, String, Bool, true, false, not, ◌&&◌, ◌||◌, ltb, leb, if◌then◌else◌,
  arith, Bool-cases, inl, inr, ◌⊎◌,
}
use Prim.Native.String

pub data AudioRiskCategory : Type 0 where
  safe no_speech threat_or_violence abuse_or_coercion sexual_risk self_harm : AudioRiskCategory
  weapons_drugs_or_crime bullying_or_extortion medical_emergency : AudioRiskCategory
  suspicious_contact other_child_safety_risk uncertain : AudioRiskCategory

pub data AudioRiskSeverity : Type 0 where
  none low medium high critical : AudioRiskSeverity

-- `approved` audio is shown to the parent, `rejected` audio is not.
pub data AudioModerationCallbackStatus : Type 0 where
  approved rejected : AudioModerationCallbackStatus

pub record AudioRiskAssessment : Type 0 where
  pub category : AudioRiskCategory
  pub severity : AudioRiskSeverity
  pub confidence : ℕ

pub record AudioModerationCallback : Type 0 where
  pub status : AudioModerationCallbackStatus
  pub reason : String

abbrev pub category_value : AudioRiskCategory → String
category_value safe = "safe"
category_value no_speech = "no_speech"
category_value threat_or_violence = "threat_or_violence"
category_value abuse_or_coercion = "abuse_or_coercion"
category_value sexual_risk = "sexual_risk"
category_value self_harm = "self_harm"
category_value weapons_drugs_or_crime = "weapons_drugs_or_crime"
category_value bullying_or_extortion = "bullying_or_extortion"
category_value medical_emergency = "medical_emergency"
category_value suspicious_contact = "suspicious_contact"
category_value other_child_safety_risk = "other_child_safety_risk"
category_value uncertain = "uncertain"

abbrev pub severity_value : AudioRiskSeverity → String
severity_value none = "none"
severity_value low = "low"
severity_value medium = "medium"
severity_value high = "high"
severity_value critical = "critical"

abbrev pub is_quiet : AudioRiskCategory → Bool
is_quiet safe = true
is_quiet no_speech = true
is_quiet _ = false

abbrev quiet_reason : AudioRiskCategory → String
quiet_reason no_speech = "no_speech_detected"
quiet_reason _ = "no_child_safety_risk_detected"

abbrev review_reason : AudioRiskAssessment → String
review_reason assessment = elim assessment.category [
  | uncertain ↦ "manual_review_required:audio_could_not_be_confidently_classified"
  | safe ↦ "manual_review_required:low_confidence_safe_classification"
  | no_speech ↦ "manual_review_required:low_confidence_safe_classification"
  | threat_or_violence ↦ risk_reason
  | abuse_or_coercion ↦ risk_reason
  | sexual_risk ↦ risk_reason
  | self_harm ↦ risk_reason
  | weapons_drugs_or_crime ↦ risk_reason
  | bullying_or_extortion ↦ risk_reason
  | medical_emergency ↦ risk_reason
  | suspicious_contact ↦ risk_reason
  | other_child_safety_risk ↦ risk_reason
]
  where
    risk_reason : String
    risk_reason = String.◌++◌ "child_safety_risk:" (
        String.◌++◌ (category_value assessment.category)
          (String.◌++◌ ":" (severity_value assessment.severity)))

-- `_to_callback`.
unfoldable pub to_callback : AudioRiskAssessment → ℕ → AudioModerationCallback
to_callback assessment safe_confidence_threshold =
    if is_quiet assessment.category && leb safe_confidence_threshold assessment.confidence
    then record { status = rejected; reason = quiet_reason assessment.category }
    else record { status = approved; reason = review_reason assessment }

-- What fetching and analysing a recording comes to.
pub data Analysis : Type 0 where
  assessed : AudioRiskAssessment → Analysis
  unprocessable failed : Analysis

-- The assessment that stands in for a recording that could not be processed.
abbrev pub unprocessable_assessment : AudioRiskAssessment
unprocessable_assessment = record { category = uncertain; severity = high; confidence = 0 }

-- What `_process` does: it raises, or sends a callback, which can raise.
pub data Processed : Type 0 where
  expired not_analysed : Processed
  sent undelivered : AudioModerationCallback → Processed

abbrev pub deliver : Bool → AudioModerationCallback → Processed
deliver true callback = sent callback
deliver false callback = undelivered callback

-- `_process`: the analysis, and whether the backend takes a callback, are what the ports answer.
unfoldable pub process : ℕ → ℕ → ℕ → ℕ → Analysis → (AudioModerationCallback → Bool) → Processed
unfolding to_callback
process max_queue_delay safe_confidence_threshold enqueued_at now analysis accepts =
    if ltb max_queue_delay (now - enqueued_at) then expired else elim analysis [
      | failed ↦ not_analysed
      | unprocessable ↦
          let callback = to_callback unprocessable_assessment safe_confidence_threshold in
          deliver (accepts callback) callback
      | assessed assessment ↦
          let callback = to_callback assessment safe_confidence_threshold in
          deliver (accepts callback) callback
    ]

to_callback-rejected :
    (assessment : AudioRiskAssessment) (threshold : ℕ)
    → (to_callback assessment threshold).status ≡ rejected
    → (is_quiet assessment.category ≡ true) × (threshold ≤ assessment.confidence)
unfolding to_callback
to_callback-rejected assessment threshold h = ground arith

-- A callback hides a recording from the parent only after an analysis found it safe, or without
-- speech, at the threshold at least, and the recording had not waited too long.
pub withheld_only_if_quiet :
    (max_queue_delay threshold enqueued_at now : ℕ) (analysis : Analysis)
    (accepts : AudioModerationCallback → Bool) (callback : AudioModerationCallback)
    → process max_queue_delay threshold enqueued_at now analysis accepts ≡ sent callback
    → callback.status ≡ rejected
    → (now - enqueued_at ≤ max_queue_delay)
      × ((assessment : AudioRiskAssessment) × (analysis ≡ assessed assessment)
          × (is_quiet assessment.category ≡ true)
          × (threshold ≤ assessment.confidence))
unfolding process
withheld_only_if_quiet max threshold enqueued_at now failed accepts callback e r = ground arith
withheld_only_if_quiet max threshold enqueued_at now unprocessable accepts callback e r =
    ground (arith, to_callback-rejected unprocessable_assessment threshold)
withheld_only_if_quiet max threshold enqueued_at now (assessed assessment) accepts callback e r =
    let risky = to_callback-rejected assessment threshold in
    (ground arith, (assessment, refl, ground (arith, risky), ground (arith, risky)))
