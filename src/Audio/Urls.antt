-- ===== src/Audio/Urls.antt =====
-- `AudioModerationURLPolicy`, `_secure_url` and `_host_allowed`. A text is the list of its code
-- points; `urlsplit`, `str.lower` and the text of an integer are the interpreter's.
pub mod Accepted
use manaai.Prelude.{
  ℕ, zero, suc, ◌≡◌, refl, Option, none, some, List, [], ◌∷◌, ◌++◌, Bool, true, false, not, ◌&&◌,
  ◌||◌, ◌==◌, if◌then◌else◌, ◌⊎◌, inl, inr, arith, any, is_some,
}

abbrev pub Text : Type 0
Text = List ℕ

-- What `urlsplit` returns; `port` is `none` where reading it raises `ValueError`.
pub record SplitResult : Type 0 where
  pub scheme : Text
  pub username : Option Text
  pub password : Option Text
  pub hostname : Option Text
  pub port : Option (Option ℕ)
  pub path : Text
  pub query : Text
  pub fragment : Text

-- The errors of a submission, by their message.
pub data SubmissionError : Type 0 where
  port_invalid not_public_https host_not_allowed not_presigned has_query_or_fragment path_mismatch :
      SubmissionError

abbrev pub is_empty : Text → Bool
is_empty [] = true
is_empty (c ∷ cs) = false

unfoldable pub text_eq : Text → Text → Bool
text_eq [] [] = true
text_eq [] (d ∷ ds) = false
text_eq (c ∷ cs) [] = false
text_eq (c ∷ cs) (d ∷ ds) = (c == d) && text_eq cs ds

pub text_eq-≡ : (cs ds : Text) → text_eq cs ds ≡ true → cs ≡ ds
unfolding text_eq
text_eq-≡ [] [] h = refl
text_eq-≡ [] (d ∷ ds) h = ground arith
text_eq-≡ (c ∷ cs) [] h = ground arith
text_eq-≡ (c ∷ cs) (d ∷ ds) h =
    let head : c ≡ d = ground (arith, h) in
    let tail : cs ≡ ds = text_eq-≡ cs ds (ground (arith, h)) in rw (head, tail) refl

-- `str.endswith`.
unfoldable pub ends_with : Text → Text → Bool
unfolding text_eq
ends_with suffix [] = text_eq [] suffix
ends_with suffix (c ∷ cs) = text_eq (c ∷ cs) suffix || ends_with suffix cs

-- The code points of `https`.
abbrev pub https : Text
https = 104 ∷ 116 ∷ 116 ∷ 112 ∷ 115 ∷ []

-- The code points of `.` and `*`.
abbrev pub dot : ℕ
dot = 46

abbrev pub star : ℕ
star = 42

-- The code points of `/api/v1/child/audios/`.
abbrev pub audios_path : Text
audios_path =
    47 ∷ 97 ∷ 112 ∷ 105 ∷ 47 ∷ 118 ∷ 49 ∷ 47 ∷ 99 ∷ 104 ∷ 105 ∷ 108 ∷ 100 ∷ 47 ∷ 97 ∷ 117 ∷ 100
    ∷ 105 ∷ 111 ∷ 115 ∷ 47 ∷ []

-- The code points of `/moderation/`.
abbrev pub moderation_suffix : Text
moderation_suffix = 47 ∷ 109 ∷ 111 ∷ 100 ∷ 101 ∷ 114 ∷ 97 ∷ 116 ∷ 105 ∷ 111 ∷ 110 ∷ 47 ∷ []

-- `rstrip(".")`.
unfoldable pub strip_dots : Text → Text
strip_dots [] = []
strip_dots (c ∷ cs) =
    let rest = strip_dots cs in if is_empty rest && (c == dot) then [] else c ∷ rest

module _ (lower : Text → Text) where
  abbrev pub normalize : Text → Text
  normalize host = lower (strip_dots host)

  -- One pattern, in the way the loop of `_host_allowed` reads it.
  unfoldable pub matches : Text → Text → Bool
  matches normalized [] = text_eq normalized []
  matches normalized (c ∷ []) = text_eq normalized (c ∷ [])
  matches normalized (c ∷ d ∷ rest) =
      if (c == star) && (d == dot)
      then ends_with (d ∷ rest) normalized && not (text_eq normalized rest)
      else text_eq normalized (c ∷ d ∷ rest)

  -- `_host_allowed`.
  unfoldable pub host_allowed : Option Text → List Text → Bool
  unfolding matches
  host_allowed none patterns = false
  host_allowed (some host) patterns =
      any (λ pattern. matches (normalize host) (normalize pattern)) patterns

-- The test of `_secure_url` on a URL whose port could be read.
abbrev pub is_public_https : SplitResult → Option ℕ → Bool
is_public_https parsed port =
    text_eq parsed.scheme https
    && is_some parsed.hostname
    && not (is_some parsed.username)
    && not (is_some parsed.password)
    && elim port [ none ↦ true | some p ↦ p == 443 ]
    && is_empty parsed.fragment

unfoldable pub secure_url : SplitResult → SubmissionError ⊎ SplitResult
secure_url parsed = elim parsed.port [
  | none ↦ inl port_invalid
  | some port ↦ if is_public_https parsed port then inr parsed else inl not_public_https
]

-- The job's URLs, as `urlsplit` reads them.
pub record Urls : Type 0 where
  pub audio_url : SplitResult
  pub callback_url : SplitResult
  pub audio_id : ℕ

pub record UrlPolicy : Type 0 where
  pub allowed_audio_hosts : List Text
  pub allowed_callback_hosts : List Text

-- `f"/api/v1/child/audios/{job.audio_id}/moderation/"`, for the text of an integer.
abbrev pub expected_path : (ℕ → Text) → ℕ → Text
expected_path str audio_id = audios_path ++ str audio_id ++ moderation_suffix

module _ (lower : Text → Text) (str : ℕ → Text) where
  -- The tests of `validate` after both URLs were found secure; `none` is no error.
  unfoldable pub validate_parsed :
      UrlPolicy → ℕ → SplitResult → SplitResult → Option SubmissionError
  unfolding host_allowed
  validate_parsed policy audio_id audio callback =
      if not (host_allowed lower audio.hostname policy.allowed_audio_hosts)
      then some host_not_allowed
      else if not (host_allowed lower callback.hostname policy.allowed_callback_hosts)
      then some host_not_allowed
      else if is_empty audio.query
      then some not_presigned
      else if not (is_empty callback.query) || not (is_empty callback.fragment)
      then some has_query_or_fragment
      else if not (text_eq callback.path (expected_path str audio_id))
      then some path_mismatch
      else none

  unfoldable pub validate : UrlPolicy → Urls → Option SubmissionError
  unfolding validate_parsed secure_url
  validate policy urls = elim (secure_url urls.audio_url) [
    | inl e ↦ some e
    | inr audio ↦ elim (secure_url urls.callback_url) [
      | inl e ↦ some e
      | inr callback ↦ validate_parsed policy urls.audio_id audio callback
    ]
  ]
