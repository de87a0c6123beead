-- ===== src/Audio/Urls/Accepted.antt =====
-- What the URLs of an accepted job are.
use manaai.Prelude.{
  ℕ, ◌≡◌, refl, sym, subst, subst₂, ap, ◌∙◌, Option, none, some, List, [], ◌∷◌, ◌++◌, true, false,
  ◌&&◌, ◌==◌, ◌⊎◌, inl, inr, arith, any, Bool-cases, length, length-append,
}
use manaai.Audio.Urls.{
  Text, SplitResult, text_eq, text_eq-≡, ends_with, dot, star, is_empty, normalize, matches,
  host_allowed, https, audios_path, moderation_suffix, expected_path, secure_url, Urls, UrlPolicy,
  validate_parsed, validate, SubmissionError,
}

-- What a pattern without its trailing dots permits: itself, or, after `*.`, what ends in the rest
-- with its dot.
pub data Permits (host : Text) : Text → Type 0 where
  exactly : Permits host host
  under :
      (labels domain : Text) → host ≡ labels ++ dot ∷ domain → Permits host (star ∷ dot ∷ domain)

-- A host that one of the patterns of a list permits.
pub data IsPermitted (lower : Text → Text) (host : Text) : List Text → Type 0 where
  by_first :
      {pattern : Text} {patterns : List Text}
      → Permits (normalize lower host) (normalize lower pattern)
      → IsPermitted lower host (pattern ∷ patterns)
  by_later :
      {pattern : Text} {patterns : List Text}
      → IsPermitted lower host patterns
      → IsPermitted lower host (pattern ∷ patterns)

ends_with-suffix :
    (suffix cs : Text) → ends_with suffix cs ≡ true → (labels : Text) × (cs ≡ labels ++ suffix)
unfolding ends_with
ends_with-suffix suffix [] h = ([], text_eq-≡ [] suffix h)
ends_with-suffix suffix (c ∷ cs) h = elim (Bool-cases (text_eq (c ∷ cs) suffix)) [
  | inl e ↦ ([], text_eq-≡ (c ∷ cs) suffix e)
  | inr e ↦
      let rest = ends_with-suffix suffix cs (ground (arith, h, e)) in
      (c ∷ rest.0, ap (λ t. c ∷ t) rest.1)
]

matches-Permits :
    (lower : Text → Text) (host pattern : Text)
    → matches lower host pattern ≡ true
    → Permits host pattern
unfolding matches
matches-Permits lower host [] h = subst (Permits host) (text_eq-≡ host [] h) exactly
matches-Permits lower host (c ∷ []) h = subst (Permits host) (text_eq-≡ host (c ∷ []) h) exactly
matches-Permits lower host (c ∷ d ∷ rest) h = elim (Bool-cases ((c == star) && (d == dot))) [
  | inl e ↦
      let c_star : c ≡ star = ground (arith, e) in
      let d_dot : d ≡ dot = ground (arith, e) in
      let found = ends_with-suffix (d ∷ rest) host (ground (arith, h, e)) in
      subst₂ (λ x y. Permits host (x ∷ y ∷ rest)) (sym c_star) (sym d_dot)
        (under found.0 rest (found.1 ∙ ap (λ x. found.0 ++ x ∷ rest) d_dot))
  | inr e ↦ subst (Permits host) (text_eq-≡ host (c ∷ d ∷ rest) (ground (arith, h, e))) exactly
]

any-IsPermitted :
    (lower : Text → Text) (host : Text) (patterns : List Text)
    → any (λ pattern. matches lower (normalize lower host) (normalize lower pattern)) patterns
      ≡ true
    → IsPermitted lower host patterns
any-IsPermitted lower host [] h = ground (arith, h)
any-IsPermitted lower host (pattern ∷ patterns) h =
    elim (Bool-cases (matches lower (normalize lower host) (normalize lower pattern))) [
      | inl e ↦ by_first (matches-Permits lower (normalize lower host) (normalize lower pattern) e)
      | inr e ↦ by_later (any-IsPermitted lower host patterns (ground (arith, h, e)))
    ]

host_allowed-IsPermitted :
    (lower : Text → Text) (hostname : Option Text) (patterns : List Text)
    → host_allowed lower hostname patterns ≡ true
    → (host : Text) × (hostname ≡ some host) × IsPermitted lower host patterns
unfolding host_allowed
host_allowed-IsPermitted lower none patterns h = ground (arith, h)
host_allowed-IsPermitted lower (some host) patterns h =
    (host, refl, any-IsPermitted lower host patterns h)

-- A URL over TLS, without credentials and without a fragment, at a host that the patterns permit.
abbrev pub IsAcceptable : (Text → Text) → List Text → SplitResult → Type 0
IsAcceptable lower patterns url =
    (url.scheme ≡ https)
    × (url.username ≡ none)
    × (url.password ≡ none)
    × ((url.port ≡ some none) ⊎ (url.port ≡ some (some 443)))
    × (is_empty url.fragment ≡ true)
    × ((host : Text) × (url.hostname ≡ some host) × IsPermitted lower host patterns)

-- What the tests on one URL passed together say.
secure_url-facts :
    (url : SplitResult) (parsed : SplitResult)
    → secure_url url ≡ inr parsed
    → (parsed ≡ url)
      × (text_eq url.scheme https ≡ true)
      × (url.username ≡ none)
      × (url.password ≡ none)
      × ((url.port ≡ some none) ⊎ (url.port ≡ some (some 443)))
      × (is_empty url.fragment ≡ true)
unfolding secure_url
secure_url-facts url parsed h = ground arith

secure_url-Acceptable :
    (lower : Text → Text) (patterns : List Text) (url parsed : SplitResult)
    → secure_url url ≡ inr parsed
    → host_allowed lower parsed.hostname patterns ≡ true
    → (parsed ≡ url) × IsAcceptable lower patterns url
secure_url-Acceptable lower patterns url parsed h allowed =
    let facts = secure_url-facts url parsed h in
    let host =
      host_allowed-IsPermitted lower url.hostname patterns (
        ap (λ (u : SplitResult). host_allowed lower u.hostname patterns) (sym facts.0) ∙ allowed) in
    (facts.0, (text_eq-≡ url.scheme https facts.1, facts.2, facts.3, facts.4, facts.5, host))

append_left_cancel : (p a b : Text) → p ++ a ≡ p ++ b → a ≡ b
append_left_cancel [] a b e = e
append_left_cancel (c ∷ p) a b e = append_left_cancel p a b (ground (arith, e))

append_right_cancel : (a b p : Text) → a ++ p ≡ b ++ p → a ≡ b
append_right_cancel [] [] p e = refl
append_right_cancel [] (d ∷ b) p e = ground (arith, ap length e, length-append b p)
append_right_cancel (c ∷ a) [] p e = ground (arith, ap length e, length-append a p)
append_right_cancel (c ∷ a) (d ∷ b) p e =
    let head : c ≡ d = ground (arith, e) in
    let tail : a ≡ b = append_right_cancel a b p (ground (arith, e)) in rw (head, tail) refl

-- The path determines the text of the id.
expected_path-injective :
    (str : ℕ → Text) (i j : ℕ) → expected_path str i ≡ expected_path str j → str i ≡ str j
expected_path-injective str i j e =
    append_right_cancel (str i) (str j) moderation_suffix
      (append_left_cancel audios_path (str i ++ moderation_suffix) (str j ++ moderation_suffix) e)

-- What the tests of `validate` on both URLs say, when none fails.
validate_parsed-facts :
    (lower : Text → Text) (str : ℕ → Text) (policy : UrlPolicy) (audio_id : ℕ)
    (audio callback : SplitResult)
    → validate_parsed lower str policy audio_id audio callback ≡ none
    → (host_allowed lower audio.hostname policy.allowed_audio_hosts ≡ true)
      × (host_allowed lower callback.hostname policy.allowed_callback_hosts ≡ true)
      × (is_empty audio.query ≡ false)
      × (is_empty callback.query ≡ true)
      × (text_eq callback.path (expected_path str audio_id) ≡ true)
unfolding validate_parsed
validate_parsed-facts lower str policy audio_id audio callback h = ground arith

validate-parsed :
    (lower : Text → Text) (str : ℕ → Text) (policy : UrlPolicy) (urls : Urls)
    → validate lower str policy urls ≡ none
    → (audio : SplitResult) × (callback : SplitResult) × (secure_url urls.audio_url ≡ inr audio)
      × (secure_url urls.callback_url ≡ inr callback)
      × (validate_parsed lower str policy urls.audio_id audio callback ≡ none)
unfolding validate
validate-parsed lower str policy urls h =
    go (secure_url urls.audio_url) (secure_url urls.callback_url) refl refl h
  where
    go :
        (a c : SubmissionError ⊎ SplitResult)
        → secure_url urls.audio_url ≡ a
        → secure_url urls.callback_url ≡ c
        → (elim a [
          | inl e ↦ some e
          | inr audio ↦ elim c [
            | inl e ↦ some e
            | inr callback ↦ validate_parsed lower str policy urls.audio_id audio callback
          ]
        ])
          ≡ none
        → (audio : SplitResult) × (callback : SplitResult) × (secure_url urls.audio_url ≡ inr audio)
          × (secure_url urls.callback_url ≡ inr callback)
          × (validate_parsed lower str policy urls.audio_id audio callback ≡ none)
    go (inl e) c ea ec g = ground (arith, g)
    go (inr audio) (inl e) ea ec g = ground (arith, g)
    go (inr audio) (inr callback) ea ec g = (audio, callback, ea, ec, g)

-- A job whose URLs pass has both over TLS, without credentials or fragment, at hosts that the two
-- lists permit; its audio URL has a query; its callback URL has none, and its path is the one of the
-- job's `audio_id`, which is the path of another id only if the texts of the two are the same.
pub accepted_urls :
    (lower : Text → Text) (str : ℕ → Text) (policy : UrlPolicy) (urls : Urls)
    → validate lower str policy urls ≡ none
    → IsAcceptable lower policy.allowed_audio_hosts urls.audio_url
      × IsAcceptable lower policy.allowed_callback_hosts urls.callback_url
      × (is_empty urls.audio_url.query ≡ false)
      × (is_empty urls.callback_url.query ≡ true)
      × (urls.callback_url.path ≡ expected_path str urls.audio_id)
      × ((other : ℕ)
          → urls.callback_url.path ≡ expected_path str other
          → str other ≡ str urls.audio_id)
accepted_urls lower str policy urls h =
    let parts = validate-parsed lower str policy urls h in
    let audio = parts.0 in
    let callback = parts.1 in
    let facts = validate_parsed-facts lower str policy urls.audio_id audio callback parts.4 in
    let a =
      secure_url-Acceptable lower policy.allowed_audio_hosts urls.audio_url audio parts.2 facts.0 in
    let c =
      secure_url-Acceptable lower policy.allowed_callback_hosts urls.callback_url callback parts.3
        facts.1 in
    let path =
      ap (λ (u : SplitResult). u.path) (sym c.0)
      ∙ text_eq-≡ callback.path (expected_path str urls.audio_id) facts.4 in
    (
      a.1,
      c.1,
      ap (λ (u : SplitResult). is_empty u.query) (sym a.0) ∙ facts.2,
      ap (λ (u : SplitResult). is_empty u.query) (sym c.0) ∙ facts.3,
      path,
      λ other e. expected_path-injective str other urls.audio_id (sym e ∙ path),
    )
