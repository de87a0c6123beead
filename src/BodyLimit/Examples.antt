-- ===== src/BodyLimit/Examples.antt =====
-- The middleware at concrete requests.
use manaai.Prelude.{
  ◌≡◌, refl, ◌&&◌, if◌then◌else◌, Option, none, some, List, [], ◌∷◌, String, str_eq, true, false,
}
use manaai.BodyLimit.{
  Message, request, ParsedInt, nonnegative, Scope, Limit, too_large, forwarded, is_limited,
  declares_more, content_length, call,
}
use manaai.BodyLimit.Reference.{verdict, call_is_verdict}

abbrev int : String → Option ParsedInt
int text = if str_eq text "9" then some (nonnegative 9) else none

abbrev scope : Scope
scope = record { kind = "http"; path = some "/upload"; headers = ("content-length", "x") ∷ [] }

abbrev limit : Limit
limit = record { max_body_bytes = 3; paths = none }

abbrev chunks : List Message
chunks = request (1 ∷ 2 ∷ []) true ∷ request (3 ∷ 4 ∷ []) false ∷ []

too_long : call int limit scope chunks ≡ too_large
unfolding call
too_long = refl

call_is_verdict_example : call int limit scope chunks ≡ (
    if str_eq "http" "http" && is_limited none (some "/upload")
    then if declares_more 3 (content_length int (("content-length", "x") ∷ []))
      then too_large
      else verdict 3 chunks
    else forwarded chunks)
call_is_verdict_example = call_is_verdict int limit scope chunks
