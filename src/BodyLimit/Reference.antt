-- ===== src/BodyLimit/Reference.antt =====
-- The middleware against a description that looks at the whole body at once.
use manaai.Prelude.{
  ℕ, ◌+◌, ◌≡◌, Option, List, [], ◌∷◌, ◌++◌, String, str_eq, Bool, true, false, ◌&&◌, ltb,
  if◌then◌else◌, length, arith, Bool-cases, inl, inr,
}
use mathlib.Core.List.{append_assoc}
use manaai.BodyLimit.{
  Message, request, other, ParsedInt, Scope, Limit, Answer, too_large, waiting, forwarded, drain,
  replayed, content_length, declares_more, is_limited, call,
}

-- The bytes of a body, up to its last message.
pub body_size : List Message → ℕ
body_size [] = 0
body_size (other ∷ messages) = 0
body_size (request body true ∷ messages) = length body + body_size messages
body_size (request body false ∷ messages) = length body

-- The last message of the body is there.
pub is_complete : List Message → Bool
is_complete [] = false
is_complete (other ∷ messages) = true
is_complete (request body true ∷ messages) = is_complete messages
is_complete (request body false ∷ messages) = true

-- What becomes of a body, by its size.
pub verdict : ℕ → List Message → Answer
unfolding body_size is_complete
verdict max_body_bytes incoming =
    if ltb max_body_bytes (body_size incoming)
    then too_large
    else if is_complete incoming
    then forwarded incoming
    else waiting

drain-verdict :
    (max received : ℕ) (messages incoming : List Message)
    → ltb max received ≡ false
    → replayed (drain max received messages incoming) ≡ (
        if ltb max (received + body_size incoming)
        then too_large
        else if is_complete incoming
        then forwarded (messages ++ incoming)
        else waiting)
unfolding drain body_size is_complete
drain-verdict max received messages [] h = ground (arith, h)
drain-verdict max received messages (other ∷ incoming) h =
    ground (arith, h, append_assoc messages (other ∷ []) incoming)
drain-verdict max received messages (request body false ∷ incoming) h =
    ground (arith, h, append_assoc messages (request body false ∷ []) incoming)
drain-verdict max received messages (request body true ∷ incoming) h =
    elim (Bool-cases (ltb max (received + length body))) [
      | inl over ↦ ground (arith, over)
      | inr fine ↦ ground (
        arith,
        fine,
        drain-verdict max (received + length body) (messages ++ request body true ∷ []) incoming
            fine,
        append_assoc messages (request body true ∷ []) incoming,
      )
    ]

-- A request that is not limited is forwarded as it comes. One that is limited is refused if it
-- declares too many bytes or its body has too many; else it waits for the end of the body, and is
-- then forwarded with exactly the messages that the server sent.
pub call_is_verdict :
    (int : String → Option ParsedInt) (limit : Limit) (scope : Scope) (incoming : List Message)
    → call int limit scope incoming ≡ (
        if str_eq scope.kind "http" && is_limited limit.paths scope.path
        then if declares_more limit.max_body_bytes (content_length int scope.headers)
          then too_large
          else verdict limit.max_body_bytes incoming
        else forwarded incoming)
unfolding call verdict
call_is_verdict int limit scope incoming =
    ground (arith, drain-verdict limit.max_body_bytes 0 [] incoming (ground arith))
