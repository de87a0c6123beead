-- ===== src/BodyLimit.antt =====
-- app/core/request_body_limit.py: `RequestBodyLimitMiddleware`. What the server sends is a list of
-- messages, as far as it has come; a byte is a number. `int` of the standard library is a
-- parameter.
pub mod Reference
mod Examples
use manaai.Prelude.{
  ℕ, zero, suc, ◌+◌, Option, none, some, List, [], ◌∷◌, ◌++◌, String, str_eq, Bool, true, false,
  not, ◌&&◌, ◌||◌, ltb, if◌then◌else◌, length, any,
}

-- `other` is a message that is no `http.request`, such as a disconnect.
pub data Message : Type 0 where
  request : (body : List ℕ) → (more_body : Bool) → Message
  other : Message

-- What `int` returns.
pub data ParsedInt : Type 0 where
  nonnegative negative : ℕ → ParsedInt

pub record Scope : Type 0 where
  pub kind : String
  pub path : Option String
  pub headers : List (String × String)

-- `max_body_bytes` and `paths`; no paths are all paths.
pub record Limit : Type 0 where
  pub max_body_bytes : ℕ
  pub paths : Option (List String)

-- The middleware answers 413 itself, forwards the request with the messages that the application
-- will receive, or still waits for a message.
pub data Answer : Type 0 where
  too_large waiting : Answer
  forwarded : List Message → Answer

-- The messages that are kept and those that were not yet received, of a body that was read whole.
pub data Drained : Type 0 where
  oversized starved : Drained
  buffered : List Message → List Message → Drained

unfoldable pub drain : ℕ → ℕ → List Message → List Message → Drained
drain max_body_bytes received messages [] = starved
drain max_body_bytes received messages (other ∷ incoming) =
    buffered (messages ++ other ∷ []) incoming
drain max_body_bytes received messages (request body more_body ∷ incoming) =
    let received_bytes = received + length body in
    let kept = messages ++ request body more_body ∷ [] in
    let next = drain max_body_bytes received_bytes kept incoming in
    if ltb max_body_bytes received_bytes
    then oversized
    else if more_body
    then next
    else buffered kept incoming

-- `replay_receive`: first what was kept, then what the server still sends.
abbrev pub replay_receive : List Message → List Message → List Message
replay_receive messages incoming = messages ++ incoming

abbrev pub replayed : Drained → Answer
replayed oversized = too_large
replayed starved = waiting
replayed (buffered messages incoming) = forwarded (replay_receive messages incoming)

abbrev pub declares_more : ℕ → Option ParsedInt → Bool
declares_more max_body_bytes none = false
declares_more max_body_bytes (some (negative n)) = false
declares_more max_body_bytes (some (nonnegative n)) = ltb max_body_bytes n

-- The path is one that the limit is for.
abbrev pub is_limited : Option (List String) → Option String → Bool
is_limited none path = true
is_limited (some paths) none = false
is_limited (some paths) (some path) = any (str_eq path) paths

module _ (int : String → Option ParsedInt) where
  -- `_content_length`: the first such header decides.
  unfoldable pub content_length : List (String × String) → Option ParsedInt
  content_length [] = none
  content_length ((name, value) ∷ headers) =
      let rest = content_length headers in if str_eq name "content-length" then int value else rest

  -- `__call__`.
  unfoldable pub call : Limit → Scope → List Message → Answer
  unfolding drain content_length
  call limit scope incoming =
      if not (str_eq scope.kind "http") || not (is_limited limit.paths scope.path)
      then forwarded incoming
      else if declares_more limit.max_body_bytes (content_length scope.headers)
      then too_large
      else replayed (drain limit.max_body_bytes 0 [] incoming)
