-- ===== src/RateLimit/Examples.antt =====
-- The two limiters at concrete inputs.
use manaai.Prelude.{ℕ, ◌*◌, ◌≤◌, ◌≡◌, refl, List, [], ◌∷◌, String, true, false, arith, count, map}
use manaai.RateLimit.Window.{ticks_per_second}
use manaai.RateLimit.Request.{init, allowed, over_budget}
use manaai.RateLimit.Request.Reference.{
  Chronological, replies, is_allowed, decisions, limiter_is_reference,
}
use manaai.RateLimit.Request.Budget.{in_stretch, admitted_log, budget_is_kept}
use manaai.RateLimit.Failures
use manaai.RateLimit.Failures.{Event, fails, clears, blocks, expected_blocks, blocks_are_expected}

abbrev requests : List (String × ℕ)
requests = ("a", 1) ∷ ("a", 2) ∷ ("b", 3) ∷ ("a", 4) ∷ ("a", 1000000003) ∷ []

in_order : Chronological 0 requests
in_order = ground arith

-- The third request of one second is refused, and the first of the next is not.
replies_test :
    replies (init 2 1) requests ≡ allowed ∷ allowed ∷ allowed ∷ over_budget 1 ∷ allowed ∷ []
unfolding replies init manaai.RateLimit.Request.consume
replies_test = refl

limiter_is_reference_example :
    map is_allowed (replies (init 2 1) requests) ≡ decisions 2 (1 * ticks_per_second) [] requests
limiter_is_reference_example = limiter_is_reference 2 1 requests in_order

budget_is_kept_example :
    count (in_stretch (1 * ticks_per_second) "a" 9) (admitted_log (init 2 1) [] requests) ≤ 2
budget_is_kept_example = budget_is_kept 2 1 requests "a" 9 in_order

abbrev events : List Event
events = fails "a" 1 ∷ fails "a" 2 ∷ clears "a" ∷ fails "a" 3 ∷ []

blocks_are_expected_example :
    blocks (Failures.init 2 1) events ≡ expected_blocks 2 (1 * ticks_per_second) [] events
blocks_are_expected_example = blocks_are_expected 2 1 events (ground arith)

blocks_test : blocks (Failures.init 2 1) events ≡ false ∷ true ∷ false ∷ []
unfolding blocks Failures.init Failures.record_failure Failures.clear
blocks_test = refl
