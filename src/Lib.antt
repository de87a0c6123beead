-- ===== src/Lib.antt =====
-- A verification library for manaai, a backend that runs operation agents under the control of
-- administrators. The parts that are modelled, and where:
--
--   * app/mana_operation_ai/domain/enums.py and domain/state_machine.py are Domain/Enums and
--     Domain/StateMachine: the four transition tables, `require_transition`, and histories of
--     statuses that pass it (`Follows`).
--   * app/core/rate_limiter.py is RateLimit/Request and app/core/auth_rate_limiter.py is
--     RateLimit/Failures; what both do to a deque is RateLimit/Window. The references that they
--     are compared with keep a log of all that was admitted (RateLimit/Log).
--   * app/mana_operation_ai/domain/auth.py is Auth/Model.
--   * app/mana_operation_ai/infrastructure/persistence/auth_repository.py is Auth/Store and its
--     children: the tables are the record `Db` of lists of rows, and each transaction is a
--     function from tables to a result and tables. `Auth.Transactions` lists them as a step
--     relation; the database runs them one after the other.
--   * app/mana_operation_ai/application/auth_service.py is Auth/Service and its children: each
--     method is a program over `State`, the tables and a count of the uses of the ports. What a
--     method wrote before it raises stays written.
--   * app/mana_operation_ai/application/action_lifecycle.py is Lifecycle/Service, Lifecycle/Execute
--     and Lifecycle/Approve, on the tables of infrastructure/persistence/repository.py in
--     Lifecycle/Store. The executors of the providers (application/action_executors.py) and the
--     policies are interfaces: records of functions. A list of the writes that were sent is part of
--     the state.
--   * app/mana_operation_ai/application/policy.py and application/action_policies.py are Policy: the
--     recommendations and configurations in Policy/Model, the bounds of a budget in Policy/Budget, what
--     is read of the tables in Policy/Activity, the two policies in Policy/Advertising and
--     Policy/Growth.
--   * app/mana_ai/application/audio_moderation.py and domain/audio_moderation.py are Audio: what
--     becomes of a job, the queue as a step relation (Audio/Queue), the check of the URLs (Audio/Urls).
--   * app/core/request_body_limit.py is BodyLimit, and BodyLimit/Reference what it is compared with.
--   * app/mana_operation_ai/application/agent_service.py and application/registry.py are Runs: the run
--     table in Runs/Store, `run_now` in Runs/RunNow. What an agent does in a run is a function.
--   * app/mana_operation_ai/application/scheduling.py is Schedule, and the claims of schedules of the
--     repository are Schedule/Claims.
--   * app/mana_ai/application/policy.py is Assistant: the input as a tree of values in
--     Assistant/Model, what it mentions in Assistant/Targets, the filter in Assistant/Policy.
--
-- The services call the repositories, and the repositories alone write the tables; the state
-- machine is pure. Data: a UUID and a hexadecimal digest are the numbers that they spell; an
-- instant counts microseconds from `datetime.min` (nanoseconds of the monotonic clock in the
-- limiters), with `now - window` written as a sum on the other side of a comparison. The clock,
-- new ids, random codes and tokens, the HMAC, the Telegram sender, the executors and the policies
-- are functions that a record (`Service`) gives, the n-th use of any of them at n; nothing is
-- asked of them. So are `urlsplit`, `str.lower`, `int`, `str`, the zones and cron expressions, and
-- the quotient of two decimals; of the quotient alone something is asked, that it is off by less
-- than a unit of the limits (`IsCloseQuotient`), as one that is rounded to 28 digits is. Loops are
-- recursion on lists, and the attempts at a verification and the minutes that the schedule tries
-- are recursion on their number, which the source bounds; no definition needs other fuel.
--
-- Not modelled: the foreign keys, but for that of a one-time code to its user; the cancellation of
-- a request, but for that of a run in its agent; the locks of asyncio (the code under them has no
-- wait in the limiters; in the service they order the requests of one Telegram identity), the SQL
-- of the listings, the length bounds of texts, the schemas and routers of the API, the adapters of
-- providers, the agents for marketing, retention and growth, the rest of the Mana AI assistant,
-- the scheduler and the administration of agents, and the front end.
pub mod Prelude
pub mod Domain
pub mod RateLimit
pub mod Auth
pub mod Lifecycle
pub mod BodyLimit
pub mod Audio
pub mod Policy
pub mod Schedule
pub mod Runs
pub mod Assistant
