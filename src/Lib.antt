-- ===== src/Lib.antt =====
-- Pivotal, a multi-tenant payment adapter for Mojaloop: the core logic of its packages as
-- definitions, with what they guarantee.
--
-- A definition is named as in the source, in snake_case. Code that throws returns a `Result` with
-- the error it throws; code that reads and writes a store takes the store and returns the new
-- one. What comes from outside, such as the clock, hashes, random texts and readings of a device,
-- is an argument. One store stands for the primary database and its replica, and a handler runs
-- without another one in between; the components that work by interleaving (Pkcs11, Responses)
-- are steps on a state, taken in any order.
--
-- - Iam: packages/core/auth/domain. Iam has the tables and queries; Policy, Users and Sessions
--   have the policy service, the handlers on users, and the handlers on sessions with the guard
--   of packages/apps/web-pivotal/guards. Updating has what an update went through; Managers and
--   LastManager are about the last administrator, Scope about managers of one FSP, Rotation,
--   Deadline and Requests about refresh tokens, Lockout and SigningIn about signing in (the
--   database rounds the end of a lock to its column, by a function that the store has; other
--   times are kept in milliseconds), Revocation about access tokens. Roles has the handlers on
--   roles and the change of a password, AdminKeys and Granting are about them.
-- - Pkcs11: packages/shared/pkcs11/component/pkcs11-session-pool.ts, the pool of sessions of a
--   signing process. Fairness is about the queue of callers, Conservation about the sessions;
--   Tenants is the queue of withTenantLogin, Logins is about who is logged in, where a logout is
--   taken to succeed, and Stopping about a device that opens no session. The pool is not stopped
--   while callers come.
-- - Responses: packages/shared/fspiop/component/nats/fspiop-response-subscriber.ts with the
--   subjects of fspiop-pub-sub-subjects.ts beside it. Maps is the runtime's Map; Cache,
--   Overwriting, Starvation and Overtaking are about the cache and the waiters.
-- - Outbound: packages/core/outbound/domain, sending money. Parties has the data, Codes and
--   Errors have packages/shared/fspiop/exception, Checks the validators, Answers the mapper of
--   responses, Messages the requests to the hub. Redis has component/redis-client.ts over an
--   interface of Redis's commands with what is documented of them; Effects has the language of
--   the handlers, which read and write Redis, call others and throw, with all answers of others
--   as an argument; Steps the parts that the handlers share and Handlers the handlers of command.
--   Views and Runs have the abstract transfer and requests served one after the other; Triples,
--   Storing, Locking, Quoting, Transferring and Others reason about the handlers, AtMostOnce,
--   Exclusion, Monitoring and Translating about what they guarantee. The code of an error answer
--   of the hub is taken not to name a member that every object has. A command of Redis that
--   throws has done nothing, and a key that expires is an event between two requests.
-- - Fees: packages/shared/catalyst. Engine has the engine that adds up fees and writes them as
--   extensions, Validator the check against a policy, MockCalculator the calculator used without
--   a fee service; another calculator is an argument. Within is about what the engine accepts,
--   Sharing about the shares and their sum.
-- - Snowflake: packages/shared/snowflake/component/snowflake.ts. The readings of the clock that a
--   call takes are a list, so a wait has an end where the list has, and they are integers, so a
--   clock before BIG_BANG is covered; Order is about the ids, Waiting about when a call ends.
--   NodeId has how the number of the node is found, Pods what a stateful set gets; numbers that
--   are read from texts are rounded by an argument.
-- - Ulid: packages/shared/ulid/component/ulid.ts. A `bigint` is a number, the bytes of the
--   runtime are an argument; Texts is about comparing texts, Base32 about the characters, Order
--   about the ids.
-- - Text: the text operations of the runtime that the code calls, over UTF-16 code units.
--   Printing a number takes the number itself as fuel, which is enough since each round divides
--   by ten.
-- - Currencies: packages/shared/fspiop/component/fspiop-currencies.ts, the table of currencies
--   with their decimal places.
-- - Money: packages/shared/fspiop/component/fspiop-money.ts. Parsing reads texts built from
--   digits, Rounding states the modes by numbers, Exact compares `serialize` with exact
--   arithmetic, Nearest bounds its error, RoundTrip joins it with `deserialize`. A `number`
--   argument is a non-negative integer, a negative one or no integer.
--
-- Not modelled: HTTP clients, controllers, NATS and Redis connections, SQL text, logging and the
-- portal UI, which are input and output; the statistics and the inbound handlers.
pub mod Base
pub mod Text
pub mod Currencies
pub mod Money
pub mod Iam
pub mod Pkcs11
pub mod Responses
pub mod Outbound
pub mod Fees
pub mod Snowflake
pub mod Ulid
