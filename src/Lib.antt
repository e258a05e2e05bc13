-- ===== src/Lib.antt =====
-- The BFF of the Evirion engineering memory dashboard: what stands between a browser and the backend.
-- Paths are from the root of the repository.
--
-- A state-changing request passes src/server/actions/mutation-guard.ts, which checks its origin
-- (src/lib/security/request-origin.ts), asks the route for the binding that it expects, and verifies the
-- double-submit proof (src/lib/security/csrf.ts). A signed-in route takes the binding from the session,
-- which src/lib/auth/session-broker.ts reads from the chunked cookies of
-- src/lib/auth/session-cookies.ts. A command (src/server/actions/*-command.ts) then reads its fields,
-- asks the backend for the session context (src/server/adapters/console-api.ts), and pauses the mutation
-- in a signed cookie where the session is not fresh (src/lib/auth/reauthentication-state.ts). The routes
-- under src/app/api run a command each and call one operation of src/server/adapters. The step-up ceremony
-- (src/app/api/session/reauthentication) proves a second factor, has the backend consume a challenge, and
-- runs the paused mutation's route again, in process, with a request that it builds itself.
--
-- Files and what they model:
--   Policy        src/lib/auth/session-policy.ts
--   PreAuth       src/lib/auth/pre-auth-transaction.ts; Traces runs both operations in any order
--   Cookies       src/lib/auth/session-cookies.ts; Serialize and Parse are its two directions,
--                 RoundTrip, Sound and Capacity prove, Prefix has their lemmas
--   Session       src/lib/auth/session-broker.ts
--   Csrf          src/lib/security/csrf.ts; Verify and Bindings prove
--   Origin        src/lib/security/request-origin.ts
--   Guard         src/server/actions/mutation-guard.ts and session-csrf.ts
--   ConsoleApi    src/server/adapters/console-api.ts
--   Errors        src/lib/errors/console-errors.ts
--   Reauth        src/lib/auth/reauthentication-action-class.ts and the handlers of
--                 src/server/actions/reauthentication-replay.ts; State has the signed cookies and the
--                 freshness of src/lib/auth/reauthentication-state.ts and reauthentication-freshness.ts
--   Commands      src/server/actions/import-command.ts, membership-command.ts, repository-command.ts and
--                 knowledge-command.ts, and the step-up redirect of reauthentication-resume.ts
--   Adapters      the commands of imports.ts, knowledge.ts, repositories.ts and settings.ts of
--                 src/server/adapters, as the requests that they build
--   Routes        the command routes of src/app/api: imports, memory (with the reviews), settings and
--                 repositories; Dispatch is the handler of each path of the replay allowlist. Sending,
--                 Laws and Handled prove what is called, Carried, Paused and Replayable what is stored
--   Ceremony      replayPendingMutation of src/server/actions/reauthentication-replay.ts, the ways back of
--                 reauthentication-resume.ts, and begin, issue and complete of
--                 src/app/api/session/reauthentication
--   Proxy         src/proxy.ts: the renewal, the landing and the proofs
--   SignIn        src/app/api/auth/verify-otp with src/lib/auth/auth-outcome.ts; Checks has the
--                 lemmas of its single checks
--   SecondFactor  src/app/api/auth/mfa/challenge
--   Logout        src/app/api/auth/logout and sessions/revoke, with
--                 src/lib/auth/session-revocation.ts and pre-auth-cookies.ts; Removals writes out the
--                 names that are removed
--   Identity      src/lib/auth/identity-admission.ts
--   Landing       src/lib/auth/authenticated-landing.ts and idle-window.ts
--   Processing    src/lib/processing/sort.ts
--   Prelude       texts, lists, tests, UTF-8 lengths and JSON values that the others share
--   Examples      concrete runs
--
-- A text is the list of its UTF-16 units, and a cookie jar the list of its entries, in order. Numbers are
-- natural numbers: clocks, lengths and identifiers are, and no operation of them leaves the integers that
-- a double holds exactly. JSON numbers are natural numbers, as every number that this code writes is; a
-- forged cookie with a fraction or a negative number is outside the model. A subtraction that the source
-- clamps or compares over integers is written so that it agrees on natural numbers, with a comment. What
-- throws is an error value. The loops of the source are structural recursion or run on the number of
-- rounds that the source itself bounds (four chunks, twenty pages), so that no fuel is added.
--
-- WebCrypto's HMAC, the text form of JSON with base64url, URL and URLSearchParams, Date.parse, Number, the
-- generated validators, random values, clocks and the backend are parameters; where a result rests on what
-- they do, this is a named hypothesis of the theorem. Not modelled: user interface, read queries, the
-- Supabase client, generated code, tests and tools; the security headers, the other routes of the
-- sign-in, the GitHub routes and the navigation. The correlation and idempotency identifiers that the
-- server makes, and the response headers against caching, have no part in the model.
pub mod Adapters
pub mod Ceremony
pub mod Commands
pub mod ConsoleApi
pub mod Cookies
pub mod Csrf
pub mod Errors
pub mod Examples
pub mod Guard
pub mod Identity
pub mod Landing
pub mod Logout
pub mod Origin
pub mod Policy
pub mod PreAuth
pub mod Prelude
pub mod Processing
pub mod Proxy
pub mod Reauth
pub mod Routes
pub mod SecondFactor
pub mod Session
pub mod SignIn
