-- ===== src/Lib.antt =====
-- The Manglam society management program: a model of its domain rules, its authorisation, the services
-- of its API that keep sessions and journal mutations, and the worker that empties the outbox.
--
-- The program runs a housing society. Its API, worker and apps keep records (visits, complaints,
-- parcels, payments and so on) and share the packages that decide what may happen to a record:
-- packages/domain holds a function for each kind of record that takes a command (the record's state,
-- the state wanted, and what is known of the actor) and returns the transition or an error, and
-- packages/permissions decides whether an actor may act on a resource at all. These are pure
-- functions, and they are modelled here as functions. `live` of Domain/StateMachine/Lives.antt is the life
-- of a record that is moved by such a function alone, each accepted transition being stored and
-- nothing of a refused one. Of the transition functions the services call only that of memberships
-- (membership.service.ts), and beside it verifyOtpChallenge (auth.service.ts): operations.service.ts
-- moves complaints by a table of its own, and no service yet moves visits, approvals, parcels and so
-- on.
--
-- In apps/api every mutation goes through a journal: it claims an idempotency key, does its work and,
-- in one transaction, writes an audit entry, an event for the worker (a row of outbox_events) and the
-- answer that a repeated request gets. The rotation of refresh tokens is such a mutation, and it is
-- modelled as a whole, with its limits on attempts and its journal. In apps/worker a poll leases events
-- from the outbox, hands each to a handler and completes or fails it; any number of workers share the
-- table.
--
-- Which file models what:
--   Prelude.antt, Prelude/     names that are shared, Boolean tests and lists over the native numbers.
--   Js.antt, Js/               what the program takes of JavaScript: numbers (Number.isSafeInteger),
--                              texts (UTF-16 length, trim), Date.parse on the formats of ECMA-262, sets.
--   Types.antt, Types/         packages/types/src: the enumerations (enums.ts), and in Errors.antt
--                              ApiErrorCode, DomainError, Result (api.ts) and StateTransition
--                              (contracts.ts).
--   Domain/StateMachine.antt   packages/domain/src/state-machine.ts: canTransition, applyTransition,
--                              hasRequiredText.
--   Domain/Visit.antt          packages/domain/src/visitor.ts: transitionVisit and isLongVisit.
--   Domain/Approval.antt       visitor.ts: decideVisitApproval and transitionPreApproval.
--   Domain/Complaint.antt      complaint.ts: transitionComplaint.
--   Domain/DailyHelp.antt      daily-help.ts: transitionDailyHelp and transitionAttendance.
--   Domain/Emergency.antt      emergency.ts: transitionEmergency.
--   Domain/Membership.antt     membership.ts: transitionMembership and isMembershipEffective.
--   Domain/Parcel.antt         parcel.ts: transitionParcel.
--   Domain/Payment.antt        payment.ts: transitionPayment and deriveMaintenanceChargeStatus;
--   Domain/Payment/Allocation.antt   allocatePaymentOldestFirst: its checks, its sort and its loop.
--   Domain/Codes.antt          codes.ts: digestSecret, constantTimeDigestEqual and verifySecret;
--                              Digests says which texts are the same digest.
--   Domain/Otp.antt            otp.ts: verifyOtpChallenge, evaluateOtpResend and
--                              validateOtpProviderForEnvironment.
--   Domain/Notification.antt   notifications.ts: the rules, resolveNotificationDelivery and
--                              notificationRetryDelayMs.
--   Domain/Json.antt           offline-sync.ts: canonicalJson.
--   Domain/OfflineSync.antt    offline-sync.ts: hashCanonicalPayload, signOfflineMutation,
--                              evaluateOfflineMutation and evaluateIdempotency.
--   Permissions/Catalog.antt   packages/permissions/src/catalog.ts: roles, scopes, actions.
--   Permissions/Policies.antt  policies.ts: grant, merge and the policy of each role.
--   Permissions/Authorize.antt authorize.ts: scopeMatches, effectiveScopes, authorize and
--                              canAssignRole; its children say where a scope comes from (Loops, Scopes),
--                              what an allowed request shows (Laws) and what that means for the
--                              assignment of roles and for residents (Roles).
--   Api/Errors.antt            apps/api/src/common/http/api-error.ts, and what a transaction gives.
--   Api/Attempts.antt          apps/api/src/modules/auth/credential-attempt.service.ts: allowed, record;
--                              Limits has the log that services leave which ask first.
--   Api/Digests.antt           apps/api/src/modules/security: secrets.ts, secret-digest.service.ts.
--   Api/Journal.antt           apps/api/src/modules/platform/mutation-journal.service.ts: begin, with the
--                              key's form of packages/validation/src/common.ts. Claims, Turns and
--                              Exclusion follow a key over the claims and commits of many requests.
--   Api/Journal/Payload.antt   outbox-contracts.ts beside it, and the payload of an event.
--   Api/Journal/Commit.antt    mutation-journal.service.ts: commit; Chain has its chain of audit entries.
--   Api/Sessions.antt          apps/api/src/modules/auth/session.service.ts: what rotate and revokeSession
--                              do to the tables; Tokens, Families and Reuse follow a
--                              session's tokens.
--   Api/Sessions/Rotate.antt   session.service.ts: rotate with its limits and its journal; Transaction
--                              says what it does to the tables of sessions.
--   Worker/Retry.antt          apps/worker/src/retry.ts.
--   Worker/Outbox.antt         apps/worker/src/outbox/repository.ts: the tables and LEASE_SQL;
--   Worker/Outbox/Settle.antt  COMPLETE_SQL, FAIL_SQL and the methods of OutboxRepository. Machine is
--                              the machine of one event, Steps and Runs relate the tables to it, Records,
--                              Once, Fencing and Leases have what holds over the calls of all workers.
--   Worker/Runtime.antt        apps/worker/src/runtime.ts: pollOnce; Settling, Outcomes and Polls follow
--                              a poll's events;
--   Worker/Runtime/Scheduling.antt   requestPoll, requestHeartbeat and stop.
--   Examples/                  runs on concrete records, and the theorems at these records.
--
-- A state is a data type, a command a record, and each early return of a transition function is a
-- definition named `…_refusal` that gives the error or none; the function composes them in the code's
-- order by `or_refuse`. A property stored as `value !== true` is a Bool in which absent is false; an
-- optional text is an Option. Message texts, details and event names are the program's.
--
-- A service's SQL statement or transaction is one function from the tables before it to the tables after
-- it; a statement with several parts reads the old tables in each. A transaction that throws leaves no
-- new tables. The time of the database, drawn ids and random tokens, and the rows that another
-- transaction has locked (SKIP LOCKED) are arguments. Interleavings are lists of such calls, in the order
-- in which the database runs them. Rows that a statement returns without ORDER BY come in the table's
-- order.
--
-- Bounds: an amount of money is a JavaScript number, of which the code accepts the safe integers, those
-- up to 2 ^ 53 - 1; sums and differences of amounts are taken where doubles are exact, or where only
-- their order counts. The loops run over lists; only `decimal` and `integer_text`
-- have fuel, one more than the number, which has fewer digits. Times are milliseconds counted from
-- two days before year 0, so that none is negative; only their order and differences matter.
--
-- The random part of a retry's wait is an exact fraction of the bound; how a double rounds it is left
-- out.
--
-- Not modelled: the worker's job handlers, its files, storage and backups; the sign-in services,
-- the creation and the list of sessions, and the services of the API for operations, memberships
-- and records; cursors, the heartbeat table and the start of the worker; the apps, the database,
-- the request schemas, the random codes of codes.ts and createOtpChallenge, formatReceiptNumber and
-- effectiveActions. SHA-256 and the HMAC of node:crypto, the hash of a request and of an audit
-- entry, the cipher of stored answers, the schemas of two events' payloads, the signer of access
-- tokens and the handler of jobs are parameters. `none` in place of an answer is an error that the
-- code raises: for a pepper or a secret that is too short, or a number in JSON that is not finite.
-- Sequence numbers and versions are natural numbers. `localeCompare`, which breaks ties in the
-- order of charges, is a parameter, since its result depends on the machine's locale. Date texts
-- with a time but no offset, which `Date.parse` reads as local time, and years of six digits count
-- as unreadable. Thresholds in days and minutes are whole numbers.
pub mod Prelude
pub mod Worker
pub mod Api
pub mod Js
pub mod Types
pub mod Domain
pub mod Permissions
pub mod Examples
