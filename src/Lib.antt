-- ===== src/Lib.antt =====
-- Verification of the communications service, a multi-tenant service for telephone calls, SMS and
-- email with a memory and a review of promises on top.
--
-- The program is a Node server. index.js and v1.js take requests and telephone events; each
-- request is bound to a tenant by its key (auth.js), and its queries go through a wrapper
-- (tenantContext.js) around the query builder of database.js. A live call keeps two small machines
-- beside its sockets: the turns of the voice model (voiceTurns.js) and the drain of its transcript
-- (transcriptDrain.js). What may be sent, and who may see which stored communication, is decided by
-- emailPolicy.js, reviewIdentity.js, promiseLedger.js and memorySafety.js. A message or a call that a
-- client asks for is reserved, sent and recorded (outboundReadiness.js, outboundOperations.js). What
-- came of a call is decided after it (callOutcome.js), and told to other systems by events that are
-- stored and delivered later (eventOutbox.js). The promises found in communications are reviewed with
-- their owner in a session (reviewEngine.js).
--
-- The parts modelled here:
--
--   Prelude            the native ℕ with its Boolean tests, lists and text; Prelude/Text has the
--                      source's notions of a truthy and of a blank string, Prelude/Units the order of
--                      texts and the patterns for dates, Prelude/Outcomes calls that may throw
--   Storage/Json       the JavaScript values that the code inspects, and objects as ordered fields;
--                      a missing key reads as `undefined`
--   Storage/Query      PostgresQuery of database.js: the fields of the builder are the record
--                      `Query`, a method call is a `Method` and `apply` runs it, `execute` says
--                      which statement is sent. The text of the SQL is not modelled.
--   Access/TenantContext
--                      tenantContext.js: withTenant, scopedQuery and its closure variables
--                      (`Scoped`, `apply_scope`, `call`, `run_query`), tenantDatabase (`tenant_from`,
--                      `scoped_rpc`) and tenantFromRequest
--   Access/Authentication
--                      auth.js: authenticateTenantRequest with verifyApiSecret, and
--                      rejectUnauthorizedTenant; scrypt is a parameter
--   Access/EmailPolicy emailPolicy.js: emailSendMode, assertEmailSendAllowed, readEmailPolicy and
--                      saveEmailPolicy; a save is cut at its await, so the row that it reads and the
--                      row that its conditional update meets may differ
--   Access/Scope       promiseScope of promiseLedger.js
--   Access/MemorySafety
--                      sourceAllowed of memorySafety.js
--   Access/ReviewIdentity
--                      reviewIdentity.js: reviewIdentity and currentSessionScope
--   Voice/TranscriptDrain
--                      transcriptDrain.js: the four variables are the record `Drain`, an operation
--                      or the timer is an event, `step` answers with the effects
--   Voice/VoiceTurns   voiceTurns.js: the variables are the record `Turns`. The asynchronous `done`
--                      is cut at its awaits: a `Turn` is a call of it that waits for a tool, and any
--                      event may come in between. The counter `toolGeneration` of index.js, which an
--                      interruption moves, is in the record `Machine`.
--   Voice/RealtimeSessions
--                      realtimeSessions.js: the sockets that are opened before a media stream comes;
--                      Parties has the two other maps of that file. Each has its own `State`.
--   Delivery/EventOutbox
--                      eventOutbox.js, deliverPendingEvents: one event and the workers that compete
--                      for it. A `Claim` is the copy that a worker holds between claim_outbound_events
--                      (migrations/025_tenant_data_lifecycle.sql) and its update, so a worker may
--                      answer after its lease has run out, or never.
--   Delivery/Enqueue   enqueueEvent and callbackForThread of eventOutbox.js; which of its two queries
--                      fails is an argument
--   Delivery/Readiness outboundReadiness.js: assertOutboundReady, and how an error of Twilio is read
--   Delivery/Outbound  outboundOperations.js and the routes of index.js and v1.js that send messages
--                      and place calls, from the reservation to the completion of one operation. An
--                      `Attempt` is a request between two awaits; any number are under way at once.
--   Calls/Outcome      callOutcome.js: `result` and the rules of deterministicCallOutcome; the RegExp
--                      engine is a parameter
--   Calls/Outcome/Jobs persistCallOutcome, finishJob and deferForTranscript on the `World` of one call:
--                      its row, its job and the events; Calls/Outcome/Sweeps has processJob, failJob
--                      and sweepCallOutcomesOnce. A `Sweep` says which queries fail in it.
--   Review/Lifecycle   lifecycle and priority of reviewEngine.js
--   Review/Promises    readPromise of promiseLedger.js, on a record of what its queries answer
--   Review/Sessions    session and advance of reviewEngine.js, visibleSource and reviewSourceAllowed of
--                      operationalIntelligence.js
--   Review/Corrections validateCorrection of reviewEngine.js, on JSON objects
--   Review/Answers     respond of reviewEngine.js up to the procedure that records an answer, and
--                      visibleCandidates of operationalIntelligence.js. The procedure that refreshes
--                      a session is a parameter: the property about a session that is given out
--                      assumes that it keeps what the items of the queue are about, as
--                      refresh_review_session of migrations/034 does
--   Review/Instants    a time that a client gives, which is still to come
--   Review/Actions     actionProposal of reviewActions.js, and Review/ActionResults its
--                      recordActionResult
--
-- Errors are values: a function that throws answers `none` or a refusal, and the refusals are the
-- source's where it names them. An asynchronous function is cut where it awaits, and what the
-- database or a provider answers there is an argument. Dates are numbers and Date.parse is a
-- parameter, none for NaN. A loop over a list is structural recursion, so that no model here
-- needs fuel. JSON.parse and the provider services are arguments as well, and no property
-- assumes more of them than its statement says.
--
-- Strings are lists of Unicode characters here and sequences of UTF-16 units there; where the code
-- reads a length, it is counted in those units. White space is that of String.prototype.trim.
--
-- Sweeps of one call's job follow each other here: a worker that outlasts its lease of two minutes and
-- meets another is not modelled.
--
-- Not modelled: the routes and sockets of index.js, api.js and v1.js but for the operations above, the
-- SQL procedures under migrations (but for claim_outbound_events, claim_call_outcome_job and
-- reserve_outbound_operation), the clients of mail, calendar and voice providers, prompts, the logging
-- of calls and messages, and as yet the signature checks of auth.js, the text of a briefing, the
-- queue of review actions, the classification of communications, and the mailboxes.
pub mod Prelude
pub mod Voice
pub mod Storage
pub mod Access
pub mod Review
pub mod Delivery
pub mod Calls
