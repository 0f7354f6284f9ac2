-- ===== src/Lib.antt =====
-- OpenClaw NIE Guard: a broker that stands between agents and OpenClaw. An agent is admitted by the NIE
-- bindings and gets a capability token; it registers the material that enters its context, which raises
-- the taint label of its session; and it asks for operations at POST /v1/invoke, which pass nine layers
-- (shape, token, nonce, envelope, intent, manifest, policy, dual control, adapter) before the transport to
-- OpenClaw is called. Every decision is written to the Providence log.
--
-- Which file models what:
--   Common             equality, lists, association lists and Boolean tests that the rest shares
--   Types              packages/shared-types/src: operation.ts, intent.ts, classification.ts, errors.ts
--   Lineage            packages/shared-types/src/lineage.ts: the lattice of labels
--   Labels             apps/broker/src/services/labels.ts: SessionLabelStore as a map passed along
--   Policy             packages/policy-engine/src: evaluate, resolveRole and the default role matrix
--   Bindings           packages/nie-bindings/src/mock.ts: the reference bindings, their state passed along
--   Envelope           packages/tstl-envelope/src/envelope.ts: buildEnvelope and validateEnvelope
--   Fhe                packages/fhe-gate/src/gate.ts: the decision on a mode
--   Fhe.Receipts       packages/fhe-gate/src/mock.ts: the results, receipts and releases of the reference provider
--   Adapter            packages/openclaw-adapter/src/adapter.ts: forward and route
--   Broker.Audit       apps/broker/src/services/providence.ts: what a route appends to the log
--   Broker.Deadline    apps/broker/src/lib/deadline.ts: withDeadline
--   Broker.Services    apps/broker/src/services/context.ts: the services that the routes share
--   Broker.Request, Broker.Execute, Broker.Invoke
--                      apps/broker/src/routes/invoke.ts: a request, layers 7 to 9, and layers 1 to 6
--   Broker.Context     apps/broker/src/routes/context.ts: POST /v1/context/register
--   Broker.Admission   apps/broker/src/routes/{admit,revoke,cosign}.ts
--   Adapter.Gateway    packages/openclaw-adapter/src/gateway-transport.ts: reads over HTTP, and their answers
--   Providence.Records packages/shared-types/src/providence.ts: the record, its input and their schemas
--   Providence.Canonical, Providence.Encoding
--                      packages/providence-log/src/encoding.ts: canonical JSON, and the bytes hashed over
--   Providence.Disk, Providence.Log, Providence.Page
--                      packages/providence-log/src/log.ts: the files and their checks, the writer, a page
--   Providence.Anchors packages/providence-log/src/{scheduler,signer}.ts and exportAnchor of log.ts
--   Providence.Refines what Broker.Audit is of the writer; the codes of errors.ts
--   Providence.Chain, Providence.Reachable
--                      what a sound directory is, and the steps of a running and restarted log
-- The children of a module hold its theorems; Tests holds runs of them on concrete inputs.
--
-- How: a handler is a function of the services' state to that state and an answer; `none` stands for a
-- handler that throws, or that waits for an answer that never comes. An asynchronous call is a Work: what
-- it returns, and after how many milliseconds, if ever. A JavaScript Map is an association list, a Set a
-- list, and a number that counts or measures time a natural number; no such number is subtracted below 0.
-- No definition runs on fuel but the decimal text of a number, whose 17 rounds are enough for every safe
-- integer. SHA-256, the canonical text of an envelope, the transport, the disk behind the log, the clock
-- and the random ids are parameters.
--
-- The Providence log appears twice: Broker.Audit is what the routes rely on, a list of records that grows or
-- refuses, and Providence is the writer in detail, where each call is told how each disk write ends: durably,
-- or with an error and nothing, a part or all of its bytes in the file. A line of the chain file is what JSON
-- and the schema read of it, and it is found by its number where the source keeps byte offsets. An anchor is
-- exported in two parts, before and after the signer is awaited, so that other calls come in between.
--
-- Not modelled: a write that is short without an error; listeners of the log other than the scheduler; the FHE,
-- MCP and skill routes; server start-up, configuration and loaders (I/O); the production bindings and the FHE
-- service, which are not in the repository; and a transport whose promise is rejected.
-- Where the model says less than the code: a record's event id, its digest, is its position in Broker.Audit; the
-- numbers of canonical JSON are natural; a last line of an earlier chain file that is not JSON or is null, on
-- which the constructor throws, is left out, and so is an answer of the gateway whose body is null; messages are
-- cut by characters where slice counts UTF-16 units; and a log that refuses has a reason that is not empty.
pub mod Common
pub mod Types
pub mod Lineage
pub mod Labels
pub mod Policy
pub mod Bindings
pub mod Envelope
pub mod Fhe
pub mod Adapter
pub mod Broker
pub mod Providence
pub mod Tests
