-- ===== src/Lib.antt =====
-- Verification of the platform that takes customers' designs from a shop to print.
--
-- A shop sends signed order events to the platform. They are received into an inbox, and a worker
-- processes each in one transaction: it stores the order and its line items, queues print jobs for
-- the customised lines, and stops the jobs of an order that is cancelled or refunded. A second
-- worker renders proofs of the revisions that customers commit, a third erases uploads on request,
-- and periodic jobs repair the queues, remove old artifacts and raise operational alerts. Customers
-- change a design in an embedded page, within rules that the design has, and commit what they made.
--
-- Connector.antt models the shop's events. Connector/Types.antt has the events of
-- packages/connector-contracts and the rows of packages/db/prisma/schema.prisma; Receipt.antt is
-- `receiveConnectorEvent`, Process/Transaction.antt `processConnectorEventTransaction` with its
-- stages in Process/Lines.antt and Process/Lifecycle.antt, all of
-- packages/connector-processing/src/index.ts, and Inbox.antt the worker of
-- apps/worker-maintenance/src/connector-inbox.ts. A transaction is a function from tables to a
-- result: an error carries no tables, since the transaction rolls back.
-- Queue.antt models the proof queue: Queue/Proof.antt is apps/worker-proof/src/index.ts, and
-- Queue/Reconcile.antt the repair of apps/worker-maintenance/src/reconciliation.ts.
-- Queue/Changes.antt has the writes to the queue of the erasure, of apps/api/src/preview.ts and of
-- the recreation of missing jobs. Interleavings are the step relation of Queue/Leases.antt.
-- Scene.antt models designs and their rules, packages/render-schema/src/index.ts, and the test that a
-- customer's scene passes, `sceneMatchesDesign` of apps/api/src/embed.ts. Customiser.antt models the
-- rest of that file that guards a commit: Customiser/Access.antt the mapping and the token,
-- Customiser/Assets.antt the assets, Customiser/Revisions.antt what may be resumed, and
-- Customiser/Commit.antt `handleCustomiserCommit` up to the end of its transaction.
-- Artifacts.antt models the removal of old artifacts: Artifacts/Cleanup.antt is
-- apps/worker-maintenance/src/artifact-cleanup.ts, Artifacts/Access.antt the two routes of
-- apps/web-admin/app/api/generated-artifacts and the read of an object by apps/api/src/objects.ts,
-- and Artifacts/Reach.antt their interleavings.
-- Deletion.antt models the erasure of uploads, apps/worker-maintenance/src/deletion.ts, and
-- Storage.antt the object keys of packages/storage/src/index.ts that bound it.
-- Alerts.antt models the alerts of apps/worker-maintenance/src/operational-checks.ts.
-- RateLimit.antt models the request limits of apps/api/src/rate-limit.ts.
-- Backoff.antt is the retry delay that these workers share, and Base.antt the helpers of all.
--
-- Each operation of a table is a function of the table and of what its environment gives: the time,
-- the tokens, and the results of storage and rendering. A database transaction is taken to be
-- atomic. Dates are natural numbers, and so are primary keys, except in the erasure, the customiser
-- and the artifacts, where keys stand inside JSON, scenes or object keys and are texts. The
-- verification of an embed token, the URL parser, and the test of artifact keys, whose source file
-- the repository does not have, are parameters. Every loop is over a list, so there is no fuel.
--
-- Not modelled: telemetry and logs, the libraries for cryptography, image decoding and object
-- storage, the user interfaces, the uploads of customers and the sessions of staff, and the shop's plugin, which is written in another language.
pub mod Backoff
pub mod Base
pub mod Connector
pub mod Queue
pub mod Alerts
pub mod Deletion
pub mod Storage
pub mod Scene
pub mod RateLimit
pub mod Artifacts
pub mod Customiser
