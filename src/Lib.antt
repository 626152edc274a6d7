-- ===== src/Lib.antt =====
-- ppflight-agent runs on a Proxmox VE node. It measures guests, keeps what it has to report in durable
-- queues, and uploads the queues' batches to two sites. This library models the parts that decide
-- whether a report can be lost, repeated or reordered:
--
-- - Store: internal/store/queue.go, the disk queue of one destination and kind. A `*Queue` and its
--   directory are the record `Store`; Open, Enqueue, Next, Ack, Nack and Quarantine are open_store,
--   enqueue, next, ack, nack and quarantine. Store/Steps decomposes every call into single changes of
--   the queue, and Store/Runs carries invariants of changes to runs of calls.
-- - Uploader: internal/uploader/uploader.go, one delivery (DeliverOne is deliver_one) over any queue
--   with the four calls of the Go interface, the delay of retries, and RotateCredentials (rotate).
-- - Journal: internal/control/journal.go, the receipt and audit outboxes of commands (complete,
--   begin_running, mark_audit_queued, mark_receipt_queued), with ApplyReceiptCompatibility of
--   internal/control/types.go.
--   claim of Journal/Claim is Claim and ClaimWithAudit, and recover_incomplete of Journal/Recovery is
--   RecoverIncomplete. Journal/Receipts has the lemmas that a call keeps the receipts.
-- - Control: internal/control above the journal. Control/Verify is Verify of internal/control/types.go
--   over the registry in Control/Actions; Control/Dispatcher is internal/control/dispatcher.go, whose
--   workers are a step relation; Control/Admission is the loop of PollOnce in
--   internal/control/service.go, on the state of Control/World, and Control/Authority its
--   ApplyAssignmentAuthority.
-- - Lifecycle: internal/lifecycle/state.go, the report of an unclean exit to two outboxes. Begin,
--   Pending, MarkQueued and MarkClean are begin, pending_for, mark_queued and mark_clean.
-- - Runstate: internal/runstate/state.go, the wire sequences of three streams, Open and the Next
--   methods (open_state and next).
-- - Meter: internal/meter/meter.go, usage events from the counters of guests, with UsageBatch.Validate of
--   internal/protocol/protocol.go. Open, Recover and Observe are open_meter, recover and observe; the
--   loop of Observe is Meter/Counters, and resolvePerNICCounters is resolve of Meter/Interfaces.
-- - Prelude: actions with state and errors (Exec), a disk whose calls fail by a schedule (Disk), texts
--   (Text), lists and numbers.
--
-- The agent enqueues batches stamped with the numbers of Runstate, an Uploader per destination drains
-- each queue, and an incident of Lifecycle is marked for a domain once its batch is in that queue.
-- A command that the site sends is verified, claimed in the journal, and handed to a worker; its
-- receipts and audit events go through the journal's outboxes into the queues.
--
-- Every file operation takes its outcome from a schedule of failures that the theorems quantify over,
-- so a theorem on a run covers a failure at any call. A failed call changes no file; a crash inside a
-- call is not modelled. The mutexes make each method one step. Numbers of type uint64 wrap by hand.
-- The eviction loop runs on fuel of one more round than there are items, and a theorem states that
-- this is never used up.
--
-- The checks of decoded journal records and events are parameters of Journal, in its record Outside.
-- The checks of a command's parameters, the execution of an action, and the checks of the journal that
-- span several legacy records are parameters of Control and Journal/Scans.
-- JSON, gzip, HTTP, request signing, file-name hashing, random IDs and the jitter of delays are
-- parameters. Times are nanoseconds, with 0 for the zero time. The other packages of the agent are not
-- modelled.
pub mod Prelude
pub mod Control
pub mod Store
pub mod Meter
pub mod Journal
pub mod Lifecycle
pub mod Runstate
pub mod Uploader
