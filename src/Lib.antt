-- ===== src/Lib.antt =====
-- A verification library for the core of the blockchain-based e-procurement system: the services from
-- a requisition to the payment of an invoice, the lifecycle of an escrow, the append-only log of
-- procure-to-pay events under them, the anchoring of those events, and the chaincode that keeps the
-- anchors; beside them the distribution of profit and loss, and the assignment of roles.
--
-- How the parts work together: `createEscrow` and `transitionEscrow` test the input and the stored
-- state, record a lifecycle event, anchor its hash, and write the escrow. The event is validated,
-- hashed over canonical JSON and appended to the log, which refuses a duplicate or a broken link. The
-- release of an escrow depends on the order, the evidence of delivery and the eligibility of both
-- parties. The services of orders, evidence, invoices and source-to-award work in the same way over
-- the same log: each tests its input, records an event and saves its record, and the award of a
-- request for quotation creates an order through the service of orders.
--
-- Prelude: lists, texts, a JavaScript `Map` as a list (Store), `async` functions that may throw
--   (Effect), tests with early returns before the writes (Guard), what holds after an operation
--   however it ends (After), decimal texts.
-- World: the state that the services share, one list for each in-memory repository; and the
--   platform, which gives the time, identifiers, SHA-256 and the order of texts. Time and identifiers
--   are streams, so nothing is assumed of them; no theorem assumes that the digest is injective.
-- Json: canonical JSON (src/modules/procurement/application/
--   procure-to-pay-lifecycle-event-builder.ts, `canonicalizeProcureToPayValue`).
-- Lifecycle: the events (Event), their builder (Builder), the repository (Log), the recording and the
--   table of source actions (Source), all of src/modules/procurement.
-- Blockchain: the anchoring of an event (Anchoring, `anchorProcureToPayLifecycleEvent`) and the
--   in-memory gateway and metadata repository (MemoryGateway, MemoryMetadata), of
--   src/modules/blockchain. Any gateway and any metadata repository may be passed, also one that
--   throws.
-- Procurement: the services of src/modules/procurement. Order, Evidence, Eligibility, Invoice,
--   SourceCase and Closeout are the data and the in-memory repositories; Ordering is
--   `createProcurementOrder` and `acknowledgeProcurementOrder`, Delivery `submitDeliveryEvidence`
--   and `listDeliveryEvidence`, Invoicing the functions of invoice-service.ts, Sourcing those of
--   source-to-award-service.ts, and Closing those of procurement-closeout-service.ts. Books says
--   what a well-formed record is.
-- Consistency: the invariant of the records and the log together, and how each service keeps it.
-- System: sequences of calls of the services, and what holds in every state that they reach.
-- Chaincode: chaincode/audit-anchor. The stub of the ledger, the iterators and the library of the
--   language are parameters (Stub, Host); IsLedger names what is relied on: a ledger gives back what
--   was put, keeps its other keys, and composite keys of different parts differ. The notification of
--   an anchor (`setEvent`) and the closing of an iterator are left out: neither changes what the
--   ledger holds or what a transaction answers.
-- Escrow: src/modules/escrow. Record and Repository are the domain and the in-memory repository,
--   Rules, Decision and Transition are `transitionEscrow` in its order (rules, tests, writes), Create
--   and Create/Write are `createEscrow`; Diagram is the table of transitions as a relation, and
--   Diagram/Listed the transitions that docs/contracts/ESCROW_WORKFLOW_CONTRACT.md lists. Outcomes is
--   what a granted call does, Current what the event that an escrow names tells of it, Session
--   sequences of calls. Records are values: the repositories clone what they take and give.
-- Financing: src/modules/financing. Money is the texts and the minor units, Contract the domain and
--   the in-memory repository, Distribution is `createPlsDistribution`. The percentages of a contract
--   are whole numbers here: the code's `BigInt` throws on a fraction. The activation of contracts
--   is not modelled.
-- Access: src/modules/access-control. Protected is the decision on protected access, Assignments the
--   array of role assignments with `createRoleAssignment` and `changeRoleAssignment`. Removal and the
--   roles are not modelled.
-- Tests: concrete data, and each result at an input.
--
-- Every loop is structural recursion, but for two on fuel: the decimal text of a number takes one
-- round more than the number, and each round divides it by ten; the loop over an iterator of the
-- chaincode takes one round more than the iterator has entries left. A number that the code rounds is
-- rounded by the platform (`round_ratio` is `Math.round(part / whole * scale)`), which also gives
-- upper case and `JSON.stringify`. An operation runs to its end before the next one starts; calls
-- that interleave at an `await` are not modelled. The submission of evidence is that without an
-- `idGenerator`, the reading of the order of a case is that with a source-to-award repository, and
-- the conversion of a transaction's timestamp to a text is an argument of the chaincode's
-- transaction. The routes, the Postgres repositories, the user interface and the other modules of
-- the system are not modelled.
pub mod Prelude
pub mod Json
pub mod Errors
pub mod World
pub mod Lifecycle
pub mod Blockchain
pub mod Escrow
pub mod Procurement
pub mod Consistency
pub mod System
pub mod Chaincode
pub mod Financing
pub mod Access
pub mod Tests
