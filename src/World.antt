-- ===== src/World.antt =====
-- The state that the services share, and what the platform gives them. Every repository is the
-- in-memory one of the repository; time, identifiers and hashing come from outside.
use blockchain_based_e_procu.Prelude.{ℕ, String, Bool, List, ◌+◌}
use blockchain_based_e_procu.Prelude.Store
use blockchain_based_e_procu.Prelude.Effect.{M, Outcome, ok}
use blockchain_based_e_procu.Errors.{Error}
use blockchain_based_e_procu.Json.{Json}
use blockchain_based_e_procu.Blockchain.Anchor.{OnChainAnchorRecord, BlockchainAnchorMetadata}
use blockchain_based_e_procu.Lifecycle.Event.{LifecycleEvent}
use blockchain_based_e_procu.Escrow.Record.{EscrowRecord}
use blockchain_based_e_procu.Procurement.Order.{ProcurementOrder, order_key}
use blockchain_based_e_procu.Procurement.Evidence.{DeliveryEvidenceRecord, evidence_key}
use blockchain_based_e_procu.Procurement.Invoice.{ProcurementInvoice, invoice_key}
use blockchain_based_e_procu.Procurement.SourceCase.{SourceToAwardCase, case_key}
use blockchain_based_e_procu.Procurement.Closeout.{CaseCloseout, closeout_key}

pub record World : Type 0 where
  -- how often the clock was read, and how many identifiers were drawn
  pub ticks : ℕ
  pub drawn : ℕ
  pub events : List LifecycleEvent
  pub chain : List OnChainAnchorRecord
  pub anchors : List BlockchainAnchorMetadata
  pub escrows : List EscrowRecord
  pub orders : List ProcurementOrder
  pub evidence : List DeliveryEvidenceRecord
  pub invoices : List ProcurementInvoice
  pub cases : List SourceToAwardCase
  pub closeouts : List CaseCloseout

pub record Platform : Type 0 where
  -- the readings of `now()` or `new Date().toISOString()`, in order
  pub clock : ℕ → String
  -- the values of `idGenerator()` or `randomUUID()`, in order
  pub uuid : ℕ → String
  -- the hexadecimal SHA-256 digest of a text, by `node:crypto`
  pub sha256 : String → String
  -- `left.localeCompare(right) <= 0`
  pub locale_le : String → String → Bool
  -- `text.toUpperCase()`
  pub upper_case : String → String
  -- `left <= right` in the order of `sort()` on texts
  pub text_le : String → String → Bool
  -- `Math.round((part / whole) * scale)`
  pub round_ratio : ℕ → ℕ → ℕ → ℕ
  -- `Math.round(n * 0.1)`
  pub round_tenth : ℕ → ℕ
  -- `JSON.stringify(value)`
  pub stringify : Json → String

abbrev pub App : Type 0 → Type 0
App = M World Error

unfoldable pub read_clock : Platform → App String
read_clock p w = (ok (p.clock w.ticks), record w { ticks = w.ticks + 1 })

unfoldable pub draw_id : Platform → App String
draw_id p w = (ok (p.uuid w.drawn), record w { drawn = w.drawn + 1 })

-- A call of a repository on its own part of the state.
abbrev put_events :
    {A : Type 0} → World → Outcome Error A × List LifecycleEvent → Outcome Error A × World
put_events w (r, events) = (r, record w { events = events })

abbrev pub on_events : {A : Type 0} → M (List LifecycleEvent) Error A → App A
on_events m w = put_events w (m w.events)

abbrev put_escrows :
    {A : Type 0} → World → Outcome Error A × List EscrowRecord → Outcome Error A × World
put_escrows w (r, escrows) = (r, record w { escrows = escrows })

abbrev pub on_escrows : {A : Type 0} → M (List EscrowRecord) Error A → App A
on_escrows m w = put_escrows w (m w.escrows)

abbrev put_anchors :
    {A : Type 0} → World → Outcome Error A × List BlockchainAnchorMetadata → Outcome Error A × World
put_anchors w (r, anchors) = (r, record w { anchors = anchors })

abbrev pub on_anchors : {A : Type 0} → M (List BlockchainAnchorMetadata) Error A → App A
on_anchors m w = put_anchors w (m w.anchors)

abbrev put_chain :
    {A : Type 0} → World → Outcome Error A × List OnChainAnchorRecord → Outcome Error A × World
put_chain w (r, chain) = (r, record w { chain = chain })

abbrev pub on_chain : {A : Type 0} → M (List OnChainAnchorRecord) Error A → App A
on_chain m w = put_chain w (m w.chain)

-- `save` of the repositories that are maps and take every record.
unfoldable pub save_order : ProcurementOrder → App ProcurementOrder
save_order o w = (ok o, record w { orders = Store.put order_key o w.orders })

unfoldable pub save_evidence : DeliveryEvidenceRecord → App DeliveryEvidenceRecord
save_evidence r w = (ok r, record w { evidence = Store.put evidence_key r w.evidence })

unfoldable pub save_invoice : ProcurementInvoice → App ProcurementInvoice
save_invoice i w = (ok i, record w { invoices = Store.put invoice_key i w.invoices })

unfoldable pub save_case : SourceToAwardCase → App SourceToAwardCase
save_case c w = (ok c, record w { cases = Store.put case_key c w.cases })

unfoldable pub save_closeout : CaseCloseout → App CaseCloseout
save_closeout c w = (ok c, record w { closeouts = Store.put closeout_key c w.closeouts })
