-- ===== src/Procurement/Invoicing/Matching.antt =====
-- What `verifyInvoiceMatch` answers and stores.
use blockchain_based_e_procu.Prelude.{
  false, ◌↔◌, String, Bool, true, [], Option, some, ◌≡◌, refl, sym, subst, arith, eq_iff, is_some,
  Bool-cases, inl, inr, ◌∙◌, none,
}
use blockchain_based_e_procu.Prelude.Store
use blockchain_based_e_procu.Prelude.Guard.{refuse, pass}
use blockchain_based_e_procu.Prelude.Effect.{ok, pure}
use blockchain_based_e_procu.Prelude.After.{After, After-any, After-bind, decide-After}
use blockchain_based_e_procu.Json.{Json}
use blockchain_based_e_procu.Lifecycle.Event.{LifecycleEvent}
use blockchain_based_e_procu.Lifecycle.Source.{SourceAction, record_source_event}
use blockchain_based_e_procu.Procurement.Actor.{Actor}
use blockchain_based_e_procu.Procurement.Delivery.{is_accepted}
use blockchain_based_e_procu.Procurement.Invoice.{
  ProcurementInvoice, match_passed, find_invoice, invoice_key,
}
use blockchain_based_e_procu.Procurement.Invoicing.{
  InvoiceResult, invoice_ok, can_review_invoice, append_invoice_event, invoice_after,
  invoice_event_input,
}
use blockchain_based_e_procu.Procurement.Invoicing.Review.{
  Match, match_issues, passes, check_match, evidence_of, first,
}
use blockchain_based_e_procu.Procurement.Invoicing.Reviewing.{
  matched_invoice, write_match, verify_match,
}
use blockchain_based_e_procu.Procurement.Order.{find_order}
use blockchain_based_e_procu.Procurement.Evidence.{DeliveryEvidenceRecord, list_evidence}
use blockchain_based_e_procu.Procurement.Evidence.Listing.{list_evidence-mem_iff}
use blockchain_based_e_procu.Prelude.Text.{truthy, eq_optional}
use mathlib.Core.List.{Memᴰ}
use blockchain_based_e_procu.Prelude.{
  List, [], find-mem, find-eq-none, All-mem, ◌∷◌, ◌∙◌, none, ◌≢◌,
}
use blockchain_based_e_procu.World.{World, Platform, read_clock, save_invoice}

-- The three documents agree: the order and the invoice on the amount and the currency, with evidence
-- of a delivery, on an order that is accepted.
abbrev pub Agrees : Match → Type 0
Agrees m =
    (m.order.amount ≡ m.invoice.amount)
    × (m.order.currency ≡ m.invoice.currency)
    × (is_some m.evidence ≡ true)
    × (is_accepted m.order.status ≡ true)

pub passes_iff : (m : Match) → (passes m ≡ true) ↔ Agrees m
unfolding match_issues
passes_iff m = (
  λ h.
      ground
        (arith, eq_iff m.order.amount m.invoice.amount, eq_iff m.order.currency m.invoice.currency),
  λ h.
      ground
        (arith, eq_iff m.order.amount m.invoice.amount, eq_iff m.order.currency m.invoice.currency),
)

pub passes-no_issues : (m : Match) → passes m ≡ true → match_issues m ≡ []
unfolding match_issues
passes-no_issues m h = ground arith

matched_invoice-status :
    (m : Match) (now : String) → ((matched_invoice m now).status ≡ match_passed) ↔ Agrees m
unfolding matched_invoice
matched_invoice-status m now = elim (Bool-cases (passes m)) [
  | inl good ↦ (λ h. (passes_iff m).0 good, λ h. rw good refl)
  | inr bad ↦ (λ h. absurd (cc (rw bad at h)), λ h. absurd (cc (sym bad ∙ (passes_iff m).1 h)))
]

-- The record has the name that is given, where one is.
abbrev pub Names : Option String → DeliveryEvidenceRecord → Type 0
Names id r = (name : String) → id ≡ some name → truthy (some name) ≡ true → r.evidence_id ≡ name

first-mem :
    (records : List DeliveryEvidenceRecord) (r : DeliveryEvidenceRecord)
    → first records ≡ some r
    → Memᴰ r records
unfolding first
first-mem [] r h = absurd (cc h)
first-mem (s ∷ records) r h = Memᴰ.head (ground arith)

first-none :
    (records : List DeliveryEvidenceRecord)
    → first records ≡ none
    → (r : DeliveryEvidenceRecord) → ¬ Memᴰ r records
unfolding first
first-none [] h r m = elim m [ ]
first-none (s ∷ records) h r m = absurd (cc h)

-- What the tests of a match have established: the evidence is a stored record of the invoice's order,
-- the one that the invoice names where it names one; and there is none only where the order has no
-- record, or none of the name.
pub record IsReview (p : Platform) (id : String) (a : Actor) (w : World) (m : Match) : Type 0 where
  pub may_review : can_review_invoice a m.invoice ≡ true
  pub found : find_invoice id w.invoices ≡ some m.invoice
  pub ordered : find_order m.invoice.order_id w.orders ≡ some m.order
  pub delivered :
      (r : DeliveryEvidenceRecord)
      → m.evidence ≡ some r
      → Memᴰ r w.evidence
        × (r.order_id ≡ m.invoice.order_id)
        × Names m.invoice.delivery_evidence_id r
  pub undelivered :
      m.evidence ≡ none
      → (r : DeliveryEvidenceRecord) → Memᴰ r w.evidence
      → r.order_id ≡ m.invoice.order_id
      → (name : String) × (m.invoice.delivery_evidence_id ≡ some name) × (r.evidence_id ≢ name)

evidence_of-some :
    (id : Option String) (records : List DeliveryEvidenceRecord) (r : DeliveryEvidenceRecord)
    → evidence_of id records ≡ some r
    → Memᴰ r records × Names id r
unfolding evidence_of first
evidence_of-some none [] r h = absurd (cc h)
evidence_of-some none (s ∷ records) r h = (Memᴰ.head (ground arith), λ name q. absurd (cc q))
evidence_of-some (some name) records r h = elim (Bool-cases (truthy (some name))) [
  | inl given ↦
      let (m, same) =
        find-mem (λ s. eq_optional (some s.evidence_id) (some name)) records r (rw given at h) in
      (m, λ other q t. (eq_iff r.evidence_id name).0 same ∙ cc q)
  | inr blank ↦ (first-mem records r (rw blank at h), λ other q t. absurd (ground arith))
]

evidence_of-none :
    (id : Option String) (records : List DeliveryEvidenceRecord)
    → evidence_of id records ≡ none
    → (r : DeliveryEvidenceRecord) → Memᴰ r records
    → (name : String) × (id ≡ some name) × (r.evidence_id ≢ name)
unfolding evidence_of first
evidence_of-none none [] h r m = elim m [ ]
evidence_of-none none (s ∷ records) h r m = absurd (cc h)
evidence_of-none (some name) records h r m = elim (Bool-cases (truthy (some name))) [
  | inl given ↦
      let all =
        find-eq-none (λ s. eq_optional (some s.evidence_id) (some name)) records (rw given at h) in
      let other = All-mem (λ s. eq_optional (some s.evidence_id) (some name) ≡ false) _ all m in
      (name, refl, λ same. ground (arith, other, eq_iff r.evidence_id name))
  | inr blank ↦ absurd (first-none records (rw blank at h) r m)
]

check_match-evidence :
    (p : Platform) (id : String) (a : Actor) (w : World) (m : Match)
    → check_match p id a w ≡ pass m
    → m.evidence
      ≡ evidence_of m.invoice.delivery_evidence_id
          (list_evidence p.locale_le m.invoice.order_id w.evidence)
unfolding check_match
check_match-evidence p id a w m h = ground arith

check_match-IsReview :
    (p : Platform) (id : String) (a : Actor) (w : World) (m : Match)
    → check_match p id a w ≡ pass m
    → IsReview p id a w m
unfolding check_match
check_match-IsReview p id a w m h = record {
  may_review = ground arith;
  found = ground arith;
  ordered = ground arith;
  delivered = λ r same.
      let (m, named) =
        evidence_of-some m.invoice.delivery_evidence_id _ r
          (sym (check_match-evidence p id a w m h) ∙ same) in
      let (stored, ordered) = (list_evidence-mem_iff p.locale_le _ w.evidence r).0 m in
      (stored, ordered, named);
  undelivered = λ same r stored ordered.
      evidence_of-none m.invoice.delivery_evidence_id _
        (sym (check_match-evidence p id a w m h) ∙ same) r
        ((list_evidence-mem_iff p.locale_le _ w.evidence r).1 (stored, ordered));
}

never_matched :
    (p : Platform) (id : String) (a : Actor) (w : World) (i : ProcurementInvoice)
    → ¬ (check_match p id a w ≡ refuse (invoice_ok i))
unfolding check_match
never_matched p id a w i h = ground arith

ok-eq : {i j : ProcurementInvoice} → invoice_ok i ≡ invoice_ok j → i ≡ j
ok-eq h = cc h

append-invoice_after :
    (p : Platform) (lifecycle : Bool) (i : ProcurementInvoice) (action : SourceAction)
    (user request : String) (metadata : Json) (w : World)
    → After
        (λ j v. (event : Option LifecycleEvent) × (j ≡ invoice_after event i))
        (λ v. Unit {0})
        (append_invoice_event p lifecycle i action user request metadata w)
unfolding append_invoice_event
append-invoice_after p lifecycle i action user request metadata w =
    After-bind (λ e v. Unit {0})
      (λ j v. (event : Option LifecycleEvent) × (j ≡ invoice_after event i)) (λ v. Unit {0})
      (record_source_event p lifecycle (invoice_event_input i action user request metadata) none w)
      (λ event. pure (invoice_after event i)) (After-any _) (λ event v h. (event, refl))

module _ (p : Platform) (lifecycle : Bool) (id : String) (a : Actor) (request : String)
    (w : World) where
  abbrev Matched : InvoiceResult → World → Type 0
  Matched r v =
      (i : ProcurementInvoice)
      → r ≡ invoice_ok i
      → (m : Match) × IsReview p id a w m
        × (i.invoice_id ≡ m.invoice.invoice_id)
        × (find_invoice i.invoice_id v.invoices ≡ some i)
        × ((i.status ≡ match_passed) ↔ Agrees m)

  write_match-Matched :
      (m : Match)
      → check_match p id a w ≡ pass m
      → After Matched (λ v. Unit {0}) (write_match p lifecycle id a request m w)
  unfolding write_match read_clock save_invoice
  write_match-Matched m same =
      After-bind
        (λ j v.
          (event : Option LifecycleEvent) × (j
            ≡ invoice_after event (matched_invoice m (p.clock w.ticks))))
        Matched (λ v. Unit {0}) _ _
        (append-invoice_after p lifecycle (matched_invoice m (p.clock w.ticks)) _ _ _ _ _)
        (λ j v (event, after) i made.
          let one : j ≡ i = ok-eq made in
          (
            m,
            check_match-IsReview p id a w m same,
            rw (← one, after) (unfold invoice_after matched_invoice in refl),
            rw (← one) (unfold find_invoice in Store.get-put-key invoice_key j v.invoices),
            rw (← one, after) (unfold invoice_after in matched_invoice-status m (p.clock w.ticks)),
          ))

  verify_match-Matched : After Matched (λ v. Unit {0}) (verify_match p lifecycle id a request w)
  unfolding verify_match
  verify_match-Matched =
      decide-After Matched (λ v. Unit {0}) (check_match p id a w)
        (write_match p lifecycle id a request) w
        (λ r same i made. absurd (never_matched p id a w i (rw made at same))) write_match-Matched

  -- A match that returns an invoice was asked for by an actor who may review the stored invoice; the
  -- returned invoice has the same identifier, is what is now found under it, and has passed exactly
  -- when it agrees with its stored order on the amount and the currency, the order is accepted, and
  -- there is evidence: a stored record of the order, the one that the invoice names if it names one.
  pub verify_match-decides :
      (i : ProcurementInvoice) (v : World)
      → verify_match p lifecycle id a request w ≡ (ok (invoice_ok i), v)
      → (m : Match) × IsReview p id a w m
        × (i.invoice_id ≡ m.invoice.invoice_id)
        × (find_invoice i.invoice_id v.invoices ≡ some i)
        × ((i.status ≡ match_passed) ↔ Agrees m)
  verify_match-decides i v same =
      subst (After Matched (λ u. Unit {0})) same verify_match-Matched i refl
