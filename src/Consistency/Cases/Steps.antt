-- ===== src/Consistency/Cases/Steps.antt =====
-- What the tests of the service of source-to-award establish, and that the changed cases are
-- well-formed.
use blockchain_based_e_procu.Prelude.{
  filter, String, Bool, true, false, not, List, [], ◌∷◌, ◌++◌, Option, none, some, ◌≡◌, ◌≢◌, refl,
  sym, subst, arith, eq_iff, find, is_some, All, All-map, All-find, All-append, All-filter,
  filter-All, Pairwise-filter, Pairwise-append_one,
}
use blockchain_based_e_procu.Prelude.Text.{trim_optional, ◌=s◌}
use blockchain_based_e_procu.Prelude.Guard.{pass}
use blockchain_based_e_procu.Procurement.Actor.{as_string}
use blockchain_based_e_procu.Procurement.Books.{
  HasParts, OtherSupplier, IsInvited, IsCase, IsGenerated,
}
use blockchain_based_e_procu.Procurement.SourceCase.{
  SourceToAwardCase, SourceToAwardStatus, Rfq, Quotation, Award, invites, find_by_requisition_id,
  find_by_rfq_id, has_rfq,
}
use blockchain_based_e_procu.Procurement.SourceCase
use blockchain_based_e_procu.Procurement.Sourcing.{ApproveInput, RfqInput, QuotationInput}
use blockchain_based_e_procu.Procurement.Sourcing.Checks.{
  OnCase, check_approve, check_rfq, check_quotation,
}
use blockchain_based_e_procu.Procurement.Sourcing.Writes.{
  approved_case, new_rfq, rfq_case, other_quotations, quoted_case,
}
use blockchain_based_e_procu.Lifecycle.Event.{LifecycleEvent}
use blockchain_based_e_procu.World.{World, Platform}
use blockchain_based_e_procu.Consistency.{IsConsistent}

-- A stored case that a search finds.
pub found-IsCase :
    (w : World) (p : SourceToAwardCase → Bool) (c : SourceToAwardCase)
    → IsConsistent w
    → find p w.cases ≡ some c
    → IsCase w.events c × IsGenerated w.orders c
found-IsCase w p c h found = (
  (All-find (IsCase w.events) p w.cases h.cases_kept found).0,
  (All-find (IsGenerated w.orders) p w.cases h.generated found).0,
)

module _ (w : World) where
  pub check_approve-found :
      (i : ApproveInput) (g : OnCase)
      → check_approve i w ≡ pass g
      → (find_by_requisition_id (as_string (trim_optional i.requisition_id)) w.cases ≡ some g.case)
        × (g.case.status ≡ SourceCase.requisition_pending_approval)
  unfolding check_approve
  check_approve-found i g same = (ground arith, ground arith)

  pub check_rfq-found :
      (i : RfqInput) (g : OnCase)
      → check_rfq i w ≡ pass g
      → (find_by_requisition_id (as_string (trim_optional i.requisition_id)) w.cases ≡ some g.case)
        × (g.case.status ≡ SourceCase.requisition_approved)
  unfolding check_rfq
  check_rfq-found i g same = (ground arith, ground arith)

  -- A quotation is from an invited supplier, for a case without an award.
  pub check_quotation-found :
      (p : Platform) (i : QuotationInput) (g : OnCase)
      → check_quotation p i w ≡ pass g
      → (find_by_rfq_id (as_string (trim_optional i.rfq_id)) w.cases ≡ some g.case)
        × (is_some g.case.rfq ≡ true)
        × (invites g.organization g.case.rfq ≡ true)
        × (is_some g.case.award ≡ false)
  unfolding check_quotation
  check_quotation-found p i g same = (ground arith, ground arith, ground arith, ground arith)

-- A case without an award has generated no order.
pub no_award :
    (s : SourceToAwardStatus) (rfq : Option Rfq) (quotations : List Quotation)
    (award : Option Award) (order : Option String)
    → HasParts s rfq quotations award order
    → is_some award ≡ false
    → (award ≡ none) × (order ≡ none)
no_award SourceCase.requisition_pending_approval rfq qs award order (r, q, a, o) h = (a, o)
no_award SourceCase.requisition_approved rfq qs award order (r, q, a, o) h = (a, o)
no_award SourceCase.rfq_issued rfq qs award order (r, q, a, o) h = (a, o)
no_award SourceCase.quotation_received rfq qs award order (r, q, a, o) h = (a, o)
no_award SourceCase.awarded rfq qs award order never h = absurd (never tt)
no_award SourceCase.purchase_order_generated rfq qs award order (r, (a, same, _, _, _)) h =
    absurd (cc h)

append-≢-nil : (qs : List Quotation) (q : Quotation) → qs ++ q ∷ [] ≢ []
append-≢-nil [] q h = absurd (cc h)
append-≢-nil (x ∷ qs) q h = absurd (cc h)

pub approved-IsCase :
    (g : OnCase) (now : String) (log : List LifecycleEvent)
    → IsCase log g.case
    → g.case.status ≡ SourceCase.requisition_pending_approval
    → IsCase log (approved_case g now)
unfolding approved_case
approved-IsCase g now log known status = record {
  case_linked = known.case_linked;
  parts = rw status at known.parts;
  one_each = known.one_each;
  invited = known.invited;
}

pub rfq-IsCase :
    (i : RfqInput) (g : OnCase) (now id : String) (log : List LifecycleEvent)
    → IsCase log g.case
    → g.case.status ≡ SourceCase.requisition_approved
    → IsCase log (rfq_case i g now id)
unfolding rfq_case
rfq-IsCase i g now id log known status =
    let (_, no_quotations, no_award, no_order) = parts_of g.case.status g.case known.parts status in
    record {
      case_linked = known.case_linked;
      parts = (refl, no_quotations, no_award, no_order);
      one_each = known.one_each;
      invited = subst (All (IsInvited (some (new_rfq i g now id)))) (sym no_quotations) tt;
    }
  where
    parts_of :
        (s : SourceToAwardStatus) (c : SourceToAwardCase)
        → HasParts s c.rfq c.quotations c.award c.generated_order_id
        → s ≡ SourceCase.requisition_approved
        → HasParts SourceCase.requisition_approved c.rfq c.quotations c.award c.generated_order_id
    parts_of s c parts same = rw same at parts

pub quoted-IsCase :
    (g : OnCase) (q : Quotation) (now : String) (log : List LifecycleEvent)
    → IsCase log g.case
    → is_some g.case.rfq ≡ true
    → invites q.supplier_organization_id g.case.rfq ≡ true
    → is_some g.case.award ≡ false
    → IsCase log (quoted_case g q now)
unfolding quoted_case other_quotations
quoted-IsCase g q now log known has_rfq invited open_case =
    let (no_award, no_order) =
      no_award g.case.status g.case.rfq g.case.quotations g.case.award g.case.generated_order_id
        known.parts open_case in
    record {
      case_linked = known.case_linked;
      parts = (has_rfq, append-≢-nil _ q, no_award, no_order);
      one_each =
          Pairwise-append_one OtherSupplier _ q
            (Pairwise-filter OtherSupplier _ g.case.quotations known.one_each)
            (others g.case.quotations);
      invited =
          All-append (IsInvited g.case.rfq) _ (q ∷ [])
            (All-filter (IsInvited g.case.rfq) _ g.case.quotations known.invited) (invited, tt);
    }
  where
    others :
        (qs : List Quotation)
        → All
            (λ r. OtherSupplier r q)
            (filter (λ r. not (r.supplier_organization_id =s q.supplier_organization_id)) qs)
    others qs =
        All-map (λ r. not (r.supplier_organization_id =s q.supplier_organization_id) ≡ true)
          (λ r. OtherSupplier r q)
          (λ r kept same.
            ground (arith, eq_iff r.supplier_organization_id q.supplier_organization_id))
          _ (filter-All _ qs)
