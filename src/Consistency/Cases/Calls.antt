-- ===== src/Consistency/Cases/Calls.antt =====
-- The operations of the service of source-to-award, except the award, keep the state consistent.
use blockchain_based_e_procu.Prelude.{◌+◌, Bool, none, refl}
use blockchain_based_e_procu.Prelude.Text.{◌<>◌}
use blockchain_based_e_procu.Procurement.SourceCase.{
  find_by_requisition_id, find_by_rfq_id, has_rfq,
}
use blockchain_based_e_procu.Procurement.Sourcing.{
  RequisitionInput, ApproveInput, RfqInput, QuotationInput,
}
use blockchain_based_e_procu.Procurement.Sourcing.Checks.{
  check_requisition, check_approve, check_rfq, check_quotation,
}
use blockchain_based_e_procu.Procurement.Sourcing.Writes.{
  new_case, approved_case, rfq_case, new_quotation, quoted_case, write_requisition,
  create_requisition, write_approve, approve_requisition, write_rfq, issue_rfq, write_quotation,
  submit_quotation,
}
use blockchain_based_e_procu.World.{World, Platform, read_clock, draw_id}
use blockchain_based_e_procu.Consistency.{
  IsConsistent, Ticked-IsConsistent, Latest-none, Kept, Kept-decide,
}
use blockchain_based_e_procu.Consistency.Cases.{append_and_save-Kept}
use blockchain_based_e_procu.Consistency.Cases.Steps.{
  found-IsCase, check_approve-found, check_rfq-found, check_quotation-found, approved-IsCase,
  rfq-IsCase, quoted-IsCase,
}

module _ (p : Platform) (lifecycle : Bool) (w : World) (h : IsConsistent w) where
  -- Creating a requisition keeps the state consistent, however the call ends.
  pub create_requisition-Kept : (i : RequisitionInput) → Kept (create_requisition p lifecycle i w)
  unfolding create_requisition write_requisition read_clock draw_id new_case
  create_requisition-Kept i =
      Kept-decide (check_requisition p i) (write_requisition p lifecycle i) w h (λ actor same.
        append_and_save-Kept p lifecycle
          (new_case p i actor (p.clock w.ticks) ("sta_case_" <> p.uuid w.drawn)
            ("req_" <> p.uuid (w.drawn + 1)))
          _ _ _ i.request_id _ none _ (Ticked-IsConsistent w _ refl h)
          (record {
            case_linked = Latest-none w.events _;
            parts = (refl, refl, refl, refl);
            one_each = tt;
            invited = tt;
          })
          (λ id named. absurd (cc named)))

  -- Approving a requisition keeps the state consistent, however the call ends.
  pub approve_requisition-Kept : (i : ApproveInput) → Kept (approve_requisition p lifecycle i w)
  unfolding approve_requisition write_approve read_clock find_by_requisition_id
  approve_requisition-Kept i =
      Kept-decide (check_approve i w) (write_approve p lifecycle i) w h (λ g same.
        let (found, status) = check_approve-found w i g same in
        let (known, generated) = found-IsCase w _ g.case h found in
        append_and_save-Kept p lifecycle (approved_case g (p.clock w.ticks)) _ _ _ i.request_id _
          none _ (Ticked-IsConsistent w _ refl h)
          (approved-IsCase g (p.clock w.ticks) w.events known status)
          (unfold approved_case in generated))

  -- Issuing a request for quotations keeps the state consistent, however the call ends.
  pub issue_rfq-Kept : (i : RfqInput) → Kept (issue_rfq p lifecycle i w)
  unfolding issue_rfq write_rfq read_clock draw_id find_by_requisition_id
  issue_rfq-Kept i = Kept-decide (check_rfq i w) (write_rfq p lifecycle i) w h (λ g same.
      let (found, status) = check_rfq-found w i g same in
      let (known, generated) = found-IsCase w _ g.case h found in
      append_and_save-Kept p lifecycle (rfq_case i g (p.clock w.ticks) ("rfq_" <> p.uuid w.drawn)) _
        _ _ i.request_id _ none _ (Ticked-IsConsistent w _ refl h)
        (rfq-IsCase i g (p.clock w.ticks) ("rfq_" <> p.uuid w.drawn) w.events known status)
        (unfold rfq_case in generated))

  -- Submitting a quotation keeps the state consistent, however the call ends.
  pub submit_quotation-Kept : (i : QuotationInput) → Kept (submit_quotation p lifecycle i w)
  unfolding submit_quotation write_quotation read_clock draw_id find_by_rfq_id
  submit_quotation-Kept i =
      Kept-decide (check_quotation p i w) (write_quotation p lifecycle i) w h (λ g same.
        let (found, has_rfq, invited, open_case) = check_quotation-found w p i g same in
        let (known, generated) = found-IsCase w _ g.case h found in
        let now = p.clock w.ticks in
        let q = new_quotation p i g now ("quote_" <> p.uuid w.drawn) in
        append_and_save-Kept p lifecycle (quoted_case g q now) _ _ _ i.request_id _ none _
          (Ticked-IsConsistent w _ refl h)
          (quoted-IsCase g q now w.events known has_rfq (unfold new_quotation in invited) open_case)
          (unfold quoted_case in generated))
