-- ===== src/Procurement/Sourcing/Choosing.antt =====
-- What the tests of `awardSourceToAwardRfq` establish.
use mathlib.Core.List.{Memᴰ}
use blockchain_based_e_procu.Prelude.{true, false, some, ◌≡◌, arith, find-mem, is_some}
use blockchain_based_e_procu.Prelude.Text.{◌=s◌, trim_optional}
use blockchain_based_e_procu.Prelude.Guard.{pass}
use blockchain_based_e_procu.Procurement.Actor.{as_string}
use blockchain_based_e_procu.Procurement.SourceCase.{Quotation, find_by_rfq_id}
use blockchain_based_e_procu.Procurement.Sourcing.{AwardInput}
use blockchain_based_e_procu.Procurement.Sourcing.Checks.{Choice, check_award}
use blockchain_based_e_procu.World.{World}

-- What the tests of an award have established.
pub record IsChoice (i : AwardInput) (w : World) (g : Choice) : Type 0 where
  pub found : find_by_rfq_id (as_string (trim_optional i.rfq_id)) w.cases ≡ some g.case
  pub has_rfq : is_some g.case.rfq ≡ true
  pub no_award : is_some g.case.award ≡ false
  pub chosen : Memᴰ g.quotation g.case.quotations

pub check_award-IsChoice :
    (i : AwardInput) (w : World) (g : Choice) → check_award i w ≡ pass g → IsChoice i w g
unfolding check_award
check_award-IsChoice i w g h = record {
  found = ground arith;
  has_rfq = ground arith;
  no_award = ground arith;
  chosen =
      (find-mem (λ (q : Quotation). q.quotation_id =s as_string (trim_optional i.quotation_id))
        g.case.quotations g.quotation (ground arith)).0;
}
