-- ===== src/Tests/Financing.antt =====
-- A distribution of profit, and a call for a contract that is not there.
use blockchain_based_e_procu.Prelude.{
  ℕ, [], ◌∷◌, none, some, ◌≡◌, refl, true, subst, ◌+◌, ◌*◌, ◌≤◌, ◌<◌, arith,
}
use blockchain_based_e_procu.Prelude.Text.{trimmed}
use blockchain_based_e_procu.Prelude.Store
use blockchain_based_e_procu.Financing.Money.{
  pos, negsuc, magnitude, parse_money, format_minor_units,
}
use blockchain_based_e_procu.Financing.Money.RoundTrip.{parse-format_minor_units}
use blockchain_based_e_procu.Financing.Contract.{
  PlsContract, active, profit, PlsState, find_contract, save_distribution, find_distribution,
  DistributionRecord,
}
use blockchain_based_e_procu.Financing.Distribution.{
  DistributionInput, created, not_found, allocate, new_distribution, create_distribution, is_active,
}
use blockchain_based_e_procu.Financing.Distribution.Shares.{IsSharedBy, create_distribution-Shared}
use blockchain_based_e_procu.Financing.Distribution.Allocation.{allocate-profit}
use blockchain_based_e_procu.Financing.Distribution.Outcomes.{create_distribution-unchanged}

abbrev contract : PlsContract
contract = record {
  contract_id = "c1";
  procurement_reference = "o1";
  contract_template_version = "v1";
  buyer_organization_id = "b";
  supplier_organization_id = "s";
  financier_organization_id = "f";
  capital_amount = "1000.00";
  currency = "MYR";
  profit_share = record { financier_percent = 60; venture_operator_percent = 40 };
  status = active;
  shariah_approval = none;
  shariah_certificate = none;
  activated_at = some "t1";
  created_at = "t0";
  updated_at = "t1";
}

abbrev input : DistributionInput
input = record {
  contract_id = some "c1";
  event_type = some profit;
  gross_result_amount = some "100.01";
  calculation_basis = some "audited result";
  created_by = none;
}

abbrev state : PlsState
state = record { contracts = contract ∷ []; distributions = [] }

abbrev empty_state : PlsState
empty_state = record { contracts = []; distributions = [] }

abbrev distribution : DistributionRecord
distribution = new_distribution "d1" "t2" input contract profit (pos 10001)

distributes :
    create_distribution "d1" "t2" input state
    ≡ (created distribution, save_distribution distribution state)
unfolding create_distribution Store.get
distributes = refl

state-whole :
    (c : PlsContract) → find_contract "c1" state ≡ some c → c.profit_share.financier_percent ≤ 100
unfolding find_contract Store.get
state-whole c found =
    let same : contract ≡ c = cc found in
    subst (λ (k : PlsContract). k.profit_share.financier_percent ≤ 100) same (omega arith)

create_distribution-Shared_example :
    (c : PlsContract) × (find_contract (trimmed (some "c1")) state ≡ some c)
    × (is_active c.status ≡ true)
    × IsSharedBy input c distribution
    × ((save_distribution distribution state).contracts ≡ contract ∷ [])
    × (find_distribution distribution.distribution_id (save_distribution distribution state)
        ≡ some distribution)
unfolding trimmed
create_distribution-Shared_example =
    create_distribution-Shared "d1" "t2" input state state-whole distribution
      (save_distribution distribution state) distributes

nothing_found : create_distribution "d1" "t2" input empty_state ≡ (not_found, empty_state)
unfolding create_distribution Store.get
nothing_found = refl

create_distribution-unchanged_example : empty_state ≡ empty_state
create_distribution-unchanged_example =
    create_distribution-unchanged "d1" "t2" input empty_state not_found empty_state nothing_found
      (λ d. cc)

allocate-profit_example :
    (f : ℕ) × (o : ℕ) × (allocate profit 60 (pos 10001) ≡ (pos f, pos o))
    × (f + o ≡ magnitude (pos 10001))
    × (f * 100 ≤ magnitude (pos 10001) * 60)
    × (magnitude (pos 10001) * 60 < f * 100 + 100)
allocate-profit_example = allocate-profit 60 (pos 10001) (omega arith)

parse-format_minor_units_example :
    parse_money (format_minor_units (negsuc 1249)) ≡ some (negsuc 1249)
parse-format_minor_units_example = parse-format_minor_units (negsuc 1249)
