-- ===== src/Tests/Start.antt =====
-- Actors, and the state in which the runs of the services start.
use blockchain_based_e_procu.Prelude.{Bool, [], ◌∷◌, some, refl}
use blockchain_based_e_procu.Procurement.Actor.{Actor}
use blockchain_based_e_procu.Procurement.Ordering.Create.{OrderDependencies}
use blockchain_based_e_procu.World.{World}
use blockchain_based_e_procu.System.Reached.{IsBlank}
use blockchain_based_e_procu.Tests.Data.{empty_world, find_eligible}

abbrev pub buyer : Actor
buyer = record { user_id = some "u1"; organization_id = some "b"; role_codes = some ("buyer" ∷ []) }

abbrev pub supplier : Actor
supplier = record {
  user_id = some "u2";
  organization_id = some "s";
  role_codes = some ("supplier" ∷ []);
}

abbrev pub blank_world : World
blank_world = record empty_world { orders = []; evidence = [] }

pub blank : IsBlank blank_world
blank = record {
  no_events = refl;
  no_escrows = refl;
  no_orders = refl;
  no_invoices = refl;
  no_cases = refl;
}

-- With a log of events, and without one.
abbrev pub with_log : Bool → OrderDependencies
with_log log = record { lifecycle = log; eligibility_gateway = some find_eligible }
