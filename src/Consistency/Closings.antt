-- ===== src/Consistency/Closings.antt =====
-- `closeProcurementCase` keeps the state consistent: it writes a record of its own.
use blockchain_based_e_procu.Prelude.{String, Option}
use blockchain_based_e_procu.Procurement.Actor.{Actor}
use blockchain_based_e_procu.Procurement.Closing.Service.{check_close, write_closeout, close_case}
use blockchain_based_e_procu.World.{World, Platform, read_clock, draw_id, save_closeout}
use blockchain_based_e_procu.Consistency.{IsConsistent, Kept, Kept-decide}

pub close_case-Kept :
    (p : Platform) (id : String) (a : Actor) (notes : Option String) (w : World)
    → IsConsistent w
    → Kept (close_case p id a notes w)
unfolding close_case write_closeout read_clock draw_id save_closeout
close_case-Kept p id a notes w h =
    Kept-decide (check_close p id a w) (write_closeout p id notes w) w h (λ g same. record {
      escrows_sound = h.escrows_sound;
      orders_kept = h.orders_kept;
      book_kept = h.book_kept;
      cases_kept = h.cases_kept;
      generated = h.generated;
    })
