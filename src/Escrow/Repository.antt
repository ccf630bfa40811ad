-- ===== src/Escrow/Repository.antt =====
-- infrastructure/in-memory-escrow-repository.ts, and application/get-escrow.ts.
use blockchain_based_e_procu.Prelude.{
  String, Bool, List, Option, none, some, ◌&&◌, find, is_some, if◌then◌else◌,
}
use blockchain_based_e_procu.Prelude.Text.{◌=s◌, trim}
use blockchain_based_e_procu.Prelude.Store
use blockchain_based_e_procu.Prelude.Effect.{M, ok, throw}
use blockchain_based_e_procu.Errors.{
  Error, escrow_persistence, duplicate_escrow_id, duplicate_active_order_escrow, escrow_not_found,
}
use blockchain_based_e_procu.Escrow.Record.{EscrowRecord, is_active_escrow_status}

abbrev pub escrow_key : EscrowRecord → String
escrow_key e = e.escrow_id

abbrev pub is_active_for : String → EscrowRecord → Bool
is_active_for order_id e = e.order_id =s order_id && is_active_escrow_status e.status

-- `findById`
unfoldable pub find_by_id : String → List EscrowRecord → Option EscrowRecord
find_by_id id escrows = Store.get escrow_key id escrows

-- `findActiveByOrderId`
unfoldable pub find_active_by_order_id : String → List EscrowRecord → Option EscrowRecord
find_active_by_order_id order_id escrows = find (is_active_for order_id) escrows

write : EscrowRecord → M (List EscrowRecord) Error EscrowRecord
write e escrows = (ok e, Store.put escrow_key e escrows)

-- `create`
unfoldable pub create : EscrowRecord → M (List EscrowRecord) Error EscrowRecord
unfolding write find_by_id find_active_by_order_id
create e escrows =
    if is_some (find_by_id e.escrow_id escrows)
    then throw (escrow_persistence duplicate_escrow_id) escrows
    else if is_some (find_active_by_order_id e.order_id escrows)
    then throw (escrow_persistence duplicate_active_order_escrow) escrows
    else write e escrows

-- `update`
unfoldable pub update : EscrowRecord → M (List EscrowRecord) Error EscrowRecord
unfolding write find_by_id
update e escrows =
    if is_some (find_by_id e.escrow_id escrows)
    then write e escrows
    else throw (escrow_persistence escrow_not_found) escrows

pub data GetEscrowResult : Type 0 where
  found : EscrowRecord → GetEscrowResult
  invalid_input not_found : GetEscrowResult

answer : Option EscrowRecord → GetEscrowResult
answer none = not_found
answer (some e) = found e

-- `getEscrow`; the one issue of an invalid input is that the identifier is blank.
unfoldable pub get_escrow : String → List EscrowRecord → GetEscrowResult
unfolding find_by_id trim answer
get_escrow id escrows =
    if trim id =s "" then invalid_input else answer (find_by_id (trim id) escrows)
