-- ===== src/Escrow/Upkeep.antt =====
-- How single writes of the repositories keep the escrows and the log sound.
use blockchain_based_e_procu.Prelude.{
  false, List, [], ◌∷◌, ◌++◌, none, some, ◌≡◌, refl, ◌∙◌, ap, ◌≢◌, ◌⊎◌, inl, inr, arith, eq_iff,
  All, All-map, Option-cases, if◌then◌else◌, find-eq-none, Bool-cases, is_some,
}
use blockchain_based_e_procu.Prelude.Store
use blockchain_based_e_procu.Prelude.Store.{HasUniqueKeys}
use blockchain_based_e_procu.Prelude.Effect.{ok, thrown}
use blockchain_based_e_procu.Errors.{
  Error, escrow_persistence, duplicate_escrow_id, duplicate_active_order_escrow,
}
use blockchain_based_e_procu.Lifecycle.Event.{LifecycleEvent}
use blockchain_based_e_procu.Lifecycle.Integrity.{CanAppend, append-IsIntact}
use blockchain_based_e_procu.Escrow.Record.{EscrowRecord}
use blockchain_based_e_procu.Escrow.Repository.{
  escrow_key, is_active_for, find_by_id, find_active_by_order_id, create,
}
use blockchain_based_e_procu.Escrow.Invariant.{Rival, Rival-sym, IsLinked, IsLinked-append, IsSound}

pub append-IsSound :
    (log : List LifecycleEvent) (escrows : List EscrowRecord) (v : LifecycleEvent)
    → IsSound log escrows
    → CanAppend log v
    → IsSound (log ++ v ∷ []) escrows
append-IsSound log escrows v sound can = record {
  intact = append-IsIntact log v sound.intact can;
  unique = sound.unique;
  one_active = sound.one_active;
  linked = IsLinked-append log (v ∷ []) escrows sound.linked;
}

-- A write of an escrow that has no other active one beside it, and that is linked to the log.
pub put-IsSound :
    (log : List LifecycleEvent) (escrows : List EscrowRecord) (e : EscrowRecord)
    → IsSound log escrows
    → All (λ x. escrow_key x ≢ escrow_key e → Rival e x) escrows
    → IsLinked log e
    → IsSound log (Store.put escrow_key e escrows)
put-IsSound log escrows e sound rivals linked = record {
  intact = sound.intact;
  unique = Store.HasUniqueKeys-put escrow_key e escrows sound.unique;
  one_active =
      Store.Pairwise-put escrow_key Rival Rival-sym e escrows sound.unique sound.one_active rivals;
  linked = Store.All-put escrow_key (IsLinked log) e escrows linked sound.linked;
}

-- Where no active escrow of the order is found, an escrow of the order has no rival.
pub free-Rival :
    (e : EscrowRecord) (escrows : List EscrowRecord)
    → find_active_by_order_id e.order_id escrows ≡ none
    → All (λ x. escrow_key x ≢ escrow_key e → Rival e x) escrows
unfolding find_active_by_order_id
free-Rival e escrows h =
    All-map (λ x. is_active_for e.order_id x ≡ false) (λ x. escrow_key x ≢ escrow_key e → Rival e x)
      (λ x other apart active_e active_x same. ground (arith, eq_iff x.order_id e.order_id)) escrows
      (find-eq-none (is_active_for e.order_id) escrows h)

-- A creation in the repository either writes the escrow, where it has no rival, or throws.
pub create_cases :
    (e : EscrowRecord) (escrows : List EscrowRecord)
    → ((create e escrows ≡ (ok e, Store.put escrow_key e escrows))
        × (find_active_by_order_id e.order_id escrows ≡ none))
      ⊎ ((x : Error) × (create e escrows ≡ (thrown x, escrows)))
unfolding create
create_cases e escrows = elim (Bool-cases (is_some (find_by_id e.escrow_id escrows))) [
  | inl there ↦ inr (escrow_persistence duplicate_escrow_id, ground arith)
  | inr fresh ↦ elim (Option-cases (find_active_by_order_id e.order_id escrows)) [
    | inl free ↦ inl (ground arith, free)
    | inr (other, found) ↦ inr (escrow_persistence duplicate_active_order_escrow, ground arith)
  ]
]

-- An entry that was put is found.
pub find-put :
    (e : EscrowRecord) (escrows : List EscrowRecord)
    → find_by_id e.escrow_id (Store.put escrow_key e escrows) ≡ some e
unfolding find_by_id
find-put e escrows =
    Store.get-put escrow_key e.escrow_id e escrows
    ∙ ap (λ b. if b then some e else Store.get escrow_key e.escrow_id escrows)
        ((eq_iff e.escrow_id e.escrow_id).1 refl)
