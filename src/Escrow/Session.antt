-- ===== src/Escrow/Session.antt =====
-- Sequences of calls of `createEscrow` and `transitionEscrow`, each with its own dependencies and
-- input, on one state; a call that throws leaves what it wrote before.
use blockchain_based_e_procu.Prelude.{true, List, [], ◌∷◌, ◌≡◌, All}
use blockchain_based_e_procu.Escrow.Rules.{EscrowDependencies, TransitionInput}
use blockchain_based_e_procu.Escrow.Create.{CreateEscrowInput}
use blockchain_based_e_procu.Escrow.Create.Write.{create_escrow}
use blockchain_based_e_procu.Escrow.Create.Write.Soundness.{create_escrow-IsSound}
use blockchain_based_e_procu.Escrow.Transition.{transition_escrow}
use blockchain_based_e_procu.Escrow.Current.{AreCurrent}
use blockchain_based_e_procu.Escrow.Current.Creations.{create_escrow-AreCurrent}
use blockchain_based_e_procu.Escrow.Current.Transitions.{transition_escrow-AreCurrent}
use blockchain_based_e_procu.Escrow.Invariant.{IsSound, transition_escrow-IsSound}
use blockchain_based_e_procu.World.{World, Platform}

pub data Call : Type 0 where
  creating : EscrowDependencies → CreateEscrowInput → Call
  transitioning : EscrowDependencies → TransitionInput → Call

-- The state after a call.
unfoldable pub after : Platform → Call → World → World
after p (creating d i) w = (create_escrow p d i w).1
after p (transitioning d i) w = (transition_escrow p d i w).1

-- The state after the calls, in order.
unfoldable pub session : Platform → List Call → World → World
unfolding after
session p [] w = w
session p (call ∷ calls) w = session p calls (after p call w)

after-IsSound :
    (p : Platform) (call : Call) (w : World)
    → IsSound w.events w.escrows
    → IsSound (after p call w).events (after p call w).escrows
unfolding after
after-IsSound p (creating d i) w sound = create_escrow-IsSound p d i w sound
after-IsSound p (transitioning d i) w sound = transition_escrow-IsSound p d i w sound

session-IsSound :
    (p : Platform) (calls : List Call) (w : World)
    → IsSound w.events w.escrows
    → IsSound (session p calls w).events (session p calls w).escrows
unfolding session
session-IsSound p [] w sound = sound
session-IsSound p (call ∷ calls) w sound =
    session-IsSound p calls (after p call w) (after-IsSound p call w sound)

-- From a state without events and escrows, every sequence of creations and transitions leads to a
-- sound one: an intact log, at most one active escrow for an order, and an event that an
-- escrow names is in the log, under its order and correlation.
pub session_from_empty-IsSound :
    (p : Platform) (calls : List Call) (w : World)
    → w.events ≡ []
    → w.escrows ≡ []
    → IsSound (session p calls w).events (session p calls w).escrows
session_from_empty-IsSound p calls w no_events no_escrows = session-IsSound p calls w (
    rw (no_events, no_escrows)
      (record {
        intact = record { unique_ids = tt; unique_hashes = tt; linked = tt };
        unique = tt;
        one_active = tt;
        linked = tt;
      }))

-- A call whose dependencies include the log of lifecycle events.
abbrev pub IsLogged : Call → Type 0
IsLogged (creating d i) = d.lifecycle ≡ true
IsLogged (transitioning d i) = d.lifecycle ≡ true

after-AreCurrent :
    (p : Platform) (call : Call) (w : World)
    → IsLogged call
    → AreCurrent w.events w.escrows
    → AreCurrent (after p call w).events (after p call w).escrows
unfolding after
after-AreCurrent p (creating d i) w on h = create_escrow-AreCurrent p d on i w h
after-AreCurrent p (transitioning d i) w on h = transition_escrow-AreCurrent p d on i w h

session-AreCurrent :
    (p : Platform) (calls : List Call) (w : World)
    → All IsLogged calls
    → AreCurrent w.events w.escrows
    → AreCurrent (session p calls w).events (session p calls w).escrows
unfolding session
session-AreCurrent p [] w on h = h
session-AreCurrent p (call ∷ calls) w on h =
    session-AreCurrent p calls (after p call w) on.1 (after-AreCurrent p call w on.0 h)

-- From a state without events and escrows, where every call has the log of lifecycle events, every
-- sequence of creations and transitions, however its calls end, leads to a state in which each
-- escrow keeps pace with the log: an escrow that names no event has the status of its creation, and
-- an event that it names is in the log, is about this escrow, and is of the type that brings an
-- escrow to its present status.
pub session_logged-AreCurrent :
    (p : Platform) (calls : List Call) (w : World)
    → w.events ≡ []
    → w.escrows ≡ []
    → All IsLogged calls
    → AreCurrent (session p calls w).events (session p calls w).escrows
session_logged-AreCurrent p calls w no_events no_escrows on =
    session-AreCurrent p calls w on (rw (no_events, no_escrows) tt)
