-- ===== src/Chaincode/Ledger.antt =====
-- The ledger under the contract: what is anchored is read back, is never changed, and is anchored
-- once.
use blockchain_based_e_procu.Prelude.{
  String, Bool, true, false, not, Option, none, some, ◌≡◌, ◌≢◌, refl, sym, subst, ◌∙◌, ap, arith,
  Bool-cases, inl, inr, if◌then◌else◌,
}
use blockchain_based_e_procu.Prelude.Text.{◌=s◌}
use blockchain_based_e_procu.Prelude.Guard.{Guard, refuse, pass, refuse_if, ◌>>=◌, ◌>>◌}
use blockchain_based_e_procu.Chaincode.{Fault, duplicate_anchor, AnchorInput, Anchor, Stub, Host}
use blockchain_based_e_procu.Chaincode.Contract.{
  verified, mismatch, anchor_key, case_index_key, new_anchor, write_anchor, check_anchor,
  anchor_event, finish_anchor, get_anchor, verify_event,
}
use blockchain_based_e_procu.Chaincode.Input.{
  parse_anchor_input, required_text, validate_hash, is_anchor_hash,
}

-- What the stub and the library promise: a ledger gives back what was put, a write changes its own
-- key only, keys made of different parts differ, and a record is read back from its bytes.
pub record IsLedger {S I B : Type 0} (stub : Stub S I B) (host : Host B) : Type 0 where
  pub get_put : (s : S) (k : String) (v : B) → stub.get_state (stub.put_state s k v) k ≡ v
  pub get_other :
      (s : S) (k : String) (v : B) (j : String)
      → k ≢ j
      → stub.get_state (stub.put_state s k v) j ≡ stub.get_state s j
  pub anchor_keys_differ : (a b : String) → anchor_key stub host a ≡ anchor_key stub host b → a ≡ b
  pub index_key_differs : (c i a : String) → case_index_key stub host c i ≢ anchor_key stub host a
  pub read_back : (a : Anchor) → host.decode (host.encode a) ≡ a
  pub not_empty : (a : Anchor) → host.is_empty_buffer (host.encode a) ≡ false

-- A test that has been passed after other tests.
free :
    (g : Guard Fault AnchorInput) (test : AnchorInput → Bool) (fault : AnchorInput → Fault)
    (i : AnchorInput)
    → (g >>= λ input. refuse_if (not (test input)) (fault input) >> pass input) ≡ pass i
    → test i ≡ true
free (refuse f) test fault i h = absurd (cc h)
free (pass input) test fault i h = elim (Bool-cases (test input)) [
  | inl yes_empty ↦ let same : input ≡ i = ground arith in rw (← same) yes_empty
  | inr other ↦ absurd (ground arith)
]

abbrev nothing : Guard Fault (Option Anchor)
nothing = pass none

never : (a : Anchor) → ¬ (nothing ≡ pass (some a))
never a h = cc h

module _ {S I B : Type 0} (stub : Stub S I B) (host : Host B) (ledger : IsLedger stub host) where
  -- The bytes under the key of an anchor, after it was written.
  written :
      (i : AnchorInput) (at : String) (s : S)
      → stub.get_state (write_anchor stub host i at s) (anchor_key stub host i.event_id)
        ≡ host.encode (new_anchor stub host i at)
  unfolding write_anchor
  written i at s =
      ledger.get_other _ _ _ _ (ledger.index_key_differs i.case_id_hash i.event_id i.event_id)
      ∙ ledger.get_put s _ _

  -- The bytes under the key of another anchor.
  unwritten :
      (i : AnchorInput) (at : String) (s : S) (id : String)
      → i.event_id ≢ id
      → stub.get_state (write_anchor stub host i at s) (anchor_key stub host id)
        ≡ stub.get_state s (anchor_key stub host id)
  unfolding write_anchor
  unwritten i at s id n =
      ledger.get_other _ _ _ _ (ledger.index_key_differs i.case_id_hash i.event_id id)
      ∙ ledger.get_other s _ _ _ (λ same. n (ledger.anchor_keys_differ i.event_id id same))

  check_anchor-free :
      (json : String) (s : S) (i : AnchorInput)
      → check_anchor stub host json s ≡ pass i
      → host.is_empty_buffer (stub.get_state s (anchor_key stub host i.event_id)) ≡ true
  unfolding check_anchor
  check_anchor-free json s i h =
      free (parse_anchor_input host json)
        (λ input. host.is_empty_buffer (stub.get_state s (anchor_key stub host input.event_id)))
        (λ input. duplicate_anchor input.event_id) i h

  -- An anchor that has been accepted is read back as it was given, with the time of its transaction.
  pub anchor_event-read_back :
      (json at transaction : String) (s : S) (i : AnchorInput) (id : String)
      → check_anchor stub host json s ≡ pass i
      → required_text id "eventId" ≡ pass i.event_id
      → get_anchor stub host id (anchor_event stub host json at transaction s).1
        ≡ pass (some (new_anchor stub host i at))
  unfolding anchor_event get_anchor
  anchor_event-read_back json at transaction s i id accepted same =
      rw
        (
          accepted,
          same,
          written i at s,
          ledger.not_empty (new_anchor stub host i at),
          ledger.read_back (new_anchor stub host i at),
        )
        refl

  -- A further transaction is refused the event that has been anchored: whatever it accepts has another
  -- event.
  pub check_anchor-once :
      (json at : String) (s : S) (i : AnchorInput) (json' : String) (j : AnchorInput)
      → check_anchor stub host json s ≡ pass i
      → check_anchor stub host json' (write_anchor stub host i at s) ≡ pass j
      → j.event_id ≢ i.event_id
  check_anchor-once json at s i json' j first second same =
      let empty : host.is_empty_buffer (host.encode (new_anchor stub host i at)) ≡ true =
        subst (λ b. host.is_empty_buffer b ≡ true)
          (ap (λ id. stub.get_state (write_anchor stub host i at s) (anchor_key stub host id)) same
            ∙ written i at s)
          (check_anchor-free json' (write_anchor stub host i at s) j second) in
      cc (sym empty ∙ ledger.not_empty (new_anchor stub host i at))

  -- What an anchored event is verified against: the hash that was anchored, and no other.
  pub anchor_event-verified :
      (json at transaction : String) (s : S) (i : AnchorInput) (id hash : String)
      → check_anchor stub host json s ≡ pass i
      → required_text id "eventId" ≡ pass i.event_id
      → required_text i.event_id "eventId" ≡ pass i.event_id
      → required_text hash "payloadHash" ≡ pass hash
      → is_anchor_hash hash ≡ true
      → verify_event stub host id hash (anchor_event stub host json at transaction s).1
        ≡ pass (record {
          event_id = i.event_id;
          status = if i.payload_hash =s hash then verified else mismatch;
          submitted_payload_hash = hash;
          anchored_payload_hash = some i.payload_hash;
          anchored_at = some at;
        })
  unfolding verify_event validate_hash
  anchor_event-verified json at transaction s i id hash accepted same clean plain hashed =
      rw
        (
          same,
          plain,
          hashed,
          anchor_event-read_back json at transaction s i i.event_id accepted clean,
        )
        refl

  taken :
      (s : S) (id : String) (a : Anchor) (k : String)
      → required_text id "eventId" ≡ pass k
      → get_anchor stub host id s ≡ pass (some a)
      → ¬ (host.is_empty_buffer (stub.get_state s (anchor_key stub host k)) ≡ true)
  unfolding get_anchor
  taken s id a k clean h empty = never a (rw (clean, empty) at h)

  unchanged :
      (at transaction : String) (s : S) (id k : String) (a : Anchor) (g : Guard Fault AnchorInput)
      → required_text id "eventId" ≡ pass k
      → ((i : AnchorInput) → g ≡ pass i → i.event_id ≢ k)
      → get_anchor stub host id s ≡ pass (some a)
      → get_anchor stub host id (finish_anchor stub host at transaction s g).1 ≡ pass (some a)
  unfolding finish_anchor get_anchor
  unchanged at transaction s id k a (refuse f) clean other h = h
  unchanged at transaction s id k a (pass i) clean other h =
      rw (clean, unwritten i at s k (other i refl)) (rw clean at h)

  -- No transaction changes or removes an anchor, whether it is accepted or refused.
  pub anchor_event-append_only :
      (json at transaction : String) (s : S) (id k : String) (a : Anchor)
      → required_text id "eventId" ≡ pass k
      → get_anchor stub host id s ≡ pass (some a)
      → get_anchor stub host id (anchor_event stub host json at transaction s).1 ≡ pass (some a)
  unfolding anchor_event
  anchor_event-append_only json at transaction s id k a clean h =
      unchanged at transaction s id k a (check_anchor stub host json s) clean
        (λ i accepted same. taken s id a k clean h (
          subst (λ e. host.is_empty_buffer (stub.get_state s (anchor_key stub host e)) ≡ true) same
            (check_anchor-free json s i accepted)))
        h
