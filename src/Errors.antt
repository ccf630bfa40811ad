-- ===== src/Errors.antt =====
-- The errors that the modules raise, by class and reason; the wording of their messages is left out.
use blockchain_based_e_procu.Prelude.{String}

-- `ProcureToPayLifecycleValidationError`, by what was refused
pub data LifecycleFault : Type 0 where
  blank_request blank_actor blank_correlation blank_case blank_event_type : LifecycleFault
  unknown_event_type event_type_not_of_stage blank_target_type blank_target_id : LifecycleFault

-- `ProcureToPayLifecyclePersistenceErrorReason`
pub data LogFault : Type 0 where
  duplicate_event_id duplicate_payload_hash : LogFault
  previous_event_hash_not_found previous_event_hash_correlation_mismatch : LogFault

-- `EscrowPersistenceErrorReason`
pub data EscrowFault : Type 0 where
  duplicate_escrow_id escrow_not_found duplicate_active_order_escrow : EscrowFault

-- `ProcureToPayLifecycleSourceMappingError`
pub data SourceFault : Type 0 where
  blank_source_request blank_source_actor blank_source_id : SourceFault

-- What an `async` function may throw: an error of a class above, an `Error` with a message from
-- code outside the repository, or a thrown value that is no `Error`.
pub data Error : Type 0 where
  lifecycle_validation : LifecycleFault → Error
  lifecycle_persistence : LogFault → Error
  escrow_persistence : EscrowFault → Error
  source_mapping : SourceFault → Error
  external : String → Error
  not_an_error : Error

-- An issue of an input that is refused: `{ path: string; message: string }`
pub record Issue : Type 0 where
  pub path : String
  pub message : String

abbrev pub issue : String → String → Issue
issue p m = record { path = p; message = m }
