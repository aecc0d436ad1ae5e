-- ===== src/Store/Inbound.antt =====
-- crates/tith-store/src/lib.rs: the inbound records, their claims and resolutions.
pub mod Codec
pub mod Steps
pub mod Operations
pub mod Reading
pub mod Resolved
pub mod ClaimSteps
pub mod Claimed
pub mod Accept
mod Runs
use tith.Base.{ℕ, Bool, true, false, List, [], ◌∷◌, Option, none, some}
use tith.Wire.Address.{PublicKey, TlvHash}
use tith.Wire.Item.{ItemAuthentication}
use tith.Store.Types.{Text, InboundState}

pub data ItemKind : Type 0 where
  message file file_request : ItemKind

pub record InboundRecord : Type 0 where
  pub inbound_id : Text
  pub application : Text
  pub local_identity : Text
  pub peer : Text
  pub peer_key : PublicKey
  pub received : ℕ
  pub changed : ℕ
  pub kind : ItemKind
  pub authentication : ItemAuthentication
  pub payload_size : ℕ
  pub payload_hash : TlvHash
  pub state : InboundState
  pub attempts : ℕ
  pub eligible_at : ℕ
  pub claim_key : Option Text
  pub claim_token : Option Text
  pub claim_expires : Option ℕ
  pub last_result : Option Text
  pub forward_job : Option Text

pub record Claim : Type 0 where
  pub inbound_id : Text
  pub claim_token : Text
  pub expires : ℕ
  pub record_of : InboundRecord

pub data ClaimResult : Type 0 where
  completed : Claim → ClaimResult
  empty : ClaimResult
  resolved : Text → InboundState → ClaimResult

pub data Resolution : Type 0 where
  acknowledge release : Resolution
  defer : ℕ → Text → Resolution
  reject : Text → Resolution
