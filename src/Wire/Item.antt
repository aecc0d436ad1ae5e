-- ===== src/Wire/Item.antt =====
-- crates/tith-wire/src/item_format_impl.rs: the types of validated items, without the codec that
-- makes them.
use tith.Base.{ℕ, List, Option, none, some, ◌==◌, if◌then◌else◌}
use tith.Wire.Address.{Address, Identity, PublicKey, Signature, TlvHash}
use tith.Wire.Tlv.{OwnedTlv}

pub data ItemKind : Type 0 where
  net_mail echo_mail file file_request accepted rejected : ItemKind
  poll_messages poll_files poll_file_requests public_key_request : ItemKind

pub data ItemAuthentication : Type 0 where
  unsigned signed_origin_invalid signed_origin_valid origin_invalid origin_valid :
      ItemAuthentication
  transport : ItemAuthentication

pub data SignedItemKind : Type 0 where
  message file : SignedItemKind

pub record SignedItemIdentity : Type 0 where
  pub kind : SignedItemKind
  pub signer : Identity
  pub signature : Signature

pub record ItemProvenance : Type 0 where
  pub origin : Address
  pub signer : Option Identity

pub data RejectionReason : Type 0 where
  permanent condition_unmet temporary : RejectionReason

unfoldable pub from_code : ℕ → Option RejectionReason
from_code code =
    if code == 1
    then some permanent
    else if code == 2
    then some condition_unmet
    else if code == 3
    then some temporary
    else none

-- `reason as u64`.
unfoldable pub reason_code : RejectionReason → ℕ
reason_code permanent = 1
reason_code condition_unmet = 2
reason_code temporary = 3

pub record Rejection : Type 0 where
  pub reason : RejectionReason
  pub retry_after : Option ℕ
  pub description : List ℕ

pub record ValidatedItem : Type 0 where
  pub kind : ItemKind
  pub request_identifier : ℕ
  pub duplicate_identity : Option SignedItemIdentity
  pub authentication : Option ItemAuthentication
  pub response_to : Option TlvHash
  pub response_public_key : Option PublicKey
  pub rejection : Option Rejection
  pub provenance : Option ItemProvenance
  pub destination : Option Identity
  pub area : Option (List ℕ)
  pub raw : OwnedTlv
