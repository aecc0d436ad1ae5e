-- ===== src/Ledger.antt =====
-- crates/tith-ledger/src/lib.rs: the adapter's ledger, which bridges the native queue and the legacy
-- files. A `String` is the list of its bytes. The errors of the database are left out.
pub mod Bytes
pub mod Codec
pub mod Pieces
pub mod RoundTrip
pub mod Operations
pub mod Book
pub mod Storable
pub mod Refines
pub mod Reads
pub mod Again
mod Runs
use tith.Base.{
  ℕ, Bool, true, false, ◌&&◌, ◌=?◌, Eq, nat_eq, list_eq, option_eq, list_beq_iff, option_beq_iff,
  ◌≡◌, ◌↔◌, arith, ◌==◌, if◌then◌else◌, List, [], ◌∷◌, Option, none, some,
}

abbrev pub Text : Type 0
Text = List ℕ

pub data LedgerError : Type 0 where
  corrupt_record : LedgerError
  quarantine_exists : Text → LedgerError

pub data State : Type 0 where
  staged published acknowledged retired : State

unfoldable pub code : State → ℕ
code staged = 1
code published = 2
code acknowledged = 3
code retired = 4

unfoldable pub from_code : ℕ → Option State
from_code code =
    if code == 1
    then some staged
    else if code == 2
    then some published
    else if code == 3
    then some acknowledged
    else if code == 4
    then some retired
    else none

pub record Object : Type 0 where
  pub name : Text
  pub digest : ℕ

pub record QuarantineObject : Type 0 where
  pub name : Text
  pub contents : List ℕ

pub record Orphan : Type 0 where
  pub inbound_id : Text
  pub authentication : Text
  pub reason : Text
  pub payload : List ℕ
  pub objects : List QuarantineObject
  pub notice : Option QuarantineObject
  pub notice_published : Bool

pub record Record : Type 0 where
  pub inbound_id : Text
  pub payload_hash : List ℕ
  pub state : State
  pub objects : List Object
  pub note : Text
  pub claim_token : Text
  pub distribution : Text
  pub forward_job : Text
  pub cleanup : List Text

-- The derived `PartialEq`s.
abbrev pub bool_beq : Bool → Bool → Bool
bool_beq true b = b
bool_beq false true = false
bool_beq false false = true

pub same_bool : (a b : Bool) → (bool_beq a b ≡ true) ↔ (a ≡ b)
same_bool true true = ground arith
same_bool true false = ground arith
same_bool false true = ground arith
same_bool false false = ground arith

pub same_quarantined :
    (a b : QuarantineObject) → ((a.name =? b.name && a.contents =? b.contents) ≡ true) ↔ (a ≡ b)
same_quarantined a b =
    ground (arith, list_beq_iff a.name b.name, list_beq_iff a.contents b.contents)

instance abbrev pub quarantined_eq : Eq QuarantineObject
quarantined_eq = record {
  beq = λ a b. a.name =? b.name && a.contents =? b.contents;
  beq_iff = λ a b. same_quarantined a b;
}

pub same_orphan :
    (a b : Orphan)
    → ((a.inbound_id =? b.inbound_id
          && a.authentication =? b.authentication
          && a.reason =? b.reason
          && a.payload =? b.payload
          && a.objects =? b.objects
          && a.notice =? b.notice
          && bool_beq a.notice_published b.notice_published)
        ≡ true)
      ↔ (a ≡ b)
same_orphan a b = ground (
  arith,
  list_beq_iff a.inbound_id b.inbound_id,
  list_beq_iff a.authentication b.authentication,
  list_beq_iff a.reason b.reason,
  list_beq_iff a.payload b.payload,
  list_beq_iff a.objects b.objects,
  option_beq_iff a.notice b.notice,
  same_bool a.notice_published b.notice_published,
)

instance abbrev pub orphan_eq : Eq Orphan
orphan_eq = record {
  beq = λ a b.
      a.inbound_id =? b.inbound_id
      && a.authentication =? b.authentication
      && a.reason =? b.reason
      && a.payload =? b.payload
      && a.objects =? b.objects
      && a.notice =? b.notice
      && bool_beq a.notice_published b.notice_published;
  beq_iff = λ a b. same_orphan a b;
}

-- `matches!(record.state, State::Staged | State::Published)`.
unfoldable pub is_unfinished : State → Bool
is_unfinished staged = true
is_unfinished published = true
is_unfinished acknowledged = false
is_unfinished retired = false

unfoldable pub owes_cleanup : List Text → Bool
owes_cleanup [] = false
owes_cleanup (path ∷ paths) = true
