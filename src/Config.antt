-- ===== src/Config.antt =====
-- crates/tith-config/src/lib.rs: a configuration set once parsed. A `BTreeMap` by name is the list
-- of its entries in the order of the names, which is the order of its iterators.
pub mod Lines
use tith.Base.{
  ℕ, Bool, false, List, [], ◌∷◌, Option, none, some, if◌then◌else◌, Eq, ◌=?◌, nat_eq, list_eq,
}
use tith.Wire.Address.{Address, PublicKey, address_eq}
use tith.Wire.Pattern.{AddressPattern}

abbrev pub Name : Type 0
Name = List ℕ

pub data IdentityRef : Type 0 where
  address : Address → IdentityRef
  peer : Name → IdentityRef

-- The derived `PartialEq`.
abbrev pub identity_ref_beq : IdentityRef → IdentityRef → Bool
identity_ref_beq (address a) (address b) = a =? b
identity_ref_beq (peer a) (peer b) = a =? b
identity_ref_beq (address a) (peer b) = false
identity_ref_beq (peer a) (address b) = false

pub record Endpoint : Type 0 where
  pub server : List ℕ
  pub port : ℕ

pub record Peer : Type 0 where
  pub name : Name
  pub address : Address
  pub public_key : Option PublicKey
  pub endpoints : List Endpoint
  pub trust_on_first_use : Bool
  pub boss : Option Name
  pub hub : Option Name

pub data BranchKind : Type 0 where
  zone region host hub : BranchKind

pub data IndependentKind : Type 0 where
  zone region : IndependentKind

pub data Selector : Type 0 where
  all : Selector
  address : Address → Selector
  address_pattern : AddressPattern → Selector
  peer : Name → Selector
  branch : BranchKind → Address → Selector
  independent : IndependentKind → Address → Selector

pub data RouteMethod : Type 0 where
  via : Name → RouteMethod
  direct boss hub host region zone hold : RouteMethod

pub data Disposition : Type 0 where
  dead_letter discard : Disposition

pub data Notification : Type 0 where
  no_one sender origin_sysop both : Notification

pub record FailurePolicy : Type 0 where
  pub disposition : Disposition
  pub notification : Notification

pub data FailureKind : Type 0 where
  any_kind relay_denied rejected : FailureKind

pub record RouteRule : Type 0 where
  pub destination : Selector
  pub methods : List RouteMethod
  pub on_failure : Option FailurePolicy

pub data RelayAction : Type 0 where
  allow : Option FailurePolicy → RelayAction
  deny : RelayAction

pub record RelayRule : Type 0 where
  pub action : RelayAction
  pub source : Selector
  pub origin : Selector
  pub destination : Selector

pub record FailureRule : Type 0 where
  pub kind : FailureKind
  pub origin : Selector
  pub destination : Selector
  pub policy : FailurePolicy

pub record Routes : Type 0 where
  pub local : IdentityRef
  pub routes : List RouteRule
  pub relay : List RelayRule
  pub failures : List FailureRule
  pub failure_default : FailurePolicy

pub record Schedule : Type 0 where
  pub name : Name
  pub origin : IdentityRef
  pub classes : List (List ℕ)
  pub next_hops : List Selector
  pub polls : List Name
  pub start_local : Bool
  pub start_minutes : ℕ
  pub duration_minutes : ℕ
  pub repeat_after_minutes : ℕ

-- Of `ConfigurationSet`, what routing reads.
pub record ConfigurationSet : Type 0 where
  pub peers : List (Name × Peer)
  pub routes : List Routes

-- `BTreeMap::get`.
abbrev pub lookup {ℓ κ} : {K : Type ℓ} {V : Type κ} ⦃e : Eq K⦄ → K → List (K × V) → Option V
lookup k [] = none
lookup k ((j, v) ∷ rest) = if k =? j then some v else lookup k rest

-- `BTreeMap::values`.
abbrev pub map_values {ℓ κ} : {K : Type ℓ} {V : Type κ} → List (K × V) → List V
map_values [] = []
map_values ((k, v) ∷ rest) = v ∷ map_values rest
