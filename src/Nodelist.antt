-- ===== src/Nodelist.antt =====
-- crates/tith-nodelist/src/document.rs: a nodelist once read. Of an entry this keeps the fields that
-- routing reads.
use tith.Base.{ℕ, Bool, List, Option, none, some, ◌&&◌}
use tith.Base.Options.{is_some}
use tith.Wire.Address.{Address, PublicKey, address_eq}
use tith.Config.{lookup}

pub data Keyword : Type 0 where
  normal private hold down zone region host hub : Keyword

pub data EndpointPort : Type 0 where
  registered_default : EndpointPort
  explicit : ℕ → EndpointPort

pub record Endpoint : Type 0 where
  pub server : Option (List ℕ)
  pub port : EndpointPort

abbrev pub registered_tith_port : Option ℕ
registered_tith_port = none

unfoldable pub resolved_port : EndpointPort → Option ℕ
resolved_port registered_default = registered_tith_port
resolved_port (explicit port) = some port

unfoldable pub is_usable : Endpoint → Bool
unfolding resolved_port
is_usable self = is_some self.server && is_some (resolved_port self.port)

pub record TithService : Type 0 where
  pub endpoints : List Endpoint
  pub public_key : PublicKey

pub record Branch : Type 0 where
  pub zone : Address
  pub region : Option Address
  pub host : Option Address
  pub hub : Option Address

pub record Entry : Type 0 where
  pub keyword : Keyword
  pub address : Address
  pub tith : Option TithService
  pub branch : Branch

-- A `BTreeMap` by address.
abbrev pub Nodelist : Type 0
Nodelist = List (Address × Entry)

unfoldable pub get : Nodelist → Address → Option Entry
get self address = lookup address self
