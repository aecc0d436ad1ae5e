-- ===== src/Exchange/Tracker/Named.antt =====
-- crates/tith-exchange/src/response.rs: the request that a response names, and where it stands.
use tith.Base.{
  ℕ, zero, suc, ◌≡◌, refl, sym, ap, ◌∙◌, subst, arith, Bool, true, false, List, [], ◌∷◌, ◌++◌, All,
  take, drop, get_elem?, some, Bool-cases, inl, inr, list_beq_iff, nat_eq,
}
use tith.Wire.Address.{TlvHash}
use tith.Exchange.Tracker.{OutstandingRequest, position, insert, names, same_request}
use tith.Exchange.Tracker.Answered.{
  IsDistinct, position_first, position_step, place_hit, place_miss,
}

-- The request has the hash that the response names and the response's identifier.
abbrev pub Names : TlvHash → ℕ → OutstandingRequest → Type 0
Names hash identifier request =
    (request.signed_tlv_hash ≡ hash) × (request.request_identifier ≡ identifier)

pub names-Names :
    (hash : TlvHash) (identifier : ℕ) (request : OutstandingRequest)
    → names hash identifier request ≡ true
    → Names hash identifier request
names-Names hash identifier request h = ground (arith, list_beq_iff request.signed_tlv_hash hash)

pub Names-names :
    (hash : TlvHash) (identifier : ℕ) (request : OutstandingRequest)
    → Names hash identifier request
    → names hash identifier request ≡ true
Names-names hash identifier request h = ground (arith, list_beq_iff request.signed_tlv_hash hash)

-- The request that `position` finds passes the test.
pub position-names :
    (p : OutstandingRequest → Bool) (os : List OutstandingRequest) (i : ℕ) (o : OutstandingRequest)
    → position p os ≡ some i
    → get_elem? os i ≡ some o
    → p o ≡ true
position-names p [] i o e g = cc
position-names p (r ∷ os) i o e g = elim (Bool-cases (p r)) [
  | inl hit ↦
      let g' = rw (place_hit p r os i hit e) at g in let same : r ≡ o = cc g' in rw (← same) hit
  | inr miss ↦
      let (q, eq, e') = place_miss p r os i miss e in position-names p os q o e' (rw eq at g)
]

names-same_request :
    (hash : TlvHash) (identifier : ℕ) (a b : OutstandingRequest)
    → names hash identifier a ≡ true
    → names hash identifier b ≡ true
    → same_request a b ≡ true
names-same_request hash identifier a b h k =
    let na = names-Names hash identifier a h in rw (na.0, na.1) k

All-get_elem? :
    (P : OutstandingRequest → Type 0) (os : List OutstandingRequest) (i : ℕ)
    (o : OutstandingRequest)
    → All P os
    → get_elem? os i ≡ some o
    → P o
All-get_elem? P [] i o h g = cc
All-get_elem? P (r ∷ os) zero o h g = let same : r ≡ o = cc g in subst P same h.0
All-get_elem? P (r ∷ os) (suc i) o h g = All-get_elem? P os i o h.1 g

-- Among distinct requests the one that is named is the one that is found.
pub position-IsDistinct :
    (hash : TlvHash) (identifier : ℕ) (os : List OutstandingRequest) (place : ℕ)
    (o : OutstandingRequest)
    → IsDistinct os
    → get_elem? os place ≡ some o
    → names hash identifier o ≡ true
    → position (names hash identifier) os ≡ some place
position-IsDistinct hash identifier [] place o d g n = cc
position-IsDistinct hash identifier (r ∷ os) zero o d g n =
    let same : r ≡ o = cc g in position_first (names hash identifier) r os (rw same n)
position-IsDistinct hash identifier (r ∷ os) (suc place) o (ne, d) g n =
    elim (Bool-cases (names hash identifier r)) [
      | inl hit ↦
          let apart = All-get_elem? (λ x. same_request r x ≡ false) os place o ne g in
          cc (sym apart ∙ names-same_request hash identifier r o hit n)
      | inr miss ↦
          position_step (names hash identifier) r os place miss
            (position-IsDistinct hash identifier os place o d g n)
    ]

pub insert-take-drop :
    {A : Type 0} (i : ℕ) (a : A) (xs : List A) → insert i a xs ≡ take i xs ++ a ∷ drop i xs
insert-take-drop zero a xs = refl
insert-take-drop (suc i) a [] = refl
insert-take-drop (suc i) a (x ∷ xs) = ap (λ ys. x ∷ ys) (insert-take-drop i a xs)
