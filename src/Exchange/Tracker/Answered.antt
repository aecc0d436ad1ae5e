-- ===== src/Exchange/Tracker/Answered.antt =====
-- The order of completed responses: which of the outstanding requests have been answered.
use tith.Base.{
  ℕ, suc, ◌≤◌, ◌≡◌, refl, ◌∙◌, arith, Bool, true, false, List, [], ◌∷◌, length, any, All, get_elem?,
  map, Option, none, some, Bool-cases, inl, inr, list_beq_iff, nat_eq, ap₂,
}
use tith.Wire.Address.{TlvHash}
use tith.Exchange.Tracker.{
  OutstandingRequest, CompletedResponse, position, partition_point, insert, names, same_request,
  stands_before,
}

-- The completed responses are one each for some of the outstanding requests, in their order.
pub data Answered : List OutstandingRequest → List CompletedResponse → Type 0 where
  done : Answered [] []
  skip :
      {o : OutstandingRequest} {os : List OutstandingRequest} {cs : List CompletedResponse}
      → Answered os cs
      → Answered (o ∷ os) cs
  answer :
      {o : OutstandingRequest} {os : List OutstandingRequest} {c : CompletedResponse}
      {cs : List CompletedResponse}
      → c.request ≡ o
      → Answered os cs
      → Answered (o ∷ os) (c ∷ cs)

-- No two requests have one hash and one identifier.
abbrev pub IsDistinct : List OutstandingRequest → Type 0
IsDistinct [] = Unit {0}
IsDistinct (o ∷ os) = All (λ r. same_request o r ≡ false) os × IsDistinct os

same_request_refl : (a : OutstandingRequest) → same_request a a ≡ true
same_request_refl a = ground (arith, list_beq_iff a.signed_tlv_hash a.signed_tlv_hash)

same_request_comm : (a b : OutstandingRequest) → same_request a b ≡ same_request b a
same_request_comm a b = ground (
  arith,
  list_beq_iff a.signed_tlv_hash b.signed_tlv_hash,
  list_beq_iff b.signed_tlv_hash a.signed_tlv_hash,
)

pub Answered-none : (os : List OutstandingRequest) → Answered os []
Answered-none [] = done
Answered-none (o ∷ os) = skip (Answered-none os)

length-Answered :
    {os : List OutstandingRequest} {cs : List CompletedResponse}
    → Answered os cs
    → length cs ≤ length os
length-Answered done = omega arith
length-Answered (skip a) = omega (arith, length-Answered a)
length-Answered (answer e a) = omega (arith, length-Answered a)

-- With as many responses as requests, the responses are to the requests, one by one.
pub Answered-all :
    {os : List OutstandingRequest} {cs : List CompletedResponse}
    → Answered os cs
    → length cs ≡ length os
    → map (λ c. c.request) cs ≡ os
Answered-all done h = refl
Answered-all (skip a) h = absurd (omega (arith, length-Answered a))
Answered-all (answer e a) h = ap₂ (λ x y. x ∷ y) e (Answered-all a (omega arith))

pub position_step :
    (p : OutstandingRequest → Bool) (o : OutstandingRequest) (os : List OutstandingRequest) (i : ℕ)
    → p o ≡ false
    → position p os ≡ some i
    → position p (o ∷ os) ≡ some (suc i)
position_step p o os i h e = ground arith

pub position_first :
    (p : OutstandingRequest → Bool) (o : OutstandingRequest) (os : List OutstandingRequest)
    → p o ≡ true
    → position p (o ∷ os) ≡ some 0
position_first p o os h = ground arith

-- A completed response names an outstanding request.
position-Answered :
    {os : List OutstandingRequest} {c : CompletedResponse} {cs : List CompletedResponse}
    → Answered os (c ∷ cs)
    → (i : ℕ) × (position (same_request c.request) os ≡ some i)
position-Answered {c = c} (skip {o} {os} a) = elim (Bool-cases (same_request c.request o)) [
  | inl h ↦ (0, position_first (same_request c.request) o os h)
  | inr h ↦
      let (i, e) = position-Answered a in (suc i, position_step (same_request c.request) o os i h e)
]
position-Answered (answer {o} {os} {c} {cs} e a) =
    (0, position_first (same_request c.request) o os (rw e (same_request_refl o)))

-- Where `o` is none of the requests, no response is to it.
Answered-differs :
    (o : OutstandingRequest) {os : List OutstandingRequest} {cs : List CompletedResponse}
    → All (λ r. same_request o r ≡ false) os
    → Answered os cs
    → All (λ c. same_request c.request o ≡ false) cs
Answered-differs o h done = tt
Answered-differs o h (skip a) = Answered-differs o h.1 a
Answered-differs o h (answer {o = r} {c = c} e a) =
    (same_request_comm c.request o ∙ rw e h.0, Answered-differs o h.1 a)

stands_before_first :
    (o : OutstandingRequest) (os : List OutstandingRequest) (c : CompletedResponse) (n : ℕ)
    → same_request c.request o ≡ true
    → stands_before (o ∷ os) (suc n) c ≡ some true
unfolding stands_before
stands_before_first o os c n h = ground (arith, position_first (same_request c.request) o os h)

stands_before_later :
    (o : OutstandingRequest) (os : List OutstandingRequest) (c : CompletedResponse) (n : ℕ)
    → same_request c.request o ≡ false
    → stands_before (o ∷ os) (suc n) c ≡ stands_before os n c
unfolding stands_before
stands_before_later o os c n h = ground arith

partition_point_cong :
    (f g : CompletedResponse → Option Bool) (c : CompletedResponse) (cs : List CompletedResponse)
    → f c ≡ g c
    → partition_point f cs ≡ partition_point g cs
    → partition_point f (c ∷ cs) ≡ partition_point g (c ∷ cs)
partition_point_cong f g c cs h k = ground arith

partition_point_pass :
    (f : CompletedResponse → Option Bool) (c : CompletedResponse) (cs : List CompletedResponse)
    (i : ℕ)
    → f c ≡ some true
    → partition_point f cs ≡ some i
    → partition_point f (c ∷ cs) ≡ some (suc i)
partition_point_pass f c cs i h k = ground arith

-- Another request in front moves every place by one, and so the insertion stays where it was.
partition_point-later :
    (o : OutstandingRequest) (os : List OutstandingRequest) (n : ℕ) (cs : List CompletedResponse)
    → All (λ c. same_request c.request o ≡ false) cs
    → partition_point (stands_before (o ∷ os) (suc n)) cs ≡ partition_point (stands_before os n) cs
partition_point-later o os n [] h = refl
partition_point-later o os n (c ∷ cs) (h, hs) =
    partition_point_cong _ _ c cs (stands_before_later o os c n h)
      (partition_point-later o os n cs hs)

-- No response stands before the first request.
partition_point-first :
    (os : List OutstandingRequest) (cs : List CompletedResponse)
    → Answered os cs
    → partition_point (stands_before os 0) cs ≡ some 0
partition_point-first os [] a = refl
partition_point-first os (c ∷ cs) a =
    let (i, e) = position-Answered a in unfold stands_before in ground (arith, e)

-- What a hit or a miss at the first request says of the place found.
pub place_hit :
    (p : OutstandingRequest → Bool) (o : OutstandingRequest) (os : List OutstandingRequest)
    (place : ℕ)
    → p o ≡ true
    → position p (o ∷ os) ≡ some place
    → place ≡ 0
place_hit p o os place h e = ground arith

pub place_miss :
    (p : OutstandingRequest → Bool) (o : OutstandingRequest) (os : List OutstandingRequest)
    (place : ℕ)
    → p o ≡ false
    → position p (o ∷ os) ≡ some place
    → (q : ℕ) × (place ≡ suc q) × (position p os ≡ some q)
place_miss p o os place h e = found (position p os) refl
  where
    found :
        (r : Option ℕ) → position p os ≡ r → (q : ℕ) × (place ≡ suc q) × (position p os ≡ some q)
    found none x = ground arith
    found (some q) x = (q, ground arith, x)

-- Recording a response to the request at `place` keeps the order.
pub insert-Answered :
    (os : List OutstandingRequest) (cs : List CompletedResponse) (h : TlvHash) (id place : ℕ)
    (new : CompletedResponse)
    → Answered os cs
    → IsDistinct os
    → position (names h id) os ≡ some place
    → get_elem? os place ≡ some new.request
    → any (λ c. names h id c.request) cs ≡ false
    → (i : ℕ) × (partition_point (stands_before os place) cs ≡ some i)
      × Answered os (insert i new cs)
insert-Answered os cs h id place new done d p g f = cc
insert-Answered os cs h id place new (skip {o} {os = os'} a) (ne, d) p g f =
    elim (Bool-cases (names h id o)) [
      | inl hit ↦
          let e = place_hit (names h id) o os' place hit p in
          (0, rw e (partition_point-first (o ∷ os') cs (skip a)), answer (hit_request e) a)
      | inr miss ↦
          let (q, e, p') = place_miss (names h id) o os' place miss p in
          let (i, ep, a') = insert-Answered os' cs h id q new a d p' (rw e at g) f in
          (i, rw e (partition_point-later o os' q cs (Answered-differs o ne a) ∙ ep), skip a')
    ]
  where
    hit_request : place ≡ 0 → new.request ≡ o
    hit_request e = let g' = rw e at g in cc g'
insert-Answered os cs h id place new (answer {o} {os = os'} {c} {cs = cs'} e a) (ne, d) p g f =
    elim (Bool-cases (names h id o)) [
      | inl hit ↦ absurd (let f' = rw e at f in ground arith)
      | inr miss ↦
          let (q, eq, p') = place_miss (names h id) o os' place miss p in
          let (i, ep, a') = insert-Answered os' cs' h id q new a d p' (rw eq at g) (ground arith) in
          let first = stands_before_first o os' c q (rw e (same_request_refl o)) in
          let later = partition_point-later o os' q cs' (Answered-differs o ne a) ∙ ep in
          (
            suc i,
            rw eq (partition_point_pass (stands_before (o ∷ os') (suc q)) c cs' i first later),
            answer e a',
          )
    ]
