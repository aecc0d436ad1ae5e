-- ===== src/Store/Outbound/Copies.antt =====
-- crates/tith-store/src/outbound.rs: the change of one copy among those of a job.
use tith.Base.{
  ℕ, zero, suc, ◌+◌, ◌≡◌, refl, subst, Bool-cases, ◌==◌, list_eq, nat_eq, option_eq, List, [], ◌∷◌,
  some, get_elem?, Result, ok, inl, inr, >>=-eq-ok, ok-injective, ◌>>=◌,
}
use tith.Store.Types.{DeliveryRecord, StoreError}
use tith.Store.Outbound.{at_index, at_position}

-- What is true of a list of copies where it is true of each, by the number that the copy has in it.
module _ (F : ℕ → List DeliveryRecord → Type 0) (P : ℕ → DeliveryRecord → Type 0)
    (cons : (n : ℕ) (copy : DeliveryRecord) (copies : List DeliveryRecord)
      → P n copy
      → F (n + 1) copies
      → F n (copy ∷ copies))
    (uncons : (n : ℕ) (copy : DeliveryRecord) (copies : List DeliveryRecord)
      → F n (copy ∷ copies)
      → P n copy × F (n + 1) copies)
    (change : DeliveryRecord → Result StoreError DeliveryRecord) where
  change_head :
      (n : ℕ) (copy : DeliveryRecord) (copies copies' : List DeliveryRecord)
      → ((copy' : DeliveryRecord) → change copy ≡ ok copy' → P n copy → P n copy')
      → (change copy >>= λ changed. ok (changed ∷ copies)) ≡ ok copies'
      → F n (copy ∷ copies)
      → F n copies'
  change_head n copy copies copies' keeps e h =
      let (changed, made, last) = >>=-eq-ok (change copy) _ e in
      let (here, later) = uncons n copy copies h in
      subst (F n) (ok-injective last) (cons n changed copies (keeps changed made here) later)

  change_tail :
      (n : ℕ) (copy : DeliveryRecord) (copies : List DeliveryRecord)
      (rest : Result StoreError (List DeliveryRecord)) (copies' : List DeliveryRecord)
      → (rest >>= λ changed. ok (copy ∷ changed)) ≡ ok copies'
      → F n (copy ∷ copies)
      → ((changed : List DeliveryRecord) → rest ≡ ok changed → F (n + 1) copies → F (n + 1) changed)
      → F n copies'
  change_tail n copy copies rest copies' e h keeps =
      let (changed, made, last) = >>=-eq-ok rest _ e in
      let (here, later) = uncons n copy copies h in
      subst (F n) (ok-injective last) (cons n copy changed here (keeps changed made later))

  pub at_index-keeps :
      (index n : ℕ) (copies copies' : List DeliveryRecord)
      → ((m : ℕ) (copy copy' : DeliveryRecord) → change copy ≡ ok copy' → P m copy → P m copy')
      → at_index index change copies ≡ ok copies'
      → F n copies
      → F n copies'
  at_index-keeps index n [] copies' keeps e h = cc
  at_index-keeps index n (copy ∷ copies) copies' keeps e h =
      elim (Bool-cases (copy.index == index)) [
        | inl here ↦ change_head n copy copies copies' (keeps n copy) (rw here at e) h
        | inr later ↦
            change_tail n copy copies (at_index index change copies) copies' (rw later at e) h
              (λ changed made. at_index-keeps index (n + 1) copies changed keeps made)
      ]

  pub at_position-keeps :
      (position n : ℕ) (copies copies' : List DeliveryRecord)
      → ((m : ℕ) (copy copy' : DeliveryRecord)
          → get_elem? copies position ≡ some copy
          → change copy ≡ ok copy'
          → P m copy
          → P m copy')
      → at_position position change copies ≡ ok copies'
      → F n copies
      → F n copies'
  at_position-keeps position n [] copies' keeps e h = cc
  at_position-keeps zero n (copy ∷ copies) copies' keeps e h =
      change_head n copy copies copies' (λ copy'. keeps n copy copy' refl) e h
  at_position-keeps (suc position) n (copy ∷ copies) copies' keeps e h =
      change_tail n copy copies (at_position position change copies) copies' e h
        (λ changed made. at_position-keeps position (n + 1) copies changed keeps made)
