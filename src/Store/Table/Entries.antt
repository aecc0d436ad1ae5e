-- ===== src/Store/Table/Entries.antt =====
-- The contents of a table: what is put is found, and encoding the values commutes with both.
use tith.Base.{
  ℕ, ◌≡◌, refl, sym, subst, true, false, Bool-cases, if◌then◌else◌, ◌=?◌, nat_eq, list_eq,
  list_beq_iff, List, [], ◌∷◌, Option, none, some, inl, inr,
}
use tith.Store.Table.{Entries, less, find, put, encoded}

abbrev pub map_some : {V W : Type 0} → (V → W) → Option V → Option W
map_some f none = none
map_some f (some v) = some (f v)

pub find-encoded :
    {V W : Type 0} (f : V → W) (key : List ℕ) (entries : Entries V)
    → find key (encoded f entries) ≡ map_some f (find key entries)
find-encoded f key [] = refl
find-encoded f key ((k, v) ∷ entries) = elim (Bool-cases (k =? key)) [
  | inl e ↦ rw e
  | inr e ↦ rw (e, find-encoded f key entries)
]

pub put-encoded :
    {V W : Type 0} (f : V → W) (key : List ℕ) (value : V) (entries : Entries V)
    → put key (f value) (encoded f entries) ≡ encoded f (put key value entries)
put-encoded f key value [] = refl
put-encoded f key value ((k, v) ∷ entries) = elim (Bool-cases (k =? key)) [
  | inl e ↦ rw e
  | inr e ↦ elim (Bool-cases (less k key)) [
    | inl l ↦ rw (e, l, put-encoded f key value entries)
    | inr l ↦ rw (e, l)
  ]
]

same-flip : (a b : List ℕ) → (a =? b) ≡ false → (b =? a) ≡ false
same-flip a b h = elim (Bool-cases (b =? a)) [
  | inl e ↦ let same : (a =? b) ≡ true = (list_beq_iff a b).1 (sym ((list_beq_iff b a).0 e)) in cc
  | inr e ↦ e
]

pub find-put :
    {V : Type 0} (key : List ℕ) (value : V) (entries : Entries V) (k : List ℕ)
    → find k (put key value entries) ≡ (if key =? k then some value else find k entries)
find-put key value [] k = refl
find-put key value ((k', v) ∷ entries) k = elim (Bool-cases (k' =? key)) [
  | inl e ↦
      let same : k' ≡ key = (list_beq_iff k' key).0 e in
      elim (Bool-cases (key =? k)) [
        | inl h ↦ rw (e, h)
        | inr h ↦ rw (e, h, subst (λ x. (x =? k) ≡ false) (sym same) h)
      ]
  | inr e ↦ elim (Bool-cases (less k' key)) [
    | inl l ↦ elim (Bool-cases (k' =? k)) [
      | inl h ↦
          let differ : (key =? k) ≡ false =
            subst (λ x. (key =? x) ≡ false) ((list_beq_iff k' k).0 h) (same-flip k' key e) in
          rw (e, l, h, differ)
      | inr h ↦ rw (e, l, h, find-put key value entries k)
    ]
    | inr l ↦ rw (e, l)
  ]
]
