-- ===== src/Wire/Carrier/Identifiers.antt =====
-- crates/tith-wire/src/item_carrier.rs, `request_identifier` and `set_request_identifier`.
use tith.Base.{
  ℕ, zero, suc, ◌≡◌, ◌≢◌, ◌++◌, sym, ap, ap₂, ◌∙◌, inl, inr, refl, arith, Bool-cases, ◌==◌, ==_iff,
  List, [], ◌∷◌, length, All, Option, some, ok, >>=-eq-ok, map_err-eq-ok, ok-injective, ensure,
  ensure-eq-ok, map_err,
}
use tith.Wire.Integer.{IsByte, IsU64, encode_u64}
use tith.Wire.Integer.Codec.{decode_u64-encode}
use tith.Wire.Tlv.{OwnedTlv, parse_sequence, new_tlv, new_header}
use tith.Wire.Tlv.Codec.{IsValid}
use tith.Wire.Tlv.Sequence.{parse_sequence-images, concatenate-parse_sequence}
use tith.Wire.Types
use tith.Wire.Cursor.{framing, missing, one_request_identifier, encoded_prefix}
use tith.Wire.Cursor.Walk.{encoded_prefix-images, number-IsValid}
use tith.Wire.Carrier.{only, identifiers, request_identifier, renumber, set_request_identifier}

abbrev copies : ℕ → Option ℕ → List (Option ℕ)
copies zero x = []
copies (suc n) x = x ∷ copies n x

new_tlv-eq-ok :
    (type_code : ℕ) (bytes : List ℕ) (value : OwnedTlv)
    → new_tlv type_code bytes ≡ ok value
    → (value.type_code ≡ type_code) × (value.value ≡ bytes)
unfolding new_tlv
new_tlv-eq-ok type_code bytes value e =
    let (h, defined, e1) = >>=-eq-ok (new_header type_code (length bytes)) _ e in
    let same = ok-injective e1 in (sym (ap (λ t. t.type_code) same), sym (ap (λ t. t.value) same))

-- Of `children` the only one with the code of a request identifier has its value replaced by the
-- encoding of `identifier`; the others stay, where they were.
pub record IsRenumbered (identifier : ℕ) (children children' : List OwnedTlv) : Type 0 where
  pub before : List OwnedTlv
  pub after : List OwnedTlv
  pub old : List ℕ
  pub was :
      children ≡ before ++ (record { type_code = Types.request_identifier; value = old }) ∷ after
  pub others_before : All (λ c. c.type_code ≢ Types.request_identifier) before
  pub others_after : All (λ c. c.type_code ≢ Types.request_identifier) after
  pub becomes :
      children'
      ≡ before
        ++ (record { type_code = Types.request_identifier; value = encode_u64 identifier }) ∷ after

-- Where no child is counted, none has the code and none is changed.
renumber-none :
    (identifier : ℕ) (children : List OwnedTlv)
    → (renumber identifier children).1 ≡ 0
    → ((renumber identifier children).0 ≡ children)
      × All (λ c. c.type_code ≢ Types.request_identifier) children
unfolding renumber
renumber-none identifier [] h = (refl, tt)
renumber-none identifier (child ∷ children) h =
    elim (Bool-cases (child.type_code == Types.request_identifier)) [
      | inl e ↦ absurd (let h' = rw (e, renumber) at h in omega (arith, h'))
      | inr e ↦
          let (same, none_of) = renumber-none identifier children (rw (e, renumber) at h) in
          (
            rw (e, renumber) (ap (λ cs. child ∷ cs) same),
            ((λ eq. let e' = rw eq at e in cc e'), none_of),
          )
    ]

renumber-one :
    (identifier : ℕ) (children : List OwnedTlv)
    → (renumber identifier children).1 ≡ 1
    → IsRenumbered identifier children (renumber identifier children).0
unfolding renumber
renumber-one identifier [] h = absurd (omega (arith, h))
renumber-one identifier (child ∷ children) h =
    elim (Bool-cases (child.type_code == Types.request_identifier)) [
      | inl e ↦
          let h' = rw (e, renumber) at h in
          let (same, none_of) = renumber-none identifier children (omega (arith, h')) in
          let code : child.type_code ≡ Types.request_identifier = (==_iff _ _).0 e in
          record {
            before = [];
            after = children;
            old = child.value;
            was = ap (λ k. (record { type_code = k; value = child.value }) ∷ children) code;
            others_before = tt;
            others_after = none_of;
            becomes =
                rw (e, renumber)
                  (ap₂ (λ k cs. (record { type_code = k; value = encode_u64 identifier }) ∷ cs) code
                    same);
          }
      | inr e ↦
          let rest = renumber-one identifier children (rw (e, renumber) at h) in
          record {
            before = child ∷ rest.before;
            after = rest.after;
            old = rest.old;
            was = ap (λ cs. child ∷ cs) rest.was;
            others_before = ((λ eq. let e' = rw eq at e in cc e'), rest.others_before);
            others_after = rest.others_after;
            becomes = rw (e, renumber) (ap (λ cs. child ∷ cs) rest.becomes);
          }
    ]

module _ (identifier : ℕ) (fits : IsU64 identifier) where
  renumber-IsValid :
      (children : List OwnedTlv)
      → All IsValid children
      → All IsValid (renumber identifier children).0
  unfolding renumber
  renumber-IsValid [] h = tt
  renumber-IsValid (child ∷ children) (v, vs) =
      let rest = renumber-IsValid children vs in
      elim (Bool-cases (child.type_code == Types.request_identifier)) [
        | inl e ↦
            rw (e, renumber) (number-IsValid child.type_code identifier v.defined v.code fits, rest)
        | inr e ↦ rw (e, renumber) (v, rest)
      ]

  identifiers-renumber :
      (children : List OwnedTlv)
      → identifiers (renumber identifier children).0
        ≡ copies (renumber identifier children).1 (some identifier)
  unfolding renumber identifiers
  identifiers-renumber [] = refl
  identifiers-renumber (child ∷ children) =
      elim (Bool-cases (child.type_code == Types.request_identifier)) [
        | inl e ↦
            rw
              (
                e,
                renumber,
                identifiers,
                decode_u64-encode identifier fits,
                identifiers-renumber children,
              )
              (rw e (
                ap (λ k. copies k (some identifier)) {x = suc (renumber identifier children).1}
                  (omega arith)))
        | inr e ↦ rw (e, renumber, identifiers, identifiers-renumber children) (rw e)
      ]

  request_identifier-parsed :
      (value : OwnedTlv) (children : List OwnedTlv)
      → parse_sequence value.value ≡ ok children
      → request_identifier value ≡ only (identifiers children)
  unfolding request_identifier
  request_identifier-parsed value children e = rw (e, request_identifier)

  -- Where setting the request identifier succeeds, it keeps the type code; exactly one child was a
  -- request identifier, and that one now is the encoding of the new identifier, in its place; the
  -- other children are what they were, in their order; the identifier read back is the new one.
  pub request_identifier-set :
      (value value' : OwnedTlv)
      → All IsByte value.value
      → set_request_identifier value identifier ≡ ok value'
      → (children : List OwnedTlv) × (children' : List OwnedTlv) × (parse_sequence value.value
          ≡ ok children)
        × (parse_sequence value'.value ≡ ok children')
        × IsRenumbered identifier children children'
        × (value'.type_code ≡ value.type_code)
        × (request_identifier value' ≡ some identifier)
  unfolding set_request_identifier
  request_identifier-set value value' bytes e =
      let (children, p, e1) = >>=-eq-ok (map_err framing (parse_sequence value.value)) _ e in
      let parsed = map_err-eq-ok framing (parse_sequence value.value) p in
      let valid =
        renumber-IsValid children
          (concatenate-parse_sequence value.value children bytes parsed).0 in
      let (u, one, e2) =
        >>=-eq-ok (ensure ((renumber identifier children).1 == 1) (missing one_request_identifier))
          _ e1 in
      let single = (==_iff _ _).0 (
        ensure-eq-ok ((renumber identifier children).1 == 1) (missing one_request_identifier)
          one) in
      let (output, written, e3) =
        >>=-eq-ok (encoded_prefix (renumber identifier children).0) _ e2 in
      let same = sym written ∙ encoded_prefix-images _ valid in
      let (code, content) =
        new_tlv-eq-ok value.type_code output value' (map_err-eq-ok framing _ e3) in
      let again = ap parse_sequence (content ∙ ok-injective same) ∙ parse_sequence-images _ valid in
      (
        children,
        (renumber identifier children).0,
        parsed,
        again,
        renumber-one identifier children single,
        code,
        request_identifier-parsed value' _ again
            ∙ ap only (identifiers-renumber children ∙ ap (λ k. copies k (some identifier)) single),
      )
