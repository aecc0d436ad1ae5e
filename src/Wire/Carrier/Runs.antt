-- ===== src/Wire/Carrier/Runs.antt =====
-- The carriers run, and the theorems at concrete values.
use tith.Base.{ℕ, ◌≡◌, refl, arith, false, List, [], ◌∷◌, ◌++◌, All, some, ok}
use tith.Wire.Address.{TlvHash}
use tith.Wire.Integer.{IsByte, encode_u64, groups, emit, decode_u64_prefix, decode_loop}
use tith.Wire.Tlv.{
  OwnedTlv, parse_sequence, parse_loop, parse_next, write_to, new_header, write_header, new_tlv,
}
use tith.Wire.Item.{ItemKind, temporary}
use tith.Wire.Cursor.{encoded_prefix, encoded_onto, is_utf8}
use tith.Wire.Carrier.{
  renumber, set_request_identifier, request_identifier, rejected, validate_response, plain_item,
}
use tith.Wire.Carrier.Identifiers.{IsRenumbered, request_identifier-set}
use tith.Wire.Carrier.Rejections.{validate-rejected}

abbrev eight : List ℕ
eight = 1 ∷ 2 ∷ 3 ∷ 4 ∷ 5 ∷ 6 ∷ 7 ∷ 8 ∷ []

abbrev hash : TlvHash
hash = eight ++ (eight ++ (eight ++ eight))

abbrev mail : OwnedTlv
mail = record { type_code = 64; value = 105 ∷ 1 ∷ 97 ∷ 98 ∷ 1 ∷ 5 ∷ [] }

abbrev renumbered : OwnedTlv
renumbered = record { type_code = 64; value = 105 ∷ 1 ∷ 97 ∷ 98 ∷ 2 ∷ 0x82 ∷ 0x2c ∷ [] }

run_set : set_request_identifier mail 300 ≡ ok renumbered
unfolding set_request_identifier parse_sequence parse_loop parse_next decode_u64_prefix decode_loop
    renumber encode_u64 groups emit encoded_prefix encoded_onto write_to new_tlv new_header
    write_header
run_set = refl

mail_bytes : All IsByte mail.value
mail_bytes =
    (omega arith, (omega arith, (omega arith, (omega arith, (omega arith, (omega arith, tt))))))

request_identifier-set_example :
    (children : List OwnedTlv) × (children' : List OwnedTlv) × (parse_sequence mail.value
      ≡ ok children)
    × (parse_sequence renumbered.value ≡ ok children')
    × IsRenumbered 300 children children'
    × (renumbered.type_code ≡ mail.type_code)
    × (request_identifier renumbered ≡ some 300)
request_identifier-set_example =
    request_identifier-set 300 (omega arith) mail renumbered mail_bytes run_set

-- The text is "é!".
validate-rejected_example :
    (value : OwnedTlv) × (rejected 7 hash (some 3600) temporary (0xc3 ∷ 0xa9 ∷ b'!' ∷ [])
      ≡ ok value)
    × (validate_response value false
        ≡ ok (record (plain_item ItemKind.rejected 7 value) {
          response_to = some hash;
          rejection = some (record {
            reason = temporary;
            retry_after = some 3600;
            description = 0xc3 ∷ 0xa9 ∷ b'!' ∷ [];
          });
        }))
unfolding is_utf8
validate-rejected_example =
    validate-rejected 7 (omega arith) hash refl temporary (some 3600) (0xc3 ∷ 0xa9 ∷ b'!' ∷ [])
      (omega arith, refl) refl (omega arith)
