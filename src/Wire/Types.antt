-- ===== src/Wire/Types.antt =====
-- crates/tith-wire/src/types.rs, bundle_types.rs and item_types.rs: the type codes that the carriers
-- use, and which codes are defined.
use tith.Base.{ℕ, Bool, leb, ◌==◌, ◌&&◌, ◌||◌}

abbrev pub timestamp : ℕ
timestamp = 5

abbrev pub public_key : ℕ
public_key = 8

abbrev pub message : ℕ
message = 64

abbrev pub file : ℕ
file = 65

abbrev pub file_request : ℕ
file_request = 66

abbrev pub rejected : ℕ
rejected = 67

abbrev pub accepted : ℕ
accepted = 68

abbrev pub poll_messages : ℕ
poll_messages = 69

abbrev pub poll_files : ℕ
poll_files = 70

abbrev pub poll_file_requests : ℕ
poll_file_requests = 71

abbrev pub public_key_request : ℕ
public_key_request = 72

abbrev pub rejection_reason : ℕ
rejection_reason = 73

abbrev pub rejection_description : ℕ
rejection_description = 74

abbrev pub request_identifier : ℕ
request_identifier = 98

abbrev pub tlv_hash : ℕ
tlv_hash = 99

-- `low..=high` in a pattern.
abbrev pub within : ℕ → ℕ → ℕ → Bool
within low high value = leb low value && leb value high

unfoldable pub bundle_is_defined : ℕ → Bool
bundle_is_defined type_code =
    within 64 72 type_code || (type_code == 73 || (type_code == 74 || type_code == 99))

unfoldable pub is_defined : ℕ → Bool
unfolding bundle_is_defined
is_defined type_code =
    (within 0 9 type_code || (within 96 98 type_code || within 101 121 type_code))
    || bundle_is_defined type_code

unfoldable pub is_request : ℕ → Bool
is_request type_code =
    type_code == 64
    || (type_code == 65
        || (type_code == 66
            || (type_code == 69 || (type_code == 70 || (type_code == 71 || type_code == 72)))))
