-- ===== src/Wire/TypeCode.antt =====
-- crates/tith-wire/src/type_code.rs and types.rs, bundle_types.rs: type codes, and the state that
-- a type zero ends. Also the framing errors of tlv.rs, which these functions return.
use tith.Base.{ℕ, Bool, true, false, ◌==◌, if◌then◌else◌, Result, ok, err}
use tith.Wire.Integer.{IntegerError}

-- An `io::Error` is known by its kind alone.
pub data IoError : Type 0 where
  interrupted unexpected_eof other : IoError

-- `panic` and `stuck` are no values of the source: the code would panic, or a loop of this model ran
-- out of fuel.
pub data FramingError : Type 0 where
  io : IoError → FramingError
  integer : IntegerError → FramingError
  invalid_type : FramingError
  truncated_value : ℕ → ℕ → FramingError
  unconsumed_value : ℕ → FramingError
  length_overflow : FramingError
  panic : FramingError
  stuck : FramingError

unfoldable pub require_defined_type : ℕ → Result FramingError (Unit {0})
require_defined_type type_code = if type_code == 0 then err invalid_type else ok tt

pub record SequenceTypeState : Type 0 where
  pub invalid : Bool

abbrev pub new : SequenceTypeState
new = record { invalid = false }

unfoldable pub ensure_active : SequenceTypeState → Result FramingError (Unit {0})
ensure_active s = if s.invalid then err invalid_type else ok tt

-- `&mut self`: the state comes back beside the result.
unfoldable pub accept : SequenceTypeState → ℕ → Result FramingError (Unit {0}) × SequenceTypeState
accept s type_code =
    if s.invalid
    then (err invalid_type, s)
    else if type_code == 0
    then (err invalid_type, record s { invalid = true })
    else (ok tt, s)
