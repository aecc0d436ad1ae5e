-- ===== src/Wire/Stream/Runs.antt =====
-- The streaming reader on a stream that brings one byte at a time and is interrupted before each.
use tith.Base.{
  ℕ, zero, suc, ◌≤◌, ◌≡◌, ◌↔◌, refl, arith, List, [], ◌∷◌, length, some, ok, err, inl, inr,
}
use tith.Wire.Integer.{decode_u64_prefix, decode_loop, checked_mul}
use tith.Wire.TypeCode.{ensure_active, accept, interrupted, invalid_type, unconsumed_value}
use tith.Wire.Tlv.{OwnedTlv, parse_next, platform_capacity, checked_capacity}
use tith.Wire.Stream.{
  Read, new_reader, decode_used, settle, integer_round, with_length, with_accepted, with_type,
  value_round, end_round, owned, optional_value, read_inner, integer_loop, read_integer, read_next,
  read_value, read_to_end, with_capacity, read_owned, owned_if_some, read_first,
}
use tith.Wire.Stream.Reading.{Came, delayed, arrived, Delivers, Holds}
use tith.Wire.Stream.Equal.{read_first-parse_next}

-- A stream that is ready or not, with its bytes.
data Slow : Type 0 where
  waiting ready : List ℕ → Slow

abbrev slow_read : Read Slow
slow_read n (waiting bytes) = (err interrupted, ready bytes)
slow_read n (ready []) = (ok [], ready [])
slow_read zero (ready (byte ∷ bytes)) = (ok [], ready (byte ∷ bytes))
slow_read (suc n) (ready (byte ∷ bytes)) = (ok (byte ∷ []), waiting bytes)

abbrev slow_contents : Slow → List ℕ
slow_contents (waiting bytes) = bytes
slow_contents (ready bytes) = bytes

-- Each byte is behind an interruption.
abbrev slow_delays : Slow → ℕ
slow_delays (waiting bytes) = suc (length bytes)
slow_delays (ready bytes) = length bytes

slow_came : (n : ℕ) (s : Slow) → 1 ≤ n → Came slow_contents slow_delays n s (slow_read n s)
slow_came n (waiting bytes) h = delayed (ready bytes) refl (omega arith)
slow_came zero (ready bytes) h = absurd (omega arith)
slow_came (suc n) (ready []) h = arrived [] (ready []) refl (omega arith) (inr refl) (omega arith)
slow_came (suc n) (ready (byte ∷ bytes)) h =
    arrived (byte ∷ []) (waiting bytes) refl (omega arith) (inl (omega arith)) (omega arith)

abbrev slow : Delivers slow_read
slow = record { contents = slow_contents; delays = slow_delays; came = slow_came }

abbrev sent : List ℕ
sent = 7 ∷ 2 ∷ 65 ∷ 66 ∷ 9 ∷ 0 ∷ []

abbrev letters : OwnedTlv
letters = record { type_code = 7; value = 65 ∷ 66 ∷ [] }

abbrev one_byte : List ℕ → ℕ
one_byte value = 1

run_slow :
    read_first slow_read 8 one_byte (new_reader (waiting sent))
    ≡ (ok (some letters), new_reader (waiting (9 ∷ 0 ∷ [])))
unfolding read_first owned_if_some read_next with_type read_integer integer_loop integer_round
    read_inner settle decode_used decode_u64_prefix decode_loop checked_mul with_accepted accept
    ensure_active with_length optional_value read_owned with_capacity read_to_end read_value
    value_round end_round owned platform_capacity checked_capacity
run_slow = refl

-- A value that was not read.
run_unconsumed :
    (read_next slow_read 8 one_byte
      (read_next slow_read 8 one_byte (new_reader (waiting sent))).1).0
    ≡ err (unconsumed_value 2)
unfolding read_next with_type read_integer integer_loop integer_round read_inner settle decode_used
    decode_u64_prefix decode_loop checked_mul with_accepted accept ensure_active with_length
run_unconsumed = refl

-- A type of zero ends the sequence for good.
run_zero :
    (read_next slow_read 8 one_byte
      (read_next slow_read 8 one_byte (new_reader (waiting (0 ∷ sent)))).1).0
    ≡ err invalid_type
unfolding read_next with_type read_integer integer_loop integer_round read_inner settle decode_used
    decode_u64_prefix decode_loop checked_mul with_accepted accept ensure_active with_length
run_zero = refl

read_first-parse_next_example : (parse_next sent ≡ ok (letters, 9 ∷ 0 ∷ [])) ↔ (
    (s' : Slow) × (read_first slow_read 8 one_byte (new_reader (waiting sent))
      ≡ (ok (some letters), new_reader s'))
    × Holds slow_read 8 one_byte slow s' (9 ∷ 0 ∷ []))
read_first-parse_next_example =
    read_first-parse_next slow_read 8 one_byte slow (λ value. omega arith) (waiting sent) sent
      (record { bytes = refl; patient = omega arith }) (omega arith) letters (9 ∷ 0 ∷ [])
