-- ===== src/Store/Events.antt =====
-- crates/tith-store/src/outbound.rs: the events of a job, `append_event`, `encode_event` and
-- `decode_event`. A number is written and read as Rust's `Display` and `FromStr` of a u64 do.
pub mod Decimal
pub mod Codec
pub mod Log
use tith.Base.{
  ℕ, zero, suc, ◌+◌, ◌-◌, ◌*◌, ◌/◌, ◌%◌, ◌^◌, Bool, true, false, ltb, leb, ◌==◌, ◌&&◌,
  if◌then◌else◌, List, [], ◌∷◌, ◌++◌, Option, none, some, Result, ok, err,
}
use tith.Store.Types.{Text, JobState, OutboundJob, OutboundEvent, StoreError, corrupt_record}
use tith.Store.Bytes.{
  Reader, ◌>>=◌, ◌>>◌, return, fail, put_u64, take_u64, put_string, take_string, take_byte,
  put_optional, take_optional,
}
use tith.Store.JobCodec.{at_end}
use tith.Store.JobCodes.{state_code, take_job_state}
use tith.Store.Table.{Entries, put, Tables}

unfoldable pub is_digit : ℕ → Bool
is_digit c = leb 48 c && leb c 57

unfoldable pub parse_digits : ℕ → Text → Option ℕ
parse_digits value [] = some value
parse_digits value (c ∷ text) =
    let next : ℕ = value * 10 + (c - 48) in
    let rest = parse_digits next text in if is_digit c && ltb next (2 ^ 64) then rest else none

-- `value.parse::<u64>().ok()`, which lets a `+` stand before the digits.
unfoldable pub parse_u64 : Text → Option ℕ
parse_u64 [] = none
parse_u64 (c ∷ []) = parse_digits 0 (c ∷ [])
parse_u64 (c ∷ d ∷ text) =
    if c == 43 then parse_digits 0 (d ∷ text) else parse_digits 0 (c ∷ d ∷ text)

-- `{n}` in a format, with fuel: a u64 has at most 20 digits.
unfoldable pub decimal_from : ℕ → ℕ → Text
decimal_from zero n = (n % 10 + 48) ∷ []
decimal_from (suc fuel) n =
    let front = decimal_from fuel (n / 10) in
    if ltb n 10 then (n + 48) ∷ [] else front ++ (n % 10 + 48) ∷ []

unfoldable pub decimal : ℕ → Text
decimal n = decimal_from 20 n

unfoldable pub strip_prefix : Text → Text → Option Text
strip_prefix [] text = some text
strip_prefix (p ∷ prefix) [] = none
strip_prefix (p ∷ prefix) (c ∷ text) =
    let rest = strip_prefix prefix text in if p == c then rest else none

abbrev number_of : Option Text → Option ℕ
number_of none = none
number_of (some rest) = parse_u64 rest

-- The number of an event among those of one job.
unfoldable pub number_after : Text → Text → Option ℕ
unfolding strip_prefix
number_after prefix key = number_of (strip_prefix prefix key)

abbrev pub at_least : ℕ → Option ℕ → ℕ
at_least sequence none = sequence
at_least sequence (some number) = if ltb sequence number then number else sequence

-- The loop of `append_event`, from the end: `max` does not depend on the order.
unfoldable pub highest : {V : Type 0} → Text → Entries V → ℕ
highest prefix [] = 0
highest prefix ((key, value) ∷ entries) =
    at_least (highest prefix entries) (number_after prefix key)

unfoldable pub event_prefix : OutboundJob → Text
event_prefix job = job.job_id ++ 58 ∷ []

-- The event that the table as it stands gets next.
unfoldable pub next_event :
    {V : Type 0} → OutboundJob → Option JobState → Entries V → Result StoreError OutboundEvent
unfolding highest event_prefix decimal
next_event job previous events =
    let sequence = highest (event_prefix job) events + 1 in
    if ltb sequence (2 ^ 64)
    then ok (record {
      event_id = event_prefix job ++ decimal sequence;
      job_id = job.job_id;
      previous = previous;
      current = job.state;
      changed = job.changed;
      last_result = job.last_result;
    })
    else err corrupt_record

-- What the table of events holds: the application, whether it has acknowledged, and the event.
abbrev pub Entry : Type 0
Entry = Text × Bool × OutboundEvent

unfoldable pub put_flag : Bool → List ℕ
put_flag false = 0 ∷ []
put_flag true = 1 ∷ []

unfoldable pub take_flag : Reader Bool
take_flag = do
  tag ← take_byte
  if tag == 0 then return false else if tag == 1 then return true else fail corrupt_record

unfoldable pub encode_event : Entry → List ℕ
unfolding put_flag
encode_event (application, acknowledged, event) =
    put_string application
    ++ (put_flag acknowledged
        ++ (put_string event.event_id
            ++ (put_string event.job_id
                ++ (put_optional (λ state. state_code state ∷ []) event.previous
                    ++ ((state_code event.current ∷ [])
                        ++ (put_u64 event.changed ++ put_string event.last_result))))))

unfoldable pub take_event : Reader Entry
unfolding take_flag
take_event = do
  application ← take_string
  acknowledged ← take_flag
  event_id ← take_string
  job_id ← take_string
  previous ← take_optional take_job_state
  current ← take_job_state
  changed ← take_u64
  last_result ← take_string
  return (
    application,
    acknowledged,
    record {
      event_id = event_id;
      job_id = job_id;
      previous = previous;
      current = current;
      changed = changed;
      last_result = last_result;
    },
  )

unfoldable pub decode_event : List ℕ → Result StoreError Entry
unfolding at_end take_event
decode_event input = at_end (take_event input)

unfoldable pub append_event :
    {T : Type 0} ⦃tables : Tables T⦄ → OutboundJob → Option JobState → T → Result StoreError T
unfolding next_event encode_event
append_event ⦃tables⦄ job previous events = elim (next_event job previous (tables.iter events)) [
  | ok event ↦
      ok (tables.insert event.event_id (encode_event (job.application, false, event)) events)
  | err e ↦ err e
]
