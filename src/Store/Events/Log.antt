-- ===== src/Store/Events/Log.antt =====
-- crates/tith-store/src/outbound.rs: `append_event` gives each event an identifier of its own.
use tith.Base.{
  ℕ, ◌+◌, ◌^◌, ◌≤◌, ◌≡◌, refl, sym, ap, ◌∙◌, arith, true, false, Bool-cases, ltb, ◌==◌, ==_iff,
  ◌=?◌, nat_eq, list_eq, list_beq_iff, List, [], ◌∷◌, ◌++◌, Option, Option-cases, none, some,
  ok-injective, Result-cases, ok, inl, inr,
}
use tith.Wire.Integer.{IsU64}
use tith.Store.Types.{Text, JobState, OutboundJob, OutboundEvent}
use tith.Store.Table.{Entries, find, put, Tables}
use tith.Store.Table.Entries.{find-put}
use tith.Store.Events.{
  strip_prefix, number_after, at_least, highest, event_prefix, next_event, decimal, encode_event,
  append_event,
}
use tith.Store.Events.Decimal.{parse_u64-decimal}

strip_prefix-append : (prefix text : Text) → strip_prefix prefix (prefix ++ text) ≡ some text
unfolding strip_prefix
strip_prefix-append [] text = refl
strip_prefix-append (c ∷ prefix) text =
    let same : (c == c) ≡ true = (==_iff c c).1 refl in rw (same, strip_prefix-append prefix text)

number_after-decimal :
    (prefix : Text) (n : ℕ) → IsU64 n → number_after prefix (prefix ++ decimal n) ≡ some n
unfolding number_after
number_after-decimal prefix n h = rw (strip_prefix-append prefix (decimal n), parse_u64-decimal n h)

at_least-number : (sequence number : ℕ) → number ≤ at_least sequence (some number)
at_least-number sequence number = ground arith

at_least-sequence : (sequence : ℕ) (number : Option ℕ) → sequence ≤ at_least sequence number
at_least-sequence sequence none = omega arith
at_least-sequence sequence (some number) = ground arith

-- The number of an event that the table holds is at most the highest one.
number-highest :
    {V : Type 0} (prefix key : Text) (n : ℕ) (entries : Entries V) (v : V)
    → find key entries ≡ some v
    → number_after prefix key ≡ some n
    → n ≤ highest prefix entries
unfolding highest
number-highest prefix key n [] v h e = ground arith
number-highest prefix key n ((k, w) ∷ entries) v h e = elim (Bool-cases (k =? key)) [
  | inl same ↦
      let here : number_after prefix k ≡ some n =
        ap (number_after prefix) ((list_beq_iff k key).0 same) ∙ e in
      rw here (at_least-number (highest prefix entries) n)
  | inr other ↦
      let later : find key entries ≡ some v = rw other at h in
      omega (
        arith,
        number-highest prefix key n entries v later e,
        at_least-sequence (highest prefix entries) (number_after prefix k),
      )
]

-- The identifier of the next event is not in the table.
pub next_event-fresh :
    {V : Type 0} (job : OutboundJob) (previous : Option JobState) (entries : Entries V)
    (event : OutboundEvent)
    → next_event job previous entries ≡ ok event
    → find event.event_id entries ≡ none
unfolding next_event
next_event-fresh job previous entries event h =
    let prefix = event_prefix job in
    let sequence = highest prefix entries + 1 in
    elim (Bool-cases (ltb sequence (2 ^ 64))) [
      | inr full ↦ let stop = rw full at h in cc
      | inl room ↦
          let made = rw room at h in
          let id : prefix ++ decimal sequence ≡ event.event_id =
            ap (λ e. e.event_id) (ok-injective made) in
          elim (Option-cases (find event.event_id entries)) [
            | inl e ↦ e
            | inr (v, e) ↦
                let number = number_after-decimal prefix sequence (ground arith) in
                let found =
                  number-highest prefix (prefix ++ decimal sequence) sequence entries v (rw id e)
                    number in
                ground (arith, found)
          ]
    ]

-- What `append_event` does to the table.
pub append_event-eq-ok :
    {T : Type 0} ⦃tables : Tables T⦄ (job : OutboundJob) (previous : Option JobState)
    (events events' : T)
    → append_event job previous events ≡ ok events'
    → (event : OutboundEvent) × (next_event job previous (tables.iter events) ≡ ok event)
      × (tables.insert event.event_id (encode_event (job.application, false, event)) events
          ≡ events')
unfolding append_event
append_event-eq-ok ⦃tables⦄ job previous events events' h =
    elim (Result-cases (next_event job previous (tables.iter events))) [
      | inl (event, e) ↦ (event, e, ok-injective (rw (e, append_event) at h))
      | inr (reason, e) ↦ let stop = rw (e, append_event) at h in cc
    ]

-- Logging an event of a job keeps every event that the table holds, of whatever job, as it stands.
pub append_event-keeps :
    {T : Type 0} ⦃tables : Tables T⦄ (job : OutboundJob) (previous : Option JobState)
    (events events' : T) (key value : List ℕ)
    → append_event job previous events ≡ ok events'
    → tables.get key events ≡ some value
    → tables.get key events' ≡ some value
append_event-keeps ⦃tables⦄ job previous events events' key value h there =
    let (event, next, inserted) = append_event-eq-ok job previous events events' h in
    let before : find key (tables.iter events) ≡ some value =
      sym (tables.get-iter key events) ∙ there in
    let fresh = next_event-fresh job previous (tables.iter events) event next in
    let entry = encode_event (job.application, false, event) in
    let after : find key (put event.event_id entry (tables.iter events)) ≡ some value =
      elim (Bool-cases (event.event_id =? key)) [
        | inl same ↦
            let missing : find key (tables.iter events) ≡ none =
              rw (← (list_beq_iff event.event_id key).0 same) fresh in
            cc
        | inr other ↦ find-put event.event_id entry (tables.iter events) key ∙ rw other before
      ] in
    rw (← inserted, tables.get-iter key _, tables.iter-insert event.event_id entry events) after
