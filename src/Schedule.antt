-- ===== src/Schedule.antt =====
-- crates/tithd/src/schedule.rs: when the schedules of a configuration begin and end. Times are
-- seconds in a u64. `Scheduler::new` with `first_beginning` is not modelled: it needs the civil
-- calendar of crates/tith-message-legacy.
pub mod Beginning
pub mod Polling
pub mod Activations
pub mod Wakeups
pub mod Liveness
mod Runs
use tith.Base.{
  ℕ, ◌+◌, ◌-◌, ◌*◌, ◌/◌, ◌%◌, ◌^◌, Bool, ltb, leb, ◌==◌, ◌||◌, if◌then◌else◌, List, [], ◌∷◌, ◌++◌,
  get_elem?, Option, none, some,
}
use tith.Base.Options.{◌>>=◌, ◌>>◌, is_some, is_some_and, then_some}
use tith.Config.{Schedule}

pub record State : Type 0 where
  pub next_beginning : ℕ
  pub active_until : Option ℕ

pub record Activation : Type 0 where
  pub schedule : ℕ
  pub beginning : ℕ
  pub nominal_end : ℕ

abbrev pub u64_max : ℕ
u64_max = 2 ^ 64 - 1

-- What the `saturating_` operations of u64 make of the exact result.
unfoldable pub saturating : ℕ → ℕ
saturating n = if ltb u64_max n then u64_max else n

abbrev pub min : ℕ → ℕ → ℕ
min a b = if leb a b then a else b

abbrev pub max : ℕ → ℕ → ℕ
max a b = if leb a b then b else a

unfoldable pub is_open : Activation → ℕ → Bool
is_open self now = ltb now self.nominal_end

unfoldable pub duration : Schedule → ℕ
duration schedule = saturating (schedule.duration_minutes * 60)

unfoldable pub period : Schedule → ℕ
period schedule = saturating (duration schedule + saturating (schedule.repeat_after_minutes * 60))

-- The most recent due beginning, with the division checked and the other operations wrapping.
unfoldable pub coalesced : ℕ → ℕ → ℕ → ℕ
coalesced p next now = if p == 0 then next else (next + ((now - next) / p * p) % 2 ^ 64) % 2 ^ 64

-- The end of an activation whose nominal end has passed.
unfoldable pub release : ℕ → State → State
release now state =
    if is_some_and (λ end. leb end now) state.active_until
    then record state { active_until = none }
    else state

-- The part of a round of `poll` behind its `continue`.
unfoldable pub begin : Schedule → ℕ → ℕ → State → Activation × State
unfolding coalesced
begin schedule index now state =
    let beginning = coalesced (period schedule) state.next_beginning now in
    let nominal_end = saturating (beginning + duration schedule) in
    (
      record { schedule = index; beginning = beginning; nominal_end = nominal_end },
      record {
        next_beginning = saturating (beginning + max (period schedule) 1);
        active_until = then_some (ltb now nominal_end) nominal_end;
      },
    )

-- A round of `poll`; `none` is the panic of `schedules[index]`.
unfoldable pub poll_state : List Schedule → ℕ → ℕ → State → Option (List Activation × State)
unfolding release
poll_state schedules index now state =
    let state' = release now state in
    if is_some state'.active_until || ltb now state'.next_beginning then some ([], state') else (do
      schedule ← get_elem? schedules index
      let (activation, state'') = begin schedule index now state'
      some (activation ∷ [], state''))

-- The loop of `poll`, from an index on.
unfoldable pub poll_from :
    List Schedule → ℕ → ℕ → List State → Option (List Activation × List State)
poll_from schedules index now [] = some ([], [])
poll_from schedules index now (state ∷ states) = do
  (begun, state') ← poll_state schedules index now state
  (more, states') ← poll_from schedules (index + 1) now states
  some (begun ++ more, state' ∷ states')

unfoldable pub poll : List Schedule → ℕ → List State → Option (List Activation × List State)
unfolding poll_from
poll schedules now states = poll_from schedules 0 now states

abbrev pub update {ℓ} : {A : Type ℓ} → ℕ → (A → A) → List A → List A
update n f [] = []
update ℕ.zero f (x ∷ xs) = f x ∷ xs
update (ℕ.suc n) f (x ∷ xs) = x ∷ update n f xs

unfoldable pub finished : Activation → ℕ → List State → List State
unfolding release
finished activation now states = update activation.schedule (release now) states

unfoldable pub next_beginning_of : ℕ → List State → Option ℕ
next_beginning_of schedule states = get_elem? states schedule >>= λ state. some state.next_beginning

unfoldable pub wakeup : State → ℕ
wakeup state = elim state.active_until [
  | some end ↦ min end state.next_beginning
  | none ↦ state.next_beginning
]

-- `iter().map(..).min()`.
unfoldable pub next_wakeup : List State → Option ℕ
next_wakeup [] = none
next_wakeup (state ∷ states) = elim (next_wakeup states) [
  | none ↦ some (wakeup state)
  | some t ↦ some (min (wakeup state) t)
]
