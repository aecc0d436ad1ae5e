-- ===== src/Schedule/Wakeups.antt =====
-- crates/tithd/src/schedule.rs: `next_wakeup` against `poll`.
use tith.Base.{
  ℕ, ◌<◌, ◌≡◌, ◌∙◌, refl, sym, subst, inl, inr, arith, Option-cases, List, [], ◌∷◌, All, Option,
  none, some,
}
use tith.Base.Options.{some-injective, none-ne-some}
use tith.Config.{Schedule}
use tith.Schedule.{State, Activation, u64_max, min, poll, wakeup, next_wakeup}
use tith.Schedule.Beginning.{IsRepeating, IsOrdered}
use tith.Schedule.Polling.{Idle, Settled, poll_from-Idle, poll_from-Settled}

next_wakeup_cons :
    (state : State) (states : List State) (o : Option ℕ)
    → next_wakeup states ≡ o
    → next_wakeup (state ∷ states)
      ≡ elim o [ none ↦ some (wakeup state) | some t ↦ some (min (wakeup state) t) ]
unfolding next_wakeup
next_wakeup_cons state states o e = rw e

next_wakeup-none : (states : List State) → next_wakeup states ≡ none → states ≡ []
next_wakeup-none [] e = refl
next_wakeup-none (state ∷ states) e = elim (Option-cases (next_wakeup states)) [
  | inl h ↦ absurd (none-ne-some (sym e ∙ next_wakeup_cons state states none h))
  | inr (t, h) ↦ absurd (none-ne-some (sym e ∙ next_wakeup_cons state states (some t) h))
]

-- The wakeup of a list is before a time exactly when that of some state is.
next_wakeup-Idle :
    (now : ℕ) (states : List State) {w : ℕ}
    → next_wakeup states ≡ some w
    → now < w
    → Idle now states
next_wakeup-Idle now [] e h = tt
next_wakeup-Idle now (state ∷ states) e h = elim (Option-cases (next_wakeup states)) [
  | inl n ↦
      let same = some-injective (sym (next_wakeup_cons state states none n) ∙ e) in
      (omega (arith, same, h), subst (Idle now) (sym (next_wakeup-none states n)) tt)
  | inr (t, n) ↦
      let same = some-injective (sym (next_wakeup_cons state states (some t) n) ∙ e) in
      (ground (arith, same, h), next_wakeup-Idle now states n (ground (arith, same, h)))
]

Idle-next_wakeup :
    (now : ℕ) (states : List State) {w : ℕ}
    → next_wakeup states ≡ some w
    → Idle now states
    → now < w
unfolding next_wakeup
Idle-next_wakeup now [] e h = absurd (none-ne-some e)
Idle-next_wakeup now (state ∷ states) e h =
    let first = h.0 in
    elim (Option-cases (next_wakeup states)) [
      | inl n ↦
          let same = some-injective (sym (next_wakeup_cons state states none n) ∙ e) in
          omega (arith, same, first)
      | inr (t, n) ↦
          let same = some-injective (sym (next_wakeup_cons state states (some t) n) ∙ e) in
          let rest = Idle-next_wakeup now states n h.1 in ground (arith, same, first, rest)
    ]

Settled-Idle : (now : ℕ) (states : List State) → All (Settled now) states → Idle now states
Settled-Idle now [] h = tt
Settled-Idle now (state ∷ states) h = (h.0.0, Settled-Idle now states h.1)

-- Before the next wakeup `poll` begins nothing and changes nothing.
pub poll-next_wakeup :
    (schedules : List Schedule) (now : ℕ) (states : List State) (wake : ℕ)
    → next_wakeup states ≡ some wake
    → now < wake
    → poll schedules now states ≡ some ([], states)
unfolding poll
poll-next_wakeup schedules now states wake e h =
    poll_from-Idle schedules 0 now states (next_wakeup-Idle now states e h)

module _ (schedules : List Schedule) (now : ℕ) (states : List State) {begun : List Activation}
    {states' : List State} where
  Idle-poll :
      All IsRepeating schedules
      → All IsOrdered states
      → now < u64_max
      → poll schedules now states ≡ some (begun, states')
      → Idle now states'
  unfolding poll
  Idle-poll repeating ordered soon e =
      Settled-Idle now states' (poll_from-Settled schedules repeating now soon 0 states ordered e)

  -- Where every schedule has a Repeat-After and no nominal end is after the next beginning, polling
  -- again at the same time begins nothing and changes nothing.
  pub poll_again :
      All IsRepeating schedules
      → All IsOrdered states
      → now < u64_max
      → poll schedules now states ≡ some (begun, states')
      → poll schedules now states' ≡ some ([], states')
  unfolding poll
  poll_again repeating ordered soon e =
      poll_from-Idle schedules 0 now states' (Idle-poll repeating ordered soon e)

  -- In the same case the next wakeup is later than the poll, so waiting for it makes progress.
  pub next_wakeup-poll :
      (wake : ℕ)
      → All IsRepeating schedules
      → All IsOrdered states
      → now < u64_max
      → poll schedules now states ≡ some (begun, states')
      → next_wakeup states' ≡ some wake
      → now < wake
  next_wakeup-poll wake repeating ordered soon e w =
      Idle-next_wakeup now states' w (Idle-poll repeating ordered soon e)
