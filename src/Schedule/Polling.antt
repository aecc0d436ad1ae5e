-- ===== src/Schedule/Polling.antt =====
-- crates/tithd/src/schedule.rs: what `poll` leaves behind, and when it has nothing to do.
use tith.Base.{
  ℕ, suc, ◌+◌, ◌<◌, ◌≡◌, ap, refl, sym, subst, inl, inr, arith, true, Bool-cases, ltb, leb, ◌||◌,
  if◌then◌else◌, List, [], ◌∷◌, All, get_elem?, Option, none, some,
}
use tith.Base.Options.{>>=-eq-some, some-injective, if-eq-some, is_some}
use tith.Config.{Schedule}
use tith.Schedule.{State, Activation, u64_max, release, poll_state, poll_from, wakeup}
use tith.Schedule.Beginning.{IsRepeating, Ends, IsOrdered, begin-IsOrdered, begin-wakeup}

-- Nothing happens to a state before its wakeup.
release_idle :
    (now next : ℕ) (active : Option ℕ)
    → now < wakeup (record { next_beginning = next; active_until = active })
    → (release now (record { next_beginning = next; active_until = active })
        ≡ record { next_beginning = next; active_until = active })
      × ((is_some active || ltb now next) ≡ true)
unfolding release wakeup
release_idle now next none h = (refl, ground (arith, h))
release_idle now next (some end) h = (ground (arith, h), refl)

poll_state_idle :
    (schedules : List Schedule) (index now : ℕ) (state : State)
    → now < wakeup state
    → poll_state schedules index now state ≡ some ([], state)
unfolding poll_state
poll_state_idle schedules index now state h =
    let (same, blocked) = release_idle now state.next_beginning state.active_until h in
    rw (same, blocked)

abbrev pub Idle : ℕ → List State → Type 0
Idle now states = All (λ state. now < wakeup state) states

pub poll_from-Idle :
    (schedules : List Schedule) (index now : ℕ) (states : List State)
    → Idle now states
    → poll_from schedules index now states ≡ some ([], states)
unfolding poll_from
poll_from-Idle schedules index now [] h = refl
poll_from-Idle schedules index now (state ∷ states) h = rw (
  poll_state_idle schedules index now state h.0,
  poll_from-Idle schedules (index + 1) now states h.1,
)

-- What the end of an activation leaves.
release_blocked :
    (now next : ℕ) (active : Option ℕ)
    → Ends active next
    → (is_some (release now (record { next_beginning = next; active_until = active })).active_until
        || ltb now
            (release now (record { next_beginning = next; active_until = active })).next_beginning)
      ≡ true
    → now < wakeup (release now (record { next_beginning = next; active_until = active }))
unfolding release wakeup
release_blocked now next none o h = ground (arith, h)
release_blocked now next (some end) o h = elim (Bool-cases (leb end now)) [
  | inl e ↦ ground (arith, e, h)
  | inr e ↦ ground (arith, e, h, o)
]

release-IsOrdered :
    (now next : ℕ) (active : Option ℕ)
    → Ends active next
    → IsOrdered (release now (record { next_beginning = next; active_until = active }))
unfolding release
release-IsOrdered now next none o = tt
release-IsOrdered now next (some end) o = elim (Bool-cases (leb end now)) [
  | inl e ↦
      subst
        (λ b. IsOrdered (
          if b
          then record { next_beginning = next; active_until = none }
          else record { next_beginning = next; active_until = some end }))
        (sym e) tt
  | inr e ↦
      subst
        (λ b. IsOrdered (
          if b
          then record { next_beginning = next; active_until = none }
          else record { next_beginning = next; active_until = some end }))
        (sym e) o
]

-- A state that is in order and whose wakeup is in the future.
abbrev pub Settled : ℕ → State → Type 0
Settled now state = (now < wakeup state) × IsOrdered state

pub All-get_elem? :
    {A : Type 0} (P : A → Type 0) (xs : List A) (i : ℕ) {x : A}
    → All P xs
    → get_elem? xs i ≡ some x
    → P x
All-get_elem? P [] i h e = cc
All-get_elem? P (x ∷ xs) ℕ.zero h e = subst P (some-injective e) h.0
All-get_elem? P (x ∷ xs) (suc i) h e = All-get_elem? P xs i h.1 e

module _ (schedules : List Schedule) (repeating : All IsRepeating schedules) (now : ℕ)
    (soon : now < u64_max) where
  poll_state-Settled :
      (index : ℕ) (state : State) {begun : List Activation} {state' : State}
      → IsOrdered state
      → poll_state schedules index now state ≡ some (begun, state')
      → Settled now state'
  unfolding poll_state
  poll_state-Settled index state o e =
      elim (if-eq-some
        (is_some (release now state).active_until || ltb now (release now state).next_beginning) _ _
        e) [
          | inl (blocked, e1) ↦ subst (Settled now) (ap (λ p. p.1) (some-injective e1)) (
            release_blocked now state.next_beginning state.active_until o blocked,
            release-IsOrdered now state.next_beginning state.active_until o,
          )
          | inr (due, e1) ↦
              let (schedule, found, e2) = >>=-eq-some (get_elem? schedules index) _ e1 in
              subst (Settled now) (ap (λ p. p.1) (some-injective e2)) (
                begin-wakeup schedule index now (release now state)
                    (All-get_elem? IsRepeating schedules index repeating found)
                    (ground (arith, due)) soon,
                begin-IsOrdered schedule index now (release now state),
              )
        ]

  pub poll_from-Settled :
      (index : ℕ) (states : List State) {begun : List Activation} {states' : List State}
      → All IsOrdered states
      → poll_from schedules index now states ≡ some (begun, states')
      → All (Settled now) states'
  unfolding poll_from
  poll_from-Settled index [] o e = subst (All (Settled now)) (ap (λ p. p.1) (some-injective e)) tt
  poll_from-Settled index (state ∷ states) o e =
      let (one, found, e1) = >>=-eq-some (poll_state schedules index now state) _ e in
      let (more, rest, e2) = >>=-eq-some (poll_from schedules (index + 1) now states) _ e1 in
      subst (All (Settled now)) (ap (λ p. p.1) (some-injective e2))
        (poll_state-Settled index state o.0 found, poll_from-Settled (index + 1) states o.1 rest)
