-- ===== src/Schedule/Activations.antt =====
-- crates/tithd/src/schedule.rs: the activations that `poll` reports, and that it does not panic.
use tith.Base.{
  ℕ, suc, ◌+◌, ◌≤◌, ◌<◌, ◌≡◌, ◌∙◌, ap, refl, sym, subst, inl, inr, arith, Bool-cases, ltb, ◌||◌,
  List, [], ◌∷◌, ◌++◌, All, All-append, length, get_elem?, some,
}
use tith.Base.Options.{>>=-eq-some, some-injective, if-eq-some, is_some}
use tith.Config.{Schedule}
use tith.Schedule.{
  State, Activation, u64_max, saturating, duration, release, begin, poll_state, poll_from, poll,
}
use tith.Schedule.Beginning.{IsRepeating, IsMostRecent, coalesced-IsMostRecent}
use tith.Schedule.Polling.{All-get_elem?}

module _ (schedules : List Schedule) (now : ℕ) (all : List State) where
  -- An activation is the most recent due beginning of its schedule, and ends a Duration later.
  pub record IsDue (activation : Activation) : Type 0 where
    pub schedule : Schedule
    pub state : State
    pub listed : get_elem? schedules activation.schedule ≡ some schedule
    pub held : get_elem? all activation.schedule ≡ some state
    pub recent : IsMostRecent schedule state.next_beginning now activation.beginning
    pub ends : activation.nominal_end ≡ saturating (activation.beginning + duration schedule)

  release_next : (state : State) → (release now state).next_beginning ≡ state.next_beginning
  unfolding release
  release_next state = ground arith

  module _ (repeating : All IsRepeating schedules) (soon : now ≤ u64_max) where
    begin-IsDue :
        (index : ℕ) (schedule : Schedule) (state : State)
        → get_elem? schedules index ≡ some schedule
        → get_elem? all index ≡ some state
        → (release now state).next_beginning ≤ now
        → IsDue (begin schedule index now (release now state)).0
    unfolding begin
    begin-IsDue index schedule state listed held due = record {
      schedule = schedule;
      state = state;
      listed = listed;
      held = held;
      recent =
          subst
            (λ n.
              IsMostRecent schedule n now
                (begin schedule index now (release now state)).0.beginning)
            (release_next state)
            (coalesced-IsMostRecent schedule _ now
              (All-get_elem? IsRepeating schedules index repeating listed) due soon);
      ends = refl;
    }

    poll_state-IsDue :
        (index : ℕ) (state : State) {begun : List Activation} {state' : State}
        → get_elem? all index ≡ some state
        → poll_state schedules index now state ≡ some (begun, state')
        → All IsDue begun
    unfolding poll_state
    poll_state-IsDue index state held e =
        elim (if-eq-some
          (is_some (release now state).active_until || ltb now (release now state).next_beginning) _
          _ e) [
            | inl (blocked, e1) ↦ subst (All IsDue) (ap (λ p. p.0) (some-injective e1)) tt
            | inr (due, e1) ↦
                let (schedule, found, e2) = >>=-eq-some (get_elem? schedules index) _ e1 in
                subst (All IsDue) (ap (λ p. p.0) (some-injective e2))
                  (begin-IsDue index schedule state found held (ground (arith, due)), tt)
          ]

    poll_from-IsDue :
        (index : ℕ) (states : List State) {begun : List Activation} {states' : List State}
        → ((k : ℕ) → get_elem? states k ≡ get_elem? all (k + index))
        → poll_from schedules index now states ≡ some (begun, states')
        → All IsDue begun
    unfolding poll_from
    poll_from-IsDue index [] at e = subst (All IsDue) (ap (λ p. p.0) (some-injective e)) tt
    poll_from-IsDue index (state ∷ states) at e =
        let (one, found, e1) = >>=-eq-some (poll_state schedules index now state) _ e in
        let (more, rest, e2) = >>=-eq-some (poll_from schedules (index + 1) now states) _ e1 in
        subst (All IsDue) (ap (λ p. p.0) (some-injective e2)) (
          All-append IsDue one.0 more.0
            (poll_state-IsDue index state
              (ap (get_elem? all) {y = 0 + index} (omega arith) ∙ sym (at 0)) found)
            (poll_from-IsDue (index + 1) states
              (λ k. at (suc k) ∙ ap (get_elem? all) {y = k + (index + 1)} (omega arith)) rest))

  -- Where every schedule has a Repeat-After, each activation that a poll begins is the most recent
  -- due beginning of its schedule, a whole number of periods after the one that was next.
  pub poll-IsDue :
      (begun : List Activation) (states' : List State)
      → All IsRepeating schedules
      → now ≤ u64_max
      → poll schedules now all ≡ some (begun, states')
      → All IsDue begun
  unfolding poll
  poll-IsDue begun states' repeating soon e =
      poll_from-IsDue repeating soon 0 all (λ k. ap (get_elem? all) (omega arith)) e

-- `schedules[index]` does not panic.
module _ (schedules : List Schedule) (now : ℕ) where
  get_elem?-lt :
      {A : Type 0} (xs : List A) (i : ℕ) → i < length xs → (x : A) × (get_elem? xs i ≡ some x)
  get_elem?-lt [] i h = absurd (omega (arith, h))
  get_elem?-lt (x ∷ xs) ℕ.zero h = (x, refl)
  get_elem?-lt (x ∷ xs) (suc i) h = get_elem?-lt xs i (omega (arith, h))

  poll_state-total :
      (index : ℕ) (state : State)
      → index < length schedules
      → (r : List Activation × State) × (poll_state schedules index now state ≡ some r)
  unfolding poll_state
  poll_state-total index state h =
      let (schedule, e) = get_elem?-lt schedules index h in
      elim (Bool-cases
        (is_some (release now state).active_until || ltb now (release now state).next_beginning)) [
          | inl b ↦ (([], release now state), rw b)
          | inr b ↦ (
            (
              (begin schedule index now (release now state)).0 ∷ [],
              (begin schedule index now (release now state)).1,
            ),
            rw (b, e),
          )
        ]

  poll_from-total :
      (index : ℕ) (states : List State)
      → index + length states ≤ length schedules
      → (r : List Activation × List State) × (poll_from schedules index now states ≡ some r)
  unfolding poll_from
  poll_from-total index [] h = (([], []), refl)
  poll_from-total index (state ∷ states) h =
      let (one, e) = poll_state-total index state (omega (arith, h)) in
      let (more, f) = poll_from-total (index + 1) states (omega (arith, h)) in
      ((one.0 ++ more.0, one.1 ∷ more.1), rw (e, f))

  -- `poll` returns where there is a schedule for each state.
  pub poll-total :
      (states : List State)
      → length states ≤ length schedules
      → (r : List Activation × List State) × (poll schedules now states ≡ some r)
  unfolding poll
  poll-total states h = poll_from-total 0 states (omega (arith, h))
