-- ===== src/Schedule/Liveness.antt =====
-- crates/tithd/src/schedule.rs: a schedule that is due and free begins in the poll.
use tith.Base.{
  ℕ, zero, suc, ◌+◌, ◌≤◌, ◌≡◌, ap, refl, sym, subst, inl, inr, arith, Bool, true, false, ltb, ◌==◌,
  ==_iff, ◌||◌, any, List, [], ◌∷◌, ◌++◌, get_elem?, Option, none, some,
}
use tith.Base.Options.{>>=-eq-some, some-injective, if-eq-some, is_some, none-ne-some}
use tith.Config.{Schedule}
use tith.Schedule.{State, Activation, release, begin, poll_state, poll_from, poll}

-- No activation of the schedule, or one whose nominal end has passed.
abbrev pub IsFree : ℕ → Option ℕ → Type 0
IsFree now none = Unit
IsFree now (some end) = end ≤ now

free-IsDue :
    (now next : ℕ) (active : Option ℕ)
    → IsFree now active
    → next ≤ now
    → (is_some (release now (record { next_beginning = next; active_until = active })).active_until
        || ltb now
            (release now (record { next_beginning = next; active_until = active })).next_beginning)
      ≡ false
unfolding release
free-IsDue now next none f h = ground (arith, h)
free-IsDue now next (some end) f h = ground (arith, f, h)

any-append_left :
    {A : Type 0} (p : A → Bool) (xs ys : List A) → any p xs ≡ true → any p (xs ++ ys) ≡ true
any-append_left p [] ys h = cc
any-append_left p (x ∷ xs) ys h = ground (arith, h, any-append_left p xs ys)

any-append_right :
    {A : Type 0} (p : A → Bool) (xs ys : List A) → any p ys ≡ true → any p (xs ++ ys) ≡ true
any-append_right p [] ys h = h
any-append_right p (x ∷ xs) ys h = ground (arith, any-append_right p xs ys h)

abbrev of_schedule : ℕ → Activation → Bool
of_schedule index activation = activation.schedule == index

module _ (schedules : List Schedule) (now : ℕ) where
  poll_state-begins :
      (index : ℕ) (state : State) {begun : List Activation} {state' : State}
      → IsFree now state.active_until
      → state.next_beginning ≤ now
      → poll_state schedules index now state ≡ some (begun, state')
      → any (of_schedule index) begun ≡ true
  unfolding poll_state begin
  poll_state-begins index state f h e =
      elim (if-eq-some
        (is_some (release now state).active_until || ltb now (release now state).next_beginning) _ _
        e) [
          | inl (blocked, e1) ↦
              cc (free-IsDue now state.next_beginning state.active_until f h, blocked)
          | inr (due, e1) ↦
              let (schedule, found, e2) = >>=-eq-some (get_elem? schedules index) _ e1 in
              let same = (==_iff index index).1 refl in
              subst (λ b. any (of_schedule index) b ≡ true) (ap (λ p. p.0) (some-injective e2))
                (ground (arith, same))
        ]

  poll_from-begins :
      (k index : ℕ) (states : List State) (state : State) {begun : List Activation}
      {states' : List State}
      → get_elem? states k ≡ some state
      → IsFree now state.active_until
      → state.next_beginning ≤ now
      → poll_from schedules index now states ≡ some (begun, states')
      → any (of_schedule (k + index)) begun ≡ true
  unfolding poll_from
  poll_from-begins k index [] state g f h e = absurd (none-ne-some g)
  poll_from-begins zero index (s ∷ states) state g f h e =
      let (one, found, e1) = >>=-eq-some (poll_state schedules index now s) _ e in
      let (more, rest, e2) = >>=-eq-some (poll_from schedules (index + 1) now states) _ e1 in
      let same = some-injective g in
      let begins =
        poll_state-begins index s (subst (λ t. IsFree now t.active_until) (sym same) f)
          (subst (λ t. t.next_beginning ≤ now) (sym same) h) found in
      subst (λ b. any (of_schedule (0 + index)) b ≡ true) (ap (λ p. p.0) (some-injective e2))
        (any-append_left _ one.0 more.0
          (subst (λ n. any (of_schedule n) one.0 ≡ true) {y = 0 + index} (omega arith) begins))
  poll_from-begins (suc k) index (s ∷ states) state g f h e =
      let (one, found, e1) = >>=-eq-some (poll_state schedules index now s) _ e in
      let (more, rest, e2) = >>=-eq-some (poll_from schedules (index + 1) now states) _ e1 in
      let begins = poll_from-begins k (index + 1) states state g f h rest in
      subst (λ b. any (of_schedule (suc k + index)) b ≡ true) (ap (λ p. p.0) (some-injective e2))
        (any-append_right _ one.0 more.0
          (subst (λ n. any (of_schedule n) more.0 ≡ true) {y = suc k + index} (omega arith) begins))

  -- A schedule that has no activation, or one whose nominal end has passed, and whose next beginning
  -- is due begins in the poll.
  pub poll-begins :
      (k : ℕ) (states : List State) (state : State) (begun : List Activation) (states' : List State)
      → get_elem? states k ≡ some state
      → IsFree now state.active_until
      → state.next_beginning ≤ now
      → poll schedules now states ≡ some (begun, states')
      → any (λ a. a.schedule == k) begun ≡ true
  unfolding poll
  poll-begins k states state begun states' g f h e =
      subst (λ n. any (of_schedule n) begun ≡ true) {y = k} (omega arith)
        (poll_from-begins k 0 states state g f h e)
