-- ===== src/Schedule/Runs.antt =====
-- Two schedules, polled late and again, and the theorems at them.
use tith.Base.{ℕ, ◌<◌, ◌≡◌, refl, arith, false, List, [], ◌∷◌, All, some, none}
use tith.Base.{◌==◌, any, true}
use tith.Schedule.Liveness.{poll-begins}
use tith.Config.{Schedule, IdentityRef, Selector}
use tith.Schedule.{
  State, Activation, saturating, poll, poll_state, begin, coalesced, period, duration, release,
  next_wakeup, wakeup,
}
use tith.Schedule.Beginning.{IsRepeating}
use tith.Schedule.Wakeups.{next_wakeup-poll}
use tith.Schedule.Activations.{IsDue, poll-IsDue}

abbrev timed : ℕ → ℕ → Schedule
timed minutes repeat = record {
  name = b't' ∷ [];
  origin = IdentityRef.peer (b'l' ∷ []);
  classes = [];
  next_hops = Selector.all ∷ [];
  polls = [];
  start_local = false;
  start_minutes = 0;
  duration_minutes = minutes;
  repeat_after_minutes = repeat;
}

abbrev both : List Schedule
both = timed 10 10 ∷ timed 0 10 ∷ []

abbrev waiting : State
waiting = record { next_beginning = 6000; active_until = none }

abbrev start : List State
start = waiting ∷ waiting ∷ []

-- 71 minutes late: the first schedule's beginning at 60 minutes, the second's at 70.
abbrev begun : List Activation
begun =
    record { schedule = 0; beginning = 9600; nominal_end = 10200 }
    ∷ record { schedule = 1; beginning = 10200; nominal_end = 10200 }
    ∷ []

abbrev later : List State
later =
    record { next_beginning = 10800; active_until = none }
    ∷ record { next_beginning = 10800; active_until = none }
    ∷ []

run_poll : poll both 10260 start ≡ some (begun, later)
unfolding poll poll_state begin coalesced period duration saturating release
run_poll = refl

run_wakeup : next_wakeup later ≡ some 10800
unfolding next_wakeup wakeup
run_wakeup = refl

both-IsRepeating : All IsRepeating both
both-IsRepeating = (omega arith, (omega arith, tt))

next_wakeup-poll_example : 10260 < 10800
next_wakeup-poll_example =
    next_wakeup-poll both 10260 start 10800 both-IsRepeating (tt, (tt, tt)) (omega arith) run_poll
      run_wakeup

poll-IsDue_example : All (IsDue both 10260 start) begun
poll-IsDue_example = poll-IsDue both 10260 start begun later both-IsRepeating (omega arith) run_poll

poll-begins_example : any (λ a. a.schedule == 1) begun ≡ true
poll-begins_example =
    poll-begins both 10260 1 start waiting begun later refl tt (omega arith) run_poll
