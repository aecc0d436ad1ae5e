-- ===== src/Schedule/Beginning.antt =====
-- crates/tithd/src/schedule.rs: the beginning that an activation represents.
use tith.Base.{
  ℕ, true, false, ◌+◌, ◌-◌, ◌*◌, ◌/◌, ◌≤◌, ◌<◌, ◌≡◌, refl, arith, Bool, ltb, Option, none, some,
}
use tith.Base.Options.{then_some}
use tith.Config.{Schedule}
use tith.Schedule.{State, u64_max, saturating, duration, period, coalesced, begin, wakeup}
use native.Mathlib.Nat.{div-mul-le_self, lt-div-mul-add}

-- The parser refuses a Repeat-After of zero.
abbrev pub IsRepeating : Schedule → Type 0
IsRepeating schedule = 0 < schedule.repeat_after_minutes

period-pos : (schedule : Schedule) → IsRepeating schedule → 0 < period schedule
unfolding period saturating
period-pos schedule h = ground arith

duration-le-period : (schedule : Schedule) → duration schedule ≤ period schedule
unfolding duration period saturating
duration-le-period schedule = ground arith

-- The conditions under which a schedule begins at `now`, and what it then does.
pub record IsMostRecent (schedule : Schedule) (next now beginning : ℕ) : Type 0 where
  pub skipped : ℕ
  pub grid : beginning ≡ next + skipped * period schedule
  pub due : beginning ≤ now
  pub latest : now < beginning + period schedule

-- The wrapping operations are exact.
coalesced-eq :
    (p next now : ℕ)
    → 0 < p
    → next ≤ now
    → now ≤ u64_max
    → coalesced p next now ≡ next + (now - next) / p * p
unfolding coalesced
coalesced-eq p next now h k b = let low = div-mul-le_self (now - next) p in ground (arith, low)

pub coalesced-IsMostRecent :
    (schedule : Schedule) (next now : ℕ)
    → IsRepeating schedule
    → next ≤ now
    → now ≤ u64_max
    → IsMostRecent schedule next now (coalesced (period schedule) next now)
coalesced-IsMostRecent schedule next now r h b =
    let p = period-pos schedule r in
    let low = div-mul-le_self (now - next) (period schedule) in
    let high = lt-div-mul-add {a = now - next} p in
    let exact = coalesced-eq (period schedule) next now p h b in
    record {
      skipped = (now - next) / period schedule;
      grid = exact;
      due = omega (arith, exact, low);
      latest = omega (arith, exact, high);
    }

-- The nominal end of an active schedule is not after its next beginning.
abbrev pub Ends : Option ℕ → ℕ → Type 0
Ends none next = Unit
Ends (some end) next = end ≤ next

abbrev pub IsOrdered : State → Type 0
IsOrdered state = Ends state.active_until state.next_beginning

-- What `begin` leaves behind, by whether the nominal end is in the future.
active-Ends : (ahead : Bool) (end next : ℕ) → end ≤ next → Ends (then_some ahead end) next
active-Ends true end next h = h
active-Ends false end next h = tt

pub begin-IsOrdered :
    (schedule : Schedule) (index now : ℕ) (state : State)
    → IsOrdered (begin schedule index now state).1
unfolding begin saturating
begin-IsOrdered schedule index now state =
    let d = duration-le-period schedule in active-Ends _ _ _ (ground (arith, d))

wakeup_active :
    (ahead : Bool) (now end next : ℕ)
    → ltb now end ≡ ahead
    → now < next
    → now < wakeup (record { next_beginning = next; active_until = then_some ahead end })
unfolding wakeup
wakeup_active true now end next e h = ground (arith, e, h)
wakeup_active false now end next e h = h

pub begin-wakeup :
    (schedule : Schedule) (index now : ℕ) (state : State)
    → IsRepeating schedule
    → state.next_beginning ≤ now
    → now < u64_max
    → now < wakeup (begin schedule index now state).1
unfolding begin saturating
begin-wakeup schedule index now state r h b =
    let m = coalesced-IsMostRecent schedule state.next_beginning now r h (omega (arith, b)) in
    let latest = m.latest in wakeup_active _ now _ _ refl (ground (arith, latest))
