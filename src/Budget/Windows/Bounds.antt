-- ===== src/Budget/Windows/Bounds.antt =====
-- What the window arithmetic of sampark/budget/windows.py gives.
use sampark.Base.{◌+◌, ◌≤◌, ◌<◌, ◌≡◌, true, false, ok, arith, ltb, if◌then◌else◌}
use sampark.Contracts.{Instant, Date}
use sampark.Budget.Windows.{
  window_id_for, local_hour, window_start_for, is_quiet_hours, next_quiet_hours_boundary,
}

pub window_id_for-window_start_for : (d : Date) → window_id_for (window_start_for d) ≡ d
unfolding window_id_for window_start_for
window_id_for-window_start_for d = omega arith

pub window_start_for-not_quiet : (d : Date) → is_quiet_hours (window_start_for d) ≡ false
unfolding is_quiet_hours window_start_for
window_start_for-not_quiet d = ground arith

-- The boundary of an instant in quiet hours.
abbrev pub IsBoundary : Instant → Instant → Type 0
IsBoundary instant boundary =
    (instant < boundary)
    × (is_quiet_hours boundary ≡ false)
    × ((between : Instant) → instant ≤ between → between < boundary → is_quiet_hours between ≡ true)

-- The boundary that the code picks, and that it is one.
picked : Instant → Instant
picked instant =
    window_start_for
      (if ltb (local_hour instant) 9 then window_id_for instant else window_id_for instant + 1)

next_quiet_hours_boundary-picked :
    (instant : Instant)
    → is_quiet_hours instant ≡ true
    → next_quiet_hours_boundary instant ≡ ok (picked instant)
unfolding next_quiet_hours_boundary picked
next_quiet_hours_boundary-picked instant h = rw h

picked-later : (instant : Instant) → is_quiet_hours instant ≡ true → instant < picked instant
unfolding picked is_quiet_hours window_start_for window_id_for local_hour
picked-later instant h = ground arith

picked-first :
    (instant between : Instant)
    → is_quiet_hours instant ≡ true
    → instant ≤ between
    → between < picked instant
    → is_quiet_hours between ≡ true
unfolding picked is_quiet_hours window_start_for window_id_for local_hour
picked-first instant between h le lt = ground arith

-- An instant in quiet hours has a boundary: the first later instant outside quiet hours.
pub next_quiet_hours_boundary-IsBoundary :
    (instant : Instant)
    → is_quiet_hours instant ≡ true
    → (boundary : Instant) × (next_quiet_hours_boundary instant ≡ ok boundary)
      × IsBoundary instant boundary
unfolding picked
next_quiet_hours_boundary-IsBoundary instant h = (
  picked instant,
  next_quiet_hours_boundary-picked instant h,
  (
    picked-later instant h,
    window_start_for-not_quiet _,
    λ between le lt. picked-first instant between h le lt,
  ),
)
