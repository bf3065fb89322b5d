-- ===== src/Budget/Windows.antt =====
-- sampark/budget/windows.py, with the constants of sampark/allocator/constants.py that it reads.
-- Asia/Kolkata has kept the offset +05:30 since before 1970, so the conversion to local time adds
-- 19,800 seconds.
pub mod Bounds
use sampark.Base.{
  ℕ, ◌+◌, ◌-◌, ◌*◌, ◌/◌, ◌%◌, Bool, not, ◌||◌, Result, ok, err, Error, value_error, raise_if, ltb,
  leb, if◌then◌else◌, ◌>>=◌, ◌>>◌,
}
use sampark.Contracts.{Instant, Date}

abbrev pub usec_per_hour : ℕ
usec_per_hour = 3_600_000_000

abbrev pub usec_per_day : ℕ
usec_per_day = 86_400_000_000

abbrev pub ist_offset : ℕ
ist_offset = 19_800_000_000

abbrev pub quiet_hours_start_hour : ℕ
quiet_hours_start_hour = 21

abbrev pub quiet_hours_end_hour : ℕ
quiet_hours_end_hour = 9

unfoldable pub window_id_for : Instant → Date
window_id_for instant = (instant + ist_offset) / usec_per_day

-- `local.hour`
unfoldable pub local_hour : Instant → ℕ
local_hour instant = ((instant + ist_offset) % usec_per_day) / usec_per_hour

-- The difference is never negative, since 09:00 is later than the offset.
unfoldable pub window_start_for : Date → Instant
window_start_for window_id =
    window_id * usec_per_day + quiet_hours_end_hour * usec_per_hour - ist_offset

unfoldable pub next_window_start : Date → Instant
unfolding window_start_for
next_window_start window_id = window_start_for (window_id + 1)

unfoldable pub is_quiet_hours : Instant → Bool
unfolding local_hour
is_quiet_hours instant =
    leb quiet_hours_start_hour (local_hour instant) || ltb (local_hour instant) quiet_hours_end_hour

unfoldable pub next_quiet_hours_boundary : Instant → Result Instant
unfolding is_quiet_hours window_id_for local_hour window_start_for
next_quiet_hours_boundary instant = do
  raise_if (not (is_quiet_hours instant)) value_error
  let target_date =
      if ltb (local_hour instant) quiet_hours_end_hour
      then window_id_for instant
      else window_id_for instant + 1
  ok (window_start_for target_date)
