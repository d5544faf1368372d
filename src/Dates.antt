-- ===== src/Dates.antt =====
-- src/utils/date.utils.ts. A time is in milliseconds; a date without a time is its midnight in UTC.
use ss_backend.Common.{ℕ, ◌+◌, ◌%◌, ◌==◌, ltb, Bool, false, Option, none, some, if◌then◌else◌}

abbrev pub end_of_day_utc : ℕ → ℕ
end_of_day_utc t = if t % 86_400_000 == 0 then t + 86_399_999 else t

-- What is no date is not past.
abbrev pub is_past_due_date : Option ℕ → ℕ → Bool
is_past_due_date none now = false
is_past_due_date (some due) now = ltb (end_of_day_utc due) now
