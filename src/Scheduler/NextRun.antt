-- ===== src/Scheduler/NextRun.antt =====
-- When a task runs next: proofs over `compute_next_run`.
use project_os_core.Base.{ℕ, ◌+◌, ◌*◌, ◌-◌, ◌%◌, ◌<◌, ◌≤◌, ◌≡◌, some, inl, inr, arith}
use project_os_core.Base.Result.{ok, Result-cases}
use project_os_core.Scheduler.{
  ScheduledTask, second, hour, day, or_zero, replace_time, next_day, compute_next_run,
}

-- The next run lies after the reading from which it is computed.
pub compute_next_run-lt :
    (now : ℕ) (t : ScheduledTask) (at : ℕ) → compute_next_run now t ≡ ok at → now < at
unfolding compute_next_run replace_time
compute_next_run-lt now t at h = ground arith

-- A task with an hour and a minute of the day runs next at the first time after `now` with that hour
-- and minute: it is computed, within a day, on the minute.
pub compute_next_run-daily :
    (now h m : ℕ) (t : ScheduledTask)
    → t.schedule_kind ≡ "daily_at"
    → t.daily_at_hour ≡ some h
    → or_zero t.daily_at_minute ≡ m
    → h < 24
    → m < 60
    → (at : ℕ) × (compute_next_run now t ≡ ok at)
      × (now < at)
      × (at ≤ now + day)
      × (at % day ≡ h * hour + m * (60 * second))
unfolding compute_next_run replace_time
compute_next_run-daily now h m t kind at_hour at_minute h_lt m_lt = (
  next_day now (now - now % day + (h * hour + m * (60 * second))),
  rw (kind, at_hour, at_minute) (ground arith),
  ground arith,
  ground arith,
  ground arith,
)

-- A daily task names an hour and a minute of the day.
pub record IsWellTimed (t : ScheduledTask) : Type 0 where
  pub hour_in_day : or_zero t.daily_at_hour < 24
  pub minute_in_hour : or_zero t.daily_at_minute < 60

-- The next run of a well-timed task is always computed.
pub compute_next_run_total :
    (now : ℕ) (t : ScheduledTask) → IsWellTimed t → (at : ℕ) × (compute_next_run now t ≡ ok at)
compute_next_run_total now t w = elim (Result-cases (compute_next_run now t)) [
  | inl computed ↦ computed
  | inr (e, h) ↦ absurd (unfold compute_next_run replace_time in ground arith)
]
