-- ===== src/Scheduler.antt =====
-- scheduler/service.py: the table `scheduled_tasks`, and the times at which its tasks run.
pub mod Defaults
pub mod NextRun
pub mod Operations
pub mod Ticks
pub mod Tick
pub mod Pending
pub mod Sweep
pub mod Ensure
pub mod Toggle
use project_os_core.Base.{
  ℕ, suc, ◌+◌, ◌*◌, ◌-◌, ◌%◌, String, Bool, ◌&&◌, true, false, Option, none, some, List, [], ◌∷◌,
  ◌++◌, leb, ltb, eqb, ◌==◌, if◌then◌else◌,
}
use project_os_core.Base.Dict.{Dict}
use project_os_core.Base.Result.{Result, err, value_error, ok}
use project_os_core.World.{Context, Value}

pub record ScheduledTask : Type 0 where
  pub task_id : String
  pub name : String
  pub schedule_kind : String
  pub interval_seconds : Option ℕ
  pub daily_at_hour : Option ℕ
  pub daily_at_minute : Option ℕ
  pub command : String
  pub command_args : Dict Value
  pub enabled : Bool
  pub last_run_at : Option ℕ
  pub next_run_at : Option ℕ
  pub last_status : Option String
  pub last_error : Option String
  pub metadata : Dict String
  pub created_at : ℕ
  pub updated_at : ℕ

pub record Scheduler : Type 0 where
  pub context : Context
  pub tasks : List ScheduledTask

-- microseconds
abbrev pub second : ℕ
second = 1_000_000

abbrev pub hour : ℕ
hour = 3600 * second

abbrev pub day : ℕ
day = 24 * hour

-- x or 0, for a number that may be missing
abbrev pub or_zero : Option ℕ → ℕ
or_zero none = 0
or_zero (some n) = n

-- now.replace(hour=h, minute=m, second=0, microsecond=0), in UTC; out of range it raises
unfoldable pub replace_time : ℕ → ℕ → ℕ → Result ℕ
replace_time now h m =
    if ltb h 24 && ltb m 60
    then ok (now - now % day + (h * hour + m * (60 * second)))
    else err (value_error "hour must be in 0..23 and minute in 0..59")

-- if target <= now: target += timedelta(days=1)
abbrev pub next_day : ℕ → ℕ → ℕ
next_day now target = if leb target now then target + day else target

abbrev pub later_target : ℕ → Result ℕ → Result ℕ
later_target now (ok target) = ok (next_day now target)
later_target now (err e) = err e

abbrev pub daily_run : ℕ → Option ℕ → Option ℕ → Result ℕ
daily_run now none m = ok (now + hour)
daily_run now (some h) m = later_target now (replace_time now h (or_zero m))

-- `_compute_next_run`, at the reading `now` of the clock
unfoldable pub compute_next_run : ℕ → ScheduledTask → Result ℕ
compute_next_run now t =
    if t.schedule_kind == "interval" && ltb 0 (or_zero t.interval_seconds)
    then ok (now + or_zero t.interval_seconds * second)
    else if t.schedule_kind == "daily_at"
    then daily_run now t.daily_at_hour t.daily_at_minute
    else ok (now + hour)
