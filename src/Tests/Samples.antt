-- ===== src/Tests/Samples.antt =====
-- The outside that the tests run in.
use project_os_core.Base.{◌+◌, ◌*◌, []}
use project_os_core.World.{Outside, Context}

-- a clock that gains a minute at each reading, from a morning at eight
abbrev pub outside : Outside
outside = record { wall = λ n. 28_800_000_000 + n * 60_000_000; fresh = λ prefix n. prefix }

abbrev pub context : Context
context = record { readings = 0; identifiers = 0; journal = []; edges = [] }
