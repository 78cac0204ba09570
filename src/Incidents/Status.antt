-- ===== src/Incidents/Status.antt =====
-- IncidentStatus and IncidentSeverity of models.py, and the tables of incidents/service.py.
use project_os_core.Base.{String, List, [], ◌∷◌, Bool, true, false, ◌==◌, if◌then◌else◌}
use project_os_core.Base.Result.{Result, ok, err, value_error}
use Prim.Native.String.{◌++◌}

pub data IncidentStatus : Type 0 where
  open_ triaged repro_ready fix_in_progress verified closed non_reproducible : IncidentStatus

pub data IncidentSeverity : Type 0 where
  p0 p1 p2 p3 : IncidentSeverity

-- status.value
unfoldable pub status_value : IncidentStatus → String
status_value open_ = "open"
status_value triaged = "triaged"
status_value repro_ready = "repro_ready"
status_value fix_in_progress = "fix_in_progress"
status_value verified = "verified"
status_value closed = "closed"
status_value non_reproducible = "non_reproducible"

unfoldable pub severity_value : IncidentSeverity → String
severity_value p0 = "p0"
severity_value p1 = "p1"
severity_value p2 = "p2"
severity_value p3 = "p3"

-- the members of the Enum, in their order
abbrev statuses : List IncidentStatus
statuses =
    open_ ∷ triaged ∷ repro_ready ∷ fix_in_progress ∷ verified ∷ closed ∷ non_reproducible ∷ []

abbrev status_named : String → List IncidentStatus → Result IncidentStatus
status_named text [] = err (value_error (text ++ " is not a valid IncidentStatus"))
status_named text (x ∷ xs) =
    let rest = status_named text xs in if text == status_value x then ok x else rest

-- IncidentStatus(text), the look-up by value; an argument that is an enum member stands for its value
unfoldable pub incident_status : String → Result IncidentStatus
unfolding status_value
incident_status text = status_named text statuses

abbrev severity_named : String → List IncidentSeverity → Result IncidentSeverity
severity_named text [] = err (value_error (text ++ " is not a valid IncidentSeverity"))
severity_named text (x ∷ xs) =
    let rest = severity_named text xs in if text == severity_value x then ok x else rest

unfoldable pub incident_severity : String → Result IncidentSeverity
unfolding severity_value
incident_severity text = severity_named text (p0 ∷ p1 ∷ p2 ∷ p3 ∷ [])

pub IncidentStatus-discrete : Discrete IncidentStatus
IncidentStatus-discrete = hlevel

unfoldable pub same_status : IncidentStatus → IncidentStatus → Bool
same_status open_ open_ = true
same_status triaged triaged = true
same_status repro_ready repro_ready = true
same_status fix_in_progress fix_in_progress = true
same_status verified verified = true
same_status closed closed = true
same_status non_reproducible non_reproducible = true
same_status _ _ = false

-- next in _ALLOWED_TRANSITIONS[current]
unfoldable pub allowed_transition : IncidentStatus → IncidentStatus → Bool
allowed_transition open_ triaged = true
allowed_transition open_ non_reproducible = true
allowed_transition triaged repro_ready = true
allowed_transition triaged fix_in_progress = true
allowed_transition triaged non_reproducible = true
allowed_transition repro_ready fix_in_progress = true
allowed_transition repro_ready non_reproducible = true
allowed_transition fix_in_progress repro_ready = true
allowed_transition fix_in_progress verified = true
allowed_transition fix_in_progress non_reproducible = true
allowed_transition verified closed = true
allowed_transition verified fix_in_progress = true
allowed_transition non_reproducible triaged = true
allowed_transition _ _ = false

-- next_status.value in {VERIFIED, CLOSED}
unfoldable pub needs_evidence : IncidentStatus → Bool
needs_evidence verified = true
needs_evidence closed = true
needs_evidence _ = false

-- in _TERMINAL_INCIDENT_STATUSES
unfoldable pub is_terminal : IncidentStatus → Bool
is_terminal closed = true
is_terminal non_reproducible = true
is_terminal _ = false
