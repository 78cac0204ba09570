-- ===== src/World.antt =====
-- What every service shares of the outside: the clock (`utc_now_iso`), the identifiers (`new_id`),
-- the journal of runtime/journal.py and the `trace_edges` table of database.py.
-- A time is its microseconds since the epoch, since ISO texts of one zone compare as the times do.
use project_os_core.Base.{
  ℕ, suc, String, Bool, Option, none, some, List, [], ◌∷◌, ◌++◌, true, false, ◌==◌, if◌then◌else◌,
}
use Prim.Native.String.{◌++◌ as concat}
use project_os_core.Base.Dict.{Dict}
use project_os_core.Base.Numbers.{ℤ, pos, negsuc, int_of_text}
use project_os_core.Base.Result.{Result, ok, err, value_error, type_error}

-- What the program reads from outside: the n-th reading of the clock, and the n-th new identifier.
pub record Outside : Type 0 where
  pub wall : ℕ → ℕ
  pub fresh : String → ℕ → String

-- The values of a journal entry's payload, of a task's arguments and of metadata: the number `negative n`
-- is - (n + 1), and `container` is a list or an object that is not empty, as its JSON text.
pub data Value : Type 0 where
  null : Value
  text : String → Value
  number : ℕ → Value
  negative : ℕ → Value
  flag : Bool → Value
  container : String → Value

abbrev pub integer : ℤ → Value
integer (pos n) = number n
integer (negsuc n) = negative n

abbrev read_int : String → Option ℤ → Result ℤ
read_int s none = err (value_error (concat "invalid literal for int() with base 10: " s))
read_int s (some k) = ok k

-- int(x or 0)
unfoldable pub int_or_zero : Value → Result ℤ
unfolding int_of_text
int_or_zero null = ok (pos 0)
int_or_zero (text s) = if s == "" then ok (pos 0) else read_int s (int_of_text s)
int_or_zero (number n) = ok (pos n)
int_or_zero (negative n) = ok (negsuc n)
int_or_zero (flag true) = ok (pos 1)
int_or_zero (flag false) = ok (pos 0)
int_or_zero (container s) = err (type_error "int() argument must be a number or a string")

-- a text that may be missing, and a time that may be
abbrev pub optional_text : Option String → Value
optional_text none = null
optional_text (some s) = text s

abbrev pub optional_number : Option ℕ → Value
optional_number none = null
optional_number (some n) = number n

pub record JournalEntry : Type 0 where
  pub event_id : String
  pub event_type : String
  pub source : String
  pub payload : Dict Value
  pub created_at : ℕ

pub record TraceEdge : Type 0 where
  pub trace_edge_id : String
  pub parent_id : String
  pub parent_kind : String
  pub child_id : String
  pub child_kind : String
  pub relation : String
  pub metadata : Dict String
  pub created_at : ℕ

pub record Context : Type 0 where
  pub readings : ℕ
  pub identifiers : ℕ
  pub journal : List JournalEntry
  pub edges : List TraceEdge

module _ (o : Outside) where
  -- LocalJournal.append: the line of the file and the row of the table are the same entry
  unfoldable pub append : String → String → Dict Value → Context → Context
  append event_type source payload c = record c {
    readings = suc c.readings;
    identifiers = suc c.identifiers;
    journal =
        c.journal
        ++ record {
          event_id = o.fresh "event" c.identifiers;
          event_type = event_type;
          source = source;
          payload = payload;
          created_at = o.wall c.readings;
        }
          ∷ [];
  }
