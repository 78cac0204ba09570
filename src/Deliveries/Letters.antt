-- ===== src/Deliveries/Letters.antt =====
-- The dead letters: record_dead_letter and update_dead_letter_status_for_source of database.py, and
-- _record_dead_letter of api_runs/service.py.
use project_os_core.Base.{ℕ, suc, String, Bool, ◌&&◌, ◌||◌, List, [], ◌∷◌, ◌==◌, if◌then◌else◌}
use project_os_core.Base.Dict.{Dict, update}
use project_os_core.Base.Table.{upsert}
use project_os_core.World.{Outside, Context, Value}
use project_os_core.TraceEdges.{Link, record_trace_edge}
use project_os_core.Deliveries.{DeadLetterRecord}

abbrev pub letter_key : DeadLetterRecord → String
letter_key d = d.dead_letter_id

-- ON CONFLICT(dead_letter_id) DO UPDATE, with `created_at` immutable
abbrev pub keep_letter : DeadLetterRecord → DeadLetterRecord → DeadLetterRecord
keep_letter old new = record new { created_at = old.created_at }

-- WHERE source_entity_kind = ? AND source_entity_id = ?
abbrev pub of_source : String → String → DeadLetterRecord → Bool
of_source kind id d = d.source_entity_kind == kind && d.source_entity_id == id

abbrev pub is_open : DeadLetterRecord → Bool
is_open d = d.status == "active" || d.status == "requeued"

-- the UPDATE of one selected row
abbrev pub with_status : String → Dict Value → ℕ → DeadLetterRecord → DeadLetterRecord
with_status status metadata now d = record d {
  status = status;
  metadata = update d.metadata metadata;
  updated_at = now;
}

-- The SELECT and the loop over its rows, which are told apart by the primary key.
unfoldable pub update_dead_letter_status_for_source :
    String → String → String → Dict Value → ℕ → List DeadLetterRecord → List DeadLetterRecord
update_dead_letter_status_for_source kind id status metadata now [] = []
update_dead_letter_status_for_source kind id status metadata now (d ∷ letters) =
    (if of_source kind id d && is_open d then with_status status metadata now d else d)
    ∷ update_dead_letter_status_for_source kind id status metadata now letters

module _ (o : Outside) where
  -- record_dead_letter without an identifier or a time: both are made here
  abbrev pub new_letter : DeadLetterRecord → Context → DeadLetterRecord
  new_letter d c = record d {
    dead_letter_id = o.fresh "dead_letter" c.identifiers;
    created_at = o.wall c.readings;
    updated_at = o.wall c.readings;
  }

  unfoldable pub record_dead_letter :
      DeadLetterRecord → Context → List DeadLetterRecord → String × Context × List DeadLetterRecord
  record_dead_letter d c letters = (
    o.fresh "dead_letter" c.identifiers,
    record c { readings = suc c.readings; identifiers = suc c.identifiers },
    upsert letter_key keep_letter (new_letter d c) letters,
  )

  abbrev pub letter_link : DeadLetterRecord → String → Link
  letter_link d id = record {
    parent_id = d.source_entity_id;
    parent_kind = d.source_entity_kind;
    child_id = id;
    child_kind = "dead_letter";
    relation = "dead_lettered_as";
  }

  -- _record_dead_letter: the letter is active, and an edge links its source to it
  unfoldable pub record_active_letter :
      DeadLetterRecord → Context → List DeadLetterRecord → Context × List DeadLetterRecord
  unfolding record_dead_letter
  record_active_letter d c letters =
      let written = record_dead_letter (record d { status = "active" }) c letters in
      (
        record_trace_edge o (letter_link d written.0)
            (("domain", d.domain) ∷ ("replayable", if d.replayable then "true" else "false") ∷ [])
            written.1,
        written.2,
      )
