-- ===== src/Contracts/Writes.antt =====
-- _persist_run_contract of api_runs/service.py. With an expected time of the last change the UPDATE is
-- refused when the row has another one.
use Prim.Native.String.{◌++◌ as concat}
use project_os_core.Base.{
  ℕ, String, Bool, true, false, Option, none, some, List, [], ◌∷◌, ◌++◌, eqb, if◌then◌else◌,
}
use project_os_core.Base.Dict.{put}
use project_os_core.Base.Table.{fetchone, update_where}
use project_os_core.Base.Result.{Result, ok, err, runtime_error}
use project_os_core.World.{Context, text}
use project_os_core.Contracts.{RunContract, Contracts, contract_key, plain}

-- WHERE contract_id = ? AND updated_at = ?
abbrev pub is_current : Option ℕ → Option RunContract → Bool
is_current none found = true
is_current (some expected) none = false
is_current (some expected) (some c) = eqb c.updated_at expected

-- the UPDATE sets every column but the identifier
abbrev pub replace_contract : RunContract → RunContract → RunContract
replace_contract new old = record new { contract_id = old.contract_id }

-- the UPDATE of the row with this identifier, or its INSERT
abbrev pub write_contract : RunContract → Option RunContract → List RunContract → List RunContract
write_contract c none rows = rows ++ c ∷ []
write_contract c (some old) rows = update_where contract_key c.contract_id (replace_contract c) rows

abbrev pub conflict : RunContract → String
conflict c =
    concat "Run contract "
      (concat c.contract_id " was modified concurrently; reload before applying more changes.")

abbrev pub with_path : String → RunContract → RunContract
with_path path c = record c { metadata = put "artifact_path" (plain (text path)) c.metadata }

module _ (write_runtime_json : String → String → Context → Result String) where
  abbrev pub persist_written :
      Option ℕ → RunContract → Result String → Contracts → Result RunContract × Contracts
  persist_written expected c (err e) s = (err e, s)
  persist_written expected c (ok path) s =
      let found = fetchone contract_key c.contract_id s.contracts in
      if is_current expected found
      then (
        ok (with_path path c),
        record s { contracts = write_contract (with_path path c) found s.contracts },
      )
      else (err (runtime_error (conflict c)), s)

  unfoldable pub persist_run_contract :
      Option ℕ → RunContract → Contracts → Result RunContract × Contracts
  persist_run_contract expected c s =
      persist_written expected c (write_runtime_json "contracts" c.contract_id s.context) s
