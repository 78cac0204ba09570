-- ===== src/Contracts/Decisions.antt =====
-- The decision that a run contract of api_runs/service.py carries in each of its statuses.
use mathlib.Core.Path.{subst}
use project_os_core.Base.{
  ℕ, String, ◌≡◌, refl, inl, inr, Bool, true, false, ◌||◌, Option, none, some, List, [], ◌∷◌, All,
  All-append, arith, Bool-cases, Option-cases, ◌==◌,
}
use project_os_core.Base.Text.{strip, lower, or_text}
use project_os_core.Base.Dict.{Dict, get, update}
use project_os_core.Base.Numbers.{ℤ, suc_int}
use project_os_core.Base.Table.{fetchone, All-update_where_into, fetchone-All}
use project_os_core.Base.Result.{Result, ok, err, and_then}
use project_os_core.World.{Outside, Context, append}
use project_os_core.Contracts.{
  RunContractStatus, prepared, approved, rejected, executed, RunContract, ContractField, Contracts,
  ContextPack, MegaPromptTemplate, contract_key,
}
use project_os_core.Contracts.Writes.{
  persist_run_contract, persist_written, write_contract, replace_contract, with_path, is_current,
}
use project_os_core.Contracts.Changes.{
  is_approved, is_decision, count_of, decided, clarified, started, amended,
}
use project_os_core.Contracts.Methods.{
  Planner, Amendment, with_result, get_run_contract, create_run_contract, create_of, new_contract,
  approve_loaded, approve_run_contract, amend_loaded, amend_run_contract, amend_built, amend_with,
  amend_on, amend_from, amended_request, built, rendered, mark_contract_clarification_pending,
  start_loaded, start_contract, get_context_pack, get_prompt_template, normalize_branch_name,
}

abbrev pub is_go : String → Bool
is_go d = d == "go" || d == "go_avec_correction"

-- An approved or executed contract has a go with its time, a rejected one a stop, a prepared one nothing.
abbrev pub is_settled : RunContractStatus → Option String → Option ℕ → Bool
is_settled prepared none none = true
is_settled approved (some d) (some t) = is_go d
is_settled executed (some d) (some t) = is_go d
is_settled rejected (some d) none = d == "stop"
is_settled _ _ _ = false

abbrev pub IsSettled : RunContract → Type 0
IsSettled c = is_settled c.status c.founder_decision c.founder_decision_at ≡ true

abbrev pub AllSettled : Contracts → Type 0
AllSettled s = All IsSettled s.contracts

decided-IsSettled :
    (decision : String) (notes : Option String) (round : ℤ) (now : ℕ) (c : RunContract)
    → is_decision decision ≡ true
    → IsSettled (decided decision notes round now c)
unfolding decided
decided-IsSettled decision notes round now c h = ground (arith, h)

started-IsSettled :
    (request : String) (now : ℕ) (c : RunContract)
    → is_approved c.status ≡ true
    → IsSettled c
    → IsSettled (started request now c)
unfolding started
started-IsSettled request now c h k = settled c.status c.founder_decision c.founder_decision_at h k
  where
    settled :
        (x : RunContractStatus) (d : Option String) (t : Option ℕ)
        → is_approved x ≡ true
        → is_settled x d t ≡ true
        → is_settled executed d t ≡ true
    settled approved (some d) (some t) h k = k
    settled approved (some d) none h k = k
    settled approved none t h k = k
    settled prepared d t h k = absurd cc
    settled rejected d t h k = absurd cc
    settled executed d t h k = absurd cc

write_contract-AllSettled :
    (c : RunContract) (found : Option RunContract) (rows : List RunContract)
    → IsSettled c
    → All IsSettled rows
    → All IsSettled (write_contract c found rows)
write_contract-AllSettled c none rows k h = All-append IsSettled rows (c ∷ []) h (k, tt)
write_contract-AllSettled c (some old) rows k h =
    All-update_where_into contract_key IsSettled IsSettled c.contract_id (replace_contract c) rows
      (λ r named was. k) (λ r other was. was) h

module _ (write : String → String → Context → Result String) where
  written-AllSettled :
      (expected : Option ℕ) (c : RunContract) (path : Result String) (s : Contracts)
      → IsSettled c
      → AllSettled s
      → AllSettled (persist_written write expected c path s).1
  written-AllSettled expected c (err e) s k h = h
  written-AllSettled expected c (ok path) s k h =
      elim (Bool-cases (is_current expected (fetchone contract_key c.contract_id s.contracts))) [
        | inl current ↦ rw current (write_contract-AllSettled (with_path path c) _ s.contracts k h)
        | inr stale ↦ rw stale h
      ]

  pub persist_run_contract-AllSettled :
      (expected : Option ℕ) (c : RunContract) (s : Contracts)
      → IsSettled c
      → AllSettled s
      → AllSettled (persist_run_contract write expected c s).1
  unfolding persist_run_contract
  persist_run_contract-AllSettled expected c s k h = written-AllSettled expected c _ s k h

-- What follows a write only tells of it.
told-AllSettled :
    {A : Type 0} (m : Result A × Contracts) (f : A → Contracts → Result A × Contracts)
    → ((a : A) (s : Contracts) → (f a s).1.contracts ≡ s.contracts)
    → AllSettled m.1
    → AllSettled (and_then m f).1
told-AllSettled (err e, s) f same h = h
told-AllSettled (ok a, s) f same h = rw (same a s) h

module _ (o : Outside) (k : Planner) where
  with_result-AllSettled :
      {A B : Type 0} (x : Result A) (f : A → Contracts → Result B × Contracts) (s : Contracts)
      → AllSettled s
      → ((a : A) → x ≡ ok a → AllSettled (f a s).1)
      → AllSettled (with_result o k x f s).1
  with_result-AllSettled (err e) f s h kept = h
  with_result-AllSettled (ok a) f s h kept = kept a refl

  approve_loaded-AllSettled :
      (decision : String) (notes : Option String) (c : RunContract) (s : Contracts)
      → AllSettled s
      → AllSettled (approve_loaded o k decision notes c s).1
  unfolding approve_loaded append
  approve_loaded-AllSettled decision notes c s h =
      elim (Bool-cases (is_decision (lower (strip decision)))) [
        | inl known ↦ rw known (
            with_result-AllSettled (count_of (get "approval_round" c.metadata)) _ _ h (λ round e.
              told-AllSettled _ _ (λ a t. refl)
                (persist_run_contract-AllSettled k.write_runtime_json (some c.updated_at) _ _
                  (decided-IsSettled (lower (strip decision)) notes (suc_int round) _ c known) h)))
        | inr other ↦ rw other h
      ]

  start_loaded-AllSettled :
      (request : String) (c : RunContract) (s : Contracts)
      → IsSettled c
      → AllSettled s
      → AllSettled (start_loaded o k request c s).1
  unfolding start_loaded
  start_loaded-AllSettled request c s was h = elim (Bool-cases (is_approved c.status)) [
    | inl go ↦ rw go (
        persist_run_contract-AllSettled k.write_runtime_json (some c.updated_at) _ _
          (started-IsSettled request (o.wall s.context.readings) c go was) h)
    | inr other ↦ rw other h
  ]

  clarification-AllSettled :
      (report : String) (requires : Bool) (expected : Option ℕ) (c : RunContract) (s : Contracts)
      → AllSettled s
      → AllSettled (mark_contract_clarification_pending o k report requires expected c s).1
  unfolding mark_contract_clarification_pending clarified
  clarification-AllSettled report requires expected c s h =
      persist_run_contract-AllSettled k.write_runtime_json expected _ _ refl h

  and_then-AllSettled :
      {A B : Type 0} (m : Result A × Contracts) (f : A → Contracts → Result B × Contracts)
      → AllSettled m.1
      → ((a : A) (t : Contracts) → AllSettled t → AllSettled (f a t).1)
      → AllSettled (and_then m f).1
  and_then-AllSettled (err e, s) f h kept = h
  and_then-AllSettled (ok a, s) f h kept = kept a s h

  built-AllSettled :
      (m : Result ContextPack × Context) (s : Contracts)
      → AllSettled s
      → AllSettled (built o k m s).1
  built-AllSettled (err e, c) s h = h
  built-AllSettled (ok p, c) s h = h

  rendered-AllSettled :
      (m : Result MegaPromptTemplate × Context) (s : Contracts)
      → AllSettled s
      → AllSettled (rendered o k m s).1
  rendered-AllSettled (err e, c) s h = h
  rendered-AllSettled (ok t, c) s h = h

  amend_built-AllSettled :
      (a : Amendment) (c : RunContract) (p : ContextPack) (t : MegaPromptTemplate) (s : Contracts)
      → AllSettled s
      → AllSettled (amend_built o k a c p t s).1
  unfolding amended append
  amend_built-AllSettled a c p t s h =
      with_result-AllSettled (count_of (get "amendment_count" (update c.metadata a.metadata))) _ _ h
        (λ count e.
          told-AllSettled _ _ (λ d u. refl)
            (persist_run_contract-AllSettled k.write_runtime_json (some c.updated_at) _ _ refl h))

  amend_with-AllSettled :
      (a : Amendment) (c : RunContract) (q : ContextPack) (s : Contracts)
      → AllSettled s
      → AllSettled (amend_with o k a c q s).1
  amend_with-AllSettled a c q s h =
      and_then-AllSettled (rendered o k (k.render_prompt q s.context) s) (amend_built o k a c q)
        (rendered-AllSettled (k.render_prompt q s.context) s h) (amend_built-AllSettled a c q)

  amend_loaded-AllSettled :
      (a : Amendment) (c : RunContract) (s : Contracts)
      → AllSettled s
      → AllSettled (amend_loaded o k a c s).1
  unfolding amend_loaded
  amend_loaded-AllSettled a c s h =
      with_result-AllSettled (get_context_pack c.context_pack_id s) (amend_from o k a c) s h
        (λ p found.
          with_result-AllSettled (normalize_branch_name k (or_text a.branch_name c.branch_name))
            (amend_on o k a c p) s h
            (λ branch named.
              let request = amended_request o k a c p branch in
              and_then-AllSettled (built o k (k.build_context_pack request s.context) s)
                (amend_with o k a c) (built-AllSettled (k.build_context_pack request s.context) s h)
                (amend_with-AllSettled a c)))

  create_run_contract-AllSettled :
      (pack template : String) (target : Option String) (metadata : Dict ContractField)
      (s : Contracts)
      → AllSettled s
      → AllSettled (create_run_contract o k pack template target metadata s).1
  unfolding create_run_contract new_contract append
  create_run_contract-AllSettled pack template target metadata s h =
      with_result-AllSettled (get_context_pack pack s)
        (λ p. with_result o k (get_prompt_template template s) (create_of o k target metadata p)) s
        h
        (λ p found.
          with_result-AllSettled (get_prompt_template template s) (create_of o k target metadata p)
            s h
            (λ t there.
              told-AllSettled _ _ (λ d u. refl)
                (persist_run_contract-AllSettled k.write_runtime_json none _ _ refl h)))

  ok_same : {a b : RunContract} → Result.ok a ≡ ok b → a ≡ b
  ok_same e = cc

  loaded-IsSettled :
      (id : String) (c : RunContract) (s : Contracts)
      → get_run_contract id s ≡ ok c
      → AllSettled s
      → IsSettled c
  unfolding get_run_contract
  loaded-IsSettled id c s found h = elim (Option-cases (fetchone contract_key id s.contracts)) [
    | inl missing ↦ absurd (ground (arith, rw missing at found))
    | inr (d, there) ↦
        subst IsSettled (ok_same (rw there at found))
          (fetchone-All contract_key IsSettled id s.contracts h there)
  ]

  -- A call of a method that writes contracts; the copy that a clarification writes was loaded before.
  pub data Call : Contracts → Contracts → Type 0 where
    creates :
        (pack template : String) (target : Option String) (metadata : Dict ContractField)
        (s : Contracts)
        → Call s (create_run_contract o k pack template target metadata s).1
    approves :
        (id decision : String) (notes : Option String) (s : Contracts)
        → Call s (approve_run_contract o k id decision notes s).1
    amends :
        (id : String) (a : Amendment) (s : Contracts) → Call s (amend_run_contract o k id a s).1
    clarifies :
        (report : String) (requires : Bool) (expected : Option ℕ) (c : RunContract) (s : Contracts)
        → Call s (mark_contract_clarification_pending o k report requires expected c s).1
    starts : (id request : String) (s : Contracts) → Call s (start_contract o k id request s).1

  pub data Calls (s : Contracts) : Contracts → Type 0 where
    none_yet : Calls s s
    then_call : {t u : Contracts} → Calls s t → Call t u → Calls s u

  Call-AllSettled : {s t : Contracts} → Call s t → AllSettled s → AllSettled t
  unfolding approve_run_contract amend_run_contract start_contract
  Call-AllSettled (creates pack template target metadata s) h =
      create_run_contract-AllSettled pack template target metadata s h
  Call-AllSettled (approves id decision notes s) h =
      with_result-AllSettled (get_run_contract id s) (approve_loaded o k decision notes) s h
        (λ c found. approve_loaded-AllSettled decision notes c s h)
  Call-AllSettled (amends id a s) h =
      with_result-AllSettled (get_run_contract id s) (amend_loaded o k a) s h
        (λ c found. amend_loaded-AllSettled a c s h)
  Call-AllSettled (clarifies report requires expected c s) h =
      clarification-AllSettled report requires expected c s h
  Call-AllSettled (starts id request s) h =
      with_result-AllSettled (get_run_contract id s) (start_loaded o k request) s h
        (λ c found. start_loaded-AllSettled request c s (loaded-IsSettled id c s found h) h)

  -- After any calls, refused ones included, every approved or executed contract carries a go of the founder
  -- with its time, every rejected one a stop, and every prepared one no decision, when that held before.
  pub Calls-AllSettled : {s t : Contracts} → Calls s t → AllSettled s → AllSettled t
  Calls-AllSettled none_yet h = h
  Calls-AllSettled (then_call w c) h = Call-AllSettled c (Calls-AllSettled w h)
