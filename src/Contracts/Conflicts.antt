-- ===== src/Contracts/Conflicts.antt =====
-- Two users of one copy of a run contract of api_runs/service.py: the second write is refused.
use mathlib.Core.Path.{subst}
use project_os_core.Base.{
  ℕ, String, ◌≡◌, refl, sym, ap, ◌∙◌, inl, inr, Bool, true, false, Option, some, List, arith,
  Bool-cases, Option-cases, eqb,
}
use project_os_core.Base.Text.{strip, lower, or_text}
use project_os_core.Base.Dict.{get, update}
use project_os_core.Base.Numbers.{suc_int}
use project_os_core.Base.Table.{fetchone, update_where, fetchone-update_found, fetchone-key}
use project_os_core.Base.Result.{Result, Error, ok, err, and_then}
use project_os_core.World.{Outside, Context, append}
use project_os_core.Contracts.{
  RunContract, Contracts, ContextPack, MegaPromptTemplate, contract_key,
}
use project_os_core.Contracts.Writes.{
  persist_run_contract, persist_written, replace_contract, with_path,
}
use project_os_core.Contracts.Changes.{
  is_approved, is_decision, count_of, decided, clarified, started, amended,
}
use project_os_core.Contracts.Methods.{
  Planner, Amendment, with_result, approve_loaded, amend_loaded, amend_built, amend_with, amend_on,
  amend_from, amended_request, built, rendered, mark_contract_clarification_pending, start_loaded,
  get_context_pack, normalize_branch_name,
}

abbrev pub is_error {ℓ} : {A : Type ℓ} → Result A → Bool
is_error (ok a) = false
is_error (err e) = true

-- An exception, and the table of contracts as it was.
abbrev pub IsRefused : List RunContract → Result RunContract × Contracts → Type 0
IsRefused rows m = (is_error m.0 ≡ true) × (m.1.contracts ≡ rows)

-- What is returned is the row that is now stored.
abbrev pub IsStored : String → Result RunContract × Contracts → Type 0
IsStored id m = (r : RunContract) → m.0 ≡ ok r → fetchone contract_key id m.1.contracts ≡ some r

same_contract : {a b : RunContract} → Result.ok a ≡ ok b → a ≡ b
same_contract e = cc

replace_contract-same :
    (new old : RunContract) → old.contract_id ≡ new.contract_id → replace_contract new old ≡ new
replace_contract-same new old e = ap (λ i. record new { contract_id = i }) e

module _ (write : String → String → Context → Result String) where
  written-IsRefused :
      (t : ℕ) (c d : RunContract) (path : Result String) (s : Contracts)
      → fetchone contract_key c.contract_id s.contracts ≡ some d
      → eqb d.updated_at t ≡ false
      → IsRefused s.contracts (persist_written write (some t) c path s)
  written-IsRefused t c d (err e) s found later = (refl, refl)
  written-IsRefused t c d (ok path) s found later = rw (found, later) (refl, refl)

  pub persist_run_contract-IsRefused :
      (t : ℕ) (c d : RunContract) (s : Contracts)
      → fetchone contract_key c.contract_id s.contracts ≡ some d
      → eqb d.updated_at t ≡ false
      → IsRefused s.contracts (persist_run_contract write (some t) c s)
  unfolding persist_run_contract
  persist_run_contract-IsRefused t c d s found later = written-IsRefused t c d _ s found later

  written-IsStored :
      (t : ℕ) (c : RunContract) (path : Result String) (s : Contracts)
      → IsStored c.contract_id (persist_written write (some t) c path s)
  written-IsStored t c (err e) s = λ r h. absurd cc
  written-IsStored t c (ok path) s =
      elim (Option-cases (fetchone contract_key c.contract_id s.contracts)) [
        | inl missing ↦ rw missing (λ r h. absurd cc)
        | inr (old, found) ↦ rw found (elim (Bool-cases (eqb old.updated_at t)) [
          | inl current ↦ rw current (λ r h.
              stored old found (replace_contract (with_path path c)) (λ x. refl)
              ∙ ap some (
                  replace_contract-same (with_path path c) old
                    (fetchone-key contract_key c.contract_id s.contracts old found)
                  ∙ same_contract h))
          | inr stale ↦ rw stale (λ r h. absurd cc)
        ])
      ]
    where
      stored :
          (old : RunContract)
          → fetchone contract_key c.contract_id s.contracts ≡ some old
          → (f : RunContract → RunContract)
          → ((x : RunContract) → (f x).contract_id ≡ x.contract_id)
          → fetchone contract_key c.contract_id
              (update_where contract_key c.contract_id f s.contracts)
            ≡ some (f old)
      stored old found f same =
          subst
            (λ j.
              fetchone contract_key c.contract_id (update_where contract_key j f s.contracts)
              ≡ some (f old))
            (fetchone-key contract_key c.contract_id s.contracts old found)
            (fetchone-update_found contract_key c.contract_id f s.contracts old same found)

  pub persist_run_contract-IsStored :
      (t : ℕ) (c : RunContract) (s : Contracts)
      → IsStored c.contract_id (persist_run_contract write (some t) c s)
  unfolding persist_run_contract
  persist_run_contract-IsStored t c s = written-IsStored t c _ s

module _ (o : Outside) (k : Planner) where
  -- A write of a copy that was loaded earlier, with what it returns and the state that it leaves.
  pub data Write (c : RunContract) : Contracts → Result RunContract × Contracts → Type 0 where
    approves :
        (decision : String) (notes : Option String) (s : Contracts)
        → Write c s (approve_loaded o k decision notes c s)
    amends : (a : Amendment) (s : Contracts) → Write c s (amend_loaded o k a c s)
    clarifies :
        (report : String) (requires : Bool) (s : Contracts)
        → Write c s
            (mark_contract_clarification_pending o k report requires (some c.updated_at) c s)
    starts : (request : String) (s : Contracts) → Write c s (start_loaded o k request c s)

  -- Somebody changed the row at another time than this one.
  abbrev pub Changed : String → ℕ → List RunContract → Type 0
  Changed id t rows =
      (d : RunContract) × (fetchone contract_key id rows ≡ some d) × (eqb d.updated_at t ≡ false)

  -- What a write does: it stores what it returns, and is refused on a changed row.
  abbrev Fate : String → ℕ → List RunContract → Result RunContract × Contracts → Type 0
  Fate id t rows m = IsStored id m × (Changed id t rows → IsRefused rows m)

  module _ (id : String) (t : ℕ) where
    fails-Fate : (e : Error) (s : Contracts) → Fate id t s.contracts (err e, s)
    fails-Fate e s = ((λ r h. absurd cc), (λ changed. (refl, refl)))

    with_result-Fate :
        {A : Type 0} (x : Result A) (f : A → Contracts → Result RunContract × Contracts)
        (s : Contracts)
        → ((a : A) → Fate id t s.contracts (f a s))
        → Fate id t s.contracts (with_result o k x f s)
    with_result-Fate (err e) f s h = fails-Fate e s
    with_result-Fate (ok a) f s h = h a

    told-Fate :
        (rows : List RunContract) (m : Result RunContract × Contracts)
        (f : RunContract → Contracts → Result RunContract × Contracts)
        → ((a : RunContract) (s : Contracts) → (f a s).0 ≡ ok a)
        → ((a : RunContract) (s : Contracts) → (f a s).1.contracts ≡ s.contracts)
        → Fate id t rows m
        → Fate id t rows (and_then m f)
    told-Fate rows (err e, s) f same kept h = h
    told-Fate rows (ok a, s) f same kept (stored, refused) = (
      (λ r told. rw (kept a s) (stored r (sym (same a s) ∙ told))),
      (λ changed. absurd (let no = refused changed in ground (arith, no.0))),
    )

    built-Fate :
        (m : Result ContextPack × Context) (s : Contracts)
        (f : ContextPack → Contracts → Result RunContract × Contracts)
        → ((p : ContextPack) (u : Contracts) → Fate id t u.contracts (f p u))
        → Fate id t s.contracts (and_then (built o k m s) f)
    built-Fate (err e, c) s f h = fails-Fate e (record s { context = c })
    built-Fate (ok p, c) s f h = h p _

    rendered-Fate :
        (m : Result MegaPromptTemplate × Context) (s : Contracts)
        (f : MegaPromptTemplate → Contracts → Result RunContract × Contracts)
        → ((x : MegaPromptTemplate) (u : Contracts) → Fate id t u.contracts (f x u))
        → Fate id t s.contracts (and_then (rendered o k m s) f)
    rendered-Fate (err e, c) s f h = fails-Fate e (record s { context = c })
    rendered-Fate (ok x, c) s f h = h x _

  persist-Fate :
      (t : ℕ) (c : RunContract) (s : Contracts)
      → Fate c.contract_id t s.contracts (persist_run_contract k.write_runtime_json (some t) c s)
  persist-Fate t c s = (
    persist_run_contract-IsStored k.write_runtime_json t c s,
    λ (d, found, later). persist_run_contract-IsRefused k.write_runtime_json t c d s found later,
  )

  module _ (c : RunContract) where
    approve_loaded-Fate :
        (decision : String) (notes : Option String) (s : Contracts)
        → Fate c.contract_id c.updated_at s.contracts (approve_loaded o k decision notes c s)
    unfolding approve_loaded append decided
    approve_loaded-Fate decision notes s =
        elim (Bool-cases (is_decision (lower (strip decision)))) [
          | inl known ↦ rw known (
              with_result-Fate c.contract_id c.updated_at
                (count_of (get "approval_round" c.metadata)) _ _
                (λ round.
                  told-Fate c.contract_id c.updated_at s.contracts _ _ (λ a u. refl) (λ a u. refl)
                    (persist-Fate c.updated_at
                      (decided (lower (strip decision)) notes (suc_int round)
                        (o.wall s.context.readings) c)
                      _)))
          | inr other ↦ rw other (fails-Fate c.contract_id c.updated_at _ s)
        ]

    start_loaded-Fate :
        (request : String) (s : Contracts)
        → Fate c.contract_id c.updated_at s.contracts (start_loaded o k request c s)
    unfolding start_loaded started
    start_loaded-Fate request s = elim (Bool-cases (is_approved c.status)) [
      | inl go ↦ rw go (persist-Fate c.updated_at (started request (o.wall s.context.readings) c) _)
      | inr other ↦ rw other (fails-Fate c.contract_id c.updated_at _ s)
    ]

    clarification-Fate :
        (report : String) (requires : Bool) (s : Contracts)
        → Fate c.contract_id c.updated_at s.contracts
            (mark_contract_clarification_pending o k report requires (some c.updated_at) c s)
    unfolding mark_contract_clarification_pending clarified
    clarification-Fate report requires s =
        persist-Fate c.updated_at (clarified report requires (o.wall s.context.readings) c) _

    amend_built-Fate :
        (a : Amendment) (p : ContextPack) (t : MegaPromptTemplate) (s : Contracts)
        → Fate c.contract_id c.updated_at s.contracts (amend_built o k a c p t s)
    unfolding amended append
    amend_built-Fate a p t s =
        with_result-Fate c.contract_id c.updated_at
          (count_of (get "amendment_count" (update c.metadata a.metadata))) _ _
          (λ count.
            told-Fate c.contract_id c.updated_at s.contracts _ _ (λ d u. refl) (λ d u. refl)
              (persist-Fate c.updated_at _ _))

    amend_loaded-Fate :
        (a : Amendment) (s : Contracts)
        → Fate c.contract_id c.updated_at s.contracts (amend_loaded o k a c s)
    unfolding amend_loaded
    amend_loaded-Fate a s =
        let id = c.contract_id in
        let t = c.updated_at in
        with_result-Fate id t (get_context_pack c.context_pack_id s) (amend_from o k a c) s (λ p.
          with_result-Fate id t (normalize_branch_name k (or_text a.branch_name c.branch_name))
            (amend_on o k a c p) s
            (λ branch.
              built-Fate id t (k.build_context_pack (amended_request o k a c p branch) s.context) s
                (amend_with o k a c)
                (λ q u.
                  rendered-Fate id t (k.render_prompt q u.context) u (amend_built o k a c q)
                    (amend_built-Fate a q))))

    Write-Fate :
        {s : Contracts} {m : Result RunContract × Contracts}
        → Write c s m
        → Fate c.contract_id c.updated_at s.contracts m
    Write-Fate (approves decision notes s) = approve_loaded-Fate decision notes s
    Write-Fate (amends a s) = amend_loaded-Fate a s
    Write-Fate (clarifies report requires s) = clarification-Fate report requires s
    Write-Fate (starts request s) = start_loaded-Fate request s

  -- Of two writes of one loaded copy of a contract, approvals, amendments, clarifications or starts of a run,
  -- the second raises and leaves the contracts as the first left them, when the first is accepted at another
  -- time than that of the copy.
  pub Write-IsRefused :
      (c r : RunContract) {s : Contracts} {m n : Result RunContract × Contracts}
      → Write c s m
      → m.0 ≡ ok r
      → eqb r.updated_at c.updated_at ≡ false
      → Write c m.1 n
      → IsRefused m.1.contracts n
  Write-IsRefused c r first accepted later second =
      (Write-Fate c second).1 (r, (Write-Fate c first).0 r accepted, later)
