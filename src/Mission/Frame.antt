-- ===== src/Mission/Frame.antt =====
-- What one call of `advance_chain` does to the rows of mission/chain.py's table.
use mathlib.Core.Path.{subst}
use text.Mathlib.TextPositions.{eq_refl}
use project_os_core.Base.{
  ℕ, suc, String, ◌≡◌, ◌≢◌, refl, sym, ◌∙◌, ◌⊎◌, inl, inr, Option, none, some, List, arith, eq_iff,
}
use project_os_core.Base.Table.{fetchone, fetchone-key, fetchone-upsert}
use project_os_core.World.{Outside}
use project_os_core.Mission.{MissionStep, ChainMetadata, MissionChain, ApiRuns, Missions}
use project_os_core.Mission.Chains.{
  chain_key, keep_created, persist_chain, ChainFields, updated_chain, update_chain,
}
use project_os_core.Mission.Advance.{advance_chain, move_fields}
use project_os_core.Mission.Writes.{IsKept}
use project_os_core.Mission.Writes.Moves.{IsMove, advance_chain_kept}

-- A chain that is written over its row keeps the creation of the row.
pub written :
    (r old : MissionChain) (rows : List MissionChain)
    → fetchone chain_key r.chain_id rows ≡ some old
    → fetchone chain_key r.chain_id (persist_chain r rows) ≡ some (keep_created old r)
unfolding persist_chain
written r old rows found =
    rw (fetchone-upsert chain_key r.chain_id keep_created r rows (λ x. refl), eq_refl, found) refl

other_row :
    (id j : String) (old : Option MissionChain)
    → j ≢ id
    → IsKept id (λ rows. fetchone chain_key j rows ≡ old) (λ c. c.chain_id ≡ id)
unfolding persist_chain updated_chain
other_row id j old other = record {
  write = λ c rows p q.
      rw (fetchone-upsert chain_key j keep_created c rows (λ r. refl))
        (ground (arith, eq_iff c.chain_id j, p, q, other));
  read = λ rows c q found. fetchone-key chain_key id rows c found;
  update = λ now f c still p. p;
  named = λ c p. p;
}

module _ {E : Type 0} (o : Outside) (api_runs : ApiRuns E) where
  -- An update of a stored chain is what the store holds of it then.
  pub update_chain-stored :
      (c : MissionChain) (f : ChainFields) (s : Missions E)
      → fetchone chain_key c.chain_id s.chains ≡ some c
      → fetchone chain_key c.chain_id (update_chain o api_runs c f s).1.chains
        ≡ some (update_chain o api_runs c f s).0
  unfolding update_chain updated_chain
  update_chain-stored c f s found =
      written (updated_chain (o.wall s.context.readings) f c) c s.chains found

  -- Advancing a chain leaves the row of every other chain as it is.
  pub advance_chain-others :
      (id j : String) (s : Missions E)
      → j ≢ id
      → fetchone chain_key j (advance_chain o api_runs id s).1.chains
        ≡ fetchone chain_key j s.chains
  advance_chain-others id j s other =
      advance_chain_kept o api_runs (other_row id j (fetchone chain_key j s.chains) other) s
        (λ c x metadata found m. unfold updated_chain in fetchone-key chain_key id s.chains c found)
        refl

  -- r is the chain c after an advance from the state s
  pub record Follows (s : Missions E) (c r : MissionChain) : Type 0 where
    pub same_chain : r.chain_id ≡ c.chain_id
    pub same_objective : r.objective ≡ c.objective
    pub same_steps : r.steps ≡ c.steps
    pub same_created : r.created_at ≡ c.created_at
    pub index :
        (r.current_step_index ≡ c.current_step_index)
        ⊎ ((r.current_step_index ≡ suc c.current_step_index)
            × ((x : MissionStep) × IsMove o api_runs s c x))

  module _ (id : String) (s : Missions E) (c : MissionChain) where
    Present : List MissionChain → Type 0
    Present rows = (r : MissionChain) × (fetchone chain_key id rows ≡ some r) × Follows s c r

    unfoldable InHand : MissionChain → Type 0
    InHand r = (r.chain_id ≡ id) × Follows s c r

    updated-Follows :
        (now : ℕ) (f : ChainFields) (r : MissionChain)
        → f.current_step_index ≡ none
        → Follows s c r
        → Follows s c (updated_chain now f r)
    unfolding updated_chain
    updated-Follows now f r still h = record {
      same_chain = h.same_chain;
      same_objective = h.same_objective;
      same_steps = h.same_steps;
      same_created = h.same_created;
      index = rw still h.index;
    }

    merged-Follows :
        (old r : MissionChain) → Follows s c old → Follows s c r → Follows s c (keep_created old r)
    merged-Follows old r g h = record {
      same_chain = h.same_chain;
      same_objective = h.same_objective;
      same_steps = h.same_steps;
      same_created = g.same_created;
      index = h.index;
    }

    same_row : {x y : MissionChain} → some x ≡ some y → x ≡ y
    same_row e = cc

    follows_kept : IsKept id Present InHand
    unfolding Present InHand persist_chain updated_chain
    follows_kept = record {
      write = λ r rows p q.
          let (old, found, g) = q in
          (
            keep_created old r,
            subst (λ i. fetchone chain_key i (persist_chain r rows) ≡ some (keep_created old r)) p.0
                (written r old rows
                  (subst (λ i. fetchone chain_key i rows ≡ some old) (sym p.0) found)),
            merged-Follows old r g p.1,
          );
      read = λ rows r q found.
          (fetchone-key chain_key id rows r found, subst (Follows s c) (same_row cc) q.2);
      update = λ now f r still p. (p.0, updated-Follows now f r still p.1);
      named = λ r p. p.0;
    }

    moved-Follows :
        (now : ℕ) (x : MissionStep) (metadata : Option ChainMetadata)
        → IsMove o api_runs s c x
        → Follows s c (updated_chain now (move_fields o api_runs c metadata s.api) c)
    unfolding updated_chain
    moved-Follows now x metadata m = record {
      same_chain = refl;
      same_objective = refl;
      same_steps = refl;
      same_created = refl;
      index = inr (refl, (x, m));
    }

    itself-Follows : Follows s c c
    itself-Follows = record {
      same_chain = refl;
      same_objective = refl;
      same_steps = refl;
      same_created = refl;
      index = inl refl;
    }

    -- A stored chain is still there after an advance, with its objective, its steps and its
    -- creation; its index is as it was, or one more when the last run of its step was
    -- completed or reviewed, or failed with a next step that may be run after a failure.
    pub advance_chain-Follows :
        fetchone chain_key id s.chains ≡ some c
        → (r : MissionChain) × (fetchone chain_key id (advance_chain o api_runs id s).1.chains
            ≡ some r)
          × Follows s c r
    unfolding Present InHand updated_chain
    advance_chain-Follows found =
        advance_chain_kept o api_runs follows_kept s
          (λ d x metadata at m.
            let same = same_row (sym at ∙ found) in
            subst
              (λ y. InHand (
                updated_chain (o.wall s.context.readings) (move_fields o api_runs y metadata s.api)
                  y))
              (sym same)
              (
                fetchone-key chain_key id s.chains c found,
                moved-Follows (o.wall s.context.readings) x metadata
                    (subst (λ y. IsMove o api_runs s y x) same m),
              ))
          (c, found, itself-Follows)
