-- ===== src/Orchestration/Simulate.antt =====
-- The command `orchestration simulate` of cli.py: what the router of router/service.py allows, the mission graph
-- of orchestration/graph.py prepares.
use project_os_core.Base.{
  String, ◌≡◌, refl, inl, inr, ap, ◌∙◌, if◌then◌else◌, Bool-cases, Bool, true, false, ◌&&◌, [], ◌∷◌,
  Option, none, some, arith,
}
use project_os_core.Base.Text.{given, contains_any, lower, is_member}
use project_os_core.World.{Outside}
use project_os_core.Router.{RuntimeVerdict, MissionIntent, ProfileCapability, Collaborators}
use project_os_core.Router.Gates.{profile_for, choose_worker}
use project_os_core.Router.Decision.{route_intent, conclude}
use project_os_core.Router.Allowed.{route_intent-allowed}
use project_os_core.Orchestration.{MissionRun, Routed, MissionGraph}
use project_os_core.Orchestration.Graph.{prepare_execution}
use project_os_core.Orchestration.Trail.{names_worker, AreFree, Prepares, prepare_execution-LeadsTo}

given-names_worker : (worker : Option String) → given worker ≡ true → names_worker worker ≡ true
given-names_worker none h = absurd cc
given-names_worker (some w) h = ground arith

-- The worker that a profile leaves to choose, on the tests of `_choose_worker`.
first_worker_named :
    (a b c d : Bool) (w : String)
    → (if a
        then some "browser"
        else if b
        then some "windows"
        else if c
        then some "browser"
        else if d
        then some "deterministic"
        else none)
      ≡ some w
    → names_worker (
        if a
        then some "browser"
        else if b
        then some "windows"
        else if c
        then some "browser"
        else if d
        then some "deterministic"
        else none)
      ≡ true
first_worker_named true b c d w h = refl
first_worker_named false true c d w h = refl
first_worker_named false false true d w h = refl
first_worker_named false false false true w h = refl
first_worker_named false false false false w h = absurd cc

-- A worker that is chosen has a name.
choose_worker-named :
    (i : MissionIntent) (p : Option ProfileCapability) (w : String)
    → choose_worker i p ≡ some w
    → names_worker (choose_worker i p) ≡ true
unfolding choose_worker
choose_worker-named i none w h = elim (Bool-cases (given i.requested_worker)) [
  | inl asked ↦ rw asked (given-names_worker i.requested_worker asked)
  | inr open_ ↦ absurd (ground (arith, h, open_))
]
choose_worker-named i (some p) w h = elim (Bool-cases (given i.requested_worker)) [
  | inl asked ↦ rw asked (given-names_worker i.requested_worker asked)
  | inr open_ ↦
      let asks_web =
        contains_any ("browser" ∷ "web" ∷ "mail" ∷ "site" ∷ "form" ∷ []) (lower i.objective) in
      let lists : String → Bool = λ name. is_member name p.allowed_workers in
      rw open_ (
        first_worker_named (asks_web && lists "browser") (lists "windows") (lists "browser")
          (lists "deterministic") w (rw open_ at h))
]

routed_worker :
    (k : Collaborators) (verdict : Option RuntimeVerdict) (i : MissionIntent)
    → (route_intent k verdict i).allowed ≡ true
    → names_worker (route_intent k verdict i).chosen_worker ≡ true
unfolding route_intent conclude
routed_worker k verdict i allowed =
    let clear = (route_intent-allowed k verdict i).0 allowed in
    choose_worker-named i (profile_for k i.target_profile) clear.served.chosen
      clear.served.has_worker

-- What the router allows, the graph prepares, when the identifiers to be made are in no row: it does not refuse,
-- and the rows that it writes lead from its dispatch to the router's decision.
pub route_intent-Prepares :
    (o : Outside) (k : Collaborators) (verdict : Option RuntimeVerdict) (i : MissionIntent)
    (m : MissionRun) (d : Routed) (s : MissionGraph)
    → d.decision ≡ route_intent k verdict i
    → (route_intent k verdict i).allowed ≡ true
    → AreFree o s
    → Prepares d (prepare_execution o m d s)
route_intent-Prepares o k verdict i m d s routed allowed free =
    prepare_execution-LeadsTo o m d s free (ap (λ x. x.allowed) routed ∙ allowed)
      (ap (λ x. names_worker x.chosen_worker) routed ∙ routed_worker k verdict i allowed)
