-- ===== src/Mission/Steps.antt =====
-- `_resolve_steps` of mission/chain.py, and the chains whose index stands on a step.
use mathlib.Core.Path.{subst}
use project_os_core.Base.{
  ℕ, suc, ◌<◌, String, ◌≡◌, refl, ap, inl, inr, Option, none, some, List, [], ◌∷◌, arith, length,
  map, Option-cases, Bool-cases, ◌==◌,
}
use project_os_core.Base.Result.{ok}
use project_os_core.Mission.{MissionStep, MissionChain}
use project_os_core.Mission.Chains.{number_steps, resolve_steps, standard_chain}

-- Each step's index is its position, counted from i.
unfoldable pub Numbered : ℕ → List MissionStep → Type 0
Numbered i [] = Unit
Numbered i (x ∷ xs) = (x.step_index ≡ i) × Numbered (suc i) xs

pub number_steps-Numbered : (i : ℕ) (xs : List MissionStep) → Numbered i (number_steps i xs)
unfolding Numbered number_steps
number_steps-Numbered i [] = tt
number_steps-Numbered i (x ∷ xs) = (refl, number_steps-Numbered (suc i) xs)

pub length-number_steps : (i : ℕ) (xs : List MissionStep) → length (number_steps i xs) ≡ length xs
unfolding number_steps
length-number_steps i [] = refl
length-number_steps i (x ∷ xs) = ap suc (length-number_steps (suc i) xs)

pub objectives-number_steps :
    (i : ℕ) (xs : List MissionStep)
    → map (λ x. x.objective) (number_steps i xs) ≡ map (λ x. x.objective) xs
unfolding number_steps
objectives-number_steps i [] = refl
objectives-number_steps i (x ∷ xs) =
    ap (λ ys. x.objective ∷ ys) (objectives-number_steps (suc i) xs)

Numbered-result :
    (xs ys : List MissionStep)
    → 0 < length xs
    → ok (number_steps 0 xs) ≡ ok ys
    → (0 < length ys) × Numbered 0 ys
Numbered-result xs ys some_step h =
    subst (λ zs. (0 < length zs) × Numbered 0 zs) (same_steps h)
      (rw (length-number_steps 0 xs) some_step, number_steps-Numbered 0 xs)
  where
    same_steps : {us vs : List MissionStep} → ok us ≡ ok vs → us ≡ vs
    same_steps e = cc

standard_chain-lt :
    (name : String) (xs : List MissionStep) → standard_chain name ≡ some xs → 0 < length xs
unfolding standard_chain
standard_chain-lt name xs h = ground (arith, h)

-- The steps that a chain gets are at least one, and each has its position as its index.
pub resolve_steps-Numbered :
    (template : Option String) (xs ys : List MissionStep)
    → resolve_steps template xs ≡ ok ys
    → (0 < length ys) × Numbered 0 ys
unfolding resolve_steps
resolve_steps-Numbered template (x ∷ xs) ys h = Numbered-result (x ∷ xs) ys (omega arith) h
resolve_steps-Numbered none [] ys h = absurd cc
resolve_steps-Numbered (some name) [] ys h = elim (Bool-cases (name == "")) [
  | inl empty ↦ absurd (ground (arith, h, empty))
  | inr named ↦ elim (Option-cases (standard_chain name)) [
    | inl unknown ↦ absurd (ground (arith, h, named, unknown))
    | inr (zs, found) ↦
        Numbered-result zs ys (standard_chain-lt name zs found) (ground (arith, h, named, found))
  ]
]

-- A chain whose steps are numbered by their positions, and whose index stands on one of them.
pub record IsSound (c : MissionChain) : Type 0 where
  pub in_range : c.current_step_index < length c.steps
  pub numbered : Numbered 0 c.steps
