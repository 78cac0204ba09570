-- ===== src/Router/Reasons.antt =====
-- When the lists of blocking reasons of router/service.py are empty.
use mathlib.Core.Bool.{false≢true}
use project_os_core.Base.{
  String, ◌≡◌, refl, Bool, ◌&&◌, not, true, false, Option, none, some, List, [], ◌∷◌, ◌++◌, arith,
  All, is_empty,
}
use project_os_core.Base.Text.{is_member}
use project_os_core.Router.{
  RuntimeVerdict, MissionIntent, ProfileCapability, Collaborators, BudgetState, ModelRoute,
}
use project_os_core.Router.Gates.{reason_if}
use project_os_core.Router.Decision.{
  is_ready, worker_reasons, path_reasons, missing_secrets, first_reasons, all_reasons,
}

empty_parts :
    (xs ys : List String) → is_empty (xs ++ ys) ≡ true → (is_empty xs ≡ true) × (is_empty ys ≡ true)
empty_parts [] ys h = (refl, h)
empty_parts (x ∷ xs) ys h = absurd cc

is_empty-append :
    (xs ys : List String) → is_empty xs ≡ true → is_empty ys ≡ true → is_empty (xs ++ ys) ≡ true
is_empty-append [] ys h k = k
is_empty-append (x ∷ xs) ys h k = h

is_empty-reason_if : (b : Bool) (r : String) → is_empty (reason_if b r) ≡ not b
is_empty-reason_if true r = refl
is_empty-reason_if false r = refl

-- The targets that the path policy lets a mission touch.
pub IsOpen : Collaborators → String → Type 0
IsOpen k t = (k.is_forbidden t ≡ false) × (k.is_managed t ≡ true)

pub path_reasons-empty :
    (k : Collaborators) (ts : List String) → is_empty (path_reasons k ts) ≡ true → All (IsOpen k) ts
unfolding path_reasons IsOpen
path_reasons-empty k [] h = tt
path_reasons-empty k (t ∷ ts) h =
    ((ground (arith, h), ground (arith, h)), path_reasons-empty k ts (ground (arith, h)))

pub empty-path_reasons :
    (k : Collaborators) (ts : List String) → All (IsOpen k) ts → is_empty (path_reasons k ts) ≡ true
unfolding path_reasons IsOpen
empty-path_reasons k [] h = refl
empty-path_reasons k (t ∷ ts) h = ground (arith, h.0.0, h.0.1, empty-path_reasons k ts h.1)

pub missing_secrets-empty :
    (k : Collaborators) (names : List String)
    → is_empty (missing_secrets k names) ≡ true
    → All (λ n. k.has_secret n ≡ true) names
unfolding missing_secrets
missing_secrets-empty k [] h = tt
missing_secrets-empty k (n ∷ names) h =
    (ground (arith, h), missing_secrets-empty k names (ground (arith, h)))

pub empty-missing_secrets :
    (k : Collaborators) (names : List String)
    → All (λ n. k.has_secret n ≡ true) names
    → is_empty (missing_secrets k names) ≡ true
unfolding missing_secrets
empty-missing_secrets k [] h = refl
empty-missing_secrets k (n ∷ names) h = ground (arith, h.0, empty-missing_secrets k names h.1)

-- What the intent needs of the runtime, of its profile and of its targets.
pub record IsServed (k : Collaborators) (verdict : Option RuntimeVerdict) (i : MissionIntent)
    (p : Option ProfileCapability) (worker : Option String) : Type 0 where
  pub runtime_ready : is_ready verdict ≡ true
  pub profile : ProfileCapability
  pub has_profile : p ≡ some profile
  pub chosen : String
  pub has_worker : worker ≡ some chosen
  pub listed : is_member chosen profile.allowed_workers ≡ true
  pub targets : All (IsOpen k) i.metadata.paths
  pub secrets : All (λ n. k.has_secret n ≡ true) profile.required_secrets

module _ (k : Collaborators) (verdict : Option RuntimeVerdict) (i : MissionIntent) where
  pub first_reasons-empty :
      (p : Option ProfileCapability) (worker : Option String)
      → is_empty (first_reasons k verdict i p worker) ≡ true
      → IsServed k verdict i p worker
  unfolding first_reasons
  first_reasons-empty none worker h = absurd (
      let (x, y) =
        empty_parts (reason_if (not (is_ready verdict)) "runtime_not_ready")
          ("profile_missing"
            ∷ (worker_reasons none worker
                ++ (path_reasons k i.metadata.paths
                    ++ reason_if (not (is_empty (missing_secrets k [])))
                        "required_secret_missing")))
          h in
      false≢true y)
  first_reasons-empty (some p) none h = absurd (
      let (x, y) =
        empty_parts (reason_if (not (is_ready verdict)) "runtime_not_ready")
          ("worker_unresolved"
            ∷ (path_reasons k i.metadata.paths
                ++ reason_if (not (is_empty (missing_secrets k p.required_secrets)))
                    "required_secret_missing"))
          h in
      false≢true y)
  first_reasons-empty (some p) (some w) h =
      let missing = missing_secrets k p.required_secrets in
      let secret = reason_if (not (is_empty missing)) "required_secret_missing" in
      let (x, y) =
        empty_parts (reason_if (not (is_ready verdict)) "runtime_not_ready")
          (worker_reasons (some p) (some w) ++ (path_reasons k i.metadata.paths ++ secret)) h in
      let (u, v) =
        empty_parts (worker_reasons (some p) (some w)) (path_reasons k i.metadata.paths ++ secret)
          y in
      let (t, z) = empty_parts (path_reasons k i.metadata.paths) secret v in
      record {
        runtime_ready =
            ground (arith, x, is_empty-reason_if (not (is_ready verdict)) "runtime_not_ready");
        profile = p;
        has_profile = refl;
        chosen = w;
        has_worker = refl;
        listed = ground (
          arith,
          u,
          is_empty-reason_if (not (is_member w p.allowed_workers)) "worker_not_allowed",
        );
        targets = path_reasons-empty k i.metadata.paths t;
        secrets = missing_secrets-empty k p.required_secrets (
            ground
              (arith, z, is_empty-reason_if (not (is_empty missing)) "required_secret_missing"));
      }

  pub empty-first_reasons :
      (p : Option ProfileCapability) (worker : Option String)
      → IsServed k verdict i p worker
      → is_empty (first_reasons k verdict i p worker) ≡ true
  unfolding first_reasons
  empty-first_reasons p worker h =
      let missing = missing_secrets k h.profile.required_secrets in
      rw (h.has_profile, h.has_worker)
        (is_empty-append (reason_if (not (is_ready verdict)) "runtime_not_ready") _
          (rw h.runtime_ready refl)
          (is_empty-append (worker_reasons (some h.profile) (some h.chosen)) _ (rw h.listed refl) (
            is_empty-append (path_reasons k i.metadata.paths) _
              (empty-path_reasons k i.metadata.paths h.targets)
              (rw (empty-missing_secrets k h.profile.required_secrets h.secrets) refl))))

pub all_reasons-empty :
    (first : List String) (b : BudgetState) (r : ModelRoute)
    → is_empty (all_reasons first b r) ≡ (is_empty first && b.within_monthly_limit && r.allowed)
unfolding all_reasons is_member
all_reasons-empty [] b r = ground arith
all_reasons-empty (x ∷ xs) b r = refl
