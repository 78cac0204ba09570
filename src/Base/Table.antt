-- ===== src/Base/Table.antt =====
-- A database table with a text key, as the list of its rows in rowid order.
use project_os_core.Base.Tests.{◌==◌, if◌then◌else◌, Bool-cases, is_some}
use Prim.Native.String.{String}
use mathlib.Core.Path.{◌≡◌, refl, sym, subst}
use mathlib.Core.Logic.{◌⊎◌, inl, inr}
use mathlib.Core.Bool.{Bool, true, false}
use mathlib.Core.Option.{Option, none, some}
use mathlib.Core.List.{List, [], ◌∷◌, ◌++◌}
use native.Mathlib.Omega.{arith}
use text.Mathlib.TextEquality.{eq_iff}
use text.Mathlib.TextPositions.{eq_refl}
use project_os_core.Base.Lists.{All, All-imp}

module _ {ℓ} {R : Type ℓ} (key : R → String) where
  -- SELECT … WHERE key = ?, fetchone
  unfoldable pub fetchone : String → List R → Option R
  fetchone k [] = none
  fetchone k (r ∷ rows) = if key r == k then some r else fetchone k rows

  -- UPDATE … SET … WHERE key = ?
  unfoldable pub update_where : String → (R → R) → List R → List R
  update_where k f [] = []
  update_where k f (r ∷ rows) = (if key r == k then f r else r) ∷ update_where k f rows

  -- INSERT … ON CONFLICT(key) DO UPDATE SET …; `merge old new` is the row that the update leaves
  unfoldable pub upsert : (R → R → R) → R → List R → List R
  upsert merge new [] = new ∷ []
  upsert merge new (r ∷ rows) =
      if key r == key new then merge r new ∷ rows else r ∷ upsert merge new rows

abbrev pub map_some {ℓ} : {R : Type ℓ} → (R → R) → Option R → Option R
map_some f none = none
map_some f (some r) = some (f r)

module _ {ℓ} {R : Type ℓ} (key : R → String) where
  pub fetchone-key : (k : String) (rows : List R) (r : R) → fetchone key k rows ≡ some r → key r ≡ k
  unfolding fetchone
  fetchone-key k [] r h = ground arith
  fetchone-key k (s ∷ rows) r h = ground (arith, eq_iff (key s) k, fetchone-key k rows r)

  pub fetchone-update_where :
      (k j : String) (f : R → R) (rows : List R)
      → ((r : R) → key (f r) ≡ key r)
      → fetchone key j (update_where key k f rows)
        ≡ (if k == j then map_some f (fetchone key j rows) else fetchone key j rows)
  unfolding fetchone update_where
  fetchone-update_where k j f [] same = ground arith
  fetchone-update_where k j f (r ∷ rows) same = ground (
    arith,
    same r,
    eq_iff (key r) k,
    eq_iff (key r) j,
    eq_iff (key (f r)) j,
    eq_iff k j,
    fetchone-update_where k j f rows same,
  )

  pub fetchone-upsert :
      (j : String) (merge : R → R → R) (new : R) (rows : List R)
      → ((r : R) → key (merge r new) ≡ key new)
      → fetchone key j (upsert key merge new rows) ≡ (
          if key new == j
          then some (elim (fetchone key (key new) rows) [ none ↦ new | some old ↦ merge old new ])
          else fetchone key j rows)
  unfolding fetchone upsert
  fetchone-upsert j merge new [] same = ground arith
  fetchone-upsert j merge new (r ∷ rows) same = ground (
    arith,
    same r,
    eq_iff (key r) (key new),
    eq_iff (key r) j,
    eq_iff (key (merge r new)) j,
    eq_iff (key new) j,
    fetchone-upsert j merge new rows same,
  )

  -- A row whose key was free is found as it was written.
  pub fetchone-upsert_new :
      (merge : R → R → R) (new : R) (rows : List R)
      → fetchone key (key new) rows ≡ none
      → fetchone key (key new) (upsert key merge new rows) ≡ some new
  unfolding fetchone upsert
  fetchone-upsert_new merge new [] free = rw eq_refl
  fetchone-upsert_new merge new (r ∷ rows) free =
      ground (arith, free, fetchone-upsert_new merge new rows)

  -- A property of every row that the written row has too.
  pub All-update_where {κ} :
      (P : R → Type κ) (k : String) (f : R → R) (rows : List R)
      → ((r : R) → P r → P (f r))
      → All P rows
      → All P (update_where key k f rows)
  unfolding update_where
  All-update_where P k f [] step h = h
  All-update_where P k f (r ∷ rows) step h =
      (pick (key r == k), All-update_where P k f rows step h.1)
    where
      pick : (b : Bool) → P (if b then f r else r)
      pick true = step r h.0
      pick false = h.0

  pub All-upsert {κ} :
      (P : R → Type κ) (merge : R → R → R) (new : R) (rows : List R)
      → P new
      → ((r : R) → P (merge r new))
      → All P rows
      → All P (upsert key merge new rows)
  unfolding upsert
  All-upsert P merge new [] p q h = (p, tt)
  All-upsert P merge new (r ∷ rows) p q h =
      pick (key r == key new) (All-upsert P merge new rows p q h.1)
    where
      pick :
          (b : Bool)
          → All P (upsert key merge new rows)
          → All P (if b then merge r new ∷ rows else r ∷ upsert key merge new rows)
      pick true rest = (q r, h.1)
      pick false rest = (h.0, rest)

  same_row : {r s : R} → some r ≡ some s → r ≡ s
  same_row e = cc

  pub fetchone-All {κ} :
      (P : R → Type κ) (k : String) (rows : List R) {r : R}
      → All P rows
      → fetchone key k rows ≡ some r
      → P r
  unfolding fetchone
  fetchone-All P k [] h e = cc
  fetchone-All P k (s ∷ rows) {r} h e = elim (Bool-cases (key s == k)) [
    | inl found ↦ subst P (same_row (rw found at e)) h.0
    | inr other ↦ fetchone-All P k rows h.1 (rw other at e)
  ]

  -- After an upsert the new row is there, as it is or merged with an old one.
  pub upsert-written {κ} :
      (P : R → Type κ) (merge : R → R → R) (new : R) (rows : List R)
      → All P (upsert key merge new rows)
      → P new ⊎ ((old : R) × P (merge old new))
  unfolding upsert
  upsert-written P merge new [] h = inl h.0
  upsert-written P merge new (r ∷ rows) h = elim (Bool-cases (key r == key new)) [
    | inl same ↦ inr (r, (rw same at h).0)
    | inr other ↦ upsert-written P merge new rows (rw other at h).1
  ]

  -- What each row had before a write gives what each row has after it.
  pub All-update_where_into {κ μ} :
      (P : R → Type κ) (Q : R → Type μ) (k : String) (f : R → R) (rows : List R)
      → ((r : R) → (key r == k) ≡ true → P r → Q (f r))
      → ((r : R) → (key r == k) ≡ false → P r → Q r)
      → All P rows
      → All Q (update_where key k f rows)
  unfolding update_where
  All-update_where_into P Q k f [] hit miss h = tt
  All-update_where_into P Q k f (r ∷ rows) hit miss h =
      (pick (key r == k) refl, All-update_where_into P Q k f rows hit miss h.1)
    where
      pick : (b : Bool) → (key r == k) ≡ b → Q (if b then f r else r)
      pick true e = hit r e h.0
      pick false e = miss r e h.0

  is_some-fetchone-cons :
      (k : String) (r : R) (rows : List R)
      → is_some (fetchone key k rows) ≡ true
      → is_some (fetchone key k (r ∷ rows)) ≡ true
  unfolding fetchone
  is_some-fetchone-cons k r rows h = ground arith

  -- The key of each row finds a row.
  pub fetchone_present :
      (rows : List R) → All (λ r. is_some (fetchone key (key r) rows) ≡ true) rows
  fetchone_present [] = tt
  fetchone_present (r ∷ rows) = (
    unfold fetchone in rw eq_refl,
    All-imp (λ x. is_some-fetchone-cons (key x) r rows) rows (fetchone_present rows),
  )

  pub is_some-fetchone-update_where :
      (k j : String) (f : R → R) (rows : List R)
      → ((r : R) → key (f r) ≡ key r)
      → is_some (fetchone key j rows) ≡ true
      → is_some (fetchone key j (update_where key k f rows)) ≡ true
  is_some-fetchone-update_where k j f rows same h =
      rw (fetchone-update_where k j f rows same) (ground arith)

  pub is_some-fetchone-append :
      (k : String) (xs ys : List R)
      → is_some (fetchone key k xs) ≡ true
      → is_some (fetchone key k (xs ++ ys)) ≡ true
  unfolding fetchone
  is_some-fetchone-append k [] ys h = cc
  is_some-fetchone-append k (x ∷ xs) ys h = ground (arith, is_some-fetchone-append k xs ys)

  pub fetchone-append_last :
      (xs : List R) (r : R) → is_some (fetchone key (key r) (xs ++ r ∷ [])) ≡ true
  unfolding fetchone
  fetchone-append_last [] r = rw eq_refl
  fetchone-append_last (x ∷ xs) r = ground (arith, fetchone-append_last xs r)

  -- The row that a query found, after the UPDATE of its key.
  pub fetchone-update_found :
      (k : String) (f : R → R) (rows : List R) (r : R)
      → ((r : R) → key (f r) ≡ key r)
      → fetchone key k rows ≡ some r
      → fetchone key k (update_where key (key r) f rows) ≡ some (f r)
  fetchone-update_found k f rows r same found =
      subst (λ j. fetchone key k (update_where key j f rows) ≡ some (f r))
        (sym (fetchone-key k rows r found))
        (rw (fetchone-update_where k k f rows same, eq_refl k, found) refl)

  -- Two queries that find rows of one key find one row.
  pub fetchone_same :
      (k j : String) (rows : List R) (r s : R)
      → fetchone key k rows ≡ some r
      → fetchone key j rows ≡ some s
      → (key r == j) ≡ true
      → r ≡ s
  fetchone_same k j rows r s found other named =
      ground (arith, found, other, named, eq_iff (key r) j, fetchone-key k rows r found)

  pub fetchone-append_found :
      (k : String) (xs ys : List R) (r : R)
      → fetchone key k xs ≡ some r
      → fetchone key k (xs ++ ys) ≡ some r
  unfolding fetchone
  fetchone-append_found k [] ys r h = absurd cc
  fetchone-append_found k (x ∷ xs) ys r h = ground (arith, h, fetchone-append_found k xs ys r)
