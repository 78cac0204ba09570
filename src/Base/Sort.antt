-- ===== src/Base/Sort.antt =====
-- ORDER BY: a stable insertion sort by a Boolean order, with what the readers of a query rely on.
use mathlib.Core.Path.{◌≡◌, refl, sym, ap, ◌∙◌}
use mathlib.Core.Logic.{◌⊎◌, inl, inr}
use mathlib.Core.Bool.{Bool, true, false}
use mathlib.Core.List.{List, [], ◌∷◌}
use project_os_core.Base.Tests.{if◌then◌else◌, Bool-cases}
use project_os_core.Base.Lists.{All, filter, filter-All}

module _ {ℓ} {A : Type ℓ} (before : A → A → Bool) where
  unfoldable pub insert_sorted : A → List A → List A
  insert_sorted x [] = x ∷ []
  insert_sorted x (y ∷ ys) = if before x y then x ∷ y ∷ ys else y ∷ insert_sorted x ys

  unfoldable pub sort_by : List A → List A
  unfolding insert_sorted
  sort_by [] = []
  sort_by (x ∷ xs) = insert_sorted x (sort_by xs)

  -- Each row comes before all the later ones.
  abbrev pub IsSorted : List A → Type 0
  IsSorted [] = Unit
  IsSorted (x ∷ xs) = All (λ y. before x y ≡ true) xs × IsSorted xs

  insert_sorted-All {κ} :
      (P : A → Type κ) (x : A) (xs : List A) → P x → All P xs → All P (insert_sorted x xs)
  unfolding insert_sorted
  insert_sorted-All P x [] p h = (p, tt)
  insert_sorted-All P x (y ∷ ys) p h = pick (before x y) (insert_sorted-All P x ys p h.1)
    where
      pick :
          (b : Bool)
          → All P (insert_sorted x ys)
          → All P (if b then x ∷ y ∷ ys else y ∷ insert_sorted x ys)
      pick true rest = (p, h)
      pick false rest = (h.0, rest)

  pub sort_by-All {κ} : (P : A → Type κ) (xs : List A) → All P xs → All P (sort_by xs)
  unfolding sort_by
  sort_by-All P [] h = tt
  sort_by-All P (x ∷ xs) h = insert_sorted-All P x (sort_by xs) h.0 (sort_by-All P xs h.1)

  All-insert_sorted {κ} :
      (P : A → Type κ) (x : A) (xs : List A) → All P (insert_sorted x xs) → P x × All P xs
  unfolding insert_sorted
  All-insert_sorted P x [] h = h
  All-insert_sorted P x (y ∷ ys) h = elim (Bool-cases (before x y)) [
    | inl first ↦ rw first at h
    | inr later ↦
        let h' : All P (y ∷ insert_sorted x ys) = rw later at h in
        let (p, rest) = All-insert_sorted P x ys h'.1 in (p, (h'.0, rest))
  ]

  -- What holds of all the sorted rows holds of all rows.
  pub All-sort_by {κ} : (P : A → Type κ) (xs : List A) → All P (sort_by xs) → All P xs
  unfolding sort_by
  All-sort_by P [] h = tt
  All-sort_by P (x ∷ xs) h =
      let (p, rest) = All-insert_sorted P x (sort_by xs) h in (p, All-sort_by P xs rest)

  module _ (total : (x y : A) → (before x y ≡ true) ⊎ (before y x ≡ true))
      (trans : (x y z : A) → before x y ≡ true → before y z ≡ true → before x z ≡ true) where
    later_hold :
        (x y : A) (ys : List A)
        → before x y ≡ true
        → All (λ z. before y z ≡ true) ys
        → All (λ z. before x z ≡ true) ys
    later_hold x y [] p h = tt
    later_hold x y (z ∷ zs) p h = (trans x y z p h.0, later_hold x y zs p h.1)

    flipped : (x y : A) → before x y ≡ false → before y x ≡ true
    flipped x y q = elim (total x y) [ inl p ↦ cc | inr r ↦ r ]

    insert_sorted-IsSorted : (x : A) (xs : List A) → IsSorted xs → IsSorted (insert_sorted x xs)
    unfolding insert_sorted
    insert_sorted-IsSorted x [] h = (tt, tt)
    insert_sorted-IsSorted x (y ∷ ys) h = elim (Bool-cases (before x y)) [
      | inl p ↦ rw p ((p, later_hold x y ys p h.0), h)
      | inr q ↦ rw q (
        insert_sorted-All (λ z. before y z ≡ true) x ys (flipped x y q) h.0,
        insert_sorted-IsSorted x ys h.1,
      )
    ]

    pub sort_by-IsSorted : (xs : List A) → IsSorted (sort_by xs)
    unfolding sort_by
    sort_by-IsSorted [] = tt
    sort_by-IsSorted (x ∷ xs) = insert_sorted-IsSorted x (sort_by xs) (sort_by-IsSorted xs)

    insert_sorted-first :
        (x : A) (xs : List A) → All (λ z. before x z ≡ true) xs → insert_sorted x xs ≡ x ∷ xs
    unfolding insert_sorted
    insert_sorted-first x [] h = refl
    insert_sorted-first x (y ∷ ys) h = rw h.0 refl

    filter-insert_sorted :
        (p : A → Bool) (x : A) (ys : List A)
        → IsSorted ys
        → filter p (insert_sorted x ys)
          ≡ (if p x then insert_sorted x (filter p ys) else filter p ys)
    unfolding insert_sorted
    filter-insert_sorted p x [] h = refl
    filter-insert_sorted p x (y ∷ ys) h = elim (Bool-cases (before x y)) [
      | inl first ↦ rw first (
          ap (λ rest. if p x then rest else filter p (y ∷ ys))
            (sym (
              insert_sorted-first x (filter p (y ∷ ys)) (
                filter-All (λ z. before x z ≡ true) p (y ∷ ys)
                  (first, later_hold x y ys first h.0)))))
      | inr later ↦ rw later (elim (Bool-cases (p y)) [
        | inl kept ↦ rw kept (
            rw later (
              ap (λ rest. y ∷ rest) (filter-insert_sorted p x ys h.1)
              ∙ out_of_if (p x) y (insert_sorted x (filter p ys)) (filter p ys)))
        | inr dropped ↦ rw dropped (filter-insert_sorted p x ys h.1)
      ])
    ]
      where
        out_of_if :
            (b : Bool) (y : A) (xs ys : List A)
            → (y ∷ (if b then xs else ys)) ≡ (if b then y ∷ xs else y ∷ ys)
        out_of_if true y xs ys = refl
        out_of_if false y xs ys = refl

    -- The order of the rows that pass a test does not depend on the others.
    pub filter-sort_by :
        (p : A → Bool) (xs : List A) → filter p (sort_by xs) ≡ sort_by (filter p xs)
    unfolding sort_by
    filter-sort_by p [] = refl
    filter-sort_by p (x ∷ xs) =
        filter-insert_sorted p x (sort_by xs) (sort_by-IsSorted xs) ∙ elim (Bool-cases (p x)) [
          | inl kept ↦ rw (kept, filter-sort_by p xs) refl
          | inr dropped ↦ rw (dropped, filter-sort_by p xs) refl
        ]
