-- ===== src/Retrieval/Sorting.antt =====
-- Python's `sorted(items, key=..., reverse=True)`, for a key that is compared by `less`: stable, and the
-- greatest first; and what holds of it where `less` is a weak order.
use agent_backend.Prelude.{
  ℕ, suc, ◌+◌, ◌≡◌, ◌⊎◌, inl, inr, refl, ap, ◌∙◌, Bool, true, false, Bool-cases, List, [], ◌∷◌,
  if◌then◌else◌, length, All, arith,
}

-- The order of a key that never raises: no two items are below each other, and an item below another
-- one is below or above any third.
pub record IsWeakOrder {ℓ} {A : Type ℓ} (less : A → A → Bool) : Type ℓ where
  pub asym : (a b : A) → less a b ≡ true → less b a ≡ false
  pub cotrans : (a b c : A) → less a c ≡ true → (less a b ≡ true) ⊎ (less b c ≡ true)

abbrev pub total {ℓ} : {A : Type ℓ} → (A → ℕ) → List A → ℕ
total f [] = 0
total f (x ∷ xs) = f x + total f xs

-- The number of items that pass a test.
abbrev pub count {ℓ} : {A : Type ℓ} → (A → Bool) → List A → ℕ
count p xs = total (λ x. if p x then 1 else 0) xs

module _ {ℓ} {A : Type ℓ} (less : A → A → Bool) where
  abbrev insert : A → List A → List A
  insert x [] = x ∷ []
  insert x (y ∷ ys) = if less x y then y ∷ insert x ys else x ∷ y ∷ ys

  unfoldable pub sort : List A → List A
  sort [] = []
  sort (x ∷ xs) = insert x (sort xs)

  -- No item is below a later one.
  abbrev pub IsSorted : List A → Type 0
  IsSorted [] = Unit
  IsSorted (x ∷ xs) = All (λ y. less x y ≡ false) xs × IsSorted xs

  insert-All {κ} : (P : A → Type κ) (x : A) (xs : List A) → P x → All P xs → All P (insert x xs)
  insert-All P x [] px pxs = (px, tt)
  insert-All P x (y ∷ ys) px (py, pys) = elim (Bool-cases (less x y)) [
    | inl below ↦ rw below (py, insert-All P x ys px pys)
    | inr above ↦ rw above (px, (py, pys))
  ]

  pub sort-All {κ} : (P : A → Type κ) (xs : List A) → All P xs → All P (sort xs)
  unfolding sort
  sort-All P [] h = tt
  sort-All P (x ∷ xs) (px, pxs) = insert-All P x (sort xs) px (sort-All P xs pxs)

  total-insert : (f : A → ℕ) (x : A) (xs : List A) → total f (insert x xs) ≡ f x + total f xs
  total-insert f x [] = refl
  total-insert f x (y ∷ ys) =
      let rest = total-insert f x ys in
      elim (Bool-cases (less x y)) [
        | inl below ↦ rw (below, rest) ground arith
        | inr above ↦ rw above refl
      ]

  pub total-sort : (f : A → ℕ) (xs : List A) → total f (sort xs) ≡ total f xs
  unfolding sort
  total-sort f [] = refl
  total-sort f (x ∷ xs) = total-insert f x (sort xs) ∙ ap (λ n. f x + n) (total-sort f xs)

  length-insert : (x : A) (xs : List A) → length (insert x xs) ≡ suc (length xs)
  length-insert x [] = refl
  length-insert x (y ∷ ys) = elim (Bool-cases (less x y)) [
    | inl below ↦ rw below (ap suc (length-insert x ys))
    | inr above ↦ rw above refl
  ]

  pub length-sort : (xs : List A) → length (sort xs) ≡ length xs
  unfolding sort
  length-sort [] = refl
  length-sort (x ∷ xs) = length-insert x (sort xs) ∙ ap suc (length-sort xs)

  insert_first : (x : A) (xs : List A) → All (λ y. less x y ≡ false) xs → insert x xs ≡ x ∷ xs
  insert_first x [] h = refl
  insert_first x (y ∷ ys) (here, rest) = rw here refl

  -- Sorting changes nothing in a sorted list.
  pub sort-of_sorted : (xs : List A) → IsSorted xs → sort xs ≡ xs
  unfolding sort
  sort-of_sorted [] s = refl
  sort-of_sorted (x ∷ xs) (here, rest) =
      ap (insert x) (sort-of_sorted xs rest) ∙ insert_first x xs here

  module _ (order : IsWeakOrder less) where
    not_below : (a b c : A) → less a b ≡ false → less b c ≡ false → less a c ≡ false
    not_below a b c ab bc = elim (Bool-cases (less a c)) [
      | inl below ↦ elim (order.cotrans a b c below) [ inl h ↦ cc (h, ab) | inr h ↦ cc (h, bc) ]
      | inr above ↦ above
    ]

    none_below :
        (a b : A) (xs : List A)
        → less a b ≡ false
        → All (λ y. less b y ≡ false) xs
        → All (λ y. less a y ≡ false) xs
    none_below a b [] h hs = tt
    none_below a b (x ∷ xs) h (here, rest) = (not_below a b x h here, none_below a b xs h rest)

    insert-IsSorted : (x : A) (xs : List A) → IsSorted xs → IsSorted (insert x xs)
    insert-IsSorted x [] s = (tt, tt)
    insert-IsSorted x (y ∷ ys) (first, rest) = elim (Bool-cases (less x y)) [
      | inl below ↦ rw below (
        insert-All (λ z. less y z ≡ false) x ys (order.asym x y below) first,
        insert-IsSorted x ys rest,
      )
      | inr above ↦ rw above ((above, none_below x y ys above first), (first, rest))
    ]

    pub sort-IsSorted : (xs : List A) → IsSorted (sort xs)
    unfolding sort
    sort-IsSorted [] = tt
    sort-IsSorted (x ∷ xs) = insert-IsSorted x (sort xs) (sort-IsSorted xs)
