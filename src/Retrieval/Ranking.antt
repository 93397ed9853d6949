-- ===== src/Retrieval/Ranking.antt =====
-- The order of hits and documents in post_retrieval.py: Python compares the tuples
-- (relevance, raw score, -id) entry by entry, and sorts them with the greatest first.
use agent_backend.Prelude.{
  ℕ, ◌≡◌, ◌⊎◌, inl, inr, Bool, true, false, Bool-cases, Option, none, some, List, ltb, ◌==◌,
  if◌then◌else◌, arith,
}
use agent_backend.Retrieval.{SearchHit, CollapsedSearchHit, Python}
use agent_backend.Retrieval.Sorting.{IsWeakOrder, sort}

-- A missing score is compared as `float("-inf")`.
abbrev score_key : Python → Option ℕ → ℕ
score_key py none = py.minus_infinity
score_key py (some x) = x

-- `x < y` for tuples whose first entries are `a` and `b`: equal first entries leave it to the rest.
abbrev lexicographic : Bool → Bool → Bool → Bool
lexicographic equal less rest = if equal then rest else less

-- `_hit_sort_key(a) < _hit_sort_key(b)` for hits and `_document_sort_key` for documents, which have the same shape.
abbrev key_less : Python → Option ℕ → Option ℕ → ℕ → Option ℕ → Option ℕ → ℕ → Bool
key_less py relevance raw id relevance' raw' id' =
    lexicographic (py.same (score_key py relevance) (score_key py relevance'))
      (py.less (score_key py relevance) (score_key py relevance'))
      (lexicographic (py.same (score_key py raw) (score_key py raw'))
        (py.less (score_key py raw) (score_key py raw'))
        (lexicographic (id == id') (ltb id' id) false))

unfoldable pub hit_less : Python → SearchHit → SearchHit → Bool
hit_less py a b = key_less py a.relevance_score a.raw_score a.id b.relevance_score b.raw_score b.id

unfoldable pub document_less : Python → CollapsedSearchHit → CollapsedSearchHit → Bool
document_less py a b =
    key_less py a.relevance_score a.raw_score a.primary_hit_id b.relevance_score b.raw_score
      b.primary_hit_id

-- `_is_better_hit`
unfoldable pub is_better_hit : Python → SearchHit → SearchHit → Bool
is_better_hit py candidate current = hit_less py current candidate

-- `_sort_hits`
unfoldable pub sort_hits : Python → List SearchHit → List SearchHit
sort_hits py hits = sort (hit_less py) hits

-- `_sort_documents`
unfoldable pub sort_documents : Python → List CollapsedSearchHit → List CollapsedSearchHit
sort_documents py documents = sort (document_less py) documents

-- The order of floats other than NaN: a weak order, where two floats are equal when neither is less.
pub record HasFloatOrder (py : Python) : Type 0 where
  pub order : IsWeakOrder py.less
  pub tie : (a b : ℕ) → py.same a b ≡ true → (py.less a b ≡ false) × (py.less b a ≡ false)
  pub apart : (a b : ℕ) → py.same a b ≡ false → (py.less a b ≡ true) ⊎ (py.less b a ≡ true)

-- A tuple order from the order of the first entries and that of the rest.
module _ {ℓ} {A : Type ℓ} (same less rest : A → A → Bool) (first : IsWeakOrder less)
    (second : IsWeakOrder rest)
    (tie : (a b : A) → same a b ≡ true → (less a b ≡ false) × (less b a ≡ false))
    (apart : (a b : A) → same a b ≡ false → (less a b ≡ true) ⊎ (less b a ≡ true)) where
  abbrev pairs_less : A → A → Bool
  pairs_less a b = lexicographic (same a b) (less a b) (rest a b)

  same_sym : (a b : A) → same a b ≡ true → same b a ≡ true
  same_sym a b h = elim (Bool-cases (same b a)) [
    | inl equal ↦ equal
    | inr differ ↦ elim (apart b a differ) [
      | inl l ↦ cc (l, (tie a b h).1)
      | inr l ↦ cc (l, (tie a b h).0)
    ]
  ]

  less_apart : (a b : A) → less a b ≡ true → same a b ≡ false
  less_apart a b h = elim (Bool-cases (same a b)) [
    | inl equal ↦ cc (h, (tie a b equal).0)
    | inr differ ↦ differ
  ]

  pairs_asym : (a b : A) → pairs_less a b ≡ true → pairs_less b a ≡ false
  pairs_asym a b h =
      let equal = same_sym a b in
      let back = same_sym b a in
      let asym = first.asym a b in let rest_asym = second.asym a b in ground arith

  pairs_cotrans :
      (a b c : A) → pairs_less a c ≡ true → (pairs_less a b ≡ true) ⊎ (pairs_less b c ≡ true)
  pairs_cotrans a b c h =
      let ab = apart a b in
      let bc = apart b c in
      let ac = tie a c in
      let tie_ab = tie a b in
      let tie_bc = tie b c in
      let cut = first.cotrans a b c in
      let back = first.cotrans b a c in
      let cut_left = first.cotrans b c a in
      let last = first.cotrans c b a in
      let cut_rest = second.cotrans a b c in let last_right = first.cotrans c a b in ground arith

  pairs-IsWeakOrder : IsWeakOrder pairs_less
  pairs-IsWeakOrder = record { asym = pairs_asym; cotrans = pairs_cotrans }

pulled-IsWeakOrder {ℓ κ} :
    {A : Type ℓ} {B : Type κ} (f : A → B) {less : B → B → Bool}
    → IsWeakOrder less
    → IsWeakOrder (λ a b. less (f a) (f b))
pulled-IsWeakOrder f order = record {
  asym = λ a b. order.asym (f a) (f b);
  cotrans = λ a b c. order.cotrans (f a) (f b) (f c);
}

never-IsWeakOrder {ℓ} : {A : Type ℓ} → IsWeakOrder {A = A} (λ a b. false)
never-IsWeakOrder = record { asym = λ a b h. cc; cotrans = λ a b c h. inl h }

greater-IsWeakOrder : IsWeakOrder (λ a b. ltb b a)
greater-IsWeakOrder = record { asym = λ a b h. ground arith; cotrans = λ a b c h. ground arith }

module _ {ℓ} {A : Type ℓ} (py : Python) (floats : HasFloatOrder py) (relevance raw : A → Option ℕ)
    (id : A → ℕ) where
  id-IsWeakOrder : IsWeakOrder (λ a b. lexicographic (id a == id b) (ltb (id b) (id a)) false)
  id-IsWeakOrder =
      pairs-IsWeakOrder (λ a b. id a == id b) (λ a b. ltb (id b) (id a)) (λ a b. false)
        (pulled-IsWeakOrder id greater-IsWeakOrder) never-IsWeakOrder
        (λ a b h. (ground arith, ground arith)) (λ a b h. ground arith)

  -- The order by one score, and by `rest` where the scores are equal.
  score-IsWeakOrder :
      (score : A → Option ℕ) (rest : A → A → Bool)
      → IsWeakOrder rest
      → IsWeakOrder (λ a b.
        lexicographic
          (py.same (score_key py (score a)) (score_key py (score b)))
          (py.less (score_key py (score a)) (score_key py (score b)))
          (rest a b))
  score-IsWeakOrder score rest order =
      pairs-IsWeakOrder (λ a b. py.same (score_key py (score a)) (score_key py (score b)))
        (λ a b. py.less (score_key py (score a)) (score_key py (score b))) rest
        (pulled-IsWeakOrder (λ a. score_key py (score a)) floats.order) order
        (λ a b. floats.tie (score_key py (score a)) (score_key py (score b)))
        (λ a b. floats.apart (score_key py (score a)) (score_key py (score b)))

  key-IsWeakOrder :
      IsWeakOrder (λ a b. key_less py (relevance a) (raw a) (id a) (relevance b) (raw b) (id b))
  key-IsWeakOrder = score-IsWeakOrder relevance _ (score-IsWeakOrder raw _ id-IsWeakOrder)

pub hit_less-IsWeakOrder : (py : Python) → HasFloatOrder py → IsWeakOrder (hit_less py)
unfolding hit_less
hit_less-IsWeakOrder py floats =
    key-IsWeakOrder py floats (λ h. h.relevance_score) (λ h. h.raw_score) (λ h. h.id)

pub document_less-IsWeakOrder : (py : Python) → HasFloatOrder py → IsWeakOrder (document_less py)
unfolding document_less
document_less-IsWeakOrder py floats =
    key-IsWeakOrder py floats (λ d. d.relevance_score) (λ d. d.raw_score) (λ d. d.primary_hit_id)
