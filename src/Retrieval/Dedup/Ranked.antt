-- ===== src/Retrieval/Dedup/Ranked.antt =====
-- The deduplication of post_retrieval.py on ranked hits, which `run` gives it.
use mathlib.Core.Path.{subst}
use mathlib.Core.List.{append-nil, append_assoc}
use agent_backend.Prelude.{
  arith, ◌≤◌, length, All-map, ◌≡◌, refl, ap, ◌∙◌, sym, inl, inr, String, Bool, true, false, ◌&&◌,
  ◌||◌, Bool-cases, List, [], ◌∷◌, ◌++◌, map, str_eq, if◌then◌else◌, All, All-append,
}
use agent_backend.Retrieval.{SearchHit, Python, DedupConfig, DedupKeepStrategy}
use agent_backend.Retrieval.Sorting.{sort, IsSorted, sort-of_sorted}
use agent_backend.Retrieval.Ranking.{hit_less, is_better_hit, sort_hits}
use agent_backend.Retrieval.Dedup.{
  Kept, resolve_dedup_key, keeps_best, offer, collect, deduplicate_hits,
}

abbrev is_in : String → List String → Bool
is_in key [] = false
is_in key (k ∷ ks) = str_eq k key || is_in key ks

abbrev with_key : String → List String → List String
with_key key seen = if is_in key seen then seen else seen ++ (key ∷ [])

-- The hits whose dedup key no earlier hit has, where `seen` are the keys of the hits before.
abbrev first_of_key : DedupConfig → Python → List String → List SearchHit → List SearchHit
first_of_key config py seen [] = []
first_of_key config py seen (hit ∷ hits) =
    let key = resolve_dedup_key config py hit in
    let rest = first_of_key config py (with_key key seen) hits in
    if is_in key seen then rest else hit ∷ rest

abbrev pub first_of_each_key : DedupConfig → Python → List SearchHit → List SearchHit
first_of_each_key config py hits = first_of_key config py [] hits

add-All {ℓ κ} :
    {A : Type ℓ} (P : A → Type κ) (skip : Bool) (x : A) (xs : List A)
    → P x
    → All P xs
    → All P (if skip then xs else x ∷ xs)
add-All P true x xs here rest = rest
add-All P false x xs here rest = (here, rest)

add-IsSorted {ℓ} :
    {A : Type ℓ} (less : A → A → Bool) (skip : Bool) (x : A) (xs : List A)
    → All (λ y. less x y ≡ false) xs
    → IsSorted less xs
    → IsSorted less (if skip then xs else x ∷ xs)
add-IsSorted less true x xs here rest = rest
add-IsSorted less false x xs here rest = (here, rest)

module _ (config : DedupConfig) (py : Python) where
  first_of_key-All {κ} :
      (P : SearchHit → Type κ) (seen : List String) (hits : List SearchHit)
      → All P hits
      → All P (first_of_key config py seen hits)
  first_of_key-All P seen [] h = tt
  first_of_key-All P seen (hit ∷ hits) (here, rest) =
      add-All P (is_in (resolve_dedup_key config py hit) seen) hit
        (first_of_key config py (with_key (resolve_dedup_key config py hit) seen) hits) here
        (first_of_key-All P (with_key (resolve_dedup_key config py hit) seen) hits rest)

  first_of_key-IsSorted :
      (seen : List String) (hits : List SearchHit)
      → IsSorted (hit_less py) hits
      → IsSorted (hit_less py) (first_of_key config py seen hits)
  first_of_key-IsSorted seen [] h = tt
  first_of_key-IsSorted seen (hit ∷ hits) (here, rest) =
      let after = with_key (resolve_dedup_key config py hit) seen in
      add-IsSorted (hit_less py) (is_in (resolve_dedup_key config py hit) seen) hit
        (first_of_key config py after hits)
        (first_of_key-All (λ y. hit_less py hit y ≡ false) after hits here)
        (first_of_key-IsSorted after hits rest)

abbrev new_entry : String → SearchHit → Kept
new_entry key hit = record { key = key; hit = hit }

and_false : (b : Bool) → b && false ≡ false
and_false true = refl
and_false false = refl

-- A hit that is above no entry leaves the entries of its key as they are.
offer_worse :
    (strategy : DedupKeepStrategy) (py : Python) (key : String) (hit : SearchHit)
    (entries : List Kept)
    → All (λ e. hit_less py e.hit hit ≡ false) entries
    → offer strategy py key hit entries ≡ (
        if is_in key (map (λ e. e.key) entries)
        then entries
        else entries ++ (new_entry key hit ∷ []))
unfolding is_better_hit
offer_worse strategy py key hit [] h = refl
offer_worse strategy py key hit (e ∷ es) (here, rest) =
    let more = offer_worse strategy py key hit es rest in
    elim (Bool-cases (str_eq e.key key)) [
      | inl found ↦ rw (found, here, and_false (keeps_best strategy)) refl
      | inr other ↦
          rw (other, more)
            elim (Bool-cases (is_in key (map (λ e. e.key) es))) [
              | inl later ↦ rw later refl
              | inr new ↦ rw new refl
            ]
    ]

abbrev hits_of : List Kept → List SearchHit
hits_of entries = map (λ e. e.hit) entries

abbrev keys_of : List Kept → List String
keys_of entries = map (λ e. e.key) entries

map-append {ℓ κ} :
    {A : Type ℓ} {B : Type κ} (f : A → B) (xs ys : List A) → map f (xs ++ ys) ≡ map f xs ++ map f ys
map-append f [] ys = refl
map-append f (x ∷ xs) ys = ap (λ zs. f x ∷ zs) (map-append f xs ys)

-- One turn of the loop against one turn of the definition, where `skip` says that the key is there.
matches_first :
    (skip : Bool) (key : String) (hit : SearchHit) (entries : List Kept)
    (rest : List String → List SearchHit)
    → hits_of (if skip then entries else entries ++ (new_entry key hit ∷ []))
        ++ rest (keys_of (if skip then entries else entries ++ (new_entry key hit ∷ [])))
      ≡ hits_of entries
        ++ (if skip
            then rest (if skip then keys_of entries else keys_of entries ++ (key ∷ []))
            else hit ∷ rest (if skip then keys_of entries else keys_of entries ++ (key ∷ [])))
matches_first true key hit entries rest = refl
matches_first false key hit entries rest =
    rw
      (
        map-append (λ e. e.hit) entries (new_entry key hit ∷ []),
        map-append (λ e. e.key) entries (new_entry key hit ∷ []),
      )
      (append_assoc (hits_of entries) (hit ∷ []) (rest (keys_of entries ++ (key ∷ []))))

module _ (config : DedupConfig) (py : Python) where
  -- None of the entries is below one of the hits.
  abbrev Above : List SearchHit → List Kept → Type 0
  Above hits entries = All (λ e. All (λ h. hit_less py e.hit h ≡ false) hits) entries

  added-Above :
      (skip : Bool) (key : String) (hit : SearchHit) (hits : List SearchHit) (entries : List Kept)
      → All (λ h. hit_less py hit h ≡ false) hits
      → Above (hit ∷ hits) entries
      → Above hits (if skip then entries else entries ++ (new_entry key hit ∷ []))
  added-Above true key hit hits entries here above = All-map (λ e h. h.1) entries above
  added-Above false key hit hits entries here above =
      All-append _ entries (new_entry key hit ∷ []) (All-map (λ e h. h.1) entries above) (here, tt)

  collect_ranked :
      (hits : List SearchHit) (entries : List Kept)
      → IsSorted (hit_less py) hits
      → Above hits entries
      → hits_of (collect config py hits entries)
        ≡ hits_of entries ++ first_of_key config py (keys_of entries) hits
  collect_ranked [] entries s above = sym (append-nil (hits_of entries))
  collect_ranked (hit ∷ hits) entries (here, rest) above =
      let key = resolve_dedup_key config py hit in
      let skip = is_in key (keys_of entries) in
      let offered =
        offer_worse config.keep_strategy py key hit entries (All-map (λ e h. h.0) entries above) in
      let next = if skip then entries else entries ++ (new_entry key hit ∷ []) in
      ap (λ es. hits_of (collect config py hits es)) offered
      ∙ (collect_ranked hits next rest (added-Above skip key hit hits entries here above)
          ∙ matches_first skip key hit entries (λ seen. first_of_key config py seen hits))

deduplicates_not :
    (config : DedupConfig) (py : Python) (hits : List SearchHit)
    → config.enabled ≡ false
    → deduplicate_hits config py hits ≡ hits
unfolding deduplicate_hits
deduplicates_not config py hits off =
    ap (λ b. if b then sort_hits py (hits_of (collect config py hits [])) else hits) off

-- On hits in the order of their scores, both strategies keep the first hit of every dedup key, and
-- the order as it is.
pub deduplicate_hits-IsSorted_eq :
    (config : DedupConfig) (py : Python) (hits : List SearchHit)
    → config.enabled ≡ true
    → IsSorted (hit_less py) hits
    → deduplicate_hits config py hits ≡ first_of_each_key config py hits
unfolding deduplicate_hits sort_hits
deduplicate_hits-IsSorted_eq config py hits on s =
    ap (λ b. if b then sort (hit_less py) (hits_of (collect config py hits [])) else hits) on
    ∙ (ap (sort (hit_less py)) (collect_ranked config py hits [] s tt)
        ∙ sort-of_sorted (hit_less py) (first_of_each_key config py hits)
            (first_of_key-IsSorted config py [] hits s))

length-first_of_key :
    (config : DedupConfig) (py : Python) (seen : List String) (hits : List SearchHit)
    → length (first_of_key config py seen hits) ≤ length hits
length-first_of_key config py seen [] = omega arith
length-first_of_key config py seen (hit ∷ hits) =
    let rest =
      length-first_of_key config py (with_key (resolve_dedup_key config py hit) seen) hits in
    elim (Bool-cases (is_in (resolve_dedup_key config py hit) seen)) [
      | inl found ↦ ground arith
      | inr new ↦ ground arith
    ]

pub deduplicate_hits-IsSorted :
    (config : DedupConfig) (py : Python) (hits : List SearchHit)
    → IsSorted (hit_less py) hits
    → IsSorted (hit_less py) (deduplicate_hits config py hits)
      × (length (deduplicate_hits config py hits) ≤ length hits)
deduplicate_hits-IsSorted config py hits s = elim (Bool-cases config.enabled) [
  | inl on ↦
      subst (λ kept. IsSorted (hit_less py) kept × (length kept ≤ length hits))
        (sym (deduplicate_hits-IsSorted_eq config py hits on s))
        (first_of_key-IsSorted config py [] hits s, length-first_of_key config py [] hits)
  | inr off ↦
      subst (λ kept. IsSorted (hit_less py) kept × (length kept ≤ length hits))
        (sym (deduplicates_not config py hits off)) (s, omega arith)
]
