-- ===== src/Retrieval/Dedup/Laws.antt =====
-- What the deduplication of post_retrieval.py keeps.
use agent_backend.Prelude.{
  ◌≤◌, sym, ◌&&◌, ℕ, ◌+◌, ◌≡◌, refl, ap, ◌∙◌, inl, inr, String, Bool, true, Bool-cases, List, [],
  ◌∷◌, map, str_eq, if◌then◌else◌, ltb, All, eq_iff, arith,
}
use agent_backend.Retrieval.{SearchHit, Python, DedupConfig, DedupKeepStrategy}
use agent_backend.Retrieval.Sorting.{count, total-sort}
use agent_backend.Retrieval.Ranking.{hit_less, is_better_hit, sort_hits}
use agent_backend.Retrieval.Dedup.{
  Kept, resolve_dedup_key, keeps_best, offer, collect, deduplicate_hits,
}

-- Whether a hit has the dedup key `key`.
abbrev pub has_key : DedupConfig → Python → String → SearchHit → Bool
has_key config py key hit = str_eq (resolve_dedup_key config py hit) key

-- One where there is any, and none where there is none.
abbrev pub at_most_one : ℕ → ℕ
at_most_one n = if ltb 0 n then 1 else 0

abbrev count_entries : String → List Kept → ℕ
count_entries key entries = count (λ e. str_eq e.key key) entries

module _ (config : DedupConfig) (py : Python) where
  -- Entries are kept under the dedup key of their hit.
  abbrev Keyed : Kept → Type 0
  Keyed e = e.key ≡ resolve_dedup_key config py e.hit

  offer-Keyed :
      (strategy : DedupKeepStrategy) (hit : SearchHit) (entries : List Kept)
      → All Keyed entries
      → All Keyed (offer strategy py (resolve_dedup_key config py hit) hit entries)
  offer-Keyed strategy hit [] h = (refl, tt)
  offer-Keyed strategy hit (e ∷ es) (here, rest) =
      let same = (eq_iff e.key (resolve_dedup_key config py hit)).0 in
      let more = offer-Keyed strategy hit es rest in
      elim (Bool-cases (str_eq e.key (resolve_dedup_key config py hit))) [
        | inl found ↦ elim (Bool-cases (keeps_best strategy && is_better_hit py hit e.hit)) [
          | inl better ↦ rw (found, better) (same found, rest)
          | inr kept ↦ rw (found, kept) (here, rest)
        ]
        | inr other ↦ rw other (here, more)
      ]

  collect-Keyed :
      (hits : List SearchHit) (entries : List Kept)
      → All Keyed entries
      → All Keyed (collect config py hits entries)
  collect-Keyed [] entries h = h
  collect-Keyed (hit ∷ hits) entries h =
      collect-Keyed hits
        (offer config.keep_strategy py (resolve_dedup_key config py hit) hit entries)
        (offer-Keyed config.keep_strategy hit entries h)

  count_hits :
      (key : String) (entries : List Kept)
      → All Keyed entries
      → count (has_key config py key) (map (λ e. e.hit) entries) ≡ count_entries key entries
  count_hits key [] h = refl
  count_hits key (e ∷ es) (here, rest) = rw (here, count_hits key es rest) refl

both_equal :
    (a b wanted : String) → str_eq a wanted ≡ true → str_eq b wanted ≡ true → str_eq a b ≡ true
both_equal a b wanted ha hb = (eq_iff a b).1 ((eq_iff a wanted).0 ha ∙ sym ((eq_iff b wanted).0 hb))

-- A new entry is counted once, under its own key.
count-offer :
    (strategy : DedupKeepStrategy) (py : Python) (key : String) (hit : SearchHit) (wanted : String)
    (entries : List Kept)
    → count_entries wanted entries ≤ 1
    → count_entries wanted (offer strategy py key hit entries)
      ≡ at_most_one ((if str_eq key wanted then 1 else 0) + count_entries wanted entries)
count-offer strategy py key hit wanted [] h = elim (Bool-cases (str_eq key wanted)) [
  | inl m ↦ rw m refl
  | inr m ↦ rw m refl
]
count-offer strategy py key hit wanted (e ∷ es) h =
    let same = (eq_iff e.key key).0 in
    let clash = both_equal e.key key wanted in
    let more = count-offer strategy py key hit wanted es in
    elim (Bool-cases (str_eq e.key key)) [
      | inl found ↦
          let same_test = ap (λ k. str_eq k wanted) (same found) in
          elim (Bool-cases (keeps_best strategy && is_better_hit py hit e.hit)) [
            | inl better ↦ rw (found, better) ground arith
            | inr kept ↦ rw (found, kept) ground arith
          ]
      | inr other ↦ rw other ground arith
    ]

count-collect :
    (config : DedupConfig) (py : Python) (wanted : String) (hits : List SearchHit)
    (entries : List Kept)
    → count_entries wanted entries ≤ 1
    → count_entries wanted (collect config py hits entries)
      ≡ at_most_one (count (has_key config py wanted) hits + count_entries wanted entries)
count-collect config py wanted [] entries h = ground arith
count-collect config py wanted (hit ∷ hits) entries h =
    let step =
      count-offer config.keep_strategy py (resolve_dedup_key config py hit) hit wanted entries h in
    let rest =
      count-collect config py wanted hits
        (offer config.keep_strategy py (resolve_dedup_key config py hit) hit entries) in
    ground arith

deduplicates :
    (config : DedupConfig) (py : Python) (hits : List SearchHit)
    → config.enabled ≡ true
    → deduplicate_hits config py hits ≡ sort_hits py (map (λ e. e.hit) (collect config py hits []))
unfolding deduplicate_hits
deduplicates config py hits h =
    ap (λ on. if on then sort_hits py (map (λ e. e.hit) (collect config py hits [])) else hits) h

-- The deduplicated hits have exactly one hit of each dedup key that a given hit has, and no hit of
-- any other key.
pub count-deduplicate_hits :
    (config : DedupConfig) (py : Python) (key : String) (hits : List SearchHit)
    → config.enabled ≡ true
    → count (has_key config py key) (deduplicate_hits config py hits)
      ≡ at_most_one (count (has_key config py key) hits)
unfolding sort_hits
count-deduplicate_hits config py key hits h =
    let entries = collect config py hits [] in
    let all = count-collect config py key hits [] (omega arith) in
    let kept = count_hits config py key entries (collect-Keyed config py hits [] tt) in
    let sorted =
      total-sort (hit_less py) (λ h. if has_key config py key h then 1 else 0)
        (map (λ e. e.hit) entries) in
    ap (count (has_key config py key)) (deduplicates config py hits h)
    ∙ (sorted ∙ (kept ∙ (all ∙ ground arith)))
