-- ===== src/Retrieval/Dedup.antt =====
-- The deduplication of post_retrieval.py: one hit for each dedup key.
pub mod Laws
pub mod Ranked
use agent_backend.Prelude.{
  ◌<>◌, String, Bool, true, false, ◌&&◌, pos, List, [], ◌∷◌, map, str_eq, if◌then◌else◌,
}
use agent_backend.Json.{Value, null, int}
use agent_backend.Retrieval.{SearchHit, Python, DedupConfig, DedupKeepStrategy, first, best_score}
use agent_backend.Retrieval.Paths.{resolve_hit_value}
use agent_backend.Retrieval.Ranking.{is_better_hit, sort_hits}

abbrev key_or_next : Python → String → Value → String → String
key_or_next py field_path null next = next
key_or_next py field_path v next = field_path <> (":" <> py.text_of v)

abbrev first_dedup_key : Python → SearchHit → List String → String
first_dedup_key py hit [] = "id:" <> py.text_of (int (pos hit.id))
first_dedup_key py hit (field_path ∷ paths) =
    key_or_next py field_path (resolve_hit_value py hit field_path) (first_dedup_key py hit paths)

-- `_resolve_dedup_key`
unfoldable pub resolve_dedup_key : DedupConfig → Python → SearchHit → String
resolve_dedup_key config py hit = first_dedup_key py hit config.key_fields

-- An entry of `unique_hits`.
pub record Kept : Type 0 where
  pub key : String
  pub hit : SearchHit

abbrev pub keeps_best : DedupKeepStrategy → Bool
keeps_best first = false
keeps_best best_score = true

-- One turn of the loop: a dictionary keeps the place of a key that is written again.
abbrev pub offer : DedupKeepStrategy → Python → String → SearchHit → List Kept → List Kept
offer strategy py key hit [] = record { key = key; hit = hit } ∷ []
offer strategy py key hit (e ∷ es) =
    if str_eq e.key key
    then (if keeps_best strategy && is_better_hit py hit e.hit
        then record { key = e.key; hit = hit } ∷ es
        else e ∷ es)
    else e ∷ offer strategy py key hit es

abbrev pub collect : DedupConfig → Python → List SearchHit → List Kept → List Kept
collect config py [] entries = entries
collect config py (hit ∷ hits) entries =
    collect config py hits
      (offer config.keep_strategy py (resolve_dedup_key config py hit) hit entries)

-- `_deduplicate_hits`
unfoldable pub deduplicate_hits : DedupConfig → Python → List SearchHit → List SearchHit
deduplicate_hits config py hits =
    if config.enabled then sort_hits py (map (λ e. e.hit) (collect config py hits [])) else hits
