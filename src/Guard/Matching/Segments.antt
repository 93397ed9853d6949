-- ===== src/Guard/Matching/Segments.antt =====
-- What it means for a path to match a template.
use agent_backend.Prelude.{
  Bool, refl, ◌<>◌, starts_with, starts_iff, ends_iff, ◌≡◌, ◌↔◌, ◌⊎◌, String, true, false, ◌&&◌,
  List, [], ◌∷◌, ◌==◌, str_eq, eq_iff, if_elim, length, All, arith,
}
use agent_backend.Guard.Matching.{
  strip_left, strip_right, split, non_empty_only, split_path, is_placeholder, segments_match,
  template_matches,
}

-- The segment opens and closes with braces.
abbrev pub Placeholder : String → Type 0
Placeholder r = ((rest : String) × (r ≡ "{" <> rest)) × ((front : String) × (r ≡ front <> "}"))

is_placeholder_iff : (r : String) → (is_placeholder r ≡ true) ↔ Placeholder r
is_placeholder_iff r =
    let opens = starts_iff "{" r in
    let closes = ends_iff "}" r in
    (
      λ h. both_parts (starts_with "{" r) opens.0 closes.0 h,
      λ (a, b). rw (opens.1 a, closes.1 b) refl,
    )
  where
    both_parts :
        (a : Bool) {b : Bool} {A B : Type 0}
        → (a ≡ true → A)
        → (b ≡ true → B)
        → (a && b) ≡ true
        → A × B
    both_parts true f g h = (f refl, g h)
    both_parts false f g h = cc

-- As many segments, each one equal to the template's or in the place of a `{name}`.
abbrev pub Fits : List String → List String → Type 0
Fits [] [] = Unit
Fits [] (s ∷ ss) = ⊥
Fits (r ∷ rs) [] = ⊥
Fits (r ∷ rs) (s ∷ ss) = (Placeholder r ⊎ (r ≡ s)) × Fits rs ss

abbrev NonBlank : String → Type 0
NonBlank s = str_eq s "" ≡ false

non_empty_only-NonBlank : (ss : List String) → All NonBlank (non_empty_only ss)
non_empty_only-NonBlank [] = tt
non_empty_only-NonBlank (s ∷ ss) =
    let rest = non_empty_only-NonBlank ss in
    if_elim (All NonBlank) (str_eq s "") (λ blank. rest) (λ filled. (filled, rest))

segments_fit :
    (rs ss : List String)
    → All NonBlank ss
    → ((length rs == length ss) && segments_match rs ss ≡ true) ↔ Fits rs ss
segments_fit [] [] h = ground arith
segments_fit [] (s ∷ ss) h = ground arith
segments_fit (r ∷ rs) [] h = ground arith
segments_fit (r ∷ rs) (s ∷ ss) (here, rest) =
    let more = segments_fit rs ss rest in
    let same = eq_iff r s in let braced = is_placeholder_iff r in ground arith

-- A path matches a template exactly when both have as many segments and each segment of the path is
-- the template's or stands in the place of a `{name}`. Slashes that open, close or follow another
-- slash make no segment.
pub template_matches_iff :
    (rule_path path : String)
    → (template_matches rule_path path ≡ true) ↔ Fits (split_path rule_path) (split_path path)
unfolding template_matches split_path
template_matches_iff rule_path path =
    segments_fit (split_path rule_path) (split_path path)
      (non_empty_only-NonBlank (split "/" (strip_right (strip_left path))))
