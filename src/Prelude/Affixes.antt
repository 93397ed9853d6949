-- ===== src/Prelude/Affixes.antt =====
-- What `startswith` and `endswith` say of a text, as equations.
use Prim.Native.Char.{Char}
use Prim.Native.String.{String}
use mathlib.Core.Path.{◌≡◌, refl, ap}
use mathlib.Core.Logic.{◌↔◌, inl, inr}
use mathlib.Core.Bool.{Bool, true, ◌&&◌}
use text.Mathlib.Text.{◌==◌ as str_eq}
use text.Mathlib.TextEquality.{eq_iff}
use native.Mathlib.Omega.{arith}
use agent_backend.Prelude.Tests.{Bool-cases}
use agent_backend.Prelude.Text.{◌<>◌, starts_with, ends_with}

and_true : (a b : Bool) → (a && b) ≡ true → (a ≡ true) × (b ≡ true)
and_true a b h = ground arith

same_char : (c d : Char) → String.◌∷◌ c String.[] ≡ String.◌∷◌ d String.[] → d ≡ c
same_char c d h = cc h

pub starts_sound :
    (keyword text : String)
    → starts_with keyword text ≡ true
    → (after : String) × (text ≡ keyword <> after)
starts_sound String.[] text h = (text, refl)
starts_sound (String.◌∷◌ c keyword) String.[] h = cc
starts_sound (String.◌∷◌ c keyword) (String.◌∷◌ d text) h =
    let (first, rest) =
      and_true (str_eq (String.◌∷◌ c String.[]) (String.◌∷◌ d String.[])) (starts_with keyword text)
        h in
    let (after, e) = starts_sound keyword text rest in
    let same : d ≡ c =
      same_char c d ((eq_iff (String.◌∷◌ c String.[]) (String.◌∷◌ d String.[])).0 first) in
    (after, rw (same, e) refl)

pub starts_complete : (keyword after : String) → starts_with keyword (keyword <> after) ≡ true
starts_complete String.[] after = refl
starts_complete (String.◌∷◌ c keyword) after =
    rw ((eq_iff (String.◌∷◌ c String.[]) (String.◌∷◌ c String.[])).1 refl)
      (starts_complete keyword after)

pub starts_iff :
    (keyword text : String)
    → (starts_with keyword text ≡ true) ↔ ((after : String) × (text ≡ keyword <> after))
starts_iff keyword text =
    (starts_sound keyword text, λ (after, e). rw e (starts_complete keyword after))

ends_sound :
    (keyword text : String)
    → ends_with keyword text ≡ true
    → (before : String) × (text ≡ before <> keyword)
ends_sound keyword String.[] h = ("", rw ((eq_iff keyword "").0 h) refl)
ends_sound keyword (String.◌∷◌ d text) h = elim (Bool-cases (str_eq keyword (String.◌∷◌ d text))) [
  | inl whole ↦ ("", rw ((eq_iff keyword (String.◌∷◌ d text)).0 whole) refl)
  | inr part ↦
      let (before, e) = ends_sound keyword text (rw part at h) in
      (String.◌∷◌ d before, ap (String.◌∷◌ d) e)
]

ends_whole : (text : String) → ends_with text text ≡ true
ends_whole String.[] = (eq_iff "" "").1 refl
ends_whole (String.◌∷◌ d text) = rw ((eq_iff (String.◌∷◌ d text) (String.◌∷◌ d text)).1 refl) refl

ends_complete : (before keyword : String) → ends_with keyword (before <> keyword) ≡ true
ends_complete String.[] keyword = ends_whole keyword
ends_complete (String.◌∷◌ d before) keyword = ground (arith, ends_complete before keyword)

pub ends_iff :
    (keyword text : String)
    → (ends_with keyword text ≡ true) ↔ ((before : String) × (text ≡ before <> keyword))
ends_iff keyword text =
    (ends_sound keyword text, λ (before, e). rw e (ends_complete before keyword))

pub <>-assoc : (a b c : String) → (a <> b) <> c ≡ a <> (b <> c)
<>-assoc String.[] b c = refl
<>-assoc (String.◌∷◌ d a) b c = ap (String.◌∷◌ d) (<>-assoc a b c)
