-- ===== src/Prelude/Text.antt =====
-- Python's texts as sequences of characters: `+`, `len`, `text[:n]` and the tests on parts.
use Prim.Native.Nat.{ℕ, suc, ◌+◌, ◌-◌, ◌≤◌}
use Prim.Native.String.{String}
use mathlib.Core.Path.{◌≡◌}
use mathlib.Core.Logic.{inl, inr}
use mathlib.Core.Bool.{Bool, true, false, ◌&&◌, ◌||◌}
use text.Mathlib.Text.{◌==◌ as str_eq}
use native.Mathlib.Omega.{arith}
use agent_backend.Prelude.Tests.{ltb, if◌then◌else◌, Bool-cases}

infixl 65 ◌<>◌
abbrev pub ◌<>◌ : String → String → String
String.[] <> t = t
(String.◌∷◌ c s) <> t = String.◌∷◌ c (s <> t)

abbrev pub text_length : String → ℕ
text_length String.[] = 0
text_length (String.◌∷◌ c s) = suc (text_length s)

-- `text.startswith(keyword)`
abbrev pub starts_with : String → String → Bool
starts_with String.[] text = true
starts_with (String.◌∷◌ c keyword) String.[] = false
starts_with (String.◌∷◌ c keyword) (String.◌∷◌ d text) =
    str_eq (String.◌∷◌ c String.[]) (String.◌∷◌ d String.[]) && starts_with keyword text

-- `keyword in text`
abbrev pub occurs : String → String → Bool
occurs keyword String.[] = str_eq keyword ""
occurs keyword (String.◌∷◌ d text) = starts_with keyword (String.◌∷◌ d text) || occurs keyword text

-- `text.endswith(keyword)`
abbrev pub ends_with : String → String → Bool
ends_with keyword String.[] = str_eq keyword ""
ends_with keyword (String.◌∷◌ d text) = str_eq keyword (String.◌∷◌ d text) || ends_with keyword text

-- `text[:n]`
abbrev pub prefix : ℕ → String → String
prefix n String.[] = ""
prefix n (String.◌∷◌ c s) = if ltb 0 n then String.◌∷◌ c (prefix (n - 1) s) else ""

pub text_length-append : (s t : String) → text_length (s <> t) ≡ text_length s + text_length t
text_length-append String.[] t = omega arith
text_length-append (String.◌∷◌ c s) t = omega (arith, text_length-append s t)

pub text_length-prefix : (n : ℕ) (s : String) → text_length (prefix n s) ≤ n
text_length-prefix n String.[] = omega arith
text_length-prefix n (String.◌∷◌ c s) =
    let rest = text_length-prefix (n - 1) s in
    elim (Bool-cases (ltb 0 n)) [ inl more ↦ rw more ground arith | inr done ↦ rw done omega arith ]
