-- ===== src/Base/Text.antt =====
-- Texts as the source uses them: membership in a list of texts, and truth of an optional text.
use Prim.Native.String.{String}
use mathlib.Core.Path.{◌≡◌, refl, sym}
use mathlib.Core.Logic.{◌↔◌, inl, inr}
use mathlib.Core.Bool.{Bool, true, false, not, ◌||◌}
use mathlib.Core.Option.{Option, none, some}
use mathlib.Core.List.{List, [], ◌∷◌, Memᴰ}
use native.Mathlib.Omega.{arith}
use text.Mathlib.Text.{◌==◌}
use text.Mathlib.TextEquality.{eq_iff}
use fieldserviceit_backend.Base.Tests.{if◌then◌else◌, Bool-cases}

-- `xs.includes(s)`.
abbrev pub includes : List String → String → Bool
includes [] s = false
includes (x ∷ xs) s = (x == s) || includes xs s

-- `Boolean(o)` for a text that may be null or undefined: the empty text is falsy.
abbrev pub truthy : Option String → Bool
truthy none = false
truthy (some s) = not (s == "")

-- `o || d`.
abbrev pub or_else : Option String → String → String
or_else none d = d
or_else (some s) d = if s == "" then d else s

-- `o === s`.
abbrev pub is_text : Option String → String → Bool
is_text none s = false
is_text (some t) s = t == s

-- `a === b` for two values that may be null.
abbrev pub same_text : Option String → Option String → Bool
same_text none none = true
same_text none (some _) = false
same_text (some _) none = false
same_text (some a) (some b) = a == b

pub is_text_iff : (o : Option String) (s : String) → (is_text o s ≡ true) ↔ (o ≡ some s)
is_text_iff none s = (λ h. cc, λ h. cc)
is_text_iff (some t) s = (λ h. cc ((eq_iff t s).0 h), λ h. (eq_iff t s).1 (cc))

pub same_text_iff : (a b : Option String) → (same_text a b ≡ true) ↔ (a ≡ b)
same_text_iff none none = (λ h. refl, λ h. refl)
same_text_iff none (some b) = (λ h. cc, λ h. cc)
same_text_iff (some a) none = (λ h. cc, λ h. cc)
same_text_iff (some a) (some b) = (λ h. cc ((eq_iff a b).0 h), λ h. (eq_iff a b).1 (cc))

-- A member of the list is found, and only a member is.
pub includes_of_mem : (xs : List String) (s : String) → Memᴰ s xs → includes xs s ≡ true
includes_of_mem [] s m = elim m [ ]
includes_of_mem (x ∷ xs) s (Memᴰ.head e) = ground (arith, eq_iff x s, sym e)
includes_of_mem (x ∷ xs) s (Memᴰ.tail m) = ground (arith, includes_of_mem xs s m)

pub mem_of_includes : (xs : List String) (s : String) → includes xs s ≡ true → Memᴰ s xs
mem_of_includes [] s h = absurd (ground arith)
mem_of_includes (x ∷ xs) s h = elim (Bool-cases (x == s)) [
  | inl e ↦ Memᴰ.head (sym ((eq_iff x s).0 e))
  | inr e ↦ Memᴰ.tail (mem_of_includes xs s (ground arith))
]
