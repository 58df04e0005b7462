-- ===== src/Base/Actions.antt =====
-- Operations that write tables and may throw: what was written before an exception stays written.
use mathlib.Core.Path.{◌≡◌, refl}
use fieldserviceit_backend.Base.Exceptions.{Result, ok, throw}

-- An answer with the tables that it leaves.
abbrev pub Outcome {ℓ κ} : Type κ → Type ℓ → Type (ℓ ⊔ κ)
Outcome S A = Result A × S

module _ {κ} {S : Type κ} where
  infixl 5 ◌▷◌
  abbrev pub ◌▷◌ {ℓ ι} :
      {A : Type ℓ} {B : Type ι} → Result A × S → (A → S → Result B × S) → Result B × S
  (throw e, s) ▷ next = (throw e, s)
  (ok a, s) ▷ next = next a s

  -- A chain that returned had an answer of its first step.
  pub ▷-eq-ok {ℓ ι} :
      {A : Type ℓ} {B : Type ι} (first : Result A × S) (next : A → S → Result B × S) (b : B)
      (s' : S)
      → (first ▷ next) ≡ (ok b, s')
      → (a : A) × (s : S) × (first ≡ (ok a, s)) × (next a s ≡ (ok b, s'))
  ▷-eq-ok (throw e, s) next b s' h = absurd (cc)
  ▷-eq-ok (ok a, s) next b s' h = (a, s, refl, h)

  -- A step that writes nothing.
  abbrev pub check {ℓ} : {A : Type ℓ} → Result A → S → Result A × S
  check r s = (r, s)
