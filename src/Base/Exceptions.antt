-- ===== src/Base/Exceptions.antt =====
-- The HTTP exceptions that the services and guards throw, as values, and chains of fallible steps.
use Prim.Native.String.{String}
use mathlib.Core.Path.{◌≡◌, refl}
use mathlib.Core.Logic.{◌⊎◌, inl, inr}
use mathlib.Core.Bool.{Bool, true, false}

-- The exception classes of @nestjs/common that the modelled code throws. `server_error` is an
-- error that no handler expects, which the framework answers with status 500.
pub data Exception : Type 0 where
  bad_request unauthorized forbidden not_found conflict service_unavailable : String → Exception
  server_error : String → Exception

pub data Result {ℓ} (A : Type ℓ) : Type ℓ where
  ok : A → Result A
  throw : Exception → Result A

-- `await first`, then the rest; an exception leaves the function.
infixl 5 ◌>>◌ ◌>>=◌
abbrev pub ◌>>=◌ {ℓ κ} : {V : Type ℓ} {W : Type κ} → Result V → (V → Result W) → Result W
throw x >>= rest = throw x
ok v >>= rest = rest v

abbrev pub ◌>>◌ {ℓ} : {W : Type ℓ} → Result (Unit {0}) → Result W → Result W
throw x >> rest = throw x
ok v >> rest = rest

-- `if (!test) throw e;`
abbrev pub ensure : Bool → Exception → Result (Unit {0})
ensure b x = elim b [ true ↦ ok tt | false ↦ throw x ]

-- A chain that returned has not thrown at its first step.
pub >>=-eq-ok {ℓ κ} :
    {V : Type ℓ} {W : Type κ} (first : Result V) (rest : V → Result W) {w : W}
    → (first >>= rest) ≡ ok w
    → (v : V) × (first ≡ ok v) × (rest v ≡ ok w)
>>=-eq-ok (throw x) rest returned = cc
>>=-eq-ok (ok v) rest returned = (v, refl, returned)

pub >>-eq-ok {ℓ} :
    {W : Type ℓ} (first : Result (Unit {0})) (rest : Result W) {w : W}
    → (first >> rest) ≡ ok w
    → (first ≡ ok tt) × (rest ≡ ok w)
>>-eq-ok (throw x) rest returned = cc
>>-eq-ok (ok v) rest returned = (refl, returned)

pub ensure-eq-ok : (b : Bool) (e : Exception) {u : Unit {0}} → ensure b e ≡ ok u → b ≡ true
ensure-eq-ok true e h = refl
ensure-eq-ok false e h = cc

pub Result-cases {ℓ} :
    {A : Type ℓ} (r : Result A) → ((a : A) × (r ≡ ok a)) ⊎ ((e : Exception) × (r ≡ throw e))
Result-cases (ok a) = inl (a, refl)
Result-cases (throw e) = inr (e, refl)
