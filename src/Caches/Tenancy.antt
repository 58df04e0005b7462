-- ===== src/Caches/Tenancy.antt =====
-- Whose permission scopes a lookup returns (src/common/services/permission-scope-cache.service.ts), by the
-- user and the company and not by the key that they are stored under.
use Prim.Native.String.{◌++◌ as append}
use text.Mathlib.Text.{starts_with}
use text.Mathlib.TextPositions.{starts_with_of_prefix}
use fieldserviceit_backend.Base.{
  ℕ, ◌+◌, ◌-◌, ◌≤◌, String, ◌≡◌, refl, subst, inl, inr, Bool, true, false, not, ◌&&◌, ◌||◌, Option,
  none, some, List, [], ◌∷◌, arith, ◌==◌, eq_iff, if◌then◌else◌, ltb, truthy, is_text, Option-cases,
  Bool-cases, lt→ltb, &&-eq-true,
}
use fieldserviceit_backend.Base.Map.{get}
use fieldserviceit_backend.Caches.Permissions.{
  CacheEntry, ttl_ms, build_key, is_expired, get_scopes,
}
use fieldserviceit_backend.Caches.Refinement.{
  Operation, looked_up, stored, invalidated, cleared, cleaned, concerns, run, latest, run-IsWithin,
}

concerns-own :
    (u u' co : String) (co' : Option String)
    → concerns u' co' (build_key u co) ≡ false
    → ((u' == u) && (not (truthy co') || is_text co' co)) ≡ false
unfolding concerns build_key
concerns-own u u' co none h = elim (Bool-cases (u' == u)) [
  | inr e ↦ ground (arith, e)
  | inl e ↦
      let same = (eq_iff u' u).0 e in
      let own = subst (λ x. starts_with (append u (append ":" co)) x ≡ false) same h in
      absurd (
        ground
          (arith, own, starts_with_of_prefix u (append u (append ":" co)) (append ":" co, refl)))
]
concerns-own u u' co (some c) h =
    elim (Bool-cases ((u' == u) && (not (not (c == "")) || c == co))) [
      | inr e ↦ e
      | inl e ↦ elim (Bool-cases (c == "")) [
        | inr real ↦
            let user = (eq_iff u' u).0 (ground (arith, e)) in
            let company = (eq_iff c co).0 (ground (arith, e, real)) in
            let apart : (append u' (append ":" c) == append u (append ":" co)) ≡ false =
              ground (arith, h, real) in
            let joined : append u' (append ":" c) ≡ append u (append ":" co) =
              λ i. append (user i) (append ":" (company i)) in
            absurd (ground (arith, eq_iff (append u' (append ":" c)) (append u (append ":" co))))
        | inl empty ↦
            let same = (eq_iff u' u).0 (ground (arith, e)) in
            let swept : starts_with (append u (append ":" co)) u' ≡ false =
              ground (arith, h, empty) in
            let own = subst (λ x. starts_with (append u (append ":" co)) x ≡ false) same swept in
            absurd (
              ground (
                arith,
                own,
                starts_with_of_prefix u (append u (append ":" co)) (append ":" co, refl),
              ))
      ]
    ]

module _ {ℓ} {A : Type ℓ} where
  -- What the history last stored for this user and company and did not invalidate since.
  abbrev pub latest_for : List (Operation A) → String → String → Option (CacheEntry A)
  latest_for [] u co = none
  latest_for (looked_up u' co' now ∷ past) u co = latest_for past u co
  latest_for (stored u' co' scopes now ∷ past) u co =
      let before = latest_for past u co in
      if (u' == u) && (co' == co)
      then some (record { scopes = scopes; timestamp = now })
      else before
  latest_for (invalidated u' co' ∷ past) u co =
      let before = latest_for past u co in
      if (u' == u) && (not (truthy co') || is_text co' co) then none else before
  latest_for (cleared ∷ past) u co = none
  latest_for (cleaned now ∷ past) u co = latest_for past u co

  -- No other user and company that the history stored for read alike when joined by a colon.
  abbrev pub is_told_apart : List (Operation A) → String → String → Bool
  is_told_apart [] u co = true
  is_told_apart (stored u' co' scopes now ∷ past) u co =
      (((u' == u) && (co' == co)) || not (append u' (append ":" co') == append u (append ":" co)))
      && is_told_apart past u co
  is_told_apart (looked_up u' co' now ∷ past) u co = is_told_apart past u co
  is_told_apart (invalidated u' co' ∷ past) u co = is_told_apart past u co
  is_told_apart (cleared ∷ past) u co = is_told_apart past u co
  is_told_apart (cleaned now ∷ past) u co = is_told_apart past u co

  stored_for :
      (u' co' u co : String) (entry : CacheEntry A) (old older : Option (CacheEntry A))
      (e : CacheEntry A)
      → (((u' == u) && (co' == co)) || not (append u' (append ":" co') == append u (append ":" co)))
        ≡ true
      → (if build_key u' co' == build_key u co then some entry else old) ≡ some e
      → (old ≡ some e → older ≡ some e)
      → (if (u' == u) && (co' == co) then some entry else older) ≡ some e
  unfolding build_key
  stored_for u' co' u co entry old older e apart h later =
      elim (Bool-cases ((u' == u) && (co' == co))) [
        | inr other ↦
            let missed : (append u' (append ":" co') == append u (append ":" co)) ≡ false =
              ground (arith, apart, other) in
            rw other (later (rw missed at h))
        | inl own ↦
            let user = (eq_iff u' u).0 (ground (arith, own)) in
            let company = (eq_iff co' co).0 (ground (arith, own)) in
            let joined : append u' (append ":" co') ≡ append u (append ":" co) =
              λ i. append (user i) (append ":" (company i)) in
            let hit : (append u' (append ":" co') == append u (append ":" co)) ≡ true =
              (eq_iff (append u' (append ":" co')) (append u (append ":" co))).1 joined in
            rw own (rw hit at h)
      ]

  latest-latest_for :
      (ops : List (Operation A)) (u co : String) (e : CacheEntry A)
      → is_told_apart ops u co ≡ true
      → latest ops (build_key u co) ≡ some e
      → latest_for ops u co ≡ some e
  latest-latest_for [] u co e apart h = h
  latest-latest_for (looked_up u' co' now ∷ past) u co e apart h =
      latest-latest_for past u co e apart h
  latest-latest_for (stored u' co' scopes now ∷ past) u co e apart h =
      let (here, later) =
        &&-eq-true
          (((u' == u) && (co' == co))
            || not (append u' (append ":" co') == append u (append ":" co)))
          _ apart in
      stored_for u' co' u co (record { scopes = scopes; timestamp = now })
        (latest past (build_key u co)) (latest_for past u co) e here h
        (latest-latest_for past u co e later)
  latest-latest_for (invalidated u' co' ∷ past) u co e apart h =
      elim (Bool-cases (concerns u' co' (build_key u co))) [
        | inl hit ↦ absurd (ground (arith, hit, h))
        | inr miss ↦
            let own = concerns-own u u' co co' miss in
            let rest = latest-latest_for past u co e apart (ground (arith, miss, h)) in
            ground (arith, own, rest)
      ]
  latest-latest_for (cleared ∷ past) u co e apart h = absurd (cc)
  latest-latest_for (cleaned now ∷ past) u co e apart h = latest-latest_for past u co e apart h

  -- A lookup that hits returns what the history last stored for this user and company and did not
  -- invalidate since, at most five minutes ago, where no other user and company that it stored for
  -- read alike when joined by a colon.
  pub get_scopes-latest :
      (ops : List (Operation A)) (u co : String) (now : ℕ) (scopes : List A)
      → is_told_apart ops u co ≡ true
      → (get_scopes u co now (run ops)).0 ≡ some scopes
      → (e : CacheEntry A) × (latest_for ops u co ≡ some e)
        × (e.scopes ≡ scopes)
        × (now ≤ e.timestamp + 300000)
  unfolding get_scopes is_expired
  get_scopes-latest ops u co now scopes apart h =
      elim (Option-cases (get (run ops).cache (build_key u co))) [
        | inl e ↦ absurd (ground (arith, e))
        | inr (e, found) ↦
            let fresh : ltb ttl_ms (now - e.timestamp) ≡ false = ground (arith, found) in
            (
              e,
              latest-latest_for ops u co e apart (run-IsWithin ops (build_key u co) e found),
              ground (arith, found),
              ground (arith, lt→ltb ttl_ms (now - e.timestamp)),
            )
      ]
