-- ===== src/Auth/Membership.antt =====
-- Which company a new account belongs to, and as what
-- (src/modules/auth/services/auth.service.ts).
use mathlib.Core.List.{Memᴰ}
use fieldserviceit_backend.Base.{
  ℕ, ◌+◌, String, ◌≡◌, refl, sym, ap, ◌∙◌, ◌⊎◌, Bool, true, false, not, ◌&&◌, ◌||◌, Option, none,
  some, List, ◌∷◌, leb, ◌==◌, arith, is_none, is_text, truthy, or_else, find, find_sound, Result,
  ok, ensure, bad_request, conflict, ◌>>◌, >>-eq-ok, ▷-eq-ok, check, &&-eq-true, Bool-cases,
  Option-cases, inl, inr, Outcome,
}
use fieldserviceit_backend.Auth.{AuthStore, SecurityPolicy, Crypto}
use fieldserviceit_backend.Auth.Tokens.{Tokens, Draw, generate_tokens}
use fieldserviceit_backend.Auth.Refresh.{no_context}
use fieldserviceit_backend.Auth.Draws.{access-generate_tokens}
use fieldserviceit_backend.Auth.Login.{account_by_email}
use fieldserviceit_backend.Auth.Passwords.{assert_password_policy}
use fieldserviceit_backend.Auth.Registration.{
  assert_current_legal_consent, RegisteredCompany, BusinessRegistration, Membership, Drawn,
  Registry, is_over, join_by_invite, join_by_domain, choose_company, business_account,
  companies_after, with_account_of, with_companies, admit, register_member, register_business,
}

-- An invitation that does not expire, or not before `now`.
abbrev pub lasts : ℕ → Option ℕ → Bool
lasts now none = true
lasts now (some t) = leb now t

not-is_over :
    (now : ℕ) (expires_at : Option ℕ) → not (is_over now expires_at) ≡ lasts now expires_at
not-is_over now none = refl
not-is_over now (some t) = ground arith

-- A membership in a company that was there: active, and named by the code of an invitation that is
-- not over, or by the domain of the email.
abbrev pub Joins : ℕ → String → String → List RegisteredCompany → String → Type 0
Joins now code domain companies company_id =
    (c : RegisteredCompany) × Memᴰ c companies
    × (c.is_active ≡ true)
    × (c.id ≡ company_id)
    × (((is_text c.invite_code code && lasts now c.invite_expires_at) || is_text c.domain domain)
        ≡ true)

join_by_invite-eq-ok :
    (now : ℕ) (code domain : String) (companies : List RegisteredCompany) (m : Membership)
    → join_by_invite now code companies ≡ ok m
    → (m.creates_company ≡ false) × Joins now code domain companies m.company_id
unfolding join_by_invite
join_by_invite-eq-ok now code domain companies m h =
    elim (Option-cases (find (λ (c : RegisteredCompany). is_text c.invite_code code) companies)) [
      | inl e ↦ absurd (ground (arith, e, h))
      | inr (c, e) ↦
          let (member, named) =
            find_sound (λ (c : RegisteredCompany). is_text c.invite_code code) companies c e in
          elim (Bool-cases c.is_active) [
            | inr off ↦ absurd (ground (arith, e, off, h))
            | inl on ↦ elim (Bool-cases (is_over now c.invite_expires_at)) [
              | inl over ↦ absurd (ground (arith, e, on, over, h))
              | inr live ↦
                  let joined : Membership = record { company_id = c.id; creates_company = false } in
                  let same : joined ≡ m = ground (arith, e, on, live, h) in
                  (
                    ap (λ (x : Membership). x.creates_company) (sym same),
                    (
                      c,
                      member,
                      on,
                      ap (λ (x : Membership). x.company_id) same,
                      ground (arith, named, live, not-is_over now c.invite_expires_at),
                    ),
                  )
            ]
          ]
    ]

join_by_domain-eq-ok :
    (now : ℕ) (code domain : String) (companies : List RegisteredCompany) (m : Membership)
    → join_by_domain domain companies ≡ ok m
    → (m.creates_company ≡ false) × Joins now code domain companies m.company_id
unfolding join_by_domain
join_by_domain-eq-ok now code domain companies m h =
    let test = λ (c : RegisteredCompany). is_text c.domain domain && c.is_active in
    elim (Option-cases (find test companies)) [
      | inl e ↦ absurd (ground (arith, e, h))
      | inr (c, e) ↦
          let (member, both) = find_sound test companies c e in
          let (named, on) = &&-eq-true (is_text c.domain domain) c.is_active both in
          let joined : Membership = record { company_id = c.id; creates_company = false } in
          let same : joined ≡ m = ground (arith, e, h) in
          (
            ap (λ (x : Membership). x.creates_company) (sym same),
            (c, member, on, ap (λ (x : Membership). x.company_id) same, ground (arith, named)),
          )
    ]

-- A company made by the registration, or one that is joined.
abbrev pub Chosen : ℕ → Drawn → String → String → List RegisteredCompany → Membership → Type 0
Chosen now drawn code domain companies m =
    ((m.creates_company ≡ true) × (m.company_id ≡ drawn.company_id))
    ⊎ ((m.creates_company ≡ false) × Joins now code domain companies m.company_id)

choose_company-eq-ok :
    (email_domain : String → String) (now : ℕ) (drawn : Drawn) (email : String)
    (dto : BusinessRegistration) (companies : List RegisteredCompany) (m : Membership)
    → choose_company email_domain now drawn email dto companies ≡ ok m
    → Chosen now drawn (or_else dto.invite_code "") (email_domain email) companies m
unfolding choose_company
choose_company-eq-ok email_domain now drawn email dto companies m h =
    let code = or_else dto.invite_code "" in
    elim (Bool-cases
      (truthy dto.company_name && not (truthy dto.invite_code) && not (truthy dto.domain))) [
        | inl fresh ↦
            let made : Membership = record {
              company_id = drawn.company_id;
              creates_company = true;
            } in
            let same : made ≡ m = ground (arith, fresh, h) in
            inl (
              ap (λ (x : Membership). x.creates_company) (sym same),
              ap (λ (x : Membership). x.company_id) (sym same),
            )
        | inr joins ↦ elim (Bool-cases (truthy dto.invite_code)) [
          | inl invited ↦ inr (
              join_by_invite-eq-ok now code (email_domain email) companies m
                (ground (arith, joins, invited, h)))
          | inr uninvited ↦ elim (Bool-cases (truthy dto.domain)) [
            | inl by_domain ↦ inr (
                join_by_domain-eq-ok now code (email_domain email) companies m
                  (ground (arith, joins, uninvited, by_domain, h)))
            | inr nothing ↦ absurd (ground (arith, joins, uninvited, nothing, h))
          ]
        ]
      ]

last_of_four :
    (a b c d : Result (Unit {0})) (r : Result Membership) (m : Membership)
    → (a >> b >> c >> d >> r) ≡ ok m
    → r ≡ ok m
last_of_four a b c d r m h = (>>-eq-ok (a >> b >> c >> d) r h).1

returned :
    (companies : List RegisteredCompany) (issued : Outcome AuthStore Tokens) (tokens : Tokens)
    (registry' : Registry)
    → with_companies companies issued ≡ (ok tokens, registry')
    → (issued ≡ (ok tokens, registry'.store)) × (companies ≡ registry'.companies)
returned companies (answer, store) tokens registry' h =
    let answered : answer ≡ ok tokens = ap (λ (o : Outcome Registry Tokens). o.0) h in
    let same = ap (λ (o : Outcome Registry Tokens). o.1) h in
    (
      λ i. (answered i, ap (λ (r : Registry). r.store) same i),
      ap (λ (r : Registry). r.companies) same,
    )

admit-eq-ok :
    (lower email_domain : String → String) (now : ℕ) (drawn : Drawn) (email : String)
    (dto : BusinessRegistration) (companies : List RegisteredCompany) (store : AuthStore)
    (m : Membership)
    → admit lower email_domain now drawn email dto companies store ≡ ok m
    → choose_company email_domain now drawn email dto companies ≡ ok m
unfolding admit
admit-eq-ok lower email_domain now drawn email dto companies store m h =
    let choice = choose_company email_domain now drawn email dto companies in
    last_of_four (assert_password_policy dto.password dto.words) (assert_current_legal_consent dto)
      (ensure (is_none (account_by_email email store.accounts))
        (conflict "Email already registered"))
      (ensure (not (truthy dto.plan_name && not (lower (or_else dto.plan_name "") == "business")))
        (bad_request "Companies must choose the Business plan"))
      choice m h

-- A registration that is answered either writes a new company, active, with the drawn id and an
-- invitation of thirty days, and signs its user in as the administrator of that company, or leaves the
-- companies as they were and signs its user in as a client of an active one of them that was named by
-- the code of an invitation which is not over or by the domain of the email in lower case.
pub register_business-Joins :
    (crypto : Crypto) (lower email_domain bcrypt_hash : String → String) (now : ℕ)
    (policy : SecurityPolicy) (draws : ℕ → Draw) (drawn : Drawn) (dto : BusinessRegistration)
    (registry registry' : Registry) (tokens : Tokens)
    → register_business crypto lower email_domain bcrypt_hash now policy draws drawn dto registry
      ≡ (ok tokens, registry')
    → ((tokens.access.role ≡ "TENANT_ADMIN")
        × (tokens.access.company_id ≡ some drawn.company_id)
        × (registry'.companies ≡ (
            record {
              id = drawn.company_id;
              invite_code = some drawn.invite_code;
              invite_expires_at = some (now + 2592000000);
              domain = none;
              is_active = true;
            }
            ∷ registry.companies)))
      ⊎ ((tokens.access.role ≡ "CLIENT")
          × (registry'.companies ≡ registry.companies)
          × (company_id : String) × (tokens.access.company_id ≡ some company_id)
          × Joins now
              (or_else dto.invite_code "")
              (email_domain (crypto.lower_trim dto.email))
              registry.companies
              company_id)
unfolding register_business register_member business_account
register_business-Joins crypto lower email_domain bcrypt_hash now policy draws drawn dto registry
      registry' tokens h =
    let email = crypto.lower_trim dto.email in
    let checked = admit lower email_domain now drawn email dto registry.companies registry.store in
    let next = register_member crypto.sha256 bcrypt_hash now policy draws drawn email dto in
    let (m, s, passed, rest) = ▷-eq-ok (check checked registry) next tokens registry' h in
    let admitted : checked ≡ ok m = cc in
    let chosen = choose_company-eq-ok email_domain now drawn email dto registry.companies m (
      admit-eq-ok lower email_domain now drawn email dto registry.companies registry.store m
        admitted) in
    let user = business_account drawn.user_id email (bcrypt_hash dto.password.text) m in
    let issued =
      generate_tokens crypto.sha256 now policy user no_context none draws
        (with_account_of user s.store) in
    let (answered, listed) =
      returned (companies_after now drawn m s.companies) issued tokens registry' rest in
    let started : registry ≡ s = cc in
    let before = ap (λ (r : Registry). r.companies) started in
    let (i, same) =
      access-generate_tokens crypto.sha256 now policy user no_context draws
        (with_account_of user s.store) registry'.store tokens answered in
    let role = ap (λ (t : Tokens). t.access.role) same in
    let company = ap (λ (t : Tokens). t.access.company_id) same in
    elim chosen [
      | inl (makes, made) ↦ inl (
        sym role ∙ ground (arith, makes),
        sym company ∙ ap (λ c. some c) made,
        ground (arith, makes, listed, before),
      )
      | inr (joins, joined) ↦ inr (
        sym role ∙ ground (arith, joins),
        ground (arith, joins, listed, before),
        m.company_id,
        sym company,
        joined,
      )
    ]
