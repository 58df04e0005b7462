-- ===== src/Auth/Registration.antt =====
-- The registration of a company's user of AuthService (src/modules/auth/services/auth.service.ts,
-- src/modules/auth/legal-consent.ts). Drawn ids are arguments; `email_domain` is what follows the @.
use fieldserviceit_backend.Base.{
  ℕ, ◌+◌, String, Bool, true, false, not, ◌&&◌, Option, none, some, List, [], ◌∷◌, ◌==◌,
  if◌then◌else◌, ltb, is_none, is_text, truthy, or_else, find, Result, ok, throw, bad_request,
  conflict, ensure, ◌>>◌, Outcome, ◌▷◌, check,
}
use fieldserviceit_backend.Auth.{Account, AuthStore, SecurityPolicy, Crypto}
use fieldserviceit_backend.Auth.Tokens.{Tokens, Draw, generate_tokens}
use fieldserviceit_backend.Auth.Refresh.{no_context}
use fieldserviceit_backend.Auth.Login.{account_by_email}
use fieldserviceit_backend.Auth.Passwords.{Password, assert_password_policy}

pub record RegisteredCompany : Type 0 where
  pub id : String
  pub invite_code : Option String
  pub invite_expires_at : Option ℕ
  pub domain : Option String
  pub is_active : Bool

-- The body; `words` are the parts of the names and the email that a password may not contain.
pub record BusinessRegistration : Type 0 where
  pub email : String
  pub password : Password
  pub words : List String
  pub terms_accepted : Bool
  pub terms_version : String
  pub privacy_version : String
  pub plan_name : Option String
  pub company_name : Option String
  pub invite_code : Option String
  pub domain : Option String

-- The company that an account is made for, and whether the registration makes it.
pub record Membership : Type 0 where
  pub company_id : String
  pub creates_company : Bool

-- What a registration draws.
pub record Drawn : Type 0 where
  pub company_id : String
  pub invite_code : String
  pub user_id : String

abbrev pub legal_version : String
legal_version = "2026-07-29"

unfoldable pub assert_current_legal_consent : BusinessRegistration → Result (Unit {0})
assert_current_legal_consent dto =
    ensure
      (dto.terms_accepted
        && (dto.terms_version == legal_version)
        && (dto.privacy_version == legal_version))
      (bad_request "Review and accept the current Terms of Service and Privacy Policy")

abbrev pub is_over : ℕ → Option ℕ → Bool
is_over now none = false
is_over now (some t) = ltb t now

unfoldable pub join_by_invite : ℕ → String → List RegisteredCompany → Result Membership
join_by_invite now code companies =
    elim (find (λ (c : RegisteredCompany). is_text c.invite_code code) companies)
      as (λ o. Result Membership) [
        | none ↦ throw (bad_request "Invalid invite code")
        | some c ↦
            ensure c.is_active (bad_request "Invalid invite code")
            >> ensure (not (is_over now c.invite_expires_at))
                (bad_request "Invite code has expired")
            >> ok (record { company_id = c.id; creates_company = false })
      ]

unfoldable pub join_by_domain : String → List RegisteredCompany → Result Membership
join_by_domain domain companies =
    elim (find (λ (c : RegisteredCompany). is_text c.domain domain && c.is_active) companies)
      as (λ o. Result Membership) [
        | none ↦ throw (bad_request "No company found for your email domain")
        | some c ↦ ok (record { company_id = c.id; creates_company = false })
      ]

-- The company: a new one, that of an invitation, or that of the domain of the email.
unfoldable pub choose_company :
    (String → String)
    → ℕ
    → Drawn
    → String
    → BusinessRegistration
    → List RegisteredCompany
    → Result Membership
choose_company email_domain now drawn email dto companies =
    if truthy dto.company_name && not (truthy dto.invite_code) && not (truthy dto.domain)
    then ok (record { company_id = drawn.company_id; creates_company = true })
    else if truthy dto.invite_code
    then join_by_invite now (or_else dto.invite_code "") companies
    else if truthy dto.domain
    then join_by_domain (email_domain email) companies
    else throw (bad_request "Either companyName, invite code, or company domain is required")

abbrev pub new_company : ℕ → Drawn → RegisteredCompany
new_company now drawn = record {
  id = drawn.company_id;
  invite_code = some drawn.invite_code;
  invite_expires_at = some (now + 2592000000);
  domain = none;
  is_active = true;
}

-- The rows after the choice.
abbrev pub companies_after :
    ℕ → Drawn → Membership → List RegisteredCompany → List RegisteredCompany
companies_after now drawn membership companies =
    if membership.creates_company then new_company now drawn ∷ companies else companies

unfoldable pub business_account : String → String → String → Membership → Account
business_account id email password_hash membership = record {
  id = id;
  email = email;
  role = if membership.creates_company then "TENANT_ADMIN" else "CLIENT";
  user_type = "BUSINESS";
  company_id = some membership.company_id;
  is_active = true;
  auth_version = 0;
  password_hash = some password_hash;
  mfa_enabled = false;
  mfa_secret = none;
  mfa_pending_secret = none;
  mfa_recovery_codes = [];
  last_login_at = none;
  is_break_glass = false;
  email_verified = true;
  email_verification_token = none;
  email_verification_expires_at = none;
  reset_token = none;
  reset_token_expires_at = none;
}

-- The checks of a registration, in their order.
unfoldable pub admit :
    (String → String)
    → (String → String)
    → ℕ
    → Drawn
    → String
    → BusinessRegistration
    → List RegisteredCompany
    → AuthStore
    → Result Membership
admit lower email_domain now drawn email dto companies store =
    assert_password_policy dto.password dto.words
    >> assert_current_legal_consent dto
    >> ensure (is_none (account_by_email email store.accounts))
        (conflict "Email already registered")
    >> ensure (not (truthy dto.plan_name && not (lower (or_else dto.plan_name "") == "business")))
        (bad_request "Companies must choose the Business plan")
    >> choose_company email_domain now drawn email dto companies

abbrev pub with_account_of : Account → AuthStore → AuthStore
with_account_of user store = record store { accounts = user ∷ store.accounts }

-- The tables that a registration writes.
pub record Registry : Type 0 where
  pub store : AuthStore
  pub companies : List RegisteredCompany

abbrev pub with_companies :
    List RegisteredCompany → Outcome AuthStore Tokens → Outcome Registry Tokens
with_companies companies (answer, store) = (answer, record { store = store; companies = companies })

-- The writes: the company where one is made, the account, and the tokens of its first session.
unfoldable pub register_member :
    (String → String)
    → (String → String)
    → ℕ
    → SecurityPolicy
    → (ℕ → Draw)
    → Drawn
    → String
    → BusinessRegistration
    → Membership
    → Registry
    → Outcome Registry Tokens
register_member sha256 bcrypt_hash now policy draws drawn email dto membership registry =
    let user = business_account drawn.user_id email (bcrypt_hash dto.password.text) membership in
    with_companies (companies_after now drawn membership registry.companies) (
      generate_tokens sha256 now policy user no_context none draws
        (with_account_of user registry.store))

-- `registerBusiness`; `lower_trim` stands for toLowerCase and trim.
unfoldable pub register_business :
    Crypto
    → (String → String)
    → (String → String)
    → (String → String)
    → ℕ
    → SecurityPolicy
    → (ℕ → Draw)
    → Drawn
    → BusinessRegistration
    → Registry
    → Outcome Registry Tokens
register_business crypto lower email_domain bcrypt_hash now policy draws drawn dto registry =
    let email = crypto.lower_trim dto.email in
    check (admit lower email_domain now drawn email dto registry.companies registry.store) registry
    ▷ register_member crypto.sha256 bcrypt_hash now policy draws drawn email dto
