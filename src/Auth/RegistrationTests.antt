-- ===== src/Auth/RegistrationTests.antt =====
-- A registration by the domain of an email on the tables of Auth/Tests.
use fieldserviceit_backend.Base.{◌+◌, String, ◌≡◌, ◌⊎◌, refl, true, false, none, some, [], ◌∷◌}
use fieldserviceit_backend.Auth.Sessions.{hash_credential}
use fieldserviceit_backend.Auth.Tokens.{
  Tokens, granted, create_session, write_session, issue_tokens, attempt_tokens, retry, token_loop,
  generate_tokens,
}
use fieldserviceit_backend.Auth.Passwords.{password_policy_error, assert_password_policy}
use fieldserviceit_backend.Auth.Registration.{
  RegisteredCompany, BusinessRegistration, Drawn, Registry, business_account, join_by_domain,
  choose_company, assert_current_legal_consent, admit, register_member, register_business,
}
use fieldserviceit_backend.Auth.Membership.{Joins, register_business-Joins}
use fieldserviceit_backend.Auth.Tests.{crypto, policy, store, fresh_draws}

abbrev drawn : Drawn
drawn = record { company_id = "c9"; invite_code = "ABCD"; user_id = "eve" }

abbrev acme : RegisteredCompany
acme = record {
  id = "c1";
  invite_code = none;
  invite_expires_at = none;
  domain = some "acme.test";
  is_active = true;
}

abbrev eve : BusinessRegistration
eve = record {
  email = "boss@acme.test";
  password = record {
    text = "a longer password";
    length = 17;
    normalized = "a longer password";
    holds = λ s. false;
  };
  words = [];
  terms_accepted = true;
  terms_version = "2026-07-29";
  privacy_version = "2026-07-29";
  plan_name = none;
  company_name = none;
  invite_code = none;
  domain = some "acme.test";
}

abbrev email_domain : String → String
email_domain email = "acme.test"

abbrev same_text : String → String
same_text s = s

abbrev registry : Registry
registry = record { store = store; companies = acme ∷ [] }

abbrev tokens : Tokens
tokens =
    granted
      (business_account "eve" "boss@acme.test" "a longer password"
        (record { company_id = "c1"; creates_company = false }))
      (fresh_draws 0) "s3"

abbrev registry' : Registry
registry' =
    (register_business crypto same_text email_domain same_text 5000 policy fresh_draws drawn eve
      registry).1

register_business-Joins_example :
    ((tokens.access.role ≡ "TENANT_ADMIN")
      × (tokens.access.company_id ≡ some "c9")
      × (registry'.companies ≡ (
          record {
            id = "c9";
            invite_code = some "ABCD";
            invite_expires_at = some (5000 + 2592000000);
            domain = none;
            is_active = true;
          }
          ∷ acme
          ∷ [])))
    ⊎ ((tokens.access.role ≡ "CLIENT")
        × (registry'.companies ≡ (acme ∷ []))
        × (company_id : String) × (tokens.access.company_id ≡ some company_id)
        × Joins 5000 "" "acme.test" (acme ∷ []) company_id)
unfolding register_business admit assert_password_policy password_policy_error
    assert_current_legal_consent choose_company join_by_domain register_member business_account
    generate_tokens token_loop retry attempt_tokens write_session create_session issue_tokens
    hash_credential
register_business-Joins_example =
    register_business-Joins crypto same_text email_domain same_text 5000 policy fresh_draws drawn
      eve registry registry' tokens refl
