-- ===== src/Access/Policies.antt =====
-- The contextual policies of PermissionsGuard (src/common/guards/permissions.guard.ts). Conditions are
-- given parsed, texts in lower case (a country in upper case), an address with its parts as numbers.
use Prim.Native.String.{◌++◌ as append}
use fieldserviceit_backend.Base.{
  ℕ, ◌+◌, ◌-◌, ◌*◌, ◌%◌, ◌^◌, bit_and, String, Bool, true, false, not, ◌&&◌, ◌||◌, Option, none,
  some, List, [], ◌∷◌, ◌==◌, if◌then◌else◌, ltb, leb, nat_eq, is_text, any, includes, select,
  Result, ok, throw, forbidden,
}

pub record Address : Type 0 where
  pub text : String
  pub octets : List ℕ

-- A rule of a list of addresses: one address, or a network and the length of its prefix.
pub data AddressRule : Type 0 where
  exact : String → AddressRule
  cidr : List ℕ → ℕ → AddressRule

-- What a policy asks; `none` where it asks nothing of that kind.
pub record Conditions : Type 0 where
  pub ip_addresses : Option (List AddressRule)
  pub countries : Option (List String)
  pub department : Option String
  pub location : Option String
  pub trusted_device : Bool
  pub require_mfa : Bool
  pub require_phishing_resistant : Bool
  pub utc_hours : Option (ℕ × ℕ)

-- A row of ContextualAccessPolicy whose target is a permission.
pub record Policy : Type 0 where
  pub name : String
  pub is_active : Bool
  pub target_value : String
  pub company_id : Option String
  pub denies : Bool
  pub conditions : Conditions

-- What the sender's row and the request say; `hour` is the hour of the day in UTC.
pub record Sender : Type 0 where
  pub department : String
  pub location : String

pub record RequestContext : Type 0 where
  pub ip : Address
  pub country : String
  pub assurance : String
  pub device_trust : String
  pub hour : ℕ

-- `(result << 8) + octet` and `>>> 0`, on 32 bits.
unfoldable pub to_number : ℕ → List ℕ → ℕ
to_number result [] = result % 4294967296
to_number result (octet ∷ octets) = to_number ((result * 256) % 4294967296 + octet) octets

-- `(0xffffffff << (32 - prefix)) >>> 0`.
unfoldable pub mask : ℕ → ℕ
mask prefix = if nat_eq prefix 0 then 0 else (4294967295 * 2 ^ (32 - prefix)) % 4294967296

unfoldable pub ip_matches : Address → AddressRule → Bool
ip_matches ip (exact text) = ip.text == text
ip_matches ip (cidr network prefix) =
    if ltb 32 prefix
    then false
    else nat_eq (bit_and (to_number 0 ip.octets) (mask prefix))
        (bit_and (to_number 0 network) (mask prefix))

abbrev pub asked {ℓ} : {A : Type ℓ} → (A → Bool) → Option A → Bool
asked test none = true
asked test (some a) = test a

abbrev pub within : ℕ → ℕ × ℕ → Bool
within hour (start, end) = leb start hour && ltb hour end

-- `if (value && ...)`: an empty text asks nothing.
abbrev pub is_asked_text : String → String → Bool
is_asked_text own s = (s == "") || (own == s)

unfoldable pub context_matches : Conditions → Sender → RequestContext → Bool
context_matches conditions sender context =
    asked (λ rules. any (ip_matches context.ip) rules) conditions.ip_addresses
    && asked (λ countries. includes countries context.country) conditions.countries
    && asked (is_asked_text sender.department) conditions.department
    && asked (is_asked_text sender.location) conditions.location
    && not (conditions.trusted_device && not (context.device_trust == "trusted"))
    && not (
        conditions.require_mfa
        && not (includes ("mfa" ∷ "phishing-resistant" ∷ []) context.assurance))
    && not
        (conditions.require_phishing_resistant && not (context.assurance == "phishing-resistant"))
    && asked (within context.hour) conditions.utc_hours

unfoldable pub is_denied : Sender → RequestContext → Policy → Bool
is_denied sender context policy =
    let matches = context_matches policy.conditions sender context in
    if policy.denies then matches else not matches

abbrev pub same_owner : Option String → Option String → Bool
same_owner own none = true
same_owner own (some company_id) = is_text own company_id

unfoldable pub applies : List String → Option String → Policy → Bool
applies permissions company_id policy =
    policy.is_active
    && includes permissions policy.target_value
    && same_owner company_id policy.company_id

unfoldable pub check_policies : Sender → RequestContext → List Policy → Result (Unit {0})
check_policies sender context [] = ok tt
check_policies sender context (policy ∷ policies) =
    let rest = check_policies sender context policies in
    if is_denied sender context policy
    then throw (forbidden (append "Access blocked by contextual policy: " policy.name))
    else rest

unfoldable pub enforce_contextual_policies :
    List String → Option String → Sender → RequestContext → List Policy → Result (Unit {0})
enforce_contextual_policies permissions company_id sender context policies =
    check_policies sender context (select (applies permissions company_id) policies)
