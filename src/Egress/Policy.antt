-- ===== src/Egress/Policy.antt =====
-- `EgressPolicy` of egress_policy.py: its construction and the decision on a request. Addresses and
-- networks are those of the standard library's ipaddress. Texts are read by their ASCII letters.
use taint_forge_io_t.Egress.Modes.{NetworkMode, requires_egress_policy}
use taint_forge_io_t.Prelude.{
  Bool, List, Option, Result, Text, [], any, codes, eqb, err, false, has_code, if◌then◌else◌, lower,
  negsuc, none, not, ok, pos, refuse, require, rstrip, some, strip, text_eq, text_in, true, upper,
  ℕ, ℤ, ◌&&◌, ◌>>=◌, ◌>>◌, ◌||◌, ◌∷◌,
}

pub data EgressPolicyError : Type 0 where
  bad_schema not_deny bad_mode invalid_ip blocked_ip not_global : EgressPolicyError
  no_addresses empty_host wildcard_host : EgressPolicyError

pub record DestinationRule : Type 0 where
  pub name : Text
  pub hosts : List Text
  pub ips : List Text
  pub schemes : List Text
  pub ports : List ℕ
  pub methods : List Text

pub record EgressRequest : Type 0 where
  pub host : Option Text
  pub ip : Option Text
  pub scheme : Text
  pub port : ℕ
  pub method : Text

pub data EgressReason : Type 0 where
  destination_port_blocked : EgressReason
  destination_ip_blocked : EgressPolicyError → EgressReason
  matched_allow_rule no_matching_allow_rule : EgressReason

pub record EgressDecision : Type 0 where
  pub is_allowed : Bool
  pub reason : EgressReason
  pub rule_name : Option Text

abbrev pub is_dot : ℕ → Bool
is_dot c = eqb c b'.'

unfoldable pub normalize_host : Text → Result EgressPolicyError Text
normalize_host value = do
  refuse (text_eq (rstrip is_dot (lower (strip value))) []) empty_host
  refuse (has_code b'*' (rstrip is_dot (lower (strip value)))) wildcard_host
  ok (rstrip is_dot (lower (strip value)))

abbrev pub port_in : ℕ → List ℕ → Bool
port_in p ports = any (eqb p) ports

-- `normalize_host(host) if host else None`
abbrev pub normalize_optional_host : Option Text → Result EgressPolicyError (Option Text)
normalize_optional_host none = ok none
normalize_optional_host (some []) = ok none
normalize_optional_host (some (c ∷ s)) = normalize_host (c ∷ s) >>= λ h. ok (some h)

-- `value and value in values`
abbrev pub optional_in : Option Text → List Text → Bool
optional_in none texts = false
optional_in (some []) texts = false
optional_in (some (c ∷ s)) texts = text_in (c ∷ s) texts

unfoldable pub matches_identity :
    DestinationRule → Option Text → Option Text → Result EgressPolicyError Bool
matches_identity rule host ip = do
  normalized ← normalize_optional_host host
  ok (optional_in normalized rule.hosts || optional_in ip rule.ips)

unfoldable pub matches_request : DestinationRule → EgressRequest → Result EgressPolicyError Bool
unfolding matches_identity
matches_request rule r = do
  identity ← matches_identity rule r.host r.ip
  ok (
      identity
      && text_in (lower r.scheme) rule.schemes
      && port_in r.port rule.ports
      && text_in (upper r.method) rule.methods)

-- `evaluate_request` has changed the case of the scheme and the method before it asks the rules.
abbrev pub in_case : EgressRequest → EgressRequest
in_case r = record r { scheme = lower r.scheme; method = upper r.method }

abbrev pub denied : EgressReason → EgressDecision
denied reason = record { is_allowed = false; reason = reason; rule_name = none }

abbrev pub allowed_by : Text → EgressDecision
allowed_by name = record { is_allowed = true; reason = matched_allow_rule; rule_name = some name }

-- The loop over the rules: the first that matches decides.
unfoldable pub first_match :
    List DestinationRule → EgressRequest → Result EgressPolicyError EgressDecision
first_match [] r = ok (denied no_matching_allow_rule)
first_match (rule ∷ rules) r = do
  matched ← matches_request rule r
  elim matched [ true ↦ ok (allowed_by rule.name) | false ↦ first_match rules r ]

-- The checks of `__post_init__` on the version, the default action and the mode.
unfoldable pub check_policy : ℤ → Text → NetworkMode → Result EgressPolicyError (Unit {0})
check_policy (negsuc n) default_action mode = err bad_schema
check_policy (pos n) default_action mode = do
  require (eqb n 1) bad_schema
  require (text_eq default_action (codes "deny")) not_deny
  require (requires_egress_policy mode) bad_mode

abbrev pub require_addresses : List Text → Result EgressPolicyError (List Text)
require_addresses [] = err no_addresses
require_addresses (v ∷ vs) = ok (v ∷ vs)

-- `blocks n a` is the test for the version and `address in network`.
module _ {Address Network : Type 0} (ip_address : Text → Option Address)
    (blocks : Network → Address → Bool) (is_global : Address → Bool) where
  pub record EgressPolicy : Type 0 where
    pub mode : NetworkMode
    pub rules : List DestinationRule
    pub blocked_networks : List Network
    pub blocked_ports : List ℕ
    pub block_non_global_ips : Bool

  abbrev pub validate_address : EgressPolicy → Address → Result EgressPolicyError (Unit {0})
  validate_address policy a = do
    refuse (any (λ n. blocks n a) policy.blocked_networks) blocked_ip
    refuse (policy.block_non_global_ips && not (is_global a)) not_global

  abbrev pub validate_parsed : EgressPolicy → Option Address → Result EgressPolicyError (Unit {0})
  validate_parsed policy none = err invalid_ip
  validate_parsed policy (some a) = validate_address policy a

  unfoldable pub validate_external_ip : EgressPolicy → Text → Result EgressPolicyError (Unit {0})
  validate_external_ip policy value = validate_parsed policy (ip_address value)

  abbrev pub validate_all : EgressPolicy → List Text → Result EgressPolicyError (List Text)
  validate_all policy [] = ok []
  validate_all policy (v ∷ vs) = do
    validate_external_ip policy v
    rest ← validate_all policy vs
    ok (v ∷ rest)

  unfoldable pub validate_resolved_ips :
      EgressPolicy → List Text → Result EgressPolicyError (List Text)
  validate_resolved_ips policy addresses = do
    validated ← validate_all policy addresses
    require_addresses validated

  -- The answer for a request whose address has been validated.
  abbrev pub after_ip :
      EgressPolicy
      → EgressRequest
      → Result EgressPolicyError (Unit {0})
      → Result EgressPolicyError EgressDecision
  after_ip policy r (err e) = ok (denied (destination_ip_blocked e))
  after_ip policy r (ok u) = first_match policy.rules r

  abbrev pub validate_optional_ip : EgressPolicy → Option Text → Result EgressPolicyError (Unit {0})
  validate_optional_ip policy none = ok tt
  validate_optional_ip policy (some ip) = validate_external_ip policy ip

  unfoldable pub evaluate_request :
      EgressPolicy → EgressRequest → Result EgressPolicyError EgressDecision
  evaluate_request policy r =
      if port_in r.port policy.blocked_ports
      then ok (denied destination_port_blocked)
      else after_ip policy (in_case r) (validate_optional_ip policy r.ip)
