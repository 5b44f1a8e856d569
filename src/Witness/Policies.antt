-- ===== src/Witness/Policies.antt =====
-- A policy with one rule, on addresses that stand for themselves as numbers.
use taint_forge_io_t.Egress.Decision.{OptionalAdmitted, evaluate_request_iff, permits}
use taint_forge_io_t.Egress.Modes.{brokered_fetch}
use taint_forge_io_t.Egress.Policy.{
  DestinationRule, EgressDecision, EgressPolicy, EgressRequest, evaluate_request, normalize_host,
  port_in, validate_resolved_ips,
}
use taint_forge_io_t.Egress.Resolved.{AllAdmitted, validate_resolved_ips_iff}
use taint_forge_io_t.Prelude.{
  Bool, Option, Text, [], any, codes, eqb, false, lower, ltb, none, ok, refl, rstrip, some, strip,
  true, ℕ, ◌↔◌, ◌∷◌, ◌≡◌, ◌≢◌,
}

abbrev address_of : Text → Option ℕ
address_of [] = none
address_of (c ∷ s) = some c

abbrev same_number : ℕ → ℕ → Bool
same_number n a = eqb n a

abbrev is_large : ℕ → Bool
is_large a = ltb 40 a

abbrev example_rule : DestinationRule
example_rule = record {
  name = codes "mirror";
  hosts = codes "mirror.example" ∷ [];
  ips = [];
  schemes = codes "http" ∷ [];
  ports = 80 ∷ [];
  methods = codes "GET" ∷ [];
}

abbrev policy : EgressPolicy address_of same_number is_large
policy = record {
  mode = brokered_fetch;
  rules = example_rule ∷ [];
  blocked_networks = 49 ∷ [];
  blocked_ports = 23 ∷ [];
  block_non_global_ips = true;
}

abbrev request : EgressRequest
request = record {
  host = some (codes "Mirror.Example.");
  ip = some (codes "8");
  scheme = codes "HTTP";
  port = 80;
  method = codes "get";
}

evaluate_request_iff_example :
    (d : EgressDecision) × (evaluate_request address_of same_number is_large policy request ≡ ok d)
    × ((d.is_allowed ≡ true) ↔ (
        (port_in 80 policy.blocked_ports ≡ false)
        × OptionalAdmitted address_of same_number is_large policy request.ip
        × (any (permits (some (codes "mirror.example")) request) policy.rules ≡ true)))
unfolding normalize_host lower strip rstrip
evaluate_request_iff_example =
    evaluate_request_iff address_of same_number is_large policy request
      (some (codes "mirror.example")) refl

validate_resolved_ips_iff_example :
    (validate_resolved_ips address_of same_number is_large policy (codes "8" ∷ codes "1" ∷ [])
      ≡ ok (codes "8" ∷ codes "1" ∷ []))
    ↔ (((codes "8" ∷ codes "1" ∷ []) ≡ (codes "8" ∷ codes "1" ∷ []))
        × ((codes "8" ∷ codes "1" ∷ []) ≢ [])
        × AllAdmitted address_of same_number is_large policy (codes "8" ∷ codes "1" ∷ []))
validate_resolved_ips_iff_example =
    validate_resolved_ips_iff address_of same_number is_large policy (codes "8" ∷ codes "1" ∷ [])
      (codes "8" ∷ codes "1" ∷ [])
