-- ===== src/Egress/Decision.antt =====
-- Which requests a policy allows, and which addresses of a host it admits.
use mathlib.Core.Path.{subst}
use taint_forge_io_t.Egress.Policy.{
  DestinationRule, EgressDecision, EgressPolicy, EgressPolicyError, EgressRequest, after_ip,
  allowed_by, denied, destination_ip_blocked, destination_port_blocked, evaluate_request,
  first_match, in_case, matches_identity, matches_request, no_matching_allow_rule,
  normalize_optional_host, optional_in, port_in, validate_address, validate_external_ip,
  validate_optional_ip, validate_parsed,
}
use taint_forge_io_t.Prelude.{
  Bool, Bool-cases, List, Option, Result, Text, [], any, arith, err, false, inl, inr, lower,
  lower_idem, none, ok, refl, some, some-inj, sym, text_in, true, upper, upper_idem, ◌&&◌, ◌||◌,
  ◌↔◌, ◌∷◌, ◌≡◌, ◌⊎◌,
}

-- The request fits the rule, with the host in its normal form.
abbrev pub permits : Option Text → EgressRequest → DestinationRule → Bool
permits host r rule =
    (optional_in host rule.hosts || optional_in r.ip rule.ips)
    && text_in (lower r.scheme) rule.schemes
    && port_in r.port rule.ports
    && text_in (upper r.method) rule.methods

matches_request-permits :
    (rule : DestinationRule) (r : EgressRequest) (host : Option Text)
    → normalize_optional_host r.host ≡ ok host
    → matches_request rule (in_case r) ≡ ok (permits host r rule)
unfolding matches_request matches_identity
matches_request-permits rule r host h = rw (h, lower_idem r.scheme, upper_idem r.method) refl

-- An answer, with whether it allows.
abbrev pub Answers : Result EgressPolicyError EgressDecision → Bool → Type 0
Answers a b = (d : EgressDecision) × (a ≡ ok d) × (d.is_allowed ≡ b)

first_match-Answers :
    (rules : List DestinationRule) (r : EgressRequest) (host : Option Text)
    → normalize_optional_host r.host ≡ ok host
    → Answers (first_match rules (in_case r)) (any (permits host r) rules)
unfolding first_match
first_match-Answers [] r host h = (denied no_matching_allow_rule, refl, refl)
first_match-Answers (rule ∷ rules) r host h =
    let (d, e, b) = first_match-Answers rules r host h in
    let m = matches_request-permits rule r host h in
    elim (Bool-cases (permits host r rule)) [
      | inl fits ↦ rw (m, fits) (allowed_by rule.name, refl, refl)
      | inr misses ↦ rw (m, misses) (d, e, b)
    ]

module _ {Address Network : Type 0} (ip_address : Text → Option Address)
    (blocks : Network → Address → Bool) (is_global : Address → Bool)
    (policy : EgressPolicy ip_address blocks is_global) where
  -- The address is outside the blocked networks, and global if the policy asks for that.
  abbrev pub IsOpenAddress : Address → Type 0
  IsOpenAddress a =
      (any (λ n. blocks n a) policy.blocked_networks ≡ false)
      × ((policy.block_non_global_ips ≡ false) ⊎ (is_global a ≡ true))

  -- The text is an open address.
  abbrev pub Admitted : Text → Type 0
  Admitted value = (a : Address) × (ip_address value ≡ some a) × IsOpenAddress a

  validate_address_iff :
      (a : Address)
      → (validate_address ip_address blocks is_global policy a ≡ ok tt) ↔ IsOpenAddress a
  validate_address_iff a = ground arith

  validate_parsed_iff :
      (o : Option Address)
      → (validate_parsed ip_address blocks is_global policy o ≡ ok tt)
        ↔ ((a : Address) × (o ≡ some a) × IsOpenAddress a)
  validate_parsed_iff none = (λ h. cc, λ p. (ground arith))
  validate_parsed_iff (some a) = (
    λ h. (a, refl, (validate_address_iff a).0 h),
    λ p. (validate_address_iff a).1 (subst IsOpenAddress (sym (some-inj p.1)) p.2),
  )

  pub validate_external_ip_iff :
      (value : Text)
      → (validate_external_ip ip_address blocks is_global policy value ≡ ok tt) ↔ Admitted value
  unfolding validate_external_ip
  validate_external_ip_iff value = validate_parsed_iff (ip_address value)

  -- A request without an address, or with an admitted one.
  abbrev pub OptionalAdmitted : Option Text → Type 0
  OptionalAdmitted none = Unit
  OptionalAdmitted (some value) = Admitted value

  validate_optional_ip_iff :
      (ip : Option Text)
      → (validate_optional_ip ip_address blocks is_global policy ip ≡ ok tt) ↔ OptionalAdmitted ip
  validate_optional_ip_iff none = (λ h. tt, λ h. refl)
  validate_optional_ip_iff (some value) = validate_external_ip_iff value

  after_ip-Answers :
      (r : EgressRequest) (host : Option Text) (v : Result EgressPolicyError (Unit {0}))
      → normalize_optional_host r.host ≡ ok host
      → (d : EgressDecision) × (after_ip ip_address blocks is_global policy (in_case r) v ≡ ok d)
        × ((d.is_allowed ≡ true) ↔ ((v ≡ ok tt) × (any (permits host r) policy.rules ≡ true)))
  after_ip-Answers r host (err e) h = (denied (destination_ip_blocked e), refl, ground arith)
  after_ip-Answers r host (ok u) h =
      let (d, e, b) = first_match-Answers policy.rules r host h in
      (d, e, (λ k. (refl, ground arith), λ k. ground arith))

  -- If the request has no host or one that can be brought into its normal form, the policy answers,
  -- and it allows the request exactly when the port is not blocked, the address, if there is one, is
  -- admitted, and some rule fits the request.
  pub evaluate_request_iff :
      (r : EgressRequest) (host : Option Text)
      → normalize_optional_host r.host ≡ ok host
      → (d : EgressDecision) × (evaluate_request ip_address blocks is_global policy r ≡ ok d)
        × ((d.is_allowed ≡ true) ↔ (
            (port_in r.port policy.blocked_ports ≡ false)
            × OptionalAdmitted r.ip
            × (any (permits host r) policy.rules ≡ true)))
  unfolding evaluate_request
  evaluate_request_iff r host h =
      let v = validate_optional_ip ip_address blocks is_global policy r.ip in
      let (d, e, b) = after_ip-Answers r host v h in
      let admits = validate_optional_ip_iff r.ip in
      elim (Bool-cases (port_in r.port policy.blocked_ports)) [
        | inl blocked ↦ rw blocked (denied destination_port_blocked, refl, ground arith)
        | inr free ↦
            rw free
              (d, e, (λ k. (refl, admits.0 (b.0 k).0, (b.0 k).1), λ k. b.1 (admits.1 k.1, k.2)))
      ]
