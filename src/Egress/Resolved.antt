-- ===== src/Egress/Resolved.antt =====
-- Which resolved addresses of a host a policy lets through.
use taint_forge_io_t.Egress.Decision.{Admitted, validate_external_ip_iff}
use taint_forge_io_t.Egress.Policy.{
  EgressPolicy, require_addresses, validate_all, validate_external_ip, validate_resolved_ips,
}
use taint_forge_io_t.Prelude.{
  All, Bool, List, Option, Text, [], arith, bind-eq-ok, ok, ok-inj, refl, sym, ◌↔◌, ◌∷◌, ◌≡◌, ◌≢◌,
}

require_addresses-ok : (vs ws : List Text) → require_addresses vs ≡ ok ws → (ws ≡ vs) × (vs ≢ [])
require_addresses-ok [] ws h = cc
require_addresses-ok (v ∷ vs) ws h = (sym (ok-inj h), ground arith)

require_addresses-nonempty : (vs : List Text) → vs ≢ [] → require_addresses vs ≡ ok vs
require_addresses-nonempty [] h = elim (h refl) [ ]
require_addresses-nonempty (v ∷ vs) h = refl

module _ {Address Network : Type 0} (ip_address : Text → Option Address)
    (blocks : Network → Address → Bool) (is_global : Address → Bool)
    (policy : EgressPolicy ip_address blocks is_global) where
  abbrev pub AllAdmitted : List Text → Type 0
  AllAdmitted vs = All (Admitted ip_address blocks is_global policy) vs

  validate_all-AllAdmitted :
      (vs ws : List Text)
      → validate_all ip_address blocks is_global policy vs ≡ ok ws
      → (ws ≡ vs) × AllAdmitted vs
  validate_all-AllAdmitted [] ws h = (sym (ok-inj h), tt)
  validate_all-AllAdmitted (v ∷ vs) ws h =
      let (u, e, h1) = bind-eq-ok (validate_external_ip ip_address blocks is_global policy v) _ h in
      let (rest, e2, h2) = bind-eq-ok (validate_all ip_address blocks is_global policy vs) _ h1 in
      let (same, admitted_rest) = validate_all-AllAdmitted vs rest e2 in
      (
        cc (ok-inj h2),
        ((validate_external_ip_iff ip_address blocks is_global policy v).0 e, admitted_rest),
      )

  AllAdmitted-validate_all :
      (vs : List Text) → AllAdmitted vs → validate_all ip_address blocks is_global policy vs ≡ ok vs
  AllAdmitted-validate_all [] h = refl
  AllAdmitted-validate_all (v ∷ vs) h =
      rw
        (
          (validate_external_ip_iff ip_address blocks is_global policy v).1 h.0,
          AllAdmitted-validate_all vs h.1,
        )
        refl

  -- The resolved addresses of a host are accepted, and then returned as they are, exactly when there
  -- is one and each of them is admitted.
  pub validate_resolved_ips_iff :
      (vs ws : List Text)
      → (validate_resolved_ips ip_address blocks is_global policy vs ≡ ok ws)
        ↔ ((ws ≡ vs) × (vs ≢ []) × AllAdmitted vs)
  unfolding validate_resolved_ips
  validate_resolved_ips_iff vs ws = (
    λ h.
        let (validated, e, k) =
          bind-eq-ok (validate_all ip_address blocks is_global policy vs) _ h in
        let (same, admitted) = validate_all-AllAdmitted vs validated e in
        let (back, some_left) = require_addresses-ok validated ws k in
        (cc, λ empty. some_left (cc), admitted),
    λ p. rw (p.0, AllAdmitted-validate_all vs p.2) (require_addresses-nonempty vs p.1),
  )
