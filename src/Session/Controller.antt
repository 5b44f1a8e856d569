-- ===== src/Session/Controller.antt =====
-- The state of the controller, and the checks that its calls make. Time, digests and the building
-- of the repaired snapshot are parameters of the calls.
use taint_forge_io_t.Attempt.Records.{AttemptContract, AttemptError, int_is}
use taint_forge_io_t.Attempt.Stages.{AttemptOutcome, repair_required}
use taint_forge_io_t.Attempt.Store.{AttemptStore, Slot, absent, stored}
use taint_forge_io_t.Prelude.{
  Bool, Fields, Json, List, Option, Result, String, [], as_int, eqb, err, false, get, get_elem?,
  if◌then◌else◌, none, object, ok, require, some, string, true, ℕ, ◌&&◌, ◌++◌, ◌-◌, ◌==◌, ◌>>=◌,
  ◌>>◌, ◌∷◌,
}
use taint_forge_io_t.Session.Records.{
  IterationRecord, SessionError, SessionManifest, bad_claim, claim_mismatch, claim_not_ready,
  contract_mismatch, manifest_immutable, no_manifest, parent_mismatch,
}

pub record EnvironmentManifest : Type 0 where
  pub manifest_id : String
  pub manifest_version : ℕ
  pub rootfs_snapshot_id : String
  pub sample_sha256 : String
  pub parent_version : Option ℕ
  pub parent_manifest_id : Option String

-- The manifest of the session, the environment manifests by version, the attempts, and the
-- iterations whose directory holds `artifacts`.
pub record Session : Type 0 where
  pub manifest : SessionManifest
  pub environments : List EnvironmentManifest
  pub attempts : AttemptStore
  pub artifacts : List ℕ

abbrev pub of_attempt : {A : Type 0} → SessionError → Result AttemptError A → Result SessionError A
of_attempt e (ok a) = ok a
of_attempt e (err e') = err e

abbrev pub some_or : {A : Type 0} → SessionError → Option A → Result SessionError A
some_or e (some a) = ok a
some_or e none = err e

abbrev pub is_parent : EnvironmentManifest → EnvironmentManifest → Bool
is_parent parent child =
    child.sample_sha256 == parent.sample_sha256
    && elim child.parent_version [ none ↦ false | some v ↦ eqb v parent.manifest_version ]
    && elim child.parent_manifest_id [ none ↦ false | some i ↦ i == parent.manifest_id ]

-- `EnvironmentManifestStore.save` on a store of the versions from 0 on.
unfoldable pub save_environment :
    List EnvironmentManifest → EnvironmentManifest → Result SessionError (List EnvironmentManifest)
save_environment stored_manifests m = elim (get_elem? stored_manifests m.manifest_version) [
  | some existing ↦ do
    require (existing.manifest_id == m.manifest_id) manifest_immutable
    ok stored_manifests
  | none ↦ if eqb m.manifest_version 0 then ok (stored_manifests ++ (m ∷ [])) else do
    parent ← some_or no_manifest (get_elem? stored_manifests (m.manifest_version - 1))
    require (is_parent parent m) parent_mismatch
    ok (stored_manifests ++ (m ∷ []))
]

unfoldable pub validate_contract_binding :
    SessionManifest → IterationRecord → AttemptContract → Result SessionError (Unit {0})
validate_contract_binding manifest record_ contract = do
  require (contract.attempt_id == record_.attempt_id) contract_mismatch
  require (int_is contract.attempt_index record_.index) contract_mismatch
  require (contract.sample_sha256 == manifest.sample_sha256) contract_mismatch
  require (contract.packed_binary_sha256 == manifest.packed_binary_sha256) contract_mismatch
  require (contract.goal_id == manifest.goal_id) contract_mismatch
  require (contract.environment_manifest_id == record_.environment_manifest_id) contract_mismatch
  require (int_is contract.environment_manifest_version record_.environment_manifest_version)
      contract_mismatch

abbrev pub is_repair_required : AttemptOutcome → Bool
is_repair_required repair_required = true
is_repair_required _ = false

-- `raw.get(k) == s` for a text and for a number; the claims that the runner writes hold no double.
abbrev pub is_text_of : Json → String → Bool
is_text_of (string t) s = t == s
is_text_of _ s = false

abbrev pub is_number_of : Json → ℕ → Bool
is_number_of v n = elim (as_int v) [ none ↦ false | some z ↦ int_is z n ]

-- The fields of the claim that the runner writes before it executes an iteration.
unfoldable pub claim_fields :
    String → IterationRecord → String → Fields → Result SessionError (Unit {0})
claim_fields session_id record_ contract_sha256 raw = do
  require (is_text_of (get "session_id" raw) session_id) claim_mismatch
  require (is_number_of (get "iteration_index" raw) record_.index) claim_mismatch
  require (is_text_of (get "attempt_id" raw) record_.attempt_id) claim_mismatch
  require (is_text_of (get "stage" raw) "completing") claim_not_ready
  require (is_text_of (get "attempt_contract_sha256" raw) contract_sha256) claim_mismatch
  require (is_text_of (get "environment_manifest_id" raw) record_.environment_manifest_id)
      claim_mismatch
  require
      (is_number_of (get "environment_manifest_version" raw) record_.environment_manifest_version)
      claim_mismatch
  require (is_text_of (get "environment_snapshot_id" raw) record_.environment_snapshot_id)
      claim_mismatch

unfoldable pub validate_execution_claim :
    Slot Json → String → IterationRecord → String → Result SessionError (Unit {0})
unfolding claim_fields
validate_execution_claim absent session_id record_ digest = ok tt
validate_execution_claim (stored (object raw)) session_id record_ digest =
    claim_fields session_id record_ digest raw
validate_execution_claim _ session_id record_ digest = err bad_claim
