-- ===== src/Attempt/Store.antt =====
-- `AttemptStore` of attempt.py. A directory is what the program can tell of it: the state of the
-- store's own path, and for each attempt the state of its directory and of the two files in it.
pub mod Append
use taint_forge_io_t.Attempt.Records.{
  AttemptContract, AttemptError, AttemptResult, bad_artifact, bad_directory, bad_store,
  bad_store_id, contract_immutable, digest_mismatch, empty_oracle_reason, id_mismatch, no_result,
  result_immutable, stage_mismatch, symlink_artifact, unreadable_artifact,
}
use taint_forge_io_t.Attempt.Stages.{same_stage}
use taint_forge_io_t.Prelude.{
  Bool, List, Option, Result, String, [], codes, err, false, if◌then◌else◌, is_attempt_id, none, ok,
  refuse, require, some, ◌==◌, ◌>>=◌, ◌>>◌, ◌∷◌,
}

-- What stands at a path where a JSON file is expected. `stored a` is a regular file from which
-- `load` reads `a`; `unreadable` one that it refuses; `not_a_file` is a directory or a device.
pub data Slot (A : Type 0) : Type 0 where
  absent symlink not_a_file unreadable : Slot A
  stored : A → Slot A

pub data AttemptDirectory : Type 0 where
  invalid : AttemptDirectory
  directory : Slot AttemptContract → Slot AttemptResult → AttemptDirectory

pub data AttemptStore : Type 0 where
  missing not_directory : AttemptStore
  present : List (String × AttemptDirectory) → AttemptStore

abbrev pub find : String → List (String × AttemptDirectory) → Option AttemptDirectory
find k [] = none
find k ((j, d) ∷ m) = if j == k then some d else find k m

-- Replaces the entry of `k`, or adds one at the end.
abbrev pub put :
    String → AttemptDirectory → List (String × AttemptDirectory) → List (String × AttemptDirectory)
put k d [] = (k, d) ∷ []
put k d ((j, e) ∷ m) = if j == k then (j, d) ∷ m else (j, e) ∷ put k d m

abbrev pub validate_attempt_id : String → Result AttemptError (Unit {0})
validate_attempt_id attempt_id = require (is_attempt_id (codes attempt_id)) bad_store_id

-- `mkdir(exist_ok=True)` on the attempt's directory and the test behind it.
abbrev pub made_directory :
    Option AttemptDirectory → Result AttemptError (Slot AttemptContract × Slot AttemptResult)
made_directory none = ok (absent, absent)
made_directory (some (directory c r)) = ok (c, r)
made_directory (some invalid) = err bad_directory

-- `mkdir(parents=True, exist_ok=True)` on the store and the test behind it.
abbrev pub made_store : AttemptStore → Result AttemptError (List (String × AttemptDirectory))
made_store missing = ok []
made_store not_directory = err bad_store
made_store (present m) = ok m

-- The attempt's directory, present after the call.
prepare_attempt_directory :
    String
    → AttemptStore
    → Result AttemptError
        (List (String × AttemptDirectory) × Slot AttemptContract × Slot AttemptResult)
prepare_attempt_directory attempt_id store = do
  _ ← validate_attempt_id attempt_id
  m ← made_store store
  files ← made_directory (find attempt_id m)
  ok (m, files.0, files.1)

abbrev pub store_entries : AttemptStore → Result AttemptError (List (String × AttemptDirectory))
store_entries (present m) = ok m
store_entries _ = err bad_store

abbrev pub directory_files :
    Option AttemptDirectory → Result AttemptError (Slot AttemptContract × Slot AttemptResult)
directory_files (some (directory c r)) = ok (c, r)
directory_files _ = err bad_directory

-- `path.is_symlink() or not path.is_file()`, then `load`.
abbrev pub read_slot : {A : Type 0} → Slot A → Result AttemptError A
read_slot (stored a) = ok a
read_slot unreadable = err unreadable_artifact
read_slot _ = err bad_artifact

abbrev pub is_empty_reason : Option String → Bool
is_empty_reason none = false
is_empty_reason (some reason) = reason == ""

-- `AttemptResult.load`: `from_dict` refuses an empty reason of the oracle, which `to_dict` writes.
abbrev pub read_result : Slot AttemptResult → Result AttemptError AttemptResult
read_result slot = do
  result ← read_slot slot
  refuse (is_empty_reason result.progress.oracle_reason) empty_oracle_reason
  ok result

-- The checks of `_validated_artifact_path` up to the directory.
attempt_files :
    String → AttemptStore → Result AttemptError (Slot AttemptContract × Slot AttemptResult)
attempt_files attempt_id store = do
  _ ← validate_attempt_id attempt_id
  m ← store_entries store
  directory_files (find attempt_id m)

unfoldable pub load_contract : String → AttemptStore → Result AttemptError AttemptContract
unfolding attempt_files
load_contract attempt_id store = do files ← attempt_files attempt_id store; read_slot files.0

-- `contract_sha256` and `result_sha256` are digests of canonical JSON.
module _ (contract_sha256 : AttemptContract → String) (result_sha256 : AttemptResult → String) where
  unfoldable pub validate_result_link :
      AttemptContract → AttemptResult → Result AttemptError (Unit {0})
  validate_result_link contract result = do
    require (result.attempt_id == contract.attempt_id) id_mismatch
    require (result.contract_sha256 == contract_sha256 contract) digest_mismatch
    require (same_stage result.initial_stage contract.initial_stage) stage_mismatch

  -- An existing contract is kept, whether the call succeeds or raises.
  abbrev pub add_contract :
      AttemptContract
      → List (String × AttemptDirectory)
      → Slot AttemptResult
      → Slot AttemptContract
      → Result AttemptError AttemptStore
  add_contract contract m r symlink = err symlink_artifact
  add_contract contract m r not_a_file = err unreadable_artifact
  add_contract contract m r unreadable = err unreadable_artifact
  add_contract contract m r absent =
      ok (present (put contract.attempt_id (directory (stored contract) r) m))
  add_contract contract m r (stored existing) = do
    require (contract_sha256 existing == contract_sha256 contract) contract_immutable
    ok (present (put contract.attempt_id (directory (stored existing) r) m))

  unfoldable pub save_contract : AttemptContract → AttemptStore → Result AttemptError AttemptStore
  unfolding prepare_attempt_directory
  save_contract contract store = do
    prepared ← prepare_attempt_directory contract.attempt_id store
    add_contract contract prepared.0 prepared.2 prepared.1

  abbrev pub add_result :
      AttemptResult
      → List (String × AttemptDirectory)
      → Slot AttemptContract
      → Slot AttemptResult
      → Result AttemptError AttemptStore
  add_result result m c symlink = err symlink_artifact
  add_result result m c not_a_file = err unreadable_artifact
  add_result result m c unreadable = err unreadable_artifact
  add_result result m c absent =
      ok (present (put result.attempt_id (directory c (stored result)) m))
  add_result result m c (stored existing) = do
    _ ← read_result (stored existing)
    require (result_sha256 existing == result_sha256 result) result_immutable
    ok (present (put result.attempt_id (directory c (stored existing)) m))

  unfoldable pub save_result : AttemptResult → AttemptStore → Result AttemptError AttemptStore
  unfolding prepare_attempt_directory validate_result_link load_contract
  save_result result store = do
    contract ← load_contract result.attempt_id store
    _ ← validate_result_link contract result
    prepared ← prepare_attempt_directory result.attempt_id store
    add_result result prepared.0 prepared.1 prepared.2

  unfoldable pub load_result : String → AttemptStore → Result AttemptError AttemptResult
  unfolding attempt_files validate_result_link load_contract
  load_result attempt_id store = do
    files ← attempt_files attempt_id store
    result ← read_result files.1
    contract ← load_contract attempt_id store
    _ ← validate_result_link contract result
    ok result

  abbrev pub verify_slot :
      Bool
      → AttemptContract
      → Slot AttemptResult
      → Result AttemptError AttemptResult
      → Result AttemptError (AttemptContract × Option AttemptResult)
  verify_slot require_result contract symlink loaded = err symlink_artifact
  verify_slot require_result contract absent loaded = do
    refuse require_result no_result
    ok (contract, none)
  verify_slot require_result contract _ loaded = do result ← loaded; ok (contract, some result)

  unfoldable pub verify_attempt :
      String → Bool → AttemptStore → Result AttemptError (AttemptContract × Option AttemptResult)
  unfolding attempt_files load_result load_contract
  verify_attempt attempt_id require_result store = do
    contract ← load_contract attempt_id store
    files ← attempt_files attempt_id store
    verify_slot require_result contract files.1 (load_result attempt_id store)
