-- ===== src/Attempt/Store/Append.antt =====
-- `AttemptStore` of attempt.py under sequences of saves.
use taint_forge_io_t.Attempt.Records.{
  AttemptContract, AttemptError, AttemptResult, contract_immutable,
}
use taint_forge_io_t.Attempt.Store.{
  AttemptDirectory, AttemptStore, Slot, absent, add_contract, attempt_files, directory, find,
  load_contract, load_result, missing, not_a_file, not_directory, prepare_attempt_directory,
  present, put, read_result, save_contract, save_result, stored, symlink, unreadable,
  validate_result_link,
}
use taint_forge_io_t.Prelude.{
  List, Result, String, [], arith, bind-eq-ok, codes, eq_iff, eq_refl, err, if◌then◌else◌,
  is_attempt_id, ok, refl, require, some, true, ◌==◌, ◌>>=◌, ◌∷◌, ◌≡◌,
}

find-put :
    (k j : String) (d : AttemptDirectory) (m : List (String × AttemptDirectory))
    → find j (put k d m) ≡ (if k == j then some d else find j m)
find-put k j d [] = refl
find-put k j d ((i, e) ∷ m) = ground (arith, eq_iff k j, eq_iff i k, eq_iff i j, find-put k j d m)

-- A call of the store's two writing methods.
pub data Save : Type 0 where
  of_contract : AttemptContract → Save
  of_result : AttemptResult → Save

module _ (contract_sha256 : AttemptContract → String) (result_sha256 : AttemptResult → String) where
  -- A call that raises leaves the store as it was.
  abbrev keep_on_error : AttemptStore → Result AttemptError AttemptStore → AttemptStore
  keep_on_error store (ok store') = store'
  keep_on_error store (err e) = store

  abbrev pub save : AttemptStore → Save → AttemptStore
  save store (of_contract c) =
      keep_on_error store (save_contract contract_sha256 result_sha256 c store)
  save store (of_result r) = keep_on_error store (save_result contract_sha256 result_sha256 r store)

  abbrev pub save_all : AttemptStore → List Save → AttemptStore
  save_all store [] = store
  save_all store (s ∷ rest) = save_all (save store s) rest

  load_contract-save_contract :
      (j : String) (c c' : AttemptContract) (store : AttemptStore)
      → load_contract j store ≡ ok c
      → load_contract j (save store (of_contract c')) ≡ ok c
  unfolding save_contract load_contract
  load_contract-save_contract j c c' missing h = ground arith
  load_contract-save_contract j c c' not_directory h = ground arith
  load_contract-save_contract j c c' (present m) h = grind (arith, find-put, eq_iff c'.attempt_id j)

  load_contract-save_result :
      (j : String) (c : AttemptContract) (r : AttemptResult) (store : AttemptStore)
      → load_contract j store ≡ ok c
      → load_contract j (save store (of_result r)) ≡ ok c
  unfolding save_result load_contract
  load_contract-save_result j c r missing h = ground arith
  load_contract-save_result j c r not_directory h = ground arith
  load_contract-save_result j c r (present m) h = grind (arith, find-put, eq_iff r.attempt_id j)

  -- The result slot alone: the contract that `load_result` reads is kept by the lemmas above.
  stored_result : String → AttemptStore → Result AttemptError AttemptResult
  stored_result j store = do files ← attempt_files j store; read_result files.1

  stored_result-save_contract :
      (j : String) (r : AttemptResult) (c : AttemptContract) (store : AttemptStore)
      → stored_result j store ≡ ok r
      → stored_result j (save store (of_contract c)) ≡ ok r
  unfolding save_contract stored_result attempt_files
  stored_result-save_contract j r c missing h = ground arith
  stored_result-save_contract j r c not_directory h = ground arith
  stored_result-save_contract j r c (present m) h = grind (arith, find-put, eq_iff c.attempt_id j)

  stored_result-save_result :
      (j : String) (r r' : AttemptResult) (store : AttemptStore)
      → stored_result j store ≡ ok r
      → stored_result j (save store (of_result r')) ≡ ok r
  unfolding save_result stored_result attempt_files
  stored_result-save_result j r r' missing h = ground arith
  stored_result-save_result j r r' not_directory h = ground arith
  stored_result-save_result j r r' (present m) h = grind (arith, find-put, eq_iff r'.attempt_id j)

  -- `load_result` out of what the two files hold.
  abbrev linked_result :
      Result AttemptError AttemptResult
      → Result AttemptError AttemptContract
      → Result AttemptError AttemptResult
  linked_result r c = do
    result ← r
    contract ← c
    _ ← validate_result_link contract_sha256 result_sha256 contract result
    ok result

  linked_result-stored_result :
      (j : String) (store : AttemptStore)
      → load_result contract_sha256 result_sha256 j store
        ≡ linked_result (stored_result j store) (load_contract j store)
  unfolding load_result stored_result
  linked_result-stored_result j store =
      elim (attempt_files j store)
        as (λ (files : Result AttemptError (Slot AttemptContract × Slot AttemptResult)).
          (files >>= λ f. read_result f.1 >>= λ result. load_contract j store >>= λ contract.
          validate_result_link contract_sha256 result_sha256 contract result >>= λ _. ok result)
          ≡ linked_result (files >>= λ f. read_result f.1) (load_contract j store)) [
            | ok f ↦ refl
            | err e ↦ refl
          ]

  linked_result-kept :
      (a a' : Result AttemptError AttemptResult) (b b' : Result AttemptError AttemptContract)
      (r : AttemptResult)
      → ((x : AttemptResult) → a ≡ ok x → a' ≡ ok x)
      → ((x : AttemptContract) → b ≡ ok x → b' ≡ ok x)
      → linked_result a b ≡ ok r
      → linked_result a' b' ≡ ok r
  linked_result-kept (ok x) a' (ok y) b' r ka kb h = rw (ka x refl, kb y refl) h
  linked_result-kept (ok x) a' (err e) b' r ka kb h = cc
  linked_result-kept (err e) a' b b' r ka kb h = cc

  load_contract-save :
      (j : String) (s : Save) (c : AttemptContract) (store : AttemptStore)
      → load_contract j store ≡ ok c
      → load_contract j (save store s) ≡ ok c
  load_contract-save j (of_contract c') c store h = load_contract-save_contract j c c' store h
  load_contract-save j (of_result r) c store h = load_contract-save_result j c r store h

  stored_result-save :
      (j : String) (s : Save) (r : AttemptResult) (store : AttemptStore)
      → stored_result j store ≡ ok r
      → stored_result j (save store s) ≡ ok r
  stored_result-save j (of_contract c) r store h = stored_result-save_contract j r c store h
  stored_result-save j (of_result r') r store h = stored_result-save_result j r r' store h

  load_result-save :
      (j : String) (s : Save) (r : AttemptResult) (store : AttemptStore)
      → load_result contract_sha256 result_sha256 j store ≡ ok r
      → load_result contract_sha256 result_sha256 j (save store s) ≡ ok r
  load_result-save j s r store h = rw linked_result-stored_result (
      linked_result-kept (stored_result j store) (stored_result j (save store s))
        (load_contract j store) (load_contract j (save store s)) r
        (λ x. stored_result-save j s x store) (λ x. load_contract-save j s x store)
        (rw linked_result-stored_result at h))

  -- A contract that can be loaded is loaded unchanged after any further calls of the two writing
  -- methods, with whatever arguments.
  pub load_contract-save_all :
      (j : String) (saves : List Save) (store : AttemptStore) (c : AttemptContract)
      → load_contract j store ≡ ok c
      → load_contract j (save_all store saves) ≡ ok c
  load_contract-save_all j [] store c h = h
  load_contract-save_all j (s ∷ rest) store c h =
      load_contract-save_all j rest (save store s) c (load_contract-save j s c store h)

  -- A result that can be loaded is loaded unchanged after any further calls of the two writing
  -- methods, with whatever arguments.
  pub load_result-save_all :
      (j : String) (saves : List Save) (store : AttemptStore) (r : AttemptResult)
      → load_result contract_sha256 result_sha256 j store ≡ ok r
      → load_result contract_sha256 result_sha256 j (save_all store saves) ≡ ok r
  load_result-save_all j [] store r h = h
  load_result-save_all j (s ∷ rest) store r h =
      load_result-save_all j rest (save store s) r (load_result-save j s r store h)

  load_contract-put :
      (c : AttemptContract) (k : String) (m : List (String × AttemptDirectory))
      (r : Slot AttemptResult)
      → is_attempt_id (codes k) ≡ true
      → load_contract k (present (put k (directory (stored c) r) m)) ≡ ok c
  unfolding load_contract
  load_contract-put c k m r valid =
      ground (arith, find-put k k (directory (stored c) r) m, eq_refl k)

  load_contract-add_contract :
      (c : AttemptContract) (m : List (String × AttemptDirectory)) (r : Slot AttemptResult)
      (slot : Slot AttemptContract) (store' : AttemptStore)
      → is_attempt_id (codes c.attempt_id) ≡ true
      → add_contract contract_sha256 result_sha256 c m r slot ≡ ok store'
      → (c' : AttemptContract) × (load_contract c.attempt_id store' ≡ ok c')
        × (contract_sha256 c' ≡ contract_sha256 c)
  load_contract-add_contract c m r symlink store' valid h = cc
  load_contract-add_contract c m r not_a_file store' valid h = cc
  load_contract-add_contract c m r unreadable store' valid h = cc
  load_contract-add_contract c m r absent store' valid h =
      (c, cc (load_contract-put c c.attempt_id m r valid), refl)
  load_contract-add_contract c m r (stored old) store' valid h =
      let (_, same, e) =
        bind-eq-ok (require (contract_sha256 old == contract_sha256 c) contract_immutable)
          (λ _. ok (present (put c.attempt_id (directory (stored old) r) m))) h in
      (
        old,
        cc (load_contract-put old c.attempt_id m r valid),
        ground (arith, eq_iff (contract_sha256 old) (contract_sha256 c)),
      )

  -- A contract that `save_contract` accepts can be loaded, with the digest of the contract given.
  pub load_contract-save_contract_self :
      (c : AttemptContract) (store store' : AttemptStore)
      → save_contract contract_sha256 result_sha256 c store ≡ ok store'
      → (c' : AttemptContract) × (load_contract c.attempt_id store' ≡ ok c')
        × (contract_sha256 c' ≡ contract_sha256 c)
  unfolding save_contract prepare_attempt_directory
  load_contract-save_contract_self c store store' h =
      let (ready, p, e) =
        bind-eq-ok (prepare_attempt_directory c.attempt_id store)
          (λ q. add_contract contract_sha256 result_sha256 c q.0 q.2 q.1) h in
      load_contract-add_contract c ready.0 ready.2 ready.1 store' (ground arith) e
