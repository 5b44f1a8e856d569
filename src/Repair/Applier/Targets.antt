-- ===== src/Repair/Applier/Targets.antt =====
-- The missing paths of `_prepare_directory`, and `_apply_prepared` on them.
use taint_forge_io_t.Prelude.{
  Bool, Bool-cases, List, Option, Result, Text, [], arith, bind-eq-ok, err, false, if◌then◌else◌,
  inl, inr, none, ok, ok-inj, refl, some, true, ◌++◌, ◌||◌, ◌∷◌, ◌≡◌,
}
use taint_forge_io_t.Repair.Applier.Apply.{
  Transaction, after_create, applied_result, apply_prepared, create_all, replace_result,
}
use taint_forge_io_t.Repair.Applier.Created.{AllMade, Created, Keeps, create_all-Created}
use taint_forge_io_t.Repair.Applier.Guard.{RepairApplicationError}
use taint_forge_io_t.Repair.Applier.Preflight.{
  PreparedDirectoryRepair, RepairDecisionResult, inspect, inspect_node, is_satisfied, join_path,
  path_in, paths_to_create,
}
use taint_forge_io_t.Repair.Applier.Rootfs.{
  Faults, Node, NodePath, Rootfs, directory_node, is_directory_node, lstat, path_eq_refl,
  regular_node, symlink_node,
}

pub path_in-append :
    (p : NodePath) (xs ys : List NodePath) → path_in p (xs ++ ys) ≡ (path_in p xs || path_in p ys)
path_in-append p [] ys = refl
path_in-append p (x ∷ xs) ys = ground (arith, path_in-append p xs ys)

-- The path is to be created, or is a directory already.
abbrev pub IsReady : Rootfs → NodePath → List NodePath → Type 0
IsReady fs p ps = (path_in p ps || is_directory_node (lstat p fs)) ≡ true

module _ (faults : Faults) (fs : Rootfs) where
  inspect_node-ok :
      (o : Option Node) (is_missing : Bool)
      → inspect_node o ≡ ok is_missing
      → (is_missing || is_directory_node o) ≡ true
  inspect_node-ok none is_missing h = ground arith
  inspect_node-ok (some (directory_node m)) is_missing h = ground arith
  inspect_node-ok (some symlink_node) is_missing h = ground arith
  inspect_node-ok (some regular_node) is_missing h = ground arith

  inspect-ok :
      (virtually_created : List NodePath) (p : NodePath) (is_missing : Bool)
      → inspect faults fs virtually_created p ≡ ok is_missing
      → (is_missing || path_in p virtually_created || is_directory_node (lstat p fs)) ≡ true
  unfolding inspect
  inspect-ok virtually_created p is_missing h =
      ground (arith, inspect_node-ok (lstat p fs) is_missing)

  IsReady-head :
      (p q : NodePath) (rest known : List NodePath)
      → IsReady fs q (rest ++ (p ∷ known))
      → IsReady fs q ((p ∷ rest) ++ known)
  IsReady-head p q rest known h =
      ground (arith, path_in-append q rest (p ∷ known), path_in-append q rest known)

  -- One component: `known` are the paths that earlier steps create, and `p` is new or known.
  IsReady-step :
      (virtually_created known : List NodePath) (p target : NodePath) (is_missing : Bool)
      (rest : List NodePath)
      → ((q : NodePath) → path_in q virtually_created ≡ true → path_in q known ≡ true)
      → (is_missing || path_in p virtually_created || is_directory_node (lstat p fs)) ≡ true
      → ((known' : List NodePath)
          → ((q : NodePath) → path_in q virtually_created ≡ true → path_in q known' ≡ true)
          → IsReady fs p known'
          → IsReady fs target (rest ++ known'))
      → IsReady fs target ((if is_missing then p ∷ rest else rest) ++ known)
  IsReady-step virtually_created known p target true rest within found later =
      IsReady-head p target rest known
        (later (p ∷ known) (λ q h. ground (arith, within q h)) (ground (arith, path_eq_refl p)))
  IsReady-step virtually_created known p target false rest within found later =
      later known within (ground (arith, within p))

  pub paths_to_create-IsReady :
      (virtually_created known : List NodePath) (current : NodePath) (cs : List Text)
      (ps : List NodePath)
      → ((q : NodePath) → path_in q virtually_created ≡ true → path_in q known ≡ true)
      → IsReady fs current known
      → paths_to_create faults fs virtually_created current cs ≡ ok ps
      → IsReady fs (join_path current cs) (ps ++ known)
  unfolding paths_to_create
  paths_to_create-IsReady virtually_created known current [] ps within ready h =
      rw (← ok-inj h) ready
  paths_to_create-IsReady virtually_created known current (c ∷ cs) ps within ready h =
      let (is_missing, e, h') =
        bind-eq-ok (inspect faults fs virtually_created (c ∷ current)) _ h in
      let (rest, e', h'') =
        bind-eq-ok (paths_to_create faults fs virtually_created (c ∷ current) cs) _ h' in
      rw (← ok-inj h'') (
        IsReady-step virtually_created known (c ∷ current) (join_path (c ∷ current) cs) is_missing
          rest within (inspect-ok virtually_created (c ∷ current) is_missing e)
          (λ known' within' ready'.
            paths_to_create-IsReady virtually_created known' (c ∷ current) cs rest within' ready'
              e'))

abbrev pub all_paths : List PreparedDirectoryRepair → List NodePath
all_paths [] = []
all_paths (r ∷ rs) = r.create_paths ++ all_paths rs

module _ (faults : Faults) where
  split-AllMade :
      (xs ys : List NodePath) (t : Transaction)
      → AllMade faults xs t
      → AllMade faults ys t
      → AllMade faults (xs ++ ys) t
  split-AllMade xs ys t hx hy q h = elim (Bool-cases (path_in q xs)) [
    | inl e ↦ hx q e
    | inr e ↦ hy q (ground (arith, path_in-append q xs ys))
  ]

  satisfied-AllMade :
      (ps : List NodePath) (t : Transaction) → is_satisfied ps ≡ true → AllMade faults ps t
  satisfied-AllMade [] t h q k = ground arith
  satisfied-AllMade (p ∷ ps) t h q k = ground arith

  unfoldable pub AppliedAll :
      List PreparedDirectoryRepair
      → Transaction
      → Result RepairApplicationError (List RepairDecisionResult) × Transaction
      → Type 0
  AppliedAll rs t s =
      (results : List RepairDecisionResult)
      → s.0 ≡ ok results
      → Keeps faults t s.1 × AllMade faults (all_paths rs) s.1

  after_create-Created :
      (r : PreparedDirectoryRepair) (rs : List PreparedDirectoryRepair)
      (results : List RepairDecisionResult) (t : Transaction)
      (go : List RepairDecisionResult
        → Transaction
        → Result RepairApplicationError (List RepairDecisionResult) × Transaction)
      (s : Result RepairApplicationError (List NodePath) × Transaction)
      → ((results' : List RepairDecisionResult) (t' : Transaction)
          → AppliedAll rs t' (go results' t'))
      → Created faults r.create_paths t s
      → AppliedAll (r ∷ rs) t (after_create r results go s)
  unfolding AppliedAll
  after_create-Created r rs results t go (ok ps, t') rest made_now done h =
      let (keeps, all_made) = made_now ps refl in
      let (keeps', all_made') = rest _ t' done h in
      (
        record { keeps = λ q k. keeps'.keeps q (keeps.keeps q k) },
        split-AllMade r.create_paths (all_paths rs)
            (go (replace_result (applied_result r ps) results) t').1
            (λ q k. keeps'.keeps q (all_made q k)) all_made',
      )
  after_create-Created r rs results t go (err e, t') rest made_now done h = cc

  skipped-AppliedAll :
      (r : PreparedDirectoryRepair) (rs : List PreparedDirectoryRepair) (t : Transaction)
      (s : Result RepairApplicationError (List RepairDecisionResult) × Transaction)
      → is_satisfied r.create_paths ≡ true
      → AppliedAll rs t s
      → AppliedAll (r ∷ rs) t s
  unfolding AppliedAll
  skipped-AppliedAll r rs t s e rest done h =
      let (keeps, all_made) = rest done h in
      (
        keeps,
        split-AllMade r.create_paths (all_paths rs) s.1 (satisfied-AllMade r.create_paths s.1 e)
            all_made,
      )

  none-AppliedAll :
      (results : List RepairDecisionResult) (t : Transaction) → AppliedAll [] t (ok results, t)
  unfolding AppliedAll
  none-AppliedAll results t done h = (record { keeps = λ q k. k }, λ q k. ground arith)

  pub apply_prepared-AppliedAll :
      (rs : List PreparedDirectoryRepair) (results : List RepairDecisionResult) (t : Transaction)
      → AppliedAll rs t (apply_prepared faults rs results t)
  unfolding apply_prepared
  apply_prepared-AppliedAll [] results t = none-AppliedAll results t
  apply_prepared-AppliedAll (r ∷ rs) results t = elim (Bool-cases (is_satisfied r.create_paths)) [
    | inl e ↦ rw e (skipped-AppliedAll r rs t _ e (apply_prepared-AppliedAll rs results t))
    | inr e ↦ rw e (
        after_create-Created r rs results t (λ results' t'. apply_prepared faults rs results' t')
          (create_all faults r.mode r.create_paths t)
          (λ results' t'. apply_prepared-AppliedAll rs results' t')
          (create_all-Created faults r.mode r.create_paths t))
  ]
