-- ===== src/Repair/Applier/Touched.antt =====
-- What an application of repair_applier.py that returns has changed of the rootfs.
use mathlib.Core.Path.{subst}
use taint_forge_io_t.Prelude.{
  All, Bool-cases, List, Option, Result, Text, [], err, false, inl, inr, none, not, ok, refl, some,
  sym, ℕ, ◌||◌, ◌∙◌, ◌∷◌, ◌≡◌, ◌⊎◌,
}
use taint_forge_io_t.Repair.Applier.Apply.{
  Transaction, add_path, after_create, after_make, apply_prepared, create_all, existing_error,
  stop_or,
}
use taint_forge_io_t.Repair.Applier.Guard.{RepairApplicationError}
use taint_forge_io_t.Repair.Applier.Preflight.{
  PreparedDirectoryRepair, RepairDecisionResult, is_satisfied,
}
use taint_forge_io_t.Repair.Applier.Rootfs.{
  Faults, Made, Node, NodePath, Rootfs, directory_node, exists_already, find_node,
  is_directory_node, is_present, lstat, made, make_directory, path_eq, path_eq→eq, refused,
}

-- A path is as it was, or it was absent and is a new directory that `P` admits with its mode.
abbrev pub IsTouched : (NodePath → ℕ → Type 0) → Rootfs → Rootfs → NodePath → Type 0
IsTouched P fs fs' q =
    (lstat q fs' ≡ lstat q fs)
    ⊎ ((m : ℕ) × P q m × (lstat q fs ≡ none) × (lstat q fs' ≡ some (directory_node m)))

-- The rootfs behind a call of `mkdir`.
abbrev rootfs_behind : Rootfs → Made → Rootfs
rootfs_behind fs (made fs') = fs'
rootfs_behind fs exists_already = fs
rootfs_behind fs (refused fs') = fs'

add_path-rootfs :
    (p : NodePath) (s : Result RepairApplicationError (List NodePath) × Transaction)
    → (add_path p s).1 ≡ s.1
add_path-rootfs p (ok ps, t) = refl
add_path-rootfs p (err e, t) = refl

module _ (faults : Faults) (P : NodePath → ℕ → Type 0) where
  IsTouched-trans :
      (fs fs' fs'' : Rootfs) (q : NodePath)
      → IsTouched P fs fs' q
      → IsTouched P fs' fs'' q
      → IsTouched P fs fs'' q
  IsTouched-trans fs fs' fs'' q (inl e) (inl e') = inl (e' ∙ e)
  IsTouched-trans fs fs' fs'' q (inl e) (inr (m, p, gone, there)) = inr (m, p, sym e ∙ gone, there)
  IsTouched-trans fs fs' fs'' q (inr (m, p, gone, there)) (inl e) = inr (m, p, gone, e ∙ there)
  IsTouched-trans fs fs' fs'' q (inr (m, p, gone, there)) (inr (m', p', gone', there')) = cc

  grown-IsTouched :
      (c : Text) (p q : NodePath) (mode : ℕ) (fs : Rootfs)
      → P (c ∷ p) mode
      → is_present (lstat (c ∷ p) fs) ≡ false
      → IsTouched P fs ((c ∷ p, directory_node mode) ∷ fs) q
  unfolding lstat find_node
  grown-IsTouched c p [] mode fs asked gone = inl refl
  grown-IsTouched c p (d ∷ q) mode fs asked gone = elim (Bool-cases (path_eq (d ∷ q) (c ∷ p))) [
    | inl e ↦
        let same = path_eq→eq (d ∷ q) (c ∷ p) e in
        inr (
          mode,
          subst (λ v. P v mode) (sym same) asked,
          subst (λ v. lstat v fs ≡ none) (sym same) (absent-none (lstat (c ∷ p) fs) gone),
          rw e refl,
        )
    | inr e ↦ inl (rw e refl)
  ]
    where
      absent-none : (o : Option Node) → is_present o ≡ false → o ≡ none
      absent-none none h = refl
      absent-none (some n) h = cc

  make_directory-IsTouched :
      (p q : NodePath) (mode : ℕ) (fs : Rootfs)
      → P p mode
      → IsTouched P fs (rootfs_behind fs (make_directory faults p mode fs)) q
  unfolding make_directory
  make_directory-IsTouched [] q mode fs asked = inl refl
  make_directory-IsTouched (c ∷ p) q mode fs asked =
      elim (Bool-cases (is_present (lstat (c ∷ p) fs))) [
        | inl e ↦ inl (rw e refl)
        | inr e ↦
            elim (Bool-cases (faults.mkdir_fails (c ∷ p) || not (is_directory_node (lstat p fs)))) [
              | inl e' ↦ inl (rw (e, e') refl)
              | inr e' ↦ elim (Bool-cases (faults.chmod_fails (c ∷ p))) [
                | inl e'' ↦ rw (e, e', e'') (grown-IsTouched c p q mode fs asked e)
                | inr e'' ↦ rw (e, e', e'') (grown-IsTouched c p q mode fs asked e)
              ]
            ]
      ]

  stop_or-IsTouched :
      (q : NodePath) (o : Option RepairApplicationError) (t : Transaction)
      (rest : Result RepairApplicationError (List NodePath) × Transaction)
      → IsTouched P t.rootfs rest.1.rootfs q
      → IsTouched P t.rootfs (stop_or o t rest).1.rootfs q
  stop_or-IsTouched q none t rest later = later
  stop_or-IsTouched q (some e) t rest later = inl refl

  after_make-IsTouched :
      (p q : NodePath) (t : Transaction)
      (go : Transaction → Result RepairApplicationError (List NodePath) × Transaction) (m : Made)
      → ((t' : Transaction) → IsTouched P t'.rootfs (go t').1.rootfs q)
      → IsTouched P t.rootfs (rootfs_behind t.rootfs m) q
      → IsTouched P t.rootfs (after_make p t go m).1.rootfs q
  after_make-IsTouched p q t go (made fs) later now =
      let t' : Transaction = record { rootfs = fs; created = p ∷ t.created } in
      rw (add_path-rootfs p (go t')) (IsTouched-trans t.rootfs fs (go t').1.rootfs q now (later t'))
  after_make-IsTouched p q t go exists_already later now =
      stop_or-IsTouched q (existing_error (lstat p t.rootfs)) t (go t) (later t)
  after_make-IsTouched p q t go (refused fs) later now = now

  create_all-IsTouched :
      (q : NodePath) (mode : ℕ) (ps : List NodePath) (t : Transaction)
      → All (λ p. P p mode) ps
      → IsTouched P t.rootfs (create_all faults mode ps t).1.rootfs q
  unfolding create_all
  create_all-IsTouched q mode [] t asked = inl refl
  create_all-IsTouched q mode (p ∷ ps) t asked =
      after_make-IsTouched p q t (λ t'. create_all faults mode ps t')
        (make_directory faults p mode t.rootfs) (λ t'. create_all-IsTouched q mode ps t' asked.1)
        (make_directory-IsTouched p q mode t.rootfs asked.0)

  after_create-IsTouched :
      (q : NodePath) (fs : Rootfs) (r : PreparedDirectoryRepair)
      (results : List RepairDecisionResult)
      (go : List RepairDecisionResult
        → Transaction
        → Result RepairApplicationError (List RepairDecisionResult) × Transaction)
      (s : Result RepairApplicationError (List NodePath) × Transaction)
      → ((results' : List RepairDecisionResult) (t' : Transaction)
          → IsTouched P t'.rootfs (go results' t').1.rootfs q)
      → IsTouched P fs s.1.rootfs q
      → IsTouched P fs (after_create r results go s).1.rootfs q
  after_create-IsTouched q fs r results go (ok ps, t) later now =
      IsTouched-trans fs t.rootfs _ q now (later _ t)
  after_create-IsTouched q fs r results go (err e, t) later now = now

  -- Everything that is to be created is asked for.
  abbrev pub AllAsked : List PreparedDirectoryRepair → Type 0
  AllAsked rs = All (λ (r : PreparedDirectoryRepair). All (λ p. P p r.mode) r.create_paths) rs

  pub apply_prepared-IsTouched :
      (q : NodePath) (rs : List PreparedDirectoryRepair) (results : List RepairDecisionResult)
      (t : Transaction)
      → AllAsked rs
      → IsTouched P t.rootfs (apply_prepared faults rs results t).1.rootfs q
  unfolding apply_prepared
  apply_prepared-IsTouched q [] results t asked = inl refl
  apply_prepared-IsTouched q (r ∷ rs) results t asked =
      elim (Bool-cases (is_satisfied r.create_paths)) [
        | inl e ↦ rw e (apply_prepared-IsTouched q rs results t asked.1)
        | inr e ↦ rw e (
            after_create-IsTouched q t.rootfs r results
              (λ results' t'. apply_prepared faults rs results' t')
              (create_all faults r.mode r.create_paths t)
              (λ results' t'. apply_prepared-IsTouched q rs results' t' asked.1)
              (create_all-IsTouched q r.mode r.create_paths t asked.0))
      ]
