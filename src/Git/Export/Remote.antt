-- ===== src/Git/Export/Remote.antt =====
-- The remote repository is touched by a push only.
use accord.Base.{
  Bool, true, false, Option, none, some, [], ◌∷◌, Bytes, ok, err, ◌≡◌, refl, ◌⊎◌, inl, inr, ap,
  Option-cases,
}
use accord.Dict.{Dict}
use accord.Config.{InventoryControllerConfig}
use accord.Git.ArchivePath.{archive_relative_path}
use accord.Git.Queue.{PendingExport, write, archive}
use accord.Git.Message.{full_message}
use accord.Git.Export.{
  CloneOptions, StatAnswer, file, directory, missing, stat_failed, Host, ExportError, basic_auth,
  clone_options, join_path, dir_name, Reply, and_then, check, move_file,
  archive_inventory_file_in_clone, export_op, and_next, export_ops, archive_refused,
  commit_and_push, publish, in_clone, and_remove, export_batch,
}

-- The property outlasts every operation but the push.
pub record OutlastsLocal (H : Host) (P : H.State → Type 0) : Type 0 where
  pub mkdir_temp : (s : H.State) → P s → P (H.mkdir_temp s).0
  pub clone : (s : H.State) (o : CloneOptions) (dir : Bytes) → P s → P (H.clone s o dir).0
  pub mkdir_all : (s : H.State) (p : Bytes) → P s → P (H.mkdir_all s p).0
  pub write_file : (s : H.State) (p content : Bytes) → P s → P (H.write_file s p content).0
  pub remove : (s : H.State) (p : Bytes) → P s → P (H.remove s p)
  pub rename : (s : H.State) (src dest : Bytes) → P s → P (H.rename s src dest).0
  pub add_all : (s : H.State) (dir : Bytes) → P s → P (H.add_all s dir).0
  pub commit : (s : H.State) (dir message : Bytes) → P s → P (H.commit s dir message).0
  pub remove_all : (s : H.State) (dir : Bytes) → P s → P (H.remove_all s dir)

module _ (H : Host) (P : H.State → Type 0) (L : OutlastsLocal H P) where
  and_then-keeps :
      (step : H.State × Bool) (e : ExportError) (next : H.State → Reply H)
      → P step.0
      → ((s : H.State) → P s → P (next s).0)
      → P (and_then H step e next).0
  and_then-keeps (s, true) e next x k = k s x
  and_then-keeps (s, false) e next x k = x

  and_next-keeps :
      (r : Reply H) (next : H.State → Reply H)
      → P r.0
      → ((s : H.State) → P s → P (next s).0)
      → P (and_next H r next).0
  and_next-keeps (s, ok u) next x k = k s x
  and_next-keeps (s, err e) next x k = x

  move_file-keeps :
      (rel src dest : Bytes) (a : StatAnswer) (s : H.State)
      → P s
      → P (move_file H rel src dest a s).0
  unfolding move_file
  move_file-keeps rel src dest missing s x = x
  move_file-keeps rel src dest stat_failed s x = x
  move_file-keeps rel src dest directory s x = x
  move_file-keeps rel src dest file s x =
      and_then-keeps (H.mkdir_all s (dir_name dest)) _ _ (L.mkdir_all s (dir_name dest) x) (λ s₁ x₁.
        and_then-keeps (H.rename (H.remove s₁ dest) src dest) _ _
          (L.rename (H.remove s₁ dest) src dest (L.remove s₁ dest x₁)) (λ s₂ x₂. x₂))

  export_op-keeps :
      (dir rel : Bytes) (op : PendingExport) (s : H.State) → P s → P (export_op H dir rel op s).0
  unfolding export_op archive_inventory_file_in_clone
  export_op-keeps dir rel (write content) s x =
      and_then-keeps (H.mkdir_all s (dir_name (join_path dir rel))) _ _ (L.mkdir_all s _ x)
        (λ s₁ x₁.
          and_then-keeps (H.write_file s₁ (join_path dir rel) content) _ _
            (L.write_file s₁ (join_path dir rel) content x₁) (λ s₂ x₂. x₂))
  export_op-keeps dir rel archive s x =
      elim (archive_relative_path rel)
        as (λ r.
          P
            (elim r as (λ _. Reply H) [
              | err e ↦ (s, err (archive_refused e))
              | ok d ↦
                  move_file H rel (join_path dir rel) (join_path dir d)
                    (H.stat s (join_path dir rel)) s
            ]).0) [
              | err e ↦ x
              | ok d ↦
                  move_file-keeps rel (join_path dir rel) (join_path dir d)
                    (H.stat s (join_path dir rel)) s x
            ]

  export_ops-keeps :
      (dir : Bytes) (batch : Dict PendingExport) (s : H.State)
      → P s
      → P (export_ops H dir batch s).0
  unfolding export_ops
  export_ops-keeps dir [] s x = x
  export_ops-keeps dir ((rel, op) ∷ batch) s x =
      and_next-keeps (export_op H dir rel op s) (export_ops H dir batch)
        (export_op-keeps dir rel op s x) (export_ops-keeps dir batch)

  and_then-state :
      (step : H.State × Bool) (e : ExportError) → (and_then H step e (λ s. (s, ok tt))).0 ≡ step.0
  and_then-state (s, true) e = refl
  and_then-state (s, false) e = refl

  module _ (cfg : InventoryControllerConfig) (dir : Bytes) where
    -- The property holds of the state, or the state is that after a push from one of which it holds.
    abbrev pub Ends : H.State → Type 0
    Ends s = P s ⊎ ((s' : H.State) × P s' × (s ≡ (H.push s' dir (basic_auth cfg)).0))

    and_then-Ends :
        (step : H.State × Bool) (e : ExportError) (next : H.State → Reply H)
        → P step.0
        → ((s : H.State) → P s → Ends (next s).0)
        → Ends (and_then H step e next).0
    and_then-Ends (s, true) e next x k = k s x
    and_then-Ends (s, false) e next x k = inl x

    and_next-Ends :
        (r : Reply H) (next : H.State → Reply H)
        → P r.0
        → ((s : H.State) → P s → Ends (next s).0)
        → Ends (and_next H r next).0
    and_next-Ends (s, ok u) next x k = k s x
    and_next-Ends (s, err e) next x k = inl x

    check-Ends :
        (b : Bool) (s : H.State) (e : ExportError) (next : Reply H)
        → P s
        → Ends next.0
        → Ends (check H b s e next).0
    check-Ends true s e next x k = k
    check-Ends false s e next x k = inl x

    commit_and_push-Ends :
        (batch : Dict PendingExport) (clean : Option Bool) (s : H.State)
        → P s
        → Ends (commit_and_push H cfg batch dir clean s).0
    unfolding commit_and_push
    commit_and_push-Ends batch none s x = inl x
    commit_and_push-Ends batch (some true) s x = inl x
    commit_and_push-Ends batch (some false) s x =
        and_then-Ends (H.commit s dir (full_message batch)) _ _
          (L.commit s dir (full_message batch) x)
          (λ s₁ x₁. inr (s₁, x₁, and_then-state (H.push s₁ dir (basic_auth cfg)) _))

    publish-Ends :
        (batch : Dict PendingExport) (s : H.State) → P s → Ends (publish H cfg batch dir s).0
    unfolding publish
    publish-Ends batch s x = check-Ends (H.opened s dir) s _ _ x (
        check-Ends (H.has_worktree s dir) s _ _ x (
          and_then-Ends (H.add_all s dir) _ _ (L.add_all s dir x)
            (λ s₁ x₁. commit_and_push-Ends batch (H.is_clean s₁ dir) s₁ x₁)))

    in_clone-Ends :
        (batch : Dict PendingExport) (s : H.State) → P s → Ends (in_clone H cfg batch dir s).0
    unfolding in_clone
    in_clone-Ends batch s x =
        and_then-Ends (H.clone s (clone_options cfg) dir) _ _ (L.clone s (clone_options cfg) dir x)
          (λ s₂ x₂.
            and_next-Ends (export_ops H dir batch s₂) (publish H cfg batch dir)
              (export_ops-keeps dir batch s₂ x₂) (publish-Ends batch))

    and_remove-Ends :
        (r : Reply H)
        → Ends r.0
        → P (and_remove H dir r).0
          ⊎ ((s : H.State) × P s
              × ((and_remove H dir r).0 ≡ H.remove_all (H.push s dir (basic_auth cfg)).0 dir))
    and_remove-Ends (s, r) (inl x) = inl (L.remove_all s dir x)
    and_remove-Ends (s, r) (inr (s', x, e)) = inr (s', x, ap (λ t. H.remove_all t dir) e)

  -- An export reaches the remote repository by one push at most, which is its last act but the removal
  -- of the clone. A property that all other operations keep, such as one of the remote repository,
  -- still holds after the export, whether it succeeds or fails; or the clone was pushed from a state
  -- that has the property.
  pub export_batch-push :
      (cfg : InventoryControllerConfig) (batch : Dict PendingExport) (s : H.State)
      → P s
      → P (export_batch H cfg batch s).0
        ⊎ ((dir : Bytes) × (s' : H.State) × P s'
            × ((export_batch H cfg batch s).0
                ≡ H.remove_all (H.push s' dir (basic_auth cfg)).0 dir))
  unfolding export_batch
  export_batch-push cfg batch s x = elim (Option-cases (H.mkdir_temp s).1) [
    | inl lost ↦ inl (rw (lost, export_batch) (L.mkdir_temp s x))
    | inr (dir, made) ↦
        elim (and_remove-Ends cfg dir (in_clone H cfg batch dir (H.mkdir_temp s).0)
          (in_clone-Ends cfg dir batch (H.mkdir_temp s).0 (L.mkdir_temp s x))) [
            | inl y ↦ inl (rw (made, export_batch) y)
            | inr (s', y, e) ↦ inr (dir, s', y, rw (made, export_batch) e)
          ]
  ]
