-- ===== src/Git/Export/Pushed.antt =====
-- What a successful end of an export has done with the clone.
use accord.Base.{
  true, false, Bool, Option, none, some, Bytes, ok, ◌≡◌, ◌⊎◌, inl, inr, refl, sym, ap, ◌∙◌,
}
use accord.Dict.{Dict}
use accord.Config.{InventoryControllerConfig}
use accord.Git.Queue.{PendingExport}
use accord.Git.Message.{full_message}
use accord.Git.Export.{
  Host, ExportError, Reply, open_failed, worktree_failed, add_failed, commit_failed, push_failed,
  basic_auth, and_then, check, commit_and_push, publish,
}

module _ (H : Host) (cfg : InventoryControllerConfig) (batch : Dict PendingExport)
    (dir : Bytes) where
  -- The worktree is clean, and nothing is committed; or it is committed with the message of the batch,
  -- and pushed.
  abbrev pub IsSentOn : H.State → H.State → Type 0
  IsSentOn added sent =
      ((H.is_clean added dir ≡ some true) × (sent ≡ added))
      ⊎ ((H.is_clean added dir ≡ some false)
          × ((committed : H.State) × (H.commit added dir (full_message batch) ≡ (committed, true))
              × (H.push committed dir (basic_auth cfg) ≡ (sent, true))))

  -- All files of the clone are added, what is added is sent on, and the clone is removed then.
  pub record IsPushed (filled final : H.State) : Type 0 where
    pub added : H.State
    pub sent : H.State
    pub adds : H.add_all filled dir ≡ (added, true)
    pub sends : IsSentOn added sent
    pub removed : final ≡ H.remove_all sent dir

  then_ok :
      (step : H.State × Bool) (e : ExportError) (next : H.State → Reply H)
      → (and_then H step e next).1 ≡ ok tt
      → (step ≡ (step.0, true)) × (and_then H step e next ≡ next step.0)
  then_ok (s, true) e next h = (refl, refl)
  then_ok (s, false) e next h = cc

  check_ok :
      (b : Bool) (s : H.State) (e : ExportError) (next : Reply H)
      → (check H b s e next).1 ≡ ok tt
      → check H b s e next ≡ next
  check_ok true s e next h = refl
  check_ok false s e next h = cc

  commit_and_push-IsSentOn :
      (clean : Option Bool) (s : H.State)
      → H.is_clean s dir ≡ clean
      → (commit_and_push H cfg batch dir clean s).1 ≡ ok tt
      → IsSentOn s (commit_and_push H cfg batch dir clean s).0
  unfolding commit_and_push
  commit_and_push-IsSentOn none s e h = cc
  commit_and_push-IsSentOn (some true) s e h = inl (e, refl)
  commit_and_push-IsSentOn (some false) s e h =
      let (committed, e₁) = then_ok (H.commit s dir (full_message batch)) commit_failed _ h in
      let s₁ = (H.commit s dir (full_message batch)).0 in
      let (pushed, e₂) =
        then_ok (H.push s₁ dir (basic_auth cfg)) push_failed (λ s₂. (s₂, ok tt))
          (ap (λ r. r.1) (sym e₁) ∙ h) in
      inr (e, (s₁, committed, pushed ∙ ap (λ x. (x, true)) (sym (ap (λ r. r.0) (e₁ ∙ e₂)))))

  pub publish-IsPushed :
      (filled final : H.State)
      → (publish H cfg batch dir filled).1 ≡ ok tt
      → final ≡ H.remove_all (publish H cfg batch dir filled).0 dir
      → IsPushed filled final
  unfolding publish
  publish-IsPushed filled final h e =
      let e₁ = check_ok (H.opened filled dir) filled open_failed _ h in
      let e₂ =
        check_ok (H.has_worktree filled dir) filled worktree_failed _
          (ap (λ r. r.1) (sym e₁) ∙ h) in
      let (adds, e₃) =
        then_ok (H.add_all filled dir) add_failed
          (λ s₁. commit_and_push H cfg batch dir (H.is_clean s₁ dir) s₁)
          (ap (λ r. r.1) (sym (e₁ ∙ e₂)) ∙ h) in
      let s₁ = (H.add_all filled dir).0 in
      let same = e₁ ∙ e₂ ∙ e₃ in
      record {
        added = s₁;
        sent = (commit_and_push H cfg batch dir (H.is_clean s₁ dir) s₁).0;
        adds = adds;
        sends = commit_and_push-IsSentOn (H.is_clean s₁ dir) s₁ refl (ap (λ r. r.1) (sym same) ∙ h);
        removed = e ∙ ap (λ r. H.remove_all r.0 dir) same;
      }
