-- ===== src/Sync/Webhook/Concurrent/Ends.antt =====
-- A request ends after as many turns as its push has paths.
use mathlib.Core.Path.{subst}
use mathlib.Core.List.{map, map-append}
use accord.Base.{
  ℕ, zero, suc, [], ◌∷◌, ◌++◌, List, length, none, some, Bytes, ◌≡◌, ◌⊎◌, inl, inr, refl, sym, ap,
  ◌∙◌, append-nil, arith, All,
}
use accord.Sync.Apply.{Objects, Cluster}
use accord.Sync.Webhook.{WebhookHandler}
use accord.Sync.Webhook.Results.{path_of, apply_path-path, delete_path-path}
use accord.Sync.Webhook.Concurrent.{Job, turn, after_turns, Server, work, Serves, then_turn}
use accord.Sync.Webhook.Concurrent.Progress.{
  Tracks, IsTurn, IsDone, turn_cases, turn-Tracks, All-parts, Serves-Tracks,
}

abbrev pub left_of : Job → List Bytes
left_of j = j.to_apply ++ j.to_delete

abbrev pub paths_of : Job → List Bytes
paths_of j = j.push.added_modified ++ j.push.removed

-- The first path that is left has its result, and is left no more.
abbrev pub Advances : Job → Job → Type 0
Advances j j' =
    (p : Bytes) × (left_of j ≡ p ∷ left_of j')
    × (map path_of j'.results_so_far ≡ map path_of j.results_so_far ++ (p ∷ []))
    × (j'.push ≡ j.push)

module _ (O : Objects) (K : Cluster O) (h : WebhookHandler) where
  IsTurn-Advances : (j j' : Job) (s c : K.State) → IsTurn O K h j s j' c → Advances j j'
  IsTurn-Advances j j' s c (inl (p, paths, e, is, _)) = subst (Advances j) (sym is) (
    p,
    ap (λ l. l ++ j.to_delete) e,
    map-append path_of j.results_so_far _
        ∙ ap (λ q. map path_of j.results_so_far ++ (q ∷ []))
            (apply_path-path O K h j.push.full_name j.push.head_sha p s),
    refl,
  )
  IsTurn-Advances j j' s c (inr (p, paths, e, f, is, _)) = subst (Advances j) (sym is) (
    p,
    ap (λ l. l ++ j.to_delete) e ∙ f ∙ ap (λ l. p ∷ (l ++ paths)) (sym e),
    map-append path_of j.results_so_far _
        ∙ ap (λ q. map path_of j.results_so_far ++ (q ∷ [])) (delete_path-path O K h p s),
    refl,
  )

  -- A job with nothing left has the results of all paths.
  all_results :
      (j : Job) → Tracks O K h j → left_of j ≡ [] → map path_of j.results_so_far ≡ paths_of j
  all_results j t e =
      sym (append-nil (map path_of j.results_so_far))
      ∙ ap (λ l. map path_of j.results_so_far ++ l) (sym e)
      ∙ t.along

  nothing_left : (j : Job) (s : K.State) → IsDone O K h j s → left_of j ≡ []
  nothing_left j s (_, e, f) = ap (λ l. l ++ j.to_delete) e ∙ f

  one_turn :
      (n : ℕ) (j j' : Job) (s d : K.State)
      → turn O K h j s ≡ some (j', d)
      → after_turns O K h (suc n) j s ≡ after_turns O K h n j' d
  unfolding after_turns
  one_turn n j j' s d e = rw (after_turns, e) refl

  -- The job `j` of a server ends, with nothing else done, after `n` turns.
  abbrev pub EndsAfter : ℕ → K.State → Server O K h → List Job → List Job → Job → Type 0
  EndsAfter n c s before after j =
      (end : Job) × (d : K.State) × (after_turns O K h n j s.cluster ≡ some (end, d))
      × Serves O K h c (record { cluster = d; jobs = before ++ (end ∷ after) })
      × (turn O K h end d ≡ none)
      × (map path_of end.results_so_far ≡ paths_of j)

  takes_turns :
      (n : ℕ) (c : K.State) (s : Server O K h) (before after : List Job) (j : Job)
      → Serves O K h c s
      → s.jobs ≡ before ++ (j ∷ after)
      → Tracks O K h j
      → length (left_of j) ≡ n
      → EndsAfter n c s before after j
  unfolding after_turns
  takes_turns zero c s before after j r at t e = elim (turn_cases O K h j s.cluster) [
    | inl over ↦ (
      j,
      s.cluster,
      refl,
      subst (λ jobs. Serves O K h c (record { cluster = s.cluster; jobs = jobs })) at r,
      over.0,
      all_results j t (nothing_left j s.cluster over),
    )
    | inr (j', d, took, is) ↦
        let (p, less, _, _) = IsTurn-Advances j j' s.cluster d is in
        absurd (omega (arith, e, ap length less))
  ]
  takes_turns (suc n) c s before after j r at t e = elim (turn_cases O K h j s.cluster) [
    | inl over ↦ absurd (omega (arith, e, ap length (nothing_left j s.cluster over)))
    | inr (j', d, took, is) ↦
        let (p, less, _, same) = IsTurn-Advances j j' s.cluster d is in
        let next : Server O K h = record { cluster = d; jobs = before ++ (j' ∷ after) } in
        let fewer : length (left_of j') ≡ n = omega (arith, e, ap length less) in
        let (end, d', ran, reached, over, all) =
          takes_turns n c next before after j' (then_turn r (work before after j j' d at took refl))
            refl (turn-Tracks O K h j j' s.cluster d t took) fewer in
        (
          end,
          d',
          one_turn n j j' s.cluster d took ∙ ran,
          reached,
          over,
          all ∙ ap (λ push. push.added_modified ++ push.removed) same,
        )
  ]

  -- However requests interleave, a request that was let in ends after one turn for each path of its
  -- push. At any time its results are those of the first paths, one for each and in order, with the paths
  -- that are left behind them. Where a path is left, its next turn gives the first of these its result
  -- and leaves the others; where none is left it takes no turn more. And as many turns more as
  -- it has paths left bring it to its end there, with the results of all paths of its push.
  pub Serves-ends :
      (c : K.State) (s : Server O K h) (before after : List Job) (j : Job)
      → Serves O K h c s
      → s.jobs ≡ before ++ (j ∷ after)
      → (map path_of j.results_so_far ++ left_of j ≡ paths_of j)
        × (((left_of j ≡ []) × (turn O K h j s.cluster ≡ none))
            ⊎ ((j' : Job) × (d : K.State) × (turn O K h j s.cluster ≡ some (j', d))
                × Advances j j'))
        × EndsAfter (length (left_of j)) c s before after j
  Serves-ends c s before after j r at =
      let (_, t, _) =
        All-parts O K h before after j
          (subst (λ l. All (Tracks O K h) l) at (Serves-Tracks O K h c r)) in
      (
        t.along,
        elim (turn_cases O K h j s.cluster) [
          | inr (j', d, took, is) ↦ inr (j', d, took, IsTurn-Advances j j' s.cluster d is)
          | inl over ↦ inl (nothing_left j s.cluster over, over.0)
        ],
        takes_turns (length (left_of j)) c s before after j r at t refl,
      )
