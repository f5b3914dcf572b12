-- ===== src/Sync/Webhook/Concurrent/Progress.antt =====
-- How far each request is, however the requests interleave.
use mathlib.Core.Path.{subst}
use mathlib.Core.List.{map, map-append}
use accord.Base.{
  [], ◌∷◌, ◌++◌, List, Option, none, some, Bytes, true, contains, ◌≡◌, ◌⊎◌, inl, inr, refl, sym, ap,
  ◌∙◌, append_assoc, All, arith, All-append,
}
use accord.Sync.GitHub.{PushPaths}
use accord.Sync.Apply.{Objects, Cluster}
use accord.Sync.Webhook.{WebhookHandler, Request, WebhookResult, apply_path, delete_path}
use accord.Sync.Webhook.Access.{IsAccepted}
use accord.Sync.Webhook.Results.{path_of, apply_path-path, delete_path-path}
use accord.Sync.Webhook.Concurrent.{
  Job, new_job, turn_of, turn_delete, turn, Server, arrive, work, Serves, idle, then_turn,
}

module _ (O : Objects) (K : Cluster O) (h : WebhookHandler) where
  -- A job is one of an accepted request, and has a result for each path that is not left.
  pub record Tracks (j : Job) : Type 0 where
    pub request : Request
    pub granted : IsAccepted h request j.push
    pub along :
        map path_of j.results_so_far ++ (j.to_apply ++ j.to_delete)
        ≡ j.push.added_modified ++ j.push.removed
    pub adds_listed :
        (p : Bytes) → contains j.to_apply p ≡ true → contains j.push.added_modified p ≡ true
    pub deletes_listed :
        (p : Bytes) → contains j.to_delete p ≡ true → contains j.push.removed p ≡ true

  one_more :
      (rs : List WebhookResult) (r : WebhookResult) (p : Bytes) (paths : List Bytes)
      → r.path ≡ p
      → map path_of (rs ++ (r ∷ [])) ++ paths ≡ map path_of rs ++ (p ∷ paths)
  one_more rs r p paths e =
      ap (λ l. l ++ paths) (map-append path_of rs (r ∷ []))
      ∙ append_assoc (map path_of rs) (r.path ∷ []) paths
      ∙ ap (λ q. map path_of rs ++ (q ∷ paths)) e

  module _ (j : Job) (s : K.State) (t : Tracks j) where
    apply_turn-Tracks :
        (p : Bytes) (paths : List Bytes)
        → j.to_apply ≡ p ∷ paths
        → Tracks (record j {
          to_apply = paths;
          results_so_far =
              j.results_so_far ++ ((apply_path O K h j.push.full_name j.push.head_sha p s).0 ∷ []);
        })
    apply_turn-Tracks p paths e = record {
      request = t.request;
      granted = t.granted;
      along =
          one_more j.results_so_far _ p (paths ++ j.to_delete)
            (apply_path-path O K h j.push.full_name j.push.head_sha p s)
          ∙ ap (λ l. map path_of j.results_so_far ++ (l ++ j.to_delete)) (sym e)
          ∙ t.along;
      adds_listed = λ q m. t.adds_listed q (rw e (ground arith));
      deletes_listed = t.deletes_listed;
    }

    delete_turn-Tracks :
        (p : Bytes) (paths : List Bytes)
        → j.to_apply ≡ []
        → j.to_delete ≡ p ∷ paths
        → Tracks (record j {
          to_delete = paths;
          results_so_far = j.results_so_far ++ ((delete_path O K h p s).0 ∷ []);
        })
    delete_turn-Tracks p paths none_left e = record {
      request = t.request;
      granted = t.granted;
      along =
          ap
            (λ l.
              map path_of (j.results_so_far ++ ((delete_path O K h p s).0 ∷ [])) ++ (l ++ paths))
            none_left
          ∙ one_more j.results_so_far _ p paths (delete_path-path O K h p s)
          ∙ ap (λ l. map path_of j.results_so_far ++ l) (sym e)
          ∙ ap (λ l. map path_of j.results_so_far ++ (l ++ j.to_delete)) (sym none_left)
          ∙ t.along;
      adds_listed = t.adds_listed;
      deletes_listed = λ q m. t.deletes_listed q (rw e (ground arith));
    }

  -- What a turn is.
  abbrev pub IsTurn : Job → K.State → Job → K.State → Type 0
  IsTurn j s j' c =
      ((p : Bytes) × (paths : List Bytes) × (j.to_apply ≡ p ∷ paths)
        × (j' ≡ record j {
          to_apply = paths;
          results_so_far =
              j.results_so_far ++ ((apply_path O K h j.push.full_name j.push.head_sha p s).0 ∷ []);
        })
        × (c ≡ (apply_path O K h j.push.full_name j.push.head_sha p s).1))
      ⊎ ((p : Bytes) × (paths : List Bytes) × (j.to_apply ≡ [])
          × (j.to_delete ≡ p ∷ paths)
          × (j' ≡ record j {
            to_delete = paths;
            results_so_far = j.results_so_far ++ ((delete_path O K h p s).0 ∷ []);
          })
          × (c ≡ (delete_path O K h p s).1))

  -- A job is done, or it can take a turn.
  abbrev pub IsDone : Job → K.State → Type 0
  IsDone j s = (turn O K h j s ≡ none) × (j.to_apply ≡ []) × (j.to_delete ≡ [])

  abbrev pub CanWork : Job → K.State → Type 0
  CanWork j s = (j' : Job) × (c : K.State) × (turn O K h j s ≡ some (j', c)) × IsTurn j s j' c

  turn_by :
      (j : Job) (s : K.State) (adds dels : List Bytes)
      → j.to_apply ≡ adds
      → j.to_delete ≡ dels
      → IsDone j s ⊎ CanWork j s
  unfolding turn
  turn_by j s [] [] e f =
      inl (ap (λ l. turn_of O K h l j s) e ∙ ap (λ l. turn_delete O K h l j s) f, e, f)
  turn_by j s [] (p ∷ dels) e f = inr (
    _,
    _,
    ap (λ l. turn_of O K h l j s) e ∙ ap (λ l. turn_delete O K h l j s) f,
    inr (p, dels, e, f, refl, refl),
  )
  turn_by j s (p ∷ adds) dels e f =
      inr (_, _, ap (λ l. turn_of O K h l j s) e, inl (p, adds, e, refl, refl))

  pub turn_cases : (j : Job) (s : K.State) → IsDone j s ⊎ CanWork j s
  turn_cases j s = turn_by j s j.to_apply j.to_delete refl refl

  pub IsTurn-of_turn :
      (j j' : Job) (s c : K.State) → turn O K h j s ≡ some (j', c) → IsTurn j s j' c
  IsTurn-of_turn j j' s c e = elim (turn_cases j s) [
    | inl (over, _, _) ↦ absurd (cc (over, e))
    | inr (k, d, e', is) ↦
        let same : ◌≡◌ {A = Option (Job × K.State)} (some (k, d)) (some (j', c)) = sym e' ∙ e in
        let first : k ≡ j' = cc same in
        let second : d ≡ c = cc same in
        subst (λ x. IsTurn j s x c) first (subst (λ x. IsTurn j s k x) second is)
  ]

  pub turn-Tracks :
      (j j' : Job) (s c : K.State) → Tracks j → turn O K h j s ≡ some (j', c) → Tracks j'
  turn-Tracks j j' s c t e = elim (IsTurn-of_turn j j' s c e) [
    | inl (p, paths, left, is, _) ↦ subst Tracks (sym is) (apply_turn-Tracks j s t p paths left)
    | inr (p, paths, none_left, left, is, _) ↦
        subst Tracks (sym is) (delete_turn-Tracks j s t p paths none_left left)
  ]

  pub All-parts :
      (before after : List Job) (j : Job)
      → All Tracks (before ++ (j ∷ after))
      → All Tracks before × Tracks j × All Tracks after
  All-parts [] after j (t, ts) = (tt, t, ts)
  All-parts (b ∷ before) after j (t, ts) =
      let (bs, u, us) = All-parts before after j ts in ((t, bs), u, us)

  new_job-Tracks : (r : Request) (push : PushPaths) → IsAccepted h r push → Tracks (new_job push)
  new_job-Tracks r push a = record {
    request = r;
    granted = a;
    along = refl;
    adds_listed = λ p m. m;
    deletes_listed = λ p m. m;
  }

  pub Serves-Tracks : (c : K.State) {s : Server O K h} → Serves O K h c s → All Tracks s.jobs
  Serves-Tracks c idle = tt
  Serves-Tracks c (then_turn {s} r (arrive q push a e)) =
      subst (λ u. All Tracks u.jobs) (sym e) (new_job-Tracks q push a, Serves-Tracks c r)
  Serves-Tracks c (then_turn {s} r (work before after j j' d at took e)) =
      let (bs, t, us) =
        All-parts before after j (subst (λ l. All Tracks l) at (Serves-Tracks c r)) in
      subst (λ u. All Tracks u.jobs) (sym e)
        (All-append Tracks before (j' ∷ after) bs (turn-Tracks j j' s.cluster d t took, us))
