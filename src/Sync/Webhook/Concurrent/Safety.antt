-- ===== src/Sync/Webhook/Concurrent/Safety.antt =====
-- What holds however the requests interleave.
use mathlib.Core.Path.{subst}
use accord.Base.{some, eq_refl, ◌≡◌, inl, inr, sym, All, arith}
use accord.Sync.GitHub.{PushPaths}
use accord.Sync.Apply.{Objects, Cluster}
use accord.Sync.Webhook.{WebhookHandler, Request}
use accord.Sync.Webhook.Access.{IsAccepted}
use accord.Sync.Webhook.Effects.{
  KeptByPatches, KeptByDeletions, apply_path-keeps, delete_path-keeps,
}
use accord.Sync.Webhook.Concurrent.{Job, turn, Server, arrive, work, Serves, idle, then_turn}
use accord.Sync.Webhook.Concurrent.Progress.{Tracks, All-parts, IsTurn-of_turn, Serves-Tracks}

module _ (O : Objects) (K : Cluster O) (h : WebhookHandler) where
  module _ (P : K.State → Type 0)
      (patches : (r : Request) (push : PushPaths)
        → IsAccepted h r push
        → KeptByPatches O K h P push)
      (deletions : (r : Request) (push : PushPaths)
        → IsAccepted h r push
        → KeptByDeletions O K h P push) where
    turn-keeps :
        (j j' : Job) (s c : K.State) → Tracks O K h j → turn O K h j s ≡ some (j', c) → P s → P c
    turn-keeps j j' s c t e x =
        let kept = patches t.request j.push t.granted in
        let gone = deletions t.request j.push t.granted in
        elim (IsTurn-of_turn O K h j j' s c e) [
          | inl (p, paths, left, _, is) ↦ subst P (sym is) (
              apply_path-keeps O K h P j.push kept gone p s
                (t.adds_listed p (rw left (ground (arith, eq_refl p)))) x)
          | inr (p, paths, none_left, left, _, is) ↦ subst P (sym is) (
              delete_path-keeps O K h P j.push kept gone p s
                (t.deletes_listed p (rw left (ground (arith, eq_refl p)))) x)
        ]

    -- However requests interleave: a property of the cluster that holds before any request, and that is
    -- kept by the patches for the added or modified paths and by the deletions for the removed paths of
    -- every push that a request could be accepted as, holds at any time.
    pub Serves-keeps : (c : K.State) {s : Server O K h} → P c → Serves O K h c s → P s.cluster
    Serves-keeps c x idle = x
    Serves-keeps c x (then_turn {s} r (arrive q push a e)) =
        subst (λ u. P u.cluster) (sym e) (Serves-keeps c x r)
    Serves-keeps c x (then_turn {s} r (work before after j j' d at took e)) =
        let (_, t, _) =
          All-parts O K h before after j
            (subst (λ l. All (Tracks O K h) l) at (Serves-Tracks O K h c r)) in
        subst (λ u. P u.cluster) (sym e) (turn-keeps j j' s.cluster d t took (Serves-keeps c x r))
