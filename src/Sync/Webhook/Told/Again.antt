-- ===== src/Sync/Webhook/Told/Again.antt =====
-- A push that is delivered twice.
use mathlib.Core.Path.{subst}
use mathlib.Core.List.{map}
use accord.Base.{
  [], ◌∷◌, ◌++◌, List, All, Option, none, Bytes, ◌≡◌, ◌≢◌, ◌⊎◌, inl, inr, refl, sym, ap, ◌∙◌,
}
use accord.Sync.GitHub.{PushPaths}
use accord.Sync.Apply.{Objects, Cluster, Target}
use accord.Sync.Apply.Laws.{IsLawful}
use accord.Sync.Webhook.{
  WebhookHandler, Status, applied, deleted, ignored, error, WebhookResult, process_push,
}
use accord.Sync.Webhook.Told.{IsServer, IsSent, Names, Told}
use accord.Sync.Webhook.Told.Push.{Follows, process_push-Follows}
use accord.Sync.Webhook.Results.{path_of, process_push-path}

abbrev pub status_of : WebhookResult → Status
status_of r = r.status

-- To merge an object a second time changes nothing, nor does a second deletion, nor one of nothing.
pub record IsSettled {O : Objects} {K : Cluster O} (V : IsServer O K) : Type 0 where
  pub merged_again : (o : Option V.Entry) (m : O.Object) → V.merged (V.merged o m) m ≡ V.merged o m
  pub marked_again : (o : Option V.Entry) → V.marked (V.marked o) ≡ V.marked o
  pub marked_none : V.marked none ≡ none

-- The resource is named by one of the paths at most.
abbrev pub IsNamedOnce : Target → List Bytes → Type 0
IsNamedOnce t [] = Unit
IsNamedOnce t (p ∷ paths) =
    (Names p t × All (λ q. Names q t → ⊥) paths) ⊎ ((Names p t → ⊥) × IsNamedOnce t paths)

module _ (O : Objects) (K : Cluster O) (h : WebhookHandler) (L : IsLawful O) (V : IsServer O K)
    (S : IsSettled V) (push : PushPaths) (t : Target) where
  sent_alike :
      (p : Bytes) (a b : O.Object) → IsSent O K h L V push p a → IsSent O K h L V push p b → a ≡ b
  sent_alike p a b (parsed, raw, managed, fetched, good)
        (parsed', raw', managed', fetched', good') =
      cc

  deleted_again :
      (b a c : Option V.Entry)
      → (a ≡ V.marked b) ⊎ ((b ≡ none) × (a ≡ none))
      → (c ≡ V.marked a) ⊎ ((a ≡ none) × (c ≡ none))
      → c ≡ a
  deleted_again b a c (inl e) (inl f) = f ∙ ap V.marked e ∙ S.marked_again b ∙ sym e
  deleted_again b a c x (inr (e, f)) = f ∙ sym e
  deleted_again b a c (inr (e, f)) (inl g) = g ∙ ap V.marked f ∙ S.marked_none ∙ sym f

  -- The same result twice.
  Told-again :
      (st : Status) (r r' : WebhookResult) (b a c : Option V.Entry)
      → r.status ≡ st
      → r'.status ≡ st
      → st ≢ error
      → r'.path ≡ r.path
      → Names r.path t
      → Told O K h L V push t r b a
      → Told O K h L V push t r' a c
      → c ≡ a
  Told-again applied r r' b a c e e' ne same named x y =
      let (one, from, is) = x.when_applied e named in
      let (two, from', is') = y.when_applied e' (subst (λ p. Names p t) (sym same) named) in
      let alike : two ≡ one =
        sent_alike r.path two one (subst (λ p. IsSent O K h L V push p two) same from') from in
      is' ∙ ap (V.merged a) alike ∙ ap (λ o. V.merged o one) is ∙ S.merged_again b one ∙ sym is
  Told-again deleted r r' b a c e e' ne same named x y =
      deleted_again b a c (x.when_deleted e named)
        (y.when_deleted e' (subst (λ p. Names p t) (sym same) named))
  Told-again ignored r r' b a c e e' ne same named x y = y.when_ignored e'
  Told-again error r r' b a c e e' ne same named x y = absurd (ne refl)

  unnamed-same :
      (rs : List WebhookResult) (b a : Option V.Entry)
      → All (λ q. Names q t → ⊥) (map path_of rs)
      → Follows O K h L V push t rs b a
      → a ≡ b
  unnamed-same [] b a n f = f
  unnamed-same (r ∷ rs) b a (n, ns) (mid, told, f) = unnamed-same rs mid a ns f ∙ told.other_path n

  Follows-again :
      (rs rs' : List WebhookResult) (b a c : Option V.Entry)
      → map path_of rs' ≡ map path_of rs
      → map status_of rs' ≡ map status_of rs
      → All (λ r. r.status ≢ error) rs
      → IsNamedOnce t (map path_of rs)
      → Follows O K h L V push t rs b a
      → Follows O K h L V push t rs' a c
      → c ≡ a
  Follows-again [] [] b a c p s ne once f g = g
  Follows-again [] (r ∷ rs) b a c p s ne once f g = cc
  Follows-again (r ∷ rs) [] b a c p s ne once f g = cc
  Follows-again (r ∷ rs) (r' ∷ rs') b a c p s (ne, nes) (inl (named, others)) (m, x, f) (m', y, g) =
      let same : r'.path ≡ r.path = cc p in
      let paths : map path_of rs' ≡ map path_of rs = cc p in
      let alike : r'.status ≡ r.status = cc s in
      let first = unnamed-same rs m a others f in
      let last = unnamed-same rs' m' c (subst (All (λ q. Names q t → ⊥)) (sym paths) others) g in
      last
      ∙ Told-again r.status r r' b a m' refl alike ne same named
          (subst (Told O K h L V push t r b) (sym first) x) y
  Follows-again (r ∷ rs) (r' ∷ rs') b a c p s (ne, nes) (inr (n, once)) (m, x, f) (m', y, g) =
      let same : r'.path ≡ r.path = cc p in
      let paths : map path_of rs' ≡ map path_of rs = cc p in
      let statuses : map status_of rs' ≡ map status_of rs = cc s in
      let first : m ≡ b = x.other_path n in
      let second : m' ≡ a = y.other_path (subst (λ q. Names q t → ⊥) (sym same) n) in
      Follows-again rs rs' b a c paths statuses nes once
        (subst (λ o. Follows O K h L V push t rs o a) first f)
        (subst (λ o. Follows O K h L V push t rs' o c) second g)

  -- A push that is delivered a second time, right after the first, changes nothing more: where no path
  -- fails and the second delivery reports of every path what the first did, a resource that one path of
  -- the push names at most is as the first delivery left it. It rests on what the API server does to one
  -- resource, where to merge an object or to delete a resource a second time changes nothing, and on the
  -- getters and setters of objects.
  pub process_push-again :
      (s : K.State)
      → IsNamedOnce t (push.added_modified ++ push.removed)
      → All (λ r. r.status ≢ error) (process_push O K h push s).0
      → map status_of (process_push O K h push (process_push O K h push s).1).0
        ≡ map status_of (process_push O K h push s).0
      → V.seen (process_push O K h push (process_push O K h push s).1).1 t
        ≡ V.seen (process_push O K h push s).1 t
  process_push-again s once fine alike =
      let s' = (process_push O K h push s).1 in
      let paths = process_push-path O K h push s in
      Follows-again (process_push O K h push s).0 (process_push O K h push s').0 (V.seen s t)
        (V.seen s' t) (V.seen (process_push O K h push s').1 t)
        (process_push-path O K h push s' ∙ sym paths) alike fine
        (subst (IsNamedOnce t) (sym paths) once) (process_push-Follows O K h L V push t s)
        (process_push-Follows O K h L V push t s')
