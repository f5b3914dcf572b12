-- ===== src/Sync/Webhook/Concurrent.antt =====
-- internal/sync/webhook.go under net/http, which serves each request in a goroutine of its own: requests
-- take turns in any order. A turn processes one path of a push, in which the handler calls the API
-- server once at most; what else it does in a turn does not depend on the cluster.
pub mod Turns
pub mod Progress
pub mod Safety
pub mod Ends
use accord.Base.{ℕ, zero, suc, [], ◌∷◌, ◌++◌, List, Option, none, some, Bytes, ◌≡◌}
use accord.Sync.GitHub.{PushPaths}
use accord.Sync.Apply.{Objects, Cluster}
use accord.Sync.Webhook.{WebhookHandler, Request, WebhookResult, apply_path, delete_path}
use accord.Sync.Webhook.Access.{IsAccepted}

-- A push that is being processed: the paths that are left, and the results so far.
pub record Job : Type 0 where
  pub push : PushPaths
  pub to_apply : List Bytes
  pub to_delete : List Bytes
  pub results_so_far : List WebhookResult

abbrev pub new_job : PushPaths → Job
new_job push = record {
  push = push;
  to_apply = push.added_modified;
  to_delete = push.removed;
  results_so_far = [];
}

module _ (O : Objects) (K : Cluster O) (h : WebhookHandler) where
  abbrev pub applied_next : Job → List Bytes → WebhookResult × K.State → Job × K.State
  applied_next j paths (r, s) =
      (record j { to_apply = paths; results_so_far = j.results_so_far ++ (r ∷ []) }, s)

  abbrev pub deleted_next : Job → List Bytes → WebhookResult × K.State → Job × K.State
  deleted_next j paths (r, s) =
      (record j { to_delete = paths; results_so_far = j.results_so_far ++ (r ∷ []) }, s)

  abbrev pub turn_delete : List Bytes → Job → K.State → Option (Job × K.State)
  turn_delete [] j s = none
  turn_delete (p ∷ paths) j s = some (deleted_next j paths (delete_path O K h p s))

  abbrev pub turn_of : List Bytes → Job → K.State → Option (Job × K.State)
  turn_of [] j s = turn_delete j.to_delete j s
  turn_of (p ∷ paths) j s =
      some (applied_next j paths (apply_path O K h j.push.full_name j.push.head_sha p s))

  -- A round of one of the two loops, `none` behind their end.
  unfoldable pub turn : Job → K.State → Option (Job × K.State)
  turn j s = turn_of j.to_apply j s

  -- The job after so many turns, with no other job between them.
  unfoldable pub after_turns : ℕ → Job → K.State → Option (Job × K.State)
  after_turns zero j s = some (j, s)
  after_turns (suc n) j s = elim (turn j s) [ none ↦ none | some (j', s') ↦ after_turns n j' s' ]

  -- The cluster, and the pushes that are being processed or have been.
  pub record Server : Type 0 where
    pub cluster : K.State
    pub jobs : List Job

  -- A request is let in, or any job takes a turn.
  pub data Turn (s t : Server) : Type 0 where
    arrive :
        (r : Request) (push : PushPaths)
        → IsAccepted h r push
        → t ≡ record s { jobs = new_job push ∷ s.jobs }
        → Turn s t
    work :
        (before after : List Job) (j j' : Job) (c : K.State)
        → s.jobs ≡ before ++ (j ∷ after)
        → turn j s.cluster ≡ some (j', c)
        → t ≡ record { cluster = c; jobs = before ++ (j' ∷ after) }
        → Turn s t

  pub data Serves (c : K.State) : Server → Type 0 where
    idle : Serves c (record { cluster = c; jobs = [] })
    then_turn : {s t : Server} → Serves c s → Turn s t → Serves c t

  -- One job that takes all turns.
  pub data Alone : Job → K.State → Job → K.State → Type 0 where
    rest : {j : Job} {s : K.State} → Alone j s j s
    more : {j k l : Job} {s t u : K.State} → turn j s ≡ some (k, t) → Alone k t l u → Alone j s l u
