-- ===== src/Tests/Interleavings.antt =====
-- The same push is delivered twice, and the two requests take turns.
use mathlib.Core.List.{map}
use accord.Base.{none, length, [], ◌∷◌, ◌++◌, List, some, Bytes, codes, ◌≡◌, ◌⊎◌, refl, arith}
use accord.Strings.{strings}
use accord.Collections.{collections}
use accord.Dict.{dicts}
use accord.Hex.{decode_hex, digit_value}
use accord.Sync.GitHub.{
  parse_github_push_paths, check_event, head_sha, push_paths, add_paths, delete_all, seen_added,
  seen_removed,
}
use accord.Sync.Fetch.{take}
use accord.Sync.Webhook.{apply_path}
use accord.Sync.Webhook.Access.{IsAccepted}
use accord.Sync.Webhook.Results.{path_of}
use accord.Sync.Webhook.Concurrent.{
  Job, new_job, applied_next, turn, Server, arrive, work, Serves, idle, then_turn,
}
use accord.Sync.Webhook.Concurrent.Ends.{left_of, paths_of, Advances, EndsAfter, Serves-ends}
use accord.Sync.Webhook.Concurrent.Safety.{Serves-keeps}
use accord.Tests.Cluster.{manifests, protected, handler, request, push, file}
use accord.Tests.Deployment.{HasShop, shop-patched, shop-not_deleted, shop-there}

request-IsAccepted : IsAccepted handler request push
unfolding parse_github_push_paths check_event head_sha push_paths add_paths delete_all seen_added
    seen_removed decode_hex digit_value take collections dicts strings
request-IsAccepted = record {
  body = codes "{}";
  post = refl;
  readable = refl;
  configured = ground arith;
  signed = (codes "ff", refl, refl);
  parsed = refl;
}

abbrev with_shop : List Bytes
with_shop = codes "shop" ∷ []

-- The first job has applied the file.
abbrev first_turn : Job × List Bytes
first_turn =
    applied_next manifests protected handler (new_job push) []
      (apply_path manifests protected handler push.full_name push.head_sha file with_shop)

abbrev in_turns : Server manifests protected handler
in_turns = record { cluster = first_turn.1; jobs = new_job push ∷ first_turn.0 ∷ [] }

turns : Serves manifests protected handler with_shop in_turns
unfolding turn
turns =
    then_turn
      (then_turn (then_turn idle (arrive request push request-IsAccepted refl))
        (arrive request push request-IsAccepted refl))
      (work (new_job push ∷ []) [] (new_job push) first_turn.0 first_turn.1 refl refl refl)

Serves-keeps_example : HasShop in_turns.cluster
Serves-keeps_example =
    Serves-keeps manifests protected handler HasShop (λ r paths a. shop-patched paths)
      (λ r paths a. shop-not_deleted paths) with_shop shop-there turns

Serves-ends_example :
    (map path_of first_turn.0.results_so_far ++ left_of first_turn.0 ≡ paths_of first_turn.0)
    × (((left_of first_turn.0 ≡ [])
          × (turn manifests protected handler first_turn.0 in_turns.cluster ≡ none))
        ⊎ ((j : Job) × (s : List Bytes) × (turn manifests protected handler first_turn.0
                in_turns.cluster
              ≡ some (j, s))
            × Advances first_turn.0 j))
    × EndsAfter manifests protected handler
        (length (left_of first_turn.0))
        with_shop
        in_turns
        (new_job push ∷ [])
        []
        first_turn.0
Serves-ends_example =
    Serves-ends manifests protected handler with_shop in_turns (new_job push ∷ []) [] first_turn.0
      turns refl
