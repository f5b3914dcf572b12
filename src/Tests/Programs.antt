-- ===== src/Tests/Programs.antt =====
-- The two programs with a manager that counts what it is asked to run.
use accord.Base.{
  ◌*◌, ℕ, suc, [], ◌∷◌, ◌++◌, List, Bytes, codes, ◌==◌, if◌then◌else◌, true, false, some, ok, ◌≡◌,
  refl,
}
use accord.Sync.Webhook.{
  serve_body, serve_push, process_push, delete_paths, apply_managed, apply_path, apply_paths,
  apply_result, delete_managed, delete_path, delete_result, delete_target,
}
use accord.Sync.Hmac.{verify_hmac_signature, compare_mac}
use accord.Hex.{decode_hex, digit_value, encode_hex, hex_digit}
use accord.Sync.GitHub.{
  parse_github_push_paths, check_event, head_sha, push_paths, add_paths, delete_all, seen_added,
  seen_removed,
}
use accord.Collections.{sort_strings, add, delete, insert_sorted}
use accord.Base.{lex_lt}
use accord.Inventory.Normalize.{
  first_part, first_yaml_document, material_hash_from_normalized_yaml, normalize_fields,
  normalize_kubernetes_object,
}
use accord.Sync.Apply.{
  apply_inventory_yaml, prepare, send_patch, validate_names, validate_path_manifest_identity,
  with_hash,
}
use accord.Sync.Fetch.{check_response, fetch_github_raw_file}
use accord.Sync.Path.{check_parts, file_stem, three_parts}
use accord.Tests.Cluster.{first_entries}
use accord.Json.{get}
use accord.Strings.{strings, trim_space}
use accord.Dict.{dicts}
use accord.Config.{
  InventoryControllerConfig, env_webhook_secret, load_inventory_controller_config,
  load_sync_operator_config, load_batch_interval, with_interval, wrap_int64,
  default_batch_interval_sec, second,
}
use accord.Git.Queue.{new_batch_worker}
use accord.Sync.Path.{parse_inventory_export_path, argo_kind_from_plural}
use accord.Sync.Hmac.Laws.{IsSignature}
use accord.Sync.Fetch.{take}
use accord.Sync.Webhook.{body_limit, serve_http}
use accord.Schemes.{
  GoType, SchemeLibrary, mirror_upgrade_request, mirror_upgrade_request_list, new_scheme,
  new_inventory_scheme,
}
use accord.Bootstrap.{Runtime, new_manager, options_of}
use accord.Bootstrap.Guards.{IsGuarded, new_manager-IsGuarded}
use accord.Commands.{
  Calls, Libraries, default_flags, inputs_of, mirror_upgrader_main, start_mirror_upgrader,
  SyncOperator, InventoryController, start_sync_operator, start_inventory_controller, deps_of,
}
use accord.Commands.Startup.{IsAvailable, start_sync_operator-signed}
use accord.Tests.Cluster.{manifests, protected, constant_codec, handler, request}
use accord.Tests.Paths.{default_parser}

-- A scheme and a builder are the lists of the types that they know.
abbrev schemes : SchemeLibrary
schemes = record {
  Scheme = List GoType;
  Builder = List GoType;
  new = [];
  add_client_go_to_scheme = λ s. some s;
  add_known_types = λ gv types s. s ++ types;
  add_to_group_version = λ gv s. s;
  new_builder = λ gv. [];
  register = λ types b. b ++ types;
  add_to_scheme = λ b s. some (s ++ b);
}

abbrev runtime : Runtime
runtime = record {
  schemes = schemes;
  Filter = Unit {0};
  Server = Unit {0};
  Manager = ℕ;
  with_authentication_and_authorization = tt;
  new_server = λ o. tt;
  create = λ o. some 0;
}

abbrev calls : Calls ℕ
calls = record {
  register = λ path h m. suc m;
  add = λ cfg w b m. some (suc m);
  create_controller = λ c m. some (suc m);
  create_upgrade_controller = λ name m. some (suc m);
  add_healthz_check = λ name m. some m;
  add_readyz_check = λ name m. some m;
  run = λ m. true;
}

runtime-IsAvailable : IsAvailable runtime calls
runtime-IsAvailable = record {
  fill = ([], refl);
  create = λ o. (0, refl);
  add = λ cfg w b m. (suc m, refl);
  create_controller = λ c m. (suc m, refl);
  add_healthz_check = λ name m. (m, refl);
  add_readyz_check = λ name m. (m, refl);
}

abbrev libraries : Libraries
libraries = record {
  http_client = handler.http_client;
  codec = constant_codec;
  decode_push = handler.decode_push;
  hmac_sha256 = handler.hmac_sha256;
  parse_template = default_parser;
}

-- Only the secret is set.
abbrev env : Bytes → Bytes
env variable = if variable == env_webhook_secret then codes "s3cret" else []

new_manager-IsGuarded_example :
    (new_manager runtime (inputs_of [] (codes "id") default_flags) ≡ some 0)
    × IsGuarded runtime
        (inputs_of [] (codes "id") default_flags)
        (options_of runtime (inputs_of [] (codes "id") default_flags))
new_manager-IsGuarded_example =
    new_manager-IsGuarded runtime (inputs_of [] (codes "id") default_flags)

abbrev operator : SyncOperator runtime calls
operator = record { handler = handler; manager = 1 }

operator_started : start_sync_operator runtime calls libraries env default_flags ≡ ok operator
unfolding start_sync_operator new_inventory_scheme load_sync_operator_config new_manager strings
    dicts
operator_started = refl

served : (serve_http manifests protected handler request []).1 ≡ codes "guestbook" ∷ []
unfolding serve_http take argo_kind_from_plural parse_inventory_export_path first_entries strings
    dicts accord.Json.delete serve_body serve_push process_push delete_paths apply_managed
    apply_path apply_paths apply_result delete_managed delete_path delete_result delete_target
    verify_hmac_signature compare_mac decode_hex digit_value encode_hex hex_digit
    parse_github_push_paths check_event head_sha push_paths add_paths delete_all seen_added
    seen_removed sort_strings add delete insert_sorted lex_lt first_part first_yaml_document
    material_hash_from_normalized_yaml normalize_fields normalize_kubernetes_object
    apply_inventory_yaml prepare send_patch validate_names validate_path_manifest_identity with_hash
    check_response fetch_github_raw_file check_parts file_stem three_parts get
served = refl

start_sync_operator-signed_example :
    ((trim_space (env env_webhook_secret) == []) ≡ false)
    × ((body : Bytes) × (request.body ≡ some body)
        × IsSignature request.signature
            (libraries.hmac_sha256 (env env_webhook_secret) (take body_limit body)))
start_sync_operator-signed_example =
    start_sync_operator-signed runtime calls libraries env default_flags manifests protected request
      [] operator operator_started (λ e. cc (served, e))

abbrev controller_config : InventoryControllerConfig
controller_config = with_interval env (wrap_int64 (default_batch_interval_sec * second))

abbrev controller : InventoryController runtime calls
controller = record {
  config = controller_config;
  shared = record { cache = []; git_queue = new_batch_worker };
  deps = deps_of libraries controller_config;
  manager = 3;
}

controller_started :
    start_inventory_controller runtime calls libraries env default_flags ≡ ok controller
unfolding start_inventory_controller new_inventory_scheme load_inventory_controller_config
    load_batch_interval wrap_int64 new_manager strings dicts
controller_started = refl

-- The upgrader knows the types of its own package.
upgrader_scheme :
    new_scheme schemes ≡ some (mirror_upgrade_request ∷ mirror_upgrade_request_list ∷ [])
unfolding new_scheme
upgrader_scheme = refl

upgrader_runs : mirror_upgrader_main runtime calls default_flags ≡ 0
unfolding mirror_upgrader_main start_mirror_upgrader new_scheme new_manager
upgrader_runs = refl
