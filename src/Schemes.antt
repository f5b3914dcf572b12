-- ===== src/Schemes.antt =====
-- internal/bootstrap/scheme.go and internal/bootstrap/inventory_scheme.go, with what
-- api/v1alpha1/groupversion_info.go and the init function of
-- api/v1alpha1/mirrorupgraderequest_types.go register: the types that the programs know. The schemes and
-- their builder are parameters.
use accord.Base.{[], ◌∷◌, List, Bytes, codes, Option, none, some}
use accord.MirrorUpgrader.{group, version}

-- `schema.GroupVersion`
pub record GroupVersion : Type 0 where
  pub group : Bytes
  pub version : Bytes

-- The types that are registered; the code passes a pointer to a value of each.
pub data GoType : Type 0 where
  unstructured mirror_upgrade_request mirror_upgrade_request_list : GoType

-- What the code takes from apimachinery, client-go and controller-runtime. A result `none` is an error.
-- `Builder` is controller-runtime's `scheme.Builder`, of which `add_to_scheme` is the method.
pub record SchemeLibrary : Type 1 where
  pub Scheme : Type 0
  pub Builder : Type 0
  pub new : Scheme
  pub add_client_go_to_scheme : Scheme → Option Scheme
  pub add_known_types : GroupVersion → List GoType → Scheme → Scheme
  pub add_to_group_version : GroupVersion → Scheme → Scheme
  pub new_builder : GroupVersion → Builder
  pub register : List GoType → Builder → Builder
  pub add_to_scheme : Builder → Scheme → Option Scheme

abbrev pub scheme_group_version : GroupVersion
scheme_group_version = record { group = group; version = version }

abbrev pub argo_group_version : GroupVersion
argo_group_version = record { group = codes "argoproj.io"; version = codes "v1alpha1" }

module _ (S : SchemeLibrary) where
  abbrev pub scheme_builder : S.Builder
  scheme_builder = S.new_builder scheme_group_version

  -- The init function of the package.
  abbrev pub init : S.Builder → S.Builder
  init b = S.register (mirror_upgrade_request ∷ mirror_upgrade_request_list ∷ []) b

  -- `AddToScheme` is the method of the builder, which it points to: the types that the init function
  -- registers are among those that it adds.
  abbrev pub add_to_scheme : S.Scheme → Option S.Scheme
  add_to_scheme s = S.add_to_scheme (init scheme_builder) s

  -- `none` is the panic of `utilruntime.Must`.
  unfoldable pub new_scheme : Option S.Scheme
  new_scheme = elim (S.add_client_go_to_scheme S.new) [ none ↦ none | some s ↦ add_to_scheme s ]

  unfoldable pub new_inventory_scheme : Option S.Scheme
  new_inventory_scheme = elim (S.add_client_go_to_scheme S.new) [
    | none ↦ none
    | some s ↦
        let known = S.add_known_types argo_group_version (unstructured ∷ []) s in
        some (S.add_to_group_version argo_group_version known)
  ]
