-- ===== src/MirrorUpgrader.antt =====
-- internal/controller/mirrorupgraderequest_controller.go and api/v1alpha1/groupversion_info.go: the
-- controller of the mirror upgrader. Its Reconcile is a scaffold: it succeeds and changes nothing.
use accord.Base.{ℕ, Bool, false, Bytes, codes, Outcome, ok}
use accord.Inventory.Reconciler.{ObjectKey}
use accord.Inventory.Controller.{GroupVersionKind}

-- `ctrl.Result`; the delay is in nanoseconds.
pub record Result : Type 0 where
  pub requeue : Bool
  pub requeue_after : ℕ

abbrev pub group : Bytes
group = codes "ops.accord.io"

abbrev pub version : Bytes
version = codes "v1alpha1"

-- The state of the cluster comes back as it was.
unfoldable pub reconcile_upgrade :
    {State : Type 0} → ObjectKey → State → Outcome (Unit {0}) Result × State
reconcile_upgrade req s = (ok (record { requeue = false; requeue_after = 0 }), s)

-- What the builder of controller-runtime is given; the kind is the name of the type that is watched.
pub record UpgradeController : Type 1 where
  pub watched : GroupVersionKind
  pub name : Bytes
  pub run_reconcile : {State : Type 0} → ObjectKey → State → Outcome (Unit {0}) Result × State

abbrev pub upgrade_controller : UpgradeController
unfolding reconcile_upgrade
upgrade_controller = record {
  watched = record { group = group; version = version; kind = codes "MirrorUpgradeRequest" };
  name = codes "mirrorupgraderequest";
  run_reconcile = reconcile_upgrade;
}
