-- ===== src/Inventory/Controller.antt =====
-- internal/inventory/gvk.go and the set-up of the two reconcilers in internal/inventory/reconciler.go:
-- which resources a controller watches, under which name it runs, and what it does at an event.
use accord.Base.{Bytes, codes}
use accord.Inventory.Reconciler.{
  ReconcileState, ReconcileDeps, ObjectKey, GetAnswer, Reply, application, application_set,
  reconcile_application, reconcile_application_set,
}

pub record GroupVersionKind : Type 0 where
  pub group : Bytes
  pub version : Bytes
  pub kind : Bytes

abbrev pub application_gvk : GroupVersionKind
application_gvk = record {
  group = codes "argoproj.io";
  version = codes "v1alpha1";
  kind = application;
}

abbrev pub application_set_gvk : GroupVersionKind
application_set_gvk = record {
  group = codes "argoproj.io";
  version = codes "v1alpha1";
  kind = application_set;
}

-- What the builder of controller-runtime is given.
pub record Controller : Type 0 where
  pub watched : GroupVersionKind
  pub name : Bytes
  pub run_reconcile : ObjectKey → GetAnswer → ReconcileState → Reply

abbrev pub application_controller : ReconcileDeps → Controller
application_controller d = record {
  watched = application_gvk;
  name = codes "accord-inventory-application";
  run_reconcile = reconcile_application d;
}

abbrev pub application_set_controller : ReconcileDeps → Controller
application_set_controller d = record {
  watched = application_set_gvk;
  name = codes "accord-inventory-applicationset";
  run_reconcile = reconcile_application_set d;
}
