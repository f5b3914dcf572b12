-- ===== src/Git/Worker/Draining.antt =====
-- One flush, where nothing hinders the export of what is pending.
use accord.Base.{false, [], ◌==◌, ◌≡◌, Bytes}
use accord.Strings.{trim_space}
use accord.Dict.{Dict, lookup}
use accord.Dict.Laws.{is_present}
use accord.Config.{InventoryControllerConfig}
use accord.Git.Export.{Host}
use accord.Git.Worker.History.{Log, newest}

module _ (H : Host) (cfg : InventoryControllerConfig)
    (set : (trim_space cfg.git_repo_url == []) ≡ false) where
  -- What a log says of a worker with nothing pending and nothing in flight.
  pub record IsExported (l k : Log) : Type 0 where
    pub nothing_asked : k.asked ≡ l.asked
    pub no_failure : k.failures ≡ l.failures
    pub all_there : (p : Bytes) → is_present (lookup p k.exported) ≡ is_present (newest p l.asked)
    pub all_newest : l.failures ≡ 0 → (p : Bytes) → lookup p k.exported ≡ newest p l.asked
