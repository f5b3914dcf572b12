-- ===== src/Git/Export/Success.antt =====
-- An export that nothing hinders is a success.
use accord.Dict.{Dict}
