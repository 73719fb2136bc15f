-- ===== src/Install/Managers.antt =====
-- What the service commands expect of the manager of the operating system.
use nsg_parser.Process.Service.{ServiceConfig}
use nsg_parser.Install.{ServiceManager}
use nsg_parser.Prelude.{◌≡◌, ◌≢◌, true, false, Option, none, some, [], Text}

-- `installed` tells what the manager has under a name. No service is taken without a name, none is
-- installed over another, and a name that is free stays free when it is uninstalled. What a call
-- that fails leaves under the name of its service is open.
pub record IsManager {M : Type 0} (manager : ServiceManager M)
    (installed : M → Text → Option ServiceConfig) : Type 0 where
  pub unnamed : (c : ServiceConfig) → c.name ≡ [] → manager.accepts c ≡ false
  pub stop_keeps :
      (c : ServiceConfig) (m : M) (k : Text) → installed (manager.stop c m).0 k ≡ installed m k
  pub uninstall_ok :
      (c : ServiceConfig) (m : M)
      → (manager.uninstall c m).1 ≡ true
      → installed (manager.uninstall c m).0 c.name ≡ none
  pub uninstall_absent :
      (c : ServiceConfig) (m : M)
      → installed m c.name ≡ none
      → installed (manager.uninstall c m).0 c.name ≡ none
  pub uninstall_others :
      (c : ServiceConfig) (m : M) (k : Text)
      → k ≢ c.name
      → installed (manager.uninstall c m).0 k ≡ installed m k
  pub install_ok :
      (c : ServiceConfig) (m : M)
      → (manager.install c m).1 ≡ true
      → installed (manager.install c m).0 c.name ≡ some c
  pub install_others :
      (c : ServiceConfig) (m : M) (k : Text)
      → k ≢ c.name
      → installed (manager.install c m).0 k ≡ installed m k
  pub install_taken :
      (c d : ServiceConfig) (m : M) → installed m c.name ≡ some d → (manager.install c m).1 ≡ false

-- The user may install and uninstall: what is installed under the name is uninstalled, and a free
-- name is taken.
pub record Permitted {M : Type 0} (manager : ServiceManager M)
    (installed : M → Text → Option ServiceConfig) (c : ServiceConfig) : Type 0 where
  pub accepted : manager.accepts c ≡ true
  pub removes :
      (m : M) (d : ServiceConfig) → installed m c.name ≡ some d → (manager.uninstall c m).1 ≡ true
  pub adds : (m : M) → installed m c.name ≡ none → (manager.install c m).1 ≡ true
