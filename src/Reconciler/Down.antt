-- ===== src/Reconciler/Down.antt =====
-- internal/reconciler/loop.go: `reconcileContainerDown`, `reconcileComposeDown` and `resetReadiness`
-- over the tables they write. What docker and SQLite do is the parameter `Host`.
use obacht_agent.Base.{
  Bool, true, false, not, ◌&&◌, Option, none, some, List, [], ◌∷◌, keep, is_nil, ◌==◌, nat_eq,
  list_eq, if◌then◌else◌,
}
use obacht_agent.Base.Text.{Text}
use obacht_agent.Store.Instances.{
  Instance, DesiredState, installed, stopped, removed, other_desired,
}
use obacht_agent.Store.Locks.{Lock, Outcome, works, fails, release_locks_for}

-- The rows, the locks, the instances with template secrets, and the instances that the prober tracks.
pub record Tables : Type 0 where
  pub rows : List Instance
  pub locks : List Lock
  pub secrets : List Text
  pub tracked : List Text

-- `Remove` of the driver, which fails or reports whether there was anything to remove; and the
-- outcomes of the statements.
pub record Host : Type 0 where
  pub remove : Text → Option Bool
  pub has_prober : Bool
  pub set_ready : Outcome
  pub drop_secrets : Outcome
  pub release_locks : Outcome
  pub delete_row : Outcome

abbrev pub clear_ready : Text → List Instance → List Instance
clear_ready id [] = []
clear_ready id (i ∷ is) =
    (if i.id == id then record i { service_ready = []; ready_at = none } else i) ∷ clear_ready id is

abbrev pub set_service_ready : Outcome → Text → Tables → Tables
set_service_ready works id db = record db { rows = clear_ready id db.rows }
set_service_ready fails id db = db

abbrev pub is_stopped : DesiredState → Bool
is_stopped stopped = true
is_stopped installed = false
is_stopped removed = false
is_stopped (other_desired _) = false

abbrev pub forget : Text → Tables → Tables
forget id db = record db { tracked = keep (λ x. not (x == id)) db.tracked }

-- `resetReadiness`
unfoldable pub reset_readiness : Host → Instance → Tables → Tables
reset_readiness host inst db =
    if host.has_prober
    then (if is_stopped inst.desired_state && not (is_nil inst.service_ready)
        then set_service_ready host.set_ready inst.id (forget inst.id db)
        else forget inst.id db)
    else db

-- `DropTemplateSecrets`
abbrev pub drop_template_secrets : Outcome → Text → Tables → Tables
drop_template_secrets works id db = record db { secrets = keep (λ x. not (x == id)) db.secrets }
drop_template_secrets fails id db = db

abbrev pub release_for : Outcome → Text → Tables → Tables
release_for delete id db = record db { locks = (release_locks_for delete id db.locks).1 }

-- `DeleteInstance`, which cascades to the locks; what else refers to the row is not in these tables
abbrev pub delete_instance : Outcome → Text → Tables → Tables
delete_instance works id db = record db {
  rows = keep (λ i. not (i.id == id)) db.rows;
  locks = keep (λ l. not (l.holder == id)) db.locks;
}
delete_instance fails id db = db

-- The statements of a removal behind the one of the driver.
unfoldable pub purge : Host → Bool → Instance → Tables → Tables
purge host secrets inst db =
    let db₁ = reset_readiness host inst db in
    let db₂ = if secrets then drop_template_secrets host.drop_secrets inst.id db₁ else db₁ in
    delete_instance host.delete_row inst.id (release_for host.release_locks inst.id db₂)

abbrev pub stop_with : Host → Instance → Tables → Option Bool → Bool × Tables
stop_with host inst db none = (false, db)
stop_with host inst db (some gone) = (gone, reset_readiness host inst db)

abbrev pub remove_with : Host → Bool → Instance → Tables → Option Bool → Bool × Tables
remove_with host secrets inst db none = (false, db)
remove_with host secrets inst db (some gone) = (true, purge host secrets inst db)

-- A container's template secrets are dropped here; those of a compose project by its driver, unseen.
abbrev pub down_as : Host → Bool → Instance → Tables → DesiredState → Bool × Tables
down_as host secrets inst db stopped = stop_with host inst db (host.remove inst.id)
down_as host secrets inst db removed = remove_with host secrets inst db (host.remove inst.id)
down_as host secrets inst db installed = (false, db)
down_as host secrets inst db (other_desired _) = (false, db)

-- `reconcileContainerDown`; the flag is whether something changed
unfoldable pub container_down : Host → Instance → Tables → Bool × Tables
container_down host inst db = down_as host true inst db inst.desired_state

-- `reconcileComposeDown`, where the driver may not be wired
unfoldable pub compose_down : Bool → Host → Instance → Tables → Bool × Tables
compose_down wired host inst db =
    if wired then down_as host false inst db inst.desired_state else (false, db)
