-- ===== src/Reconciler/System.antt =====
-- internal/reconciler/loop.go: `reconcileSystem` over the tables of the store. internal/runtime/system is
-- the interface `SystemDriver`.
use obacht_agent.Base.{
  Bool, true, false, not, ◌&&◌, ◌||◌, Option, none, some, List, [], ◌∷◌, ◌++◌, keep, is_nil, ◌==◌,
  nat_eq, list_eq, if◌then◌else◌,
}
use obacht_agent.Base.Int.{ℤ, pos}
use obacht_agent.Base.Result.{Result, ok, err}
use obacht_agent.Base.Text.{Text, text}
use obacht_agent.Readiness.Config.{beqℤ}
use obacht_agent.Store.Instances.{
  Instance, DesiredState, installed, stopped, removed, other_desired,
}
use obacht_agent.Store.Locks.{
  Lock, LockError, Outcome, try_acquire, get_lock_holder, release_locks_for,
}
use obacht_agent.Store.Db.{Db}
use obacht_agent.Store.Statements.{
  upsert_service, set_observed_state, set_service_ready, delete_instance,
}

pub record SystemService : Type 0 where
  pub name : Text
  pub target_port : ℤ
  pub target_type : Text
  pub app_path : Text

pub record SystemSpec : Type 0 where
  pub exclusivity_group : Text
  pub services : List SystemService
  pub is_kiosk : Bool

-- What `system.ParseSpec` returns.
pub data ParsedSpec : Type 0 where
  empty_spec : ParsedSpec
  bad_spec : Text → ParsedSpec
  good_spec : SystemSpec → ParsedSpec

-- The driver: `Apply` fails with a message, `Remove` as a Boolean; and `%d` of a port.
pub record SystemDriver : Type 0 where
  pub parse_spec : Text → ParsedSpec
  pub detect_flavor : Text → Text
  pub apply : Text → SystemSpec → Option Text
  pub remove : Text → SystemSpec → Bool
  pub format_port : ℤ → Text
  pub in_use_by : Text → Text → Text

-- What SQLite does to the statements, and whether a prober is wired.
pub record SystemOutcomes : Type 0 where
  pub has_prober : Bool
  pub read_lock : Outcome
  pub insert_lock : Outcome
  pub read_holder : Outcome
  pub register : Text → Outcome
  pub observe : Outcome
  pub reset : Outcome
  pub release : Outcome
  pub delete_row : Outcome

-- The tables, the calls of the driver's `Apply`, newest first, and the instances that the prober tracks.
pub record Machine : Type 0 where
  pub db : Db
  pub applied : List (Text × SystemSpec)
  pub tracked : List Text

module _ (driver : SystemDriver) (o : SystemOutcomes) (inst : Instance) where
  abbrev pub observe_as : Text → Text → Machine → Machine
  observe_as state payload m = record m {
    db = (set_observed_state o.observe inst.id state payload m.db).1;
  }

  abbrev pub set_locks : List Lock → Machine → Machine
  set_locks ls m = record m { db = record m.db { locks = ls } }

  abbrev pub is_registered : SystemService → Bool
  is_registered svc = not (is_nil svc.name || beqℤ svc.target_port (pos 0))

  -- the loop over the services, whose failing writes are logged
  unfoldable pub register_services : List SystemService → Db → Db
  register_services [] db = db
  register_services (svc ∷ svcs) db =
      let next =
        (upsert_service (o.register svc.name)
          (record {
            instance_id = inst.id;
            service_name = svc.name;
            target_type = if is_nil svc.target_type then text "host_port" else svc.target_type;
            target = text "127.0.0.1:" ++ driver.format_port svc.target_port;
            app_path = svc.app_path;
          })
          db).1 in
      register_services svcs (if is_registered svc then next else db)

  abbrev pub after_apply : SystemSpec → Machine → Option Text → Bool × Machine
  after_apply spec m (some message) = (false, observe_as (text "error") message m)
  after_apply spec m none = (
    true,
    observe_as (text "installed") [] (record m { db = register_services spec.services m.db }),
  )

  unfoldable pub apply_system : SystemSpec → Machine → Bool × Machine
  apply_system spec m =
      after_apply spec (record m { applied = (inst.id, spec) ∷ m.applied })
        (driver.apply inst.id spec)

  abbrev pub holder_text : Result LockError Text → Text
  holder_text (err e) = []
  holder_text (ok h) = h

  -- what follows `TryAcquireLock`
  abbrev pub after_lock :
      SystemSpec → Machine → Result LockError (Unit {0}) × List Lock → Bool × Machine
  after_lock spec m (ok _, ls) = apply_system spec (set_locks ls m)
  after_lock spec m (err e, ls) = (
    false,
    observe_as (text "error")
        (driver.in_use_by spec.exclusivity_group
          (holder_text (get_lock_holder o.read_holder spec.exclusivity_group ls)))
        (set_locks ls m),
  )

  unfoldable pub install_system : Machine → ParsedSpec → Bool × Machine
  install_system m empty_spec = (false, m)
  install_system m (bad_spec message) = (false, observe_as (text "error") message m)
  install_system m (good_spec spec) =
      if is_nil spec.exclusivity_group
      then apply_system spec m
      else after_lock spec m (
          try_acquire o.read_lock o.insert_lock spec.exclusivity_group inst.id m.db.locks
            m.db.locks)

  -- The specification that a removal goes by.
  abbrev pub spec_on_remove : ParsedSpec → SystemSpec
  spec_on_remove (good_spec spec) = spec
  spec_on_remove _ = record {
    exclusivity_group = [];
    services = [];
    is_kiosk = driver.detect_flavor inst.config_json == text "kiosk";
  }

  abbrev pub is_stopped : DesiredState → Bool
  is_stopped stopped = true
  is_stopped _ = false

  -- `resetReadiness`
  abbrev pub reset_system : Machine → Machine
  reset_system m = record m {
    db =
        if o.has_prober && is_stopped inst.desired_state && not (is_nil inst.service_ready)
        then (set_service_ready o.reset inst.id [] none m.db).1
        else m.db;
    tracked = if o.has_prober then keep (λ x. not (x == inst.id)) m.tracked else m.tracked;
  }

  abbrev pub release_system : Machine → Machine
  release_system m = set_locks (release_locks_for o.release inst.id m.db.locks).1 m

  -- the end of a removal or a stop
  abbrev pub end_system : DesiredState → Machine → Machine
  end_system removed m = record m { db = (delete_instance o.delete_row inst.id m.db).1 }
  end_system _ m = observe_as (text "stopped") [] m

  unfoldable pub remove_system : Machine → Machine
  remove_system m =
      if driver.remove inst.id (spec_on_remove (driver.parse_spec inst.config_json))
      then end_system inst.desired_state (release_system (reset_system m))
      else m

  -- `reconcileSystem`
  abbrev pub system_as : Machine → DesiredState → Bool × Machine
  system_as m installed = install_system m (driver.parse_spec inst.config_json)
  system_as m stopped = (false, remove_system m)
  system_as m removed = (false, remove_system m)
  system_as m (other_desired _) = (false, m)

  unfoldable pub reconcile_system : Machine → Bool × Machine
  reconcile_system m = system_as m inst.desired_state
