-- ===== src/Reconciler/Samples.antt =====
-- A kiosk on the sample database, where another instance holds the lock of its group or not.
use obacht_agent.Base.{◌≡◌, refl, Bool, true, false, none, some, [], ◌∷◌, list_beq}
use obacht_agent.Base.Text.{Text, text, contains, has_prefix}
use obacht_agent.Base.Result.{ok, err}
use obacht_agent.Store.Table.{find_row, has_row, update_rows, upsert_row}
use obacht_agent.Store.Db.{Db}
use obacht_agent.Store.Secrets.{create_instance_secret, ensure_instance_secret}
use obacht_agent.Reconciler.Ipc.{
  IpcSpec, container_socket, socket_var, secret_var, set_default, mount_socket, inject_ipc,
}
use obacht_agent.Reconciler.Injected.{IsInjected, inject_ipc-IsInjected}
use obacht_agent.Store.Instances.{Instance, system, installed}
use obacht_agent.Store.Locks.{works, fails, holder_of, try_acquire, get_lock_holder}
use obacht_agent.Store.Statements.{set_observed_state}
use obacht_agent.Store.Samples.{sample_db, notes}
use obacht_agent.Reconciler.Apply.{good_run, Docker, ApplyOutcomes, is_transient, apply_compose}
use obacht_agent.Reconciler.Observed.{IsShown, expected, apply_compose-IsShown}
use obacht_agent.Reconciler.System.{
  good_spec, SystemDriver, SystemOutcomes, Machine, register_services, apply_system, install_system,
  reconcile_system,
}
use obacht_agent.Reconciler.Held.{IsLocked, reconcile_system-IsLocked}

abbrev runs : Bool
unfolding list_beq find_row has_row update_rows holder_of try_acquire get_lock_holder
    set_observed_state register_services apply_system install_system reconcile_system
runs = true

-- The configuration is the name of the group.
abbrev driver : SystemDriver
driver = record {
  parse_spec =
      λ config. good_spec (record { exclusivity_group = config; services = []; is_kiosk = true });
  detect_flavor = λ config. text "kiosk";
  apply = λ id spec. none;
  remove = λ id spec. true;
  format_port = λ port. [];
  in_use_by = λ group holder. text "in use";
}

abbrev outcomes : SystemOutcomes
outcomes = record {
  has_prober = true;
  read_lock = works;
  insert_lock = works;
  read_holder = works;
  register = λ name. works;
  observe = fails;
  reset = works;
  release = works;
  delete_row = works;
}

abbrev screen : Text → Instance
screen group = record {
  id = text "screen";
  template_id = text "screen-app";
  runtime = system;
  version = [];
  desired_state = installed;
  config_json = group;
  observed_state = [];
  observed_json = [];
  service_ready = [];
  ready_at = none;
}

abbrev machine : Machine
machine = record { db = sample_db; applied = []; tracked = [] }

-- The notes hold the display.
display_refused :
    (reconcile_system driver outcomes (screen (text "display")) machine).1.applied ≡ []
unfolding runs
display_refused = refl

audio_runs : (reconcile_system driver outcomes (screen (text "audio")) machine).0 ≡ true
unfolding runs
audio_runs = refl

reconcile_system-IsLocked_example :
    IsLocked driver outcomes
      (screen (text "audio"))
      machine
      (reconcile_system driver outcomes (screen (text "audio")) machine).1
reconcile_system-IsLocked_example =
    reconcile_system-IsLocked driver outcomes (screen (text "audio")) machine

-- A template that sets the socket itself.
abbrev template_spec : IpcSpec
template_spec = record {
  env = record { key = socket_var; value = text "/my.sock" } ∷ [];
  volumes = [];
}

abbrev injected_spec : IpcSpec
injected_spec = record {
  env =
      record { key = secret_var; value = text "00ff" }
      ∷ record { key = socket_var; value = text "/my.sock" }
      ∷ [];
  volumes =
      record {
        source = text "/s";
        target = container_socket;
        read_only = false;
        agent_managed = true;
      }
      ∷ [];
}

abbrev secret_db : Db
secret_db = record sample_db {
  secrets = record { instance_id = text "notes"; secret = text "00ff" } ∷ [];
}

injected :
    inject_ipc works works (some (text "00ff")) (text "/s") (text "notes") template_spec sample_db
    ≡ (ok injected_spec, secret_db)
unfolding inject_ipc set_default mount_socket ensure_instance_secret create_instance_secret
    upsert_row runs
injected = refl

inject_ipc-IsInjected_example :
    IsInjected (text "/s") (text "notes") template_spec injected_spec sample_db secret_db
inject_ipc-IsInjected_example =
    inject_ipc-IsInjected works works (some (text "00ff")) (text "/s") (text "notes") template_spec
      injected_spec sample_db secret_db refl injected

-- Docker fails for good.
abbrev broken_docker : Docker
broken_docker = record {
  parse = λ config. good_run (record { ipc = template_spec; services = [] });
  expand = λ id spec secrets. (ok spec, secrets);
  apply = λ id template spec. err (text "no such image");
  upstream = λ id svc. [];
  container_state = λ id. none;
}

abbrev apply_outcomes : ApplyOutcomes
apply_outcomes = record {
  mark = works;
  observe = works;
  register = λ name. works;
  read_secret = works;
  write_secret = works;
  random = none;
  socket = [];
}

notes_running : IsShown (text "notes") (text "running") sample_db
unfolding runs
notes_running = (notes, refl, refl)

error_expected : expected broken_docker notes (broken_docker.parse notes.config_json) ≡ text "error"
unfolding is_transient contains has_prefix runs
error_expected = refl

apply_compose-IsShown_example :
    IsShown
      (text "notes")
      (expected broken_docker notes (broken_docker.parse notes.config_json))
      (apply_compose broken_docker apply_outcomes notes true
        (record { db = sample_db; notified = 0; begun = [] })).1.db
apply_compose-IsShown_example =
    apply_compose-IsShown broken_docker apply_outcomes notes refl refl
      (record { db = sample_db; notified = 0; begun = [] }) notes_running
