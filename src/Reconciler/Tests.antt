-- ===== src/Reconciler/Tests.antt =====
-- Runs of the pass and the worker side by side.
use obacht_agent.Base.{◌≡◌, ◌≢◌, refl, Bool, true, false, List, [], ◌∷◌, Memᴰ, list_beq}
use obacht_agent.Base.Text.{text}
use obacht_agent.Store.Instances.{Instance, container, compose, installed, stopped}
use obacht_agent.Reconciler.Queue.{
  Job, enqueue_apply, send_kick, next_job, finish_job, worker_busy_with, active_work,
}
use obacht_agent.Reconciler.Goroutines.{
  tearing_down, removing_orphan, waiting, applying, route, visit, step_pass, step_worker,
  cancel_worker, Event, begin_pass, pass_event, worker_event, step, run,
}
use obacht_agent.Reconciler.Steps.{IsCoherentAgent}
use obacht_agent.Reconciler.Coherent.{is_kicking}
use obacht_agent.Reconciler.Exclusive.{run-IsCoherent, apply_and_down_exclusive, waiting_has_kick}
use obacht_agent.Base.{none, some, arith}
use obacht_agent.Base.Int.{pos}
use obacht_agent.Store.Instances.{removed}
use obacht_agent.Store.Locks.{works, release_locks_for}
use obacht_agent.Reconciler.Down.{
  Tables, Host, container_down, compose_down, purge, reset_readiness,
}
use obacht_agent.Reconciler.Purged.{down-keeps_others}
use obacht_agent.Reconciler.Target.{
  Service, Specs, Target, container_routable, bound_services, readiness_target,
}
use obacht_agent.Store.Db.{Binding}
use obacht_agent.Reconciler.Bound.{target-bound}

-- All that a run computes with.
abbrev runs : Bool
unfolding run step route visit step_pass step_worker cancel_worker enqueue_apply send_kick next_job
    finish_job worker_busy_with active_work list_beq
runs = true

abbrev camera : Instance
camera = record {
  id = text "camera";
  template_id = text "camera-app";
  runtime = container;
  version = [];
  desired_state = installed;
  config_json = [];
  observed_state = [];
  observed_json = [];
  service_ready = [];
  ready_at = none;
}

abbrev notes : Instance
notes = record {
  id = text "notes";
  template_id = text "notes-app";
  runtime = compose;
  version = [];
  desired_state = stopped;
  config_json = [];
  observed_state = text "installed";
  observed_json = [];
  service_ready = [];
  ready_at = none;
}

abbrev camera_job : Job (Unit {0})
camera_job = record { instance_id = text "camera"; observed = tt; first_install = true }

-- The pass has queued the camera and kicked the worker; the latest event comes first.
abbrev queued : List (Event (Unit {0}))
queued = pass_event ∷ pass_event ∷ begin_pass (camera ∷ notes ∷ []) tt (text "camera" ∷ []) ∷ []

-- The worker applies the camera, then the pass begins to stop the notes.
abbrev side_by_side : List (Event (Unit {0}))
side_by_side = pass_event ∷ worker_event ∷ worker_event ∷ queued

run-IsCoherent_example : IsCoherentAgent (run side_by_side)
run-IsCoherent_example = run-IsCoherent side_by_side

side_by_side_worker : (run side_by_side).worker ≡ applying camera_job
unfolding runs
side_by_side_worker = refl

side_by_side_pass : (run side_by_side).pass ≡ tearing_down notes [] tt (text "camera" ∷ [])
unfolding runs
side_by_side_pass = refl

apply_and_down_exclusive_example : text "camera" ≢ text "notes"
apply_and_down_exclusive_example =
    apply_and_down_exclusive side_by_side camera_job notes [] tt (text "camera" ∷ [])
      side_by_side_worker side_by_side_pass

queued_worker : (run queued).worker ≡ waiting
unfolding runs
queued_worker = refl

queued_job : Memᴰ camera_job (run queued).work.queue
unfolding runs
queued_job = Memᴰ.head refl

queued_pass : is_kicking (run queued).pass ≡ false
unfolding runs
queued_pass = refl

waiting_has_kick_example : (run queued).work.kick ≡ true
waiting_has_kick_example = waiting_has_kick queued camera_job queued_worker queued_pass queued_job

-- The removal of orphans does not ask whether the worker is busy with the container.
orphan_removed_during_apply :
    (run (pass_event ∷ pass_event ∷ pass_event ∷ side_by_side)).pass
    ≡ removing_orphan (text "camera") []
unfolding runs
orphan_removed_during_apply = refl

still_applied :
    (run (pass_event ∷ pass_event ∷ pass_event ∷ side_by_side)).worker ≡ applying camera_job
unfolding runs
still_applied = refl

camera_is_active : active_work (run side_by_side).work ≡ (text "camera", [])
unfolding runs
camera_is_active = refl

-- The kiosk shall be removed, the notes stay.
abbrev kiosk : Instance
kiosk = record {
  id = text "kiosk";
  template_id = text "kiosk-app";
  runtime = container;
  version = [];
  desired_state = removed;
  config_json = [];
  observed_state = text "installed";
  observed_json = [];
  service_ready = text "ready";
  ready_at = none;
}

abbrev tables : Tables
tables = record {
  rows = kiosk ∷ notes ∷ [];
  locks = record { group = text "display"; holder = text "kiosk" } ∷ [];
  secrets = text "kiosk" ∷ text "notes" ∷ [];
  tracked = text "kiosk" ∷ [];
}

abbrev healthy : Host
healthy = record {
  remove = λ id. some true;
  has_prober = true;
  set_ready = works;
  drop_secrets = works;
  release_locks = works;
  delete_row = works;
}

abbrev broken : Host
broken = record healthy { remove = λ id. none }

kiosk_removed :
    container_down healthy kiosk tables
    ≡ (true, record { rows = notes ∷ []; locks = []; secrets = text "notes" ∷ []; tracked = [] })
unfolding container_down purge reset_readiness release_locks_for list_beq
kiosk_removed = refl

kiosk_kept : container_down broken kiosk tables ≡ (false, tables)
unfolding container_down
kiosk_kept = refl

notes_are_other : text "notes" ≢ text "kiosk"
notes_are_other h = ground arith

down-keeps_others_example :
    Memᴰ notes (container_down healthy kiosk tables).1.rows
    × Memᴰ notes (compose_down true healthy kiosk tables).1.rows
down-keeps_others_example =
    down-keeps_others healthy kiosk notes notes_are_other true tables (Memᴰ.tail (Memᴰ.head refl))

-- Two services, of which the second is bound to a domain.
abbrev page : Service
page = record {
  name = text "page";
  target_port = pos 80;
  target_service = [];
  target_type = [];
  readiness = none;
}

abbrev admin : Service
admin = record page { name = text "admin"; target_port = pos 8080 }

abbrev specs : Specs
specs = record {
  container_services = λ config. some (page ∷ admin ∷ []);
  compose_services = λ config. none;
  system_services = λ config. none;
}

-- A domain of the instance, behind one that was bound before, and one that a port serves.
abbrev first_route : Binding
first_route = record {
  domain = text "a.example";
  instance_id = some (text "camera");
  service_name = some (text "page");
  local_port = pos 0;
  mode = text "root";
  path_prefix = [];
}

abbrev admin_route : Binding
admin_route = record first_route { domain = text "b.example"; service_name = some (text "admin") }

abbrev local_route : Binding
local_route = record first_route {
  domain = text "c.example";
  instance_id = none;
  service_name = none;
  local_port = pos 3000;
}

target-bound_example :
    (target : Target) × (t : Service) × (readiness_target specs camera
        (bound_services (some (first_route ∷ admin_route ∷ local_route ∷ [])))
      ≡ some target)
    × (target.service_name ≡ text "admin")
    × (target.target_port ≡ t.target_port)
    × (target.instance_id ≡ text "camera")
    × Memᴰ t (page ∷ admin ∷ [])
    × (container_routable t ≡ true)
    × (t.name ≡ text "admin")
target-bound_example =
    target-bound specs camera (first_route ∷ []) (local_route ∷ []) admin_route (page ∷ admin ∷ [])
      admin refl refl ((λ h. ground arith), tt) refl refl (Memᴰ.tail (Memᴰ.head refl)) refl
