-- ===== src/Reconciler/Goroutines.antt =====
-- internal/reconciler/loop.go: `reconcile` and `runApplyWorker` as two goroutines that share the
-- queue. One event is one step of one of them, from one critical section to the next.
use obacht_agent.Base.{Bool, false, Option, none, some, List, [], ◌∷◌, if◌then◌else◌}
use obacht_agent.Base.Text.{Text}
use obacht_agent.Store.Instances.{
  Instance, Runtime, container, compose, system, other_runtime, DesiredState, installed, stopped,
  removed, other_desired,
}
use obacht_agent.Reconciler.Queue.{
  Job, Work, no_work, is_known, enqueue_apply, send_kick, next_job, finish_job, worker_busy_with,
}

-- What the pass does with one row of `desired`.
pub data Route : Type 0 where
  to_apply to_down deferred inline : Route

-- Where the pass is: in the loop over the rows, about to kick the worker, in a stop or a removal, or
-- in the removal of the containers that have no row. The lists are what is left to do.
pub data Pass (O : Type 0) : Type 0 where
  idle : Pass O
  visiting : List Instance → O → List Text → Pass O
  kicking : List Instance → O → List Text → Pass O
  tearing_down : Instance → List Instance → O → List Text → Pass O
  collecting : List Text → Pass O
  removing_orphan : Text → List Text → Pass O

-- Where the worker is.
pub data Worker (O : Type 0) : Type 0 where
  waiting : Worker O
  draining : Worker O
  applying : Job O → Worker O
  halted : Worker O

pub record Agent (O : Type 0) : Type 0 where
  pub work : Work O
  pub pass : Pass O
  pub worker : Worker O

-- The rows with a container or a compose project.
abbrev pub route_docker : Bool → DesiredState → Route
route_docker busy installed = to_apply
route_docker busy stopped = if busy then deferred else to_down
route_docker busy removed = if busy then deferred else to_down
route_docker busy (other_desired _) = if busy then deferred else to_down

abbrev pub route_by : Bool → DesiredState → Runtime → Route
route_by busy want container = route_docker busy want
route_by busy want compose = route_docker busy want
route_by busy want system = inline
route_by busy want (other_runtime _) = inline

module _ {O : Type 0} where
  unfoldable pub route : Instance → Work O → Route
  route inst w = route_by (worker_busy_with inst.id w) inst.desired_state inst.runtime

  abbrev pub visit_as : Route → Instance → List Instance → O → List Text → Work O → Work O × Pass O
  visit_as to_apply inst rest observed orphans w =
      if is_known inst.id w
      then (w, visiting rest observed orphans)
      else (enqueue_apply inst observed w, kicking rest observed orphans)
  visit_as to_down inst rest observed orphans w = (w, tearing_down inst rest observed orphans)
  visit_as deferred inst rest observed orphans w = (w, visiting rest observed orphans)
  visit_as inline inst rest observed orphans w = (w, visiting rest observed orphans)

  -- The body of the loop over the rows.
  unfoldable pub visit : Instance → List Instance → O → List Text → Work O → Work O × Pass O
  visit inst rest observed orphans w = visit_as (route inst w) inst rest observed orphans w

  -- `reconcile`
  unfoldable pub step_pass : Pass O → Work O → Work O × Pass O
  step_pass idle w = (w, idle)
  step_pass (visiting [] observed orphans) w = (w, collecting orphans)
  step_pass (visiting (inst ∷ rest) observed orphans) w = visit inst rest observed orphans w
  step_pass (kicking rest observed orphans) w = (send_kick w, visiting rest observed orphans)
  step_pass (tearing_down inst rest observed orphans) w = (w, visiting rest observed orphans)
  step_pass (collecting []) w = (w, idle)
  step_pass (collecting (id ∷ orphans)) w = (w, removing_orphan id orphans)
  step_pass (removing_orphan id orphans) w = (w, collecting orphans)

  abbrev pub taken : Work O → Option (Job O × Work O) → Work O × Worker O
  taken w none = (w, waiting)
  taken w (some (job, w')) = (w', applying job)

  -- `runApplyWorker`
  unfoldable pub step_worker : Worker O → Work O → Work O × Worker O
  step_worker waiting w = if w.kick then (record w { kick = false }, draining) else (w, waiting)
  step_worker draining w = taken w (next_job w)
  step_worker (applying job) w = (finish_job w, draining)
  step_worker halted w = (w, halted)

  -- The worker looks at its context when it waits and after a job.
  unfoldable pub cancel_worker : Worker O → Work O → Work O × Worker O
  cancel_worker waiting w = (w, halted)
  cancel_worker draining w = (w, draining)
  cancel_worker (applying job) w = (finish_job w, halted)
  cancel_worker halted w = (w, halted)

  -- A pass begins with what the database and docker list at that time.
  abbrev pub begun : List Instance → O → List Text → Pass O → Pass O
  begun desired observed orphans idle = visiting desired observed orphans
  begun desired observed orphans p = p

-- The rows, the snapshot and the orphans of a pass that begins; or a step of a goroutine.
pub data Event (O : Type 0) : Type 0 where
  begin_pass : List Instance → O → List Text → Event O
  pass_event : Event O
  worker_event : Event O
  cancel_event : Event O

module _ {O : Type 0} where
  unfoldable pub step : Event O → Agent O → Agent O
  step (begin_pass desired observed orphans) a = record a {
    pass = begun desired observed orphans a.pass;
  }
  step pass_event a =
      let (w, p) = step_pass a.pass a.work in record { work = w; pass = p; worker = a.worker }
  step worker_event a =
      let (w, v) = step_worker a.worker a.work in record { work = w; pass = a.pass; worker = v }
  step cancel_event a =
      let (w, v) = cancel_worker a.worker a.work in record { work = w; pass = a.pass; worker = v }

  abbrev pub started : Agent O
  started = record { work = no_work; pass = idle; worker = waiting }

  -- The agent after a row of events, in any order of the two goroutines.
  unfoldable pub run : List (Event O) → Agent O
  run [] = started
  run (e ∷ before) = step e (run before)
