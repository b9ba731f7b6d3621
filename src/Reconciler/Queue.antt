-- ===== src/Reconciler/Queue.antt =====
-- internal/reconciler/loop.go: the queue of the apply worker. Each definition is one critical section
-- under `workMu`; `O` is the type of the snapshot of observed containers that a job carries.
use obacht_agent.Base.{
  Bool, true, false, not, ◌&&◌, ◌||◌, Option, none, some, List, [], ◌∷◌, ◌++◌, map, keep, elem,
  is_nil, ◌==◌, nat_eq, list_eq, if◌then◌else◌,
}
use obacht_agent.Base.Text.{Text, text}
use obacht_agent.Store.Instances.{Instance}

-- `applyJob`
pub record Job (O : Type 0) : Type 0 where
  pub instance_id : Text
  pub observed : O
  pub first_install : Bool

-- The fields of `Reconciler` that `workMu` guards, and the channel `workKick` of one element.
-- `pending` holds the keys of `workPending`; `active` is empty when the worker is idle.
pub record Work (O : Type 0) : Type 0 where
  pub queue : List (Job O)
  pub pending : List Text
  pub active : Text
  pub active_first : Bool
  pub kick : Bool

-- `isFirstInstallState`
abbrev pub is_first_install_state : Text → Bool
is_first_install_state observed =
    is_nil observed || observed == text "pending" || observed == text "installing"

-- `delete(r.workPending, id)`
abbrev pub without : Text → List Text → List Text
without id = keep (λ x. not (x == id))

module _ {O : Type 0} where
  abbrev pub no_work : Work O
  no_work = record { queue = []; pending = []; active = []; active_first = false; kick = false }

  abbrev pub ids : List (Job O) → List Text
  ids = map (λ j. j.instance_id)

  -- `workerBusyWith`
  unfoldable pub worker_busy_with : Text → Work O → Bool
  worker_busy_with id w = w.active == id || elem id w.pending

  -- Whether `enqueueApply` returns at once.
  abbrev pub is_known : Text → Work O → Bool
  is_known id w = elem id w.pending || w.active == id

  abbrev pub new_job : Instance → O → Job O
  new_job inst observed = record {
    instance_id = inst.id;
    observed = observed;
    first_install = is_first_install_state inst.observed_state;
  }

  -- `enqueueApply` up to the unlocking; the kick is a step of its own.
  unfoldable pub enqueue_apply : Instance → O → Work O → Work O
  enqueue_apply inst observed w =
      if is_known inst.id w
      then w
      else record w { queue = w.queue ++ new_job inst observed ∷ []; pending = inst.id ∷ w.pending }

  -- Whether `enqueueApply` reports the instance as queued.
  unfoldable pub reports_queued : Instance → Work O → Bool
  reports_queued inst w =
      not (is_known inst.id w)
      && not (is_nil w.active)
      && is_first_install_state inst.observed_state

  -- The send on `workKick`, which is dropped when the channel is full.
  unfoldable pub send_kick : Work O → Work O
  send_kick w = record w { kick = true }

  -- The worker takes the job at the head of the queue, if there is one.
  abbrev pub next_of : List (Job O) → Work O → Option (Job O × Work O)
  next_of [] w = none
  next_of (job ∷ rest) w = some (
    job,
    record w {
      queue = rest;
      pending = without job.instance_id w.pending;
      active = job.instance_id;
      active_first = job.first_install;
    },
  )

  unfoldable pub next_job : Work O → Option (Job O × Work O)
  next_job w = next_of w.queue w

  -- The worker is done with its job.
  unfoldable pub finish_job : Work O → Work O
  finish_job w = record w { active = []; active_first = false }

  -- `ActiveWork`
  unfoldable pub active_work : Work O → Text × List Text
  active_work w =
      (if w.active_first then w.active else [], ids (keep (λ j. j.first_install) w.queue))
