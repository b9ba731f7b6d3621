-- ===== src/Reconciler/Steps.antt =====
-- Each step of a goroutine keeps the invariant of `Coherent`.
use obacht_agent.Base.{
  Bool, false, ◌≡◌, refl, List, [], ◌∷◌, elem, nat_eq, list_eq, list_beq_iff, Bool-cases, inl, inr,
  arith,
}
use obacht_agent.Base.Text.{Text}
use obacht_agent.Store.Instances.{
  Instance, Runtime, container, compose, system, other_runtime, DesiredState, installed, stopped,
  removed, other_desired,
}
use obacht_agent.Reconciler.Queue.{
  Work, ids, is_known, new_job, enqueue_apply, send_kick, worker_busy_with,
}
use obacht_agent.Reconciler.Goroutines.{
  Route, to_apply, to_down, deferred, inline, route_by, route, visit_as, visit, Pass, idle,
  visiting, kicking, tearing_down, collecting, removing_orphan, Worker, waiting, draining, applying,
  halted, Agent, step_pass, begun, Event, begin_pass, pass_event, worker_event, cancel_event, step,
}
use obacht_agent.Reconciler.Coherent.{
  IsQueue, IsTracked, IsNotApplying, IsSpared, IsAwake, is_kicking, IsCoherent, elem-append_last,
  ids-append_last, enqueue-IsQueue, step_worker-IsCoherent, cancel_worker-IsCoherent,
}

-- Only an instance that the worker is not busy with is torn down.
route_by-to_down :
    (busy : Bool) (want : DesiredState) (r : Runtime)
    → route_by busy want r ≡ to_down
    → busy ≡ false
route_by-to_down busy installed container h = absurd (ground arith)
route_by-to_down busy installed compose h = absurd (ground arith)
route_by-to_down busy stopped container h = ground arith
route_by-to_down busy stopped compose h = ground arith
route_by-to_down busy removed container h = ground arith
route_by-to_down busy removed compose h = ground arith
route_by-to_down busy (other_desired _) container h = ground arith
route_by-to_down busy (other_desired _) compose h = ground arith
route_by-to_down busy want system h = absurd (ground arith)
route_by-to_down busy want (other_runtime _) h = absurd (ground arith)

module _ {O : Type 0} where
  IsAwake-moved :
      (p p' : Pass O) (v : Worker O) (w : Work O)
      → is_kicking p ≡ false
      → IsAwake v p w
      → IsAwake v p' w
  IsAwake-moved p p' waiting w e h = ground arith
  IsAwake-moved p p' draining w e h = tt
  IsAwake-moved p p' (applying j) w e h = tt
  IsAwake-moved p p' halted w e h = tt

  -- The pass changes where it is, and the queue stays.
  moved-IsCoherent :
      (p p' : Pass O) (v : Worker O) (w : Work O)
      → is_kicking p ≡ false
      → IsSpared p' v w
      → IsCoherent p v w
      → IsCoherent p' v w
  moved-IsCoherent p p' v w e s c = record {
    queued = c.queued;
    tracked = c.tracked;
    spared = s;
    awake = IsAwake-moved p p' v w e c.awake;
  }

  enqueue-IsTracked :
      (inst : Instance) (o : O) (v : Worker O) (w : Work O)
      → is_known inst.id w ≡ false
      → IsTracked v w
      → IsTracked v (enqueue_apply inst o w)
  unfolding enqueue_apply
  enqueue-IsTracked inst o (applying j) w new (a, b, out) =
      rw
        (
          new,
          ids-append_last w.queue (new_job inst o),
          elem-append_last j.instance_id inst.id (ids w.queue),
        )
        (
          a,
          b,
          ground (
            arith,
            a,
            out,
            new,
            list_beq_iff w.active inst.id,
            list_beq_iff j.instance_id inst.id,
          ),
        )
  enqueue-IsTracked inst o waiting w new t = rw new t
  enqueue-IsTracked inst o draining w new t = rw new t
  enqueue-IsTracked inst o halted w new t = rw new t

  kicking-IsAwake :
      (v : Worker O) (w : Work O) (rest : List Instance) (o : O) (orphans : List Text)
      → IsAwake v (kicking rest o orphans) w
  kicking-IsAwake waiting w rest o orphans = ground arith
  kicking-IsAwake draining w rest o orphans = tt
  kicking-IsAwake (applying j) w rest o orphans = tt
  kicking-IsAwake halted w rest o orphans = tt

  send_kick-IsCoherent :
      (p p' : Pass O) (v : Worker O) (w : Work O)
      → IsSpared p' v (send_kick w)
      → IsCoherent p v w
      → IsCoherent p' v (send_kick w)
  unfolding send_kick
  send_kick-IsCoherent p p' v w s c = record {
    queued = record { same = c.queued.same; distinct = c.queued.distinct };
    tracked = tracked v c.tracked;
    spared = s;
    awake = awake v;
  }
    where
      tracked : (v : Worker O) → IsTracked v w → IsTracked v (send_kick w)
      tracked waiting t = t
      tracked draining t = t
      tracked (applying j) t = t
      tracked halted t = t

      awake : (v : Worker O) → IsAwake v p' (send_kick w)
      awake waiting = ground arith
      awake draining = tt
      awake (applying j) = tt
      awake halted = tt

  not_busy-IsSpared :
      (id : Text) (v : Worker O) (w : Work O)
      → worker_busy_with id w ≡ false
      → IsQueue w
      → IsTracked v w
      → (elem id (ids w.queue) ≡ false) × IsNotApplying id v
  unfolding worker_busy_with
  not_busy-IsSpared id (applying j) w free q (a, b, out) =
      (ground (arith, q.same id), λ same. ground (arith, same, a, list_beq_iff w.active id))
  not_busy-IsSpared id waiting w free q t = (ground (arith, q.same id), tt)
  not_busy-IsSpared id draining w free q t = (ground (arith, q.same id), tt)
  not_busy-IsSpared id halted w free q t = (ground (arith, q.same id), tt)

  visit-IsCoherent :
      (r : Route) (inst : Instance) (rest : List Instance) (o : O) (orphans : List Text)
      → (v : Worker O) (w : Work O) → (r ≡ to_down → worker_busy_with inst.id w ≡ false)
      → IsCoherent (visiting (inst ∷ rest) o orphans) v w
      → IsCoherent (visit_as r inst rest o orphans w).1 v (visit_as r inst rest o orphans w).0
  visit-IsCoherent to_apply inst rest o orphans v w free c =
      elim (Bool-cases (is_known inst.id w)) [
        | inl old ↦ rw old (moved-IsCoherent _ (visiting rest o orphans) v w refl tt c)
        | inr new ↦ rw new record {
          queued = enqueue-IsQueue inst o w c.queued;
          tracked = enqueue-IsTracked inst o v w new c.tracked;
          spared = tt;
          awake = kicking-IsAwake v _ rest o orphans;
        }
      ]
  visit-IsCoherent to_down inst rest o orphans v w free c =
      moved-IsCoherent _ (tearing_down inst rest o orphans) v w refl
        (not_busy-IsSpared inst.id v w (free refl) c.queued c.tracked) c
  visit-IsCoherent deferred inst rest o orphans v w free c =
      moved-IsCoherent _ (visiting rest o orphans) v w refl tt c
  visit-IsCoherent inline inst rest o orphans v w free c =
      moved-IsCoherent _ (visiting rest o orphans) v w refl tt c

  step_pass-IsCoherent :
      (p : Pass O) (v : Worker O) (w : Work O)
      → IsCoherent p v w
      → IsCoherent (step_pass p w).1 v (step_pass p w).0
  unfolding step_pass visit route
  step_pass-IsCoherent idle v w c = c
  step_pass-IsCoherent (visiting [] o orphans) v w c =
      moved-IsCoherent _ (collecting orphans) v w refl tt c
  step_pass-IsCoherent (visiting (inst ∷ rest) o orphans) v w c =
      visit-IsCoherent (route inst w) inst rest o orphans v w
        (route_by-to_down (worker_busy_with inst.id w) inst.desired_state inst.runtime) c
  step_pass-IsCoherent (kicking rest o orphans) v w c =
      send_kick-IsCoherent _ (visiting rest o orphans) v w tt c
  step_pass-IsCoherent (tearing_down inst rest o orphans) v w c =
      moved-IsCoherent _ (visiting rest o orphans) v w refl tt c
  step_pass-IsCoherent (collecting []) v w c = moved-IsCoherent _ idle v w refl tt c
  step_pass-IsCoherent (collecting (id ∷ orphans)) v w c =
      moved-IsCoherent _ (removing_orphan id orphans) v w refl tt c
  step_pass-IsCoherent (removing_orphan id orphans) v w c =
      moved-IsCoherent _ (collecting orphans) v w refl tt c

  begun-IsCoherent :
      (desired : List Instance) (o : O) (orphans : List Text) (p : Pass O) (v : Worker O)
      (w : Work O)
      → IsCoherent p v w
      → IsCoherent (begun desired o orphans p) v w
  begun-IsCoherent desired o orphans idle v w c =
      moved-IsCoherent idle (visiting desired o orphans) v w refl tt c
  begun-IsCoherent desired o orphans (visiting _ _ _) v w c = c
  begun-IsCoherent desired o orphans (kicking _ _ _) v w c = c
  begun-IsCoherent desired o orphans (tearing_down _ _ _ _) v w c = c
  begun-IsCoherent desired o orphans (collecting _) v w c = c
  begun-IsCoherent desired o orphans (removing_orphan _ _) v w c = c

  abbrev pub IsCoherentAgent : Agent O → Type 0
  IsCoherentAgent a = IsCoherent a.pass a.worker a.work

  pub step-IsCoherent : (e : Event O) (a : Agent O) → IsCoherentAgent a → IsCoherentAgent (step e a)
  unfolding step
  step-IsCoherent (begin_pass desired o orphans) a c =
      begun-IsCoherent desired o orphans a.pass a.worker a.work c
  step-IsCoherent pass_event a c = step_pass-IsCoherent a.pass a.worker a.work c
  step-IsCoherent worker_event a c = step_worker-IsCoherent a.pass a.worker a.work c
  step-IsCoherent cancel_event a c = cancel_worker-IsCoherent a.pass a.worker a.work c
