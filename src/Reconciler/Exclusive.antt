-- ===== src/Reconciler/Exclusive.antt =====
-- What holds of the two goroutines in every order of their steps.
use obacht_agent.Base.{
  true, false, ◌||◌, ◌≡◌, ◌≢◌, refl, List, [], ◌∷◌, is_nil, nat_eq, list_eq, Memᴰ, arith,
}
use obacht_agent.Base.Text.{Text}
use obacht_agent.Store.Instances.{Instance}
use obacht_agent.Reconciler.Queue.{Job}
use obacht_agent.Reconciler.Goroutines.{tearing_down, waiting, applying, Event, run}
use obacht_agent.Reconciler.Coherent.{is_kicking}
use obacht_agent.Reconciler.Steps.{IsCoherentAgent, step-IsCoherent}

module _ {O : Type 0} where
  -- After any events `workPending` names exactly the queued instances and no instance is queued twice;
  -- `workActive` and its flag are those of the job that is being applied, which is not queued again,
  -- and are empty when there is none; an instance in whose handler for a stopped or removed row the pass
  -- is, is neither queued nor being applied, while the removal of a container without a row is not
  -- covered; and a worker that waits beside a filled queue has a kick sent or being sent.
  pub run-IsCoherent : (events : List (Event O)) → IsCoherentAgent (run events)
  unfolding run
  run-IsCoherent [] = record {
    queued = record { same = λ id. refl; distinct = tt };
    tracked = (refl, refl);
    spared = tt;
    awake = refl;
  }
  run-IsCoherent (e ∷ before) = step-IsCoherent e (run before) (run-IsCoherent before)

  -- In no order of the steps is the worker applying an instance while the pass is in the handler of its
  -- row for a desired state of stopped or removed; the removal of a container without a row is not covered.
  pub apply_and_down_exclusive :
      (events : List (Event O)) (j : Job O) (inst : Instance) (rest : List Instance) (o : O)
      → (orphans : List Text) → (run events).worker ≡ applying j
      → (run events).pass ≡ tearing_down inst rest o orphans
      → j.instance_id ≢ inst.id
  apply_and_down_exclusive events j inst rest o orphans v p =
      (rw (v, p) at ((run-IsCoherent events).spared)).1

  -- No wake-up is lost: a worker that waits while a job is queued finds a kick in the channel, as soon
  -- as `enqueueApply` has returned.
  pub waiting_has_kick :
      (events : List (Event O)) (job : Job O)
      → (run events).worker ≡ waiting
      → is_kicking (run events).pass ≡ false
      → Memᴰ job (run events).work.queue
      → (run events).work.kick ≡ true
  waiting_has_kick events job v p m =
      let awake = rw v at ((run-IsCoherent events).awake) in filled (run events).work.queue m awake
    where
      filled :
          (js : List (Job O))
          → Memᴰ job js
          → (is_nil js || (run events).work.kick || is_kicking (run events).pass) ≡ true
          → (run events).work.kick ≡ true
      filled [] m h = elim m [ ]
      filled (k ∷ js) m h = ground arith
