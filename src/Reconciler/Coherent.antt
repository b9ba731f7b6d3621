-- ===== src/Reconciler/Coherent.antt =====
-- The invariant of the queue and of the two goroutines that share it.
use obacht_agent.Base.{
  Bool, true, false, not, ◌&&◌, ◌||◌, ◌≡◌, ◌≢◌, refl, ap, List, [], ◌∷◌, ◌++◌, elem, is_nil, ◌==◌,
  nat_eq, list_eq, list_beq_iff, Bool-cases, ◌⊎◌, inl, inr, arith,
}
use obacht_agent.Base.Text.{Text}
use obacht_agent.Store.Instances.{Instance}
use obacht_agent.Reconciler.Queue.{
  Job, Work, ids, is_known, new_job, enqueue_apply, next_job, next_of, finish_job, without,
}
use obacht_agent.Reconciler.Goroutines.{
  Pass, idle, visiting, kicking, tearing_down, collecting, removing_orphan, Worker, waiting,
  draining, applying, halted, taken, step_worker, cancel_worker,
}

-- No text occurs twice.
abbrev pub IsDistinct : List Text → Type 0
IsDistinct [] = Unit
IsDistinct (x ∷ xs) = (elem x xs ≡ false) × IsDistinct xs

pub elem-append_last : (x y : Text) (xs : List Text) → elem x (xs ++ y ∷ []) ≡ (elem x xs || x == y)
elem-append_last x y [] = ground arith
elem-append_last x y (z ∷ xs) = ground (arith, elem-append_last x y xs)

elem-without : (x y : Text) (xs : List Text) → elem x (without y xs) ≡ (not (x == y) && elem x xs)
elem-without x y [] = ground arith
elem-without x y (z ∷ xs) =
    ground (arith, elem-without x y xs, list_beq_iff x y, list_beq_iff z y, list_beq_iff x z)

IsDistinct-append_last :
    (y : Text) (xs : List Text) → elem y xs ≡ false → IsDistinct xs → IsDistinct (xs ++ y ∷ [])
IsDistinct-append_last y [] h d = (refl, tt)
IsDistinct-append_last y (x ∷ xs) h (fresh, d) = (
  ground (arith, elem-append_last x y xs, list_beq_iff x y, list_beq_iff y x),
  IsDistinct-append_last y xs (ground arith) d,
)

module _ {O : Type 0} where
  pub ids-append_last :
      (js : List (Job O)) (j : Job O) → ids (js ++ j ∷ []) ≡ ids js ++ j.instance_id ∷ []
  ids-append_last [] j = refl
  ids-append_last (k ∷ js) j = ap (λ xs. k.instance_id ∷ xs) (ids-append_last js j)

  -- `workPending` names the queued jobs, each once.
  pub record IsQueue (w : Work O) : Type 0 where
    pub same : (id : Text) → elem id w.pending ≡ elem id (ids w.queue)
    pub distinct : IsDistinct (ids w.queue)

  -- `workActive` is the job of the worker, which is not in the queue.
  abbrev pub IsTracked : Worker O → Work O → Type 0
  IsTracked (applying j) w =
      (w.active ≡ j.instance_id)
      × (w.active_first ≡ j.first_install)
      × (elem j.instance_id (ids w.queue) ≡ false)
  IsTracked waiting w = (w.active ≡ []) × (w.active_first ≡ false)
  IsTracked draining w = (w.active ≡ []) × (w.active_first ≡ false)
  IsTracked halted w = (w.active ≡ []) × (w.active_first ≡ false)

  abbrev pub IsNotApplying : Text → Worker O → Type 0
  IsNotApplying id (applying j) = j.instance_id ≢ id
  IsNotApplying id waiting = Unit
  IsNotApplying id draining = Unit
  IsNotApplying id halted = Unit

  -- The instance that the pass stops or removes is neither queued nor being applied.
  abbrev pub IsSpared : Pass O → Worker O → Work O → Type 0
  IsSpared (tearing_down inst _ _ _) v w =
      (elem inst.id (ids w.queue) ≡ false) × IsNotApplying inst.id v
  IsSpared idle v w = Unit
  IsSpared (visiting _ _ _) v w = Unit
  IsSpared (kicking _ _ _) v w = Unit
  IsSpared (collecting _) v w = Unit
  IsSpared (removing_orphan _ _) v w = Unit

  abbrev pub is_kicking : Pass O → Bool
  is_kicking (kicking _ _ _) = true
  is_kicking idle = false
  is_kicking (visiting _ _ _) = false
  is_kicking (tearing_down _ _ _ _) = false
  is_kicking (collecting _) = false
  is_kicking (removing_orphan _ _) = false

  -- A worker that waits beside a filled queue has a kick in the channel or on the way.
  abbrev pub IsAwake : Worker O → Pass O → Work O → Type 0
  IsAwake waiting p w = (is_nil w.queue || w.kick || is_kicking p) ≡ true
  IsAwake draining p w = Unit
  IsAwake (applying _) p w = Unit
  IsAwake halted p w = Unit

  -- A job joins the queue.
  pub enqueue-IsQueue :
      (inst : Instance) (o : O) (w : Work O) → IsQueue w → IsQueue (enqueue_apply inst o w)
  unfolding enqueue_apply
  enqueue-IsQueue inst o w q = elim (Bool-cases (is_known inst.id w)) [
    | inl old ↦ rw old q
    | inr new ↦ rw new record {
      same = λ id.
          rw (ids-append_last w.queue (new_job inst o), elem-append_last id inst.id (ids w.queue))
            (ground (arith, q.same id, list_beq_iff id inst.id));
      distinct = rw (ids-append_last w.queue (new_job inst o)) (
          IsDistinct-append_last inst.id (ids w.queue) (ground (arith, q.same inst.id)) q.distinct);
    }
  ]

  pub record IsCoherent (p : Pass O) (v : Worker O) (w : Work O) : Type 0 where
    pub queued : IsQueue w
    pub tracked : IsTracked v w
    pub spared : IsSpared p v w
    pub awake : IsAwake v p w

  -- What a step of the worker has to keep for the instance that is being torn down.
  IsSpared-mono :
      (p : Pass O) (v v' : Worker O) (w w' : Work O)
      → ((id : Text)
          → elem id (ids w.queue) ≡ false
          → IsNotApplying id v
          → (elem id (ids w'.queue) ≡ false) × IsNotApplying id v')
      → IsSpared p v w
      → IsSpared p v' w'
  IsSpared-mono (tearing_down inst _ _ _) v v' w w' f (out, away) = f inst.id out away
  IsSpared-mono idle v v' w w' f s = tt
  IsSpared-mono (visiting _ _ _) v v' w w' f s = tt
  IsSpared-mono (kicking _ _ _) v v' w w' f s = tt
  IsSpared-mono (collecting _) v v' w w' f s = tt
  IsSpared-mono (removing_orphan _ _) v v' w w' f s = tt

  taken-IsCoherent :
      (p : Pass O) (w : Work O) (js : List (Job O))
      → w.queue ≡ js
      → IsCoherent p draining w
      → IsCoherent p (taken w (next_of js w)).1 (taken w (next_of js w)).0
  taken-IsCoherent p w [] e c = record {
    queued = c.queued;
    tracked = c.tracked;
    spared = IsSpared-mono p draining waiting w w (λ id out away. (out, tt)) c.spared;
    awake = rw e refl;
  }
  taken-IsCoherent p w (j ∷ rest) e c =
      let distinct = rw e at (c.queued.distinct) in
      record {
        queued = record {
          same = λ id. rw (elem-without id j.instance_id w.pending) (
              ground
                (arith, rw e at (c.queued.same id), distinct.0, list_beq_iff id j.instance_id));
          distinct = distinct.1;
        };
        tracked = (refl, refl, distinct.0);
        spared =
            IsSpared-mono p draining (applying j) w _
              (λ id out away.
                let absent : elem id (j.instance_id ∷ ids rest) ≡ false = rw e at out in
                (
                  ground (arith, absent),
                  λ same. ground (arith, absent, same, list_beq_iff id j.instance_id),
                ))
              c.spared;
        awake = tt;
      }

  finish-IsCoherent :
      (p : Pass O) (v : Worker O) (j : Job O) (w : Work O)
      → (v ≡ draining) ⊎ (v ≡ halted)
      → IsCoherent p (applying j) w
      → IsCoherent p v (finish_job w)
  unfolding finish_job
  finish-IsCoherent p v j w (inl e) c = rw e record {
    queued = record { same = c.queued.same; distinct = c.queued.distinct };
    tracked = (refl, refl);
    spared = IsSpared-mono p (applying j) draining w _ (λ id out away. (out, tt)) c.spared;
    awake = tt;
  }
  finish-IsCoherent p v j w (inr e) c = rw e record {
    queued = record { same = c.queued.same; distinct = c.queued.distinct };
    tracked = (refl, refl);
    spared = IsSpared-mono p (applying j) halted w _ (λ id out away. (out, tt)) c.spared;
    awake = tt;
  }

  pub step_worker-IsCoherent :
      (p : Pass O) (v : Worker O) (w : Work O)
      → IsCoherent p v w
      → IsCoherent p (step_worker v w).1 (step_worker v w).0
  unfolding step_worker next_job
  step_worker-IsCoherent p waiting w c = elim (Bool-cases w.kick) [
    | inr off ↦ simp off c
    | inl on ↦ rw on record {
      queued = record { same = c.queued.same; distinct = c.queued.distinct };
      tracked = c.tracked;
      spared = IsSpared-mono p waiting draining w _ (λ id out away. (out, tt)) c.spared;
      awake = tt;
    }
  ]
  step_worker-IsCoherent p draining w c = taken-IsCoherent p w w.queue refl c
  step_worker-IsCoherent p (applying j) w c = finish-IsCoherent p draining j w (inl refl) c
  step_worker-IsCoherent p halted w c = c

  pub cancel_worker-IsCoherent :
      (p : Pass O) (v : Worker O) (w : Work O)
      → IsCoherent p v w
      → IsCoherent p (cancel_worker v w).1 (cancel_worker v w).0
  unfolding cancel_worker
  cancel_worker-IsCoherent p waiting w c = record {
    queued = c.queued;
    tracked = c.tracked;
    spared = IsSpared-mono p waiting halted w w (λ id out away. (out, tt)) c.spared;
    awake = tt;
  }
  cancel_worker-IsCoherent p draining w c = c
  cancel_worker-IsCoherent p (applying j) w c = finish-IsCoherent p halted j w (inr refl) c
  cancel_worker-IsCoherent p halted w c = c
