-- ===== src/Readiness/Starting.antt =====
-- The starting phase: it ends, and a run that was replaced does not disturb its successor.
use obacht_agent.Base.{
  ℕ, zero, suc, ◌+◌, ◌*◌, ◌/◌, ◌≤◌, ◌<◌, true, false, ◌≡◌, ◌≢◌, ◌⊎◌, refl, ap, ◌∙◌, some, is_nil,
  ltb, ◌==◌, nat_eq, list_eq, beq_refl, Bool-cases, inl, inr, arith,
}
use obacht_agent.Base.Result.{Result, ok, err}
use obacht_agent.Base.Text.{Text}
use obacht_agent.Store.Instances.{Instance}
use obacht_agent.Store.Db.{Db, StoreError}
use obacht_agent.Store.Statements.{get_instance, set_service_ready}
use obacht_agent.Readiness.Prober.{
  starting, ready, unhealthy, starting_interval, Target, Prober, Io, put, cancel, recorded,
  set_from, set_state, drop_ip, register, begin, is_run, mark_done, End, gave_up, became_ready,
  became_unhealthy, Round, run_starting, finish_run,
}

-- What a round has seen that ends the run in that way.
abbrev pub IsLast : ℕ → Round → End → Type 0
IsLast deadline r gave_up =
    (r.cancelled ≡ true)
    ⊎ ((r.cancelled ≡ false)
        × (r.passed ≡ false)
        × (r.time ≤ deadline)
        × (r.cancelled_waiting ≡ true))
IsLast deadline r became_ready = (r.cancelled ≡ false) × (r.passed ≡ true)
IsLast deadline r became_unhealthy =
    (r.cancelled ≡ false) × (r.passed ≡ false) × (deadline < r.time)

-- A round behind which the run probes again.
pub record IsPassing (deadline : ℕ) (r : Round) : Type 0 where
  pub not_cancelled : r.cancelled ≡ false
  pub not_passed : r.passed ≡ false
  pub in_time : r.time ≤ deadline
  pub not_stopped : r.cancelled_waiting ≡ false

-- The rounds from `k` on: each but the last goes on to the next one, and the last explains the end.
abbrev pub IsEnd : ℕ → ℕ → (ℕ → Round) → ℕ → End → Type 0
IsEnd zero deadline rounds k e = IsLast deadline (rounds k) e
IsEnd (suc more) deadline rounds k e =
    IsPassing deadline (rounds k) × IsEnd more deadline rounds (suc k) e

-- The run from round `k` ends within the fuel, and its end is what its last round has seen.
abbrev pub IsFinished : ℕ → ℕ → (ℕ → Round) → ℕ → Type 0
IsFinished fuel deadline rounds k =
    (e : End) × (more : ℕ) × (run_starting fuel deadline rounds k ≡ some e)
    × IsEnd more deadline rounds k e

round-IsFinished :
    (fuel deadline : ℕ) (rounds : ℕ → Round) (k : ℕ)
    → (ltb deadline (rounds k).time ≡ false → IsFinished fuel deadline rounds (suc k))
    → IsFinished (suc fuel) deadline rounds k
unfolding run_starting
round-IsFinished fuel deadline rounds k next = elim (Bool-cases (rounds k).cancelled) [
  | inl stop ↦ (gave_up, 0, rw stop refl, inl stop)
  | inr on ↦ elim (Bool-cases (rounds k).passed) [
    | inl up ↦ (became_ready, 0, rw (on, up) refl, (on, up))
    | inr down ↦ elim (Bool-cases (ltb deadline (rounds k).time)) [
      | inl over ↦ (became_unhealthy, 0, rw (on, down, over) refl, (on, down, ground (arith, over)))
      | inr early ↦
          let timely : (rounds k).time ≤ deadline = ground (arith, early) in
          elim (Bool-cases (rounds k).cancelled_waiting) [
            | inl stop ↦ (gave_up, 0, rw (on, down, early, stop) refl, inr (on, down, timely, stop))
            | inr waits ↦
                let (e, more, r, why) = next early in
                let passing : IsPassing deadline (rounds k) = record {
                  not_cancelled = on;
                  not_passed = down;
                  in_time = timely;
                  not_stopped = waits;
                } in
                (e, suc more, rw (on, down, early, waits) r, (passing, why))
          ]
    ]
  ]
]

-- The fuel that is left reaches past the deadline.
run_starting-IsFinished :
    (fuel deadline : ℕ) (rounds : ℕ → Round) (k : ℕ)
    → deadline < (rounds (k + fuel)).time
    → IsFinished (suc fuel) deadline rounds k
run_starting-IsFinished zero deadline rounds k late =
    round-IsFinished zero deadline rounds k (λ early.
      let here : (rounds (k + 0)).time ≡ (rounds k).time =
        ap (λ n. (rounds n).time) (omega arith) in
      absurd (ground (arith, early, late, here)))
run_starting-IsFinished (suc fuel) deadline rounds k late =
    round-IsFinished (suc fuel) deadline rounds k (λ early.
      run_starting-IsFinished fuel deadline rounds (suc k) (
        let next : (rounds (k + suc fuel)).time ≡ (rounds (suc k + fuel)).time =
          ap (λ n. (rounds n).time) (omega arith) in
        ground (arith, late, next)))

-- The starting phase ends: if round `k` ends no earlier than `k` intervals after the start, two rounds
-- more than the budget has intervals are enough, whatever the probes say. Every round that is carried out
-- but the last was not cancelled, failed, and was in time. The last one explains the end: the run becomes
-- ready on a probe that passed and was not cancelled, unhealthy on one that was not cancelled and failed
-- after the deadline, and gives up if it was cancelled during a probe or the wait behind one that failed.
pub run_starting-ends :
    (start budget : ℕ) (rounds : ℕ → Round)
    → ((k : ℕ) → start + starting_interval * k ≤ (rounds k).time)
    → IsFinished (suc (1 + budget / starting_interval)) (start + budget) rounds 0
run_starting-ends start budget rounds paced =
    run_starting-IsFinished (1 + budget / starting_interval) (start + budget) rounds 0
      (let last = paced (1 + budget / starting_interval) in omega (arith, last))

pub put-same : {A : Type 0} (k : Text) (a : A) (f : Text → A) → put k a f k ≡ a
put-same k a f = rw (beq_refl k) refl

recorded-active :
    (r : Result StoreError (Unit {0}) × Db) (p : Prober) → (recorded r p).active ≡ p.active
recorded-active (err e, db) p = refl
recorded-active (ok _, db) p = refl

set_from-active :
    (io : Io) (id state : Text) (r : Result StoreError Instance) (p : Prober)
    → (set_from io id state r p).active ≡ p.active
set_from-active io id state (err e) p = refl
set_from-active io id state (ok inst) p = elim (Bool-cases (inst.service_ready == state)) [
  | inl same ↦ rw same refl
  | inr other ↦ rw other (recorded-active (set_service_ready io.write id state _ p.db) p)
]

pub set_state-active :
    (io : Io) (id state : Text) (p : Prober) → (set_state io id state p).active ≡ p.active
unfolding set_state
set_state-active io id state p = set_from-active io id state (get_instance io.read id p.db) p

drop_ip-active : (name : Text) (p : Prober) → (drop_ip name p).active ≡ p.active
drop_ip-active name p = elim (Bool-cases (is_nil name)) [
  | inl empty_name ↦ rw empty_name refl
  | inr given ↦ rw given refl
]

begin-active :
    (io : Io) (t : Target) (p : Prober)
    → is_nil t.instance_id ≡ false
    → (begin io t p).active t.instance_id ≡ some p.next_run
unfolding begin register
begin-active io t p given = rw given (
    ap (λ f. f t.instance_id)
      (set_state-active io t.instance_id starting _ ∙ drop_ip-active t.container_name _)
    ∙ put-same t.instance_id (some p.next_run) p.active)

mark_done-keeps :
    (id : Text) (run n : ℕ) (p : Prober)
    → p.active id ≡ some n
    → n ≢ run
    → (mark_done id run p).active id ≡ some n
unfolding mark_done
mark_done-keeps id run n p h ne =
    let off : is_run (p.active id) run ≡ false = ap (λ o. is_run o run) h ∙ ground (arith, ne) in
    rw off h

-- A run that has ended, in whatever way, does not clear the registration of another run of the instance.
finish_run-keeps :
    (io : Io) (id : Text) (run n : ℕ) (e : End) (p : Prober)
    → p.active id ≡ some n
    → n ≢ run
    → (finish_run io id run e p).active id ≡ some n
unfolding finish_run
finish_run-keeps io id run n gave_up p h ne = mark_done-keeps id run n (cancel run p) h ne
finish_run-keeps io id run n became_ready p h ne =
    mark_done-keeps id run n _
      (ap (λ f. f id) (set_state-active io id ready (mark_done id run p))
        ∙ mark_done-keeps id run n p h ne)
      ne
finish_run-keeps io id run n became_unhealthy p h ne =
    mark_done-keeps id run n _
      (ap (λ f. f id) (set_state-active io id unhealthy (mark_done id run p))
        ∙ mark_done-keeps id run n p h ne)
      ne

-- `Begin` of a target registers the new run, and no run that was started before, when it ends in whatever
-- way, clears this registration.
pub begin-survives :
    (io io' : Io) (t : Target) (p : Prober) (run : ℕ) (e : End)
    → is_nil t.instance_id ≡ false
    → run < p.next_run
    → ((begin io t p).active t.instance_id ≡ some p.next_run)
      × ((finish_run io' t.instance_id run e (begin io t p)).active t.instance_id ≡ some p.next_run)
begin-survives io io' t p run e given older =
    let now = begin-active io t p given in
    (now, finish_run-keeps io' t.instance_id run p.next_run e (begin io t p) now (λ h. omega arith))
