-- ===== src/Readiness/Prober.antt =====
-- internal/readiness/probe.go: the state of the prober and its operations. A goroutine is a number, and
-- its context a flag that `cancelled` holds.
use obacht_agent.Base.{
  ℕ, zero, suc, Bool, true, false, not, ◌&&◌, ◌||◌, Option, none, some, List, [], ◌∷◌, is_nil, leb,
  ltb, ◌==◌, nat_eq, list_eq, if◌then◌else◌, Eq,
}
use obacht_agent.Base.Result.{Result, ok, err}
use obacht_agent.Base.Text.{Text, text}
use obacht_agent.Base.Int.{ℤ}
use obacht_agent.Store.Instances.{Instance}
use obacht_agent.Store.Locks.{Outcome}
use obacht_agent.Store.Db.{Db, StoreError}
use obacht_agent.Store.Statements.{get_instance, set_service_ready}

-- The states.
abbrev pub starting : Text
starting = text "starting"

abbrev pub ready : Text
ready = text "ready"

abbrev pub unhealthy : Text
unhealthy = text "unhealthy"

abbrev pub unhealthy_after : ℕ
unhealthy_after = 3

-- in seconds
abbrev pub starting_interval : ℕ
starting_interval = 5

pub record Target : Type 0 where
  pub instance_id : Text
  pub service_name : Text
  pub container_name : Text
  pub target_port : ℤ
  pub host_port : Bool

-- `none` and 0 stand for a key that the map does not have.
pub record Prober : Type 0 where
  pub db : Db
  pub active : Text → Option ℕ
  pub failures : Text → ℕ
  pub ips : Text → Option Text
  pub cancelled : ℕ → Bool
  pub next_run : ℕ
  pub notified : ℕ

-- What SQLite does to the read and the write of one `Set`, and the time.
pub record Io : Type 0 where
  pub read : Outcome
  pub write : Outcome
  pub now : ℕ

abbrev pub put : {K A : Type 0} ⦃e : Eq K⦄ → K → A → (K → A) → K → A
put k a f x = if x == k then a else f x

abbrev pub cancel : ℕ → Prober → Prober
cancel run p = record p { cancelled = put run true p.cancelled }

abbrev pub cancel_old : Option ℕ → Prober → Prober
cancel_old none p = p
cancel_old (some run) p = cancel run p

abbrev pub recorded : Result StoreError (Unit {0}) × Db → Prober → Prober
recorded (err e, db) p = record p { db = db }
recorded (ok _, db) p = record p { db = db; notified = suc p.notified }

abbrev pub set_from : Io → Text → Text → Result StoreError Instance → Prober → Prober
set_from io id state (err e) p = p
set_from io id state (ok inst) p =
    if inst.service_ready == state
    then p
    else recorded
        (set_service_ready io.write id state (if state == ready then some io.now else none) p.db) p

-- `Set`
unfoldable pub set_state : Io → Text → Text → Prober → Prober
set_state io id state p = set_from io id state (get_instance io.read id p.db) p

abbrev pub drop_ip : Text → Prober → Prober
drop_ip name p = if is_nil name then p else record p { ips = put name none p.ips }

-- `Begin` up to its `Set`: the run that is started has the number `next_run`
unfoldable pub register : Target → Prober → Prober
register t p =
    let q = cancel_old (p.active t.instance_id) p in
    drop_ip t.container_name (record q {
      active = put t.instance_id (some p.next_run) p.active;
      failures = put t.instance_id 0 p.failures;
      next_run = suc p.next_run;
    })

-- `Begin`
unfoldable pub begin : Io → Target → Prober → Prober
begin io t p =
    if is_nil t.instance_id then p else set_state io t.instance_id starting (register t p)

-- `Forget`
unfoldable pub forget : Text → Text → Prober → Prober
forget id name p =
    let q = cancel_old (p.active id) p in
    drop_ip name (record q { active = put id none p.active; failures = put id 0 p.failures })

abbrev pub is_run : Option ℕ → ℕ → Bool
is_run none run = false
is_run (some current) run = current == run

-- `markDone`
unfoldable pub mark_done : Text → ℕ → Prober → Prober
mark_done id run p =
    if is_run (p.active id) run then record p { active = put id none p.active } else p

-- How `runStarting` ends.
pub data End : Type 0 where
  gave_up became_ready became_unhealthy : End

-- One round of its loop: what the probe says, whether the context was cancelled during the probe or the
-- wait behind it, and the time after the probe.
pub record Round : Type 0 where
  pub passed : Bool
  pub cancelled : Bool
  pub cancelled_waiting : Bool
  pub time : ℕ

-- The loop from round `k`; `none` is fuel that has run out.
unfoldable pub run_starting : ℕ → ℕ → (ℕ → Round) → ℕ → Option End
run_starting zero deadline rounds k = none
run_starting (suc fuel) deadline rounds k =
    let rest = run_starting fuel deadline rounds (suc k) in
    let r = rounds k in
    if r.cancelled
    then some gave_up
    else if r.passed
    then some became_ready
    else if ltb deadline r.time
    then some became_unhealthy
    else if r.cancelled_waiting
    then some gave_up
    else rest

-- What the run does when its loop ends, the deferred calls included.
unfoldable pub finish_run : Io → Text → ℕ → End → Prober → Prober
finish_run io id run gave_up p = mark_done id run (cancel run p)
finish_run io id run became_ready p =
    mark_done id run (cancel run (set_state io id ready (mark_done id run p)))
finish_run io id run became_unhealthy p =
    mark_done id run (cancel run (set_state io id unhealthy (mark_done id run p)))

-- The steady probe of one target: `cur` is the state that the tick has read.
abbrev pub count : Text → Bool → Prober → Prober
count id passed p = record p {
  failures = put id (if passed then 0 else suc (p.failures id)) p.failures;
}

unfoldable pub flap : Io → Text → Text → Bool → Prober → Prober
flap io id cur passed p =
    if passed && cur == unhealthy
    then set_state io id ready p
    else if not passed && cur == ready && leb unhealthy_after (p.failures id)
    then set_state io id unhealthy p
    else p

abbrev pub is_active : Option ℕ → Bool
is_active none = false
is_active (some run) = true

-- A target of one tick that is not skipped, and the goroutine that it gets; `stopped` is whether the
-- context is cancelled when the probe returns.
unfoldable pub steady_one : Io → Text → Text → Bool → Bool → Prober → Prober
steady_one io id cur stopped passed p =
    if is_active (p.active id) || not (cur == ready || cur == unhealthy)
    then p
    else if stopped
    then p
    else flap io id cur passed (count id passed p)

-- The states that the tick reads; of an unread table every state is empty.
abbrev pub state_of : Result StoreError Instance → Text
state_of (err e) = []
state_of (ok inst) = inst.service_ready

abbrev pub run_targets :
    (Text → Io) → (Text → Text) → (Text → Bool) → (Text → Bool) → List Text → Prober → Prober
run_targets io cur stopped passed [] p = p
run_targets io cur stopped passed (id ∷ ids) p =
    run_targets io cur stopped passed ids
      (steady_one (io id) id (cur id) (stopped id) (passed id) p)

-- `RunSteady`, its goroutines one after the other: each works on an instance of its own
unfoldable pub run_steady :
    Outcome → (Text → Io) → (Text → Bool) → (Text → Bool) → List Text → Prober → Prober
run_steady listed io stopped passed ids p =
    run_targets io (λ id. state_of (get_instance listed id p.db)) stopped passed ids p
