-- ===== src/Reconciler/Observed.antt =====
-- What is observed of an instance after an attempt to bring it up.
use obacht_agent.Base.{
  Bool, true, false, not, ◌||◌, ◌≡◌, refl, sym, ap, subst, ◌∙◌, some, List, [], ◌∷◌, is_nil, ◌==◌,
  nat_eq, list_eq, if◌then◌else◌, Bool-cases, inl, inr,
}
use obacht_agent.Base.Result.{ok, err}
use obacht_agent.Base.Text.{Text, text}
use obacht_agent.Store.Table.{find_row}
use obacht_agent.Store.Rows.{find-update}
use obacht_agent.Store.Instances.{Instance}
use obacht_agent.Store.Locks.{Outcome, works, fails}
use obacht_agent.Store.Db.{Db, InstanceService, exec}
use obacht_agent.Store.Statements.{instance_key, upsert_service, set_observed_state}
use obacht_agent.Reconciler.Apply.{
  NamedService, RunSpec, ParsedRun, no_run, bad_run, good_run, Docker, ApplyOutcomes, ApplyState,
  is_transient, record_observed_error, mark_installing, register_named, converge, run, compose_run,
  apply_compose, has_upstream,
}

-- The observed state of a row.
abbrev pub IsShown : Text → Text → Db → Type 0
IsShown id state db =
    (row : Instance) × (find_row instance_key id db.instances ≡ some row)
    × (row.observed_state ≡ state)

set_observed-IsShown :
    (id old state payload : Text) (db : Db)
    → IsShown id old db
    → IsShown id state (set_observed_state works id state payload db).1
unfolding set_observed_state
set_observed-IsShown id old state payload db (row, found, same) = (
  record row { observed_state = state; observed_json = payload },
  find-update instance_key (λ i. record i { observed_state = state; observed_json = payload })
      (λ i. refl) id db.instances found,
  refl,
)

exec-instances :
    (o : Outcome) (allowed : Bool) (db db' : Db)
    → db'.instances ≡ db.instances
    → (exec o allowed db db').1.instances ≡ db.instances
exec-instances works true db db' h = h
exec-instances works false db db' h = refl
exec-instances fails allowed db db' h = refl

upsert_service-instances :
    (o : Outcome) (s : InstanceService) (db : Db)
    → (upsert_service o s db).1.instances ≡ db.instances
unfolding upsert_service
upsert_service-instances o s db =
    elim (Bool-cases
      (is_nil s.instance_id || is_nil s.service_name || is_nil s.target_type || is_nil s.target)) [
        | inl missing ↦ rw missing refl
        | inr given ↦ rw given (exec-instances o _ db _ refl)
      ]

if-instances :
    (b : Bool) (db' db : Db)
    → db'.instances ≡ db.instances
    → (if b then db' else db).instances ≡ db.instances
if-instances true db' db h = h
if-instances false db' db h = refl

-- What a compose project is observed as, by what its specification and docker say.
abbrev pub expected : Docker → Instance → ParsedRun → Text
expected docker inst no_run = inst.observed_state
expected docker inst (bad_run cause) = text "error"
expected docker inst (good_run spec) = elim (docker.apply inst.id inst.template_id spec) [
  | ok applied ↦ text "installed"
  | err message ↦
      if not (is_transient message)
      then text "error"
      else if is_nil inst.observed_state || inst.observed_state == text "pending"
      then text "installing"
      else inst.observed_state
]

module _ (docker : Docker) (o : ApplyOutcomes) (inst : Instance) (marks : o.mark ≡ works)
    (observes : o.observe ≡ works) where
  register_named-instances :
      (routed : NamedService → Bool) (svcs : List NamedService) (db : Db)
      → (register_named docker o inst routed svcs db).instances ≡ db.instances
  unfolding register_named
  register_named-instances routed [] db = refl
  register_named-instances routed (svc ∷ svcs) db =
      register_named-instances routed svcs _
      ∙ if-instances (routed svc) _ db (upsert_service-instances (o.register svc.name) _ db)

  record_error-IsShown :
      (old cause : Text) (m : ApplyState)
      → IsShown inst.id old m.db
      → IsShown inst.id (text "error") (record_observed_error docker o inst cause m).1.db
  unfolding set_observed_state
  record_error-IsShown old cause m h =
      rw observes (set_observed-IsShown inst.id old (text "error") cause m.db h)

  abbrev marked : Text
  marked =
      if is_nil inst.observed_state || inst.observed_state == text "pending"
      then text "installing"
      else inst.observed_state

  mark-IsShown :
      (m : ApplyState)
      → IsShown inst.id inst.observed_state m.db
      → IsShown inst.id marked (mark_installing docker o inst m).db
  unfolding mark_installing set_observed_state
  mark-IsShown m h =
      elim (Bool-cases (is_nil inst.observed_state || inst.observed_state == text "pending")) [
        | inl new ↦
            rw (new, marks)
              (set_observed-IsShown inst.id inst.observed_state (text "installing") [] m.db h)
        | inr old ↦ rw old h
      ]

  converge-IsShown :
      (spec : RunSpec) (m : ApplyState)
      → IsShown inst.id inst.observed_state m.db
      → IsShown inst.id
          (expected docker inst (good_run spec))
          (run docker o inst (has_upstream docker o inst) (text "installed") spec m).1.db
  converge-IsShown spec m h =
      elim (docker.apply inst.id inst.template_id spec)
        as (λ r.
          IsShown inst.id
            (elim r [
              | ok applied ↦ text "installed"
              | err message ↦ if not (is_transient message) then text "error" else marked
            ])
            (converge docker o inst (has_upstream docker o inst) (text "installed") spec
              (mark_installing docker o inst m) r).1.db) [
                | ok applied ↦ installed_case
                | err message ↦ failed_case message
              ]
    where
      after : ApplyState
      after = mark_installing docker o inst m

      services : Db
      services = register_named docker o inst (has_upstream docker o inst) spec.services after.db

      installed_case :
          IsShown inst.id
            (text "installed")
            (set_observed_state o.observe inst.id (text "installed") [] services).1
      installed_case =
          let (row, found, same) = mark-IsShown m h in
          let there : find_row instance_key inst.id services.instances ≡ some row =
            ap (find_row instance_key inst.id)
              (register_named-instances (has_upstream docker o inst) spec.services after.db)
            ∙ found in
          subst
            (λ w.
              IsShown inst.id (text "installed")
                (set_observed_state w inst.id (text "installed") [] services).1)
            (sym observes)
            (set_observed-IsShown inst.id marked (text "installed") [] services (row, there, same))

      failed_case :
          (message : Text)
          → IsShown inst.id
              (if not (is_transient message) then text "error" else marked)
              (if is_transient message
                then (false, after)
                else record_observed_error docker o inst message after).1.db
      failed_case message = elim (Bool-cases (is_transient message)) [
        | inl blip ↦ rw blip (mark-IsShown m h)
        | inr fault ↦ rw fault (record_error-IsShown marked message after (mark-IsShown m h))
      ]

  -- Where SQLite carries out the writes of the state, an attempt to bring up a compose project whose row is
  -- as the pass has read it leaves exactly one of these as observed: `installed` if docker has applied it;
  -- `error` if its specification is bad or docker has failed; and where docker was not reachable or there
  -- is no specification, what was observed before, but `installing` for a project that is new to docker.
  pub apply_compose-IsShown :
      (m : ApplyState)
      → IsShown inst.id inst.observed_state m.db
      → IsShown inst.id
          (expected docker inst (docker.parse inst.config_json))
          (apply_compose docker o inst true m).1.db
  unfolding apply_compose
  apply_compose-IsShown m h = parsed (docker.parse inst.config_json)
    where
      parsed :
          (p : ParsedRun)
          → IsShown inst.id (expected docker inst p) (compose_run docker o inst m p).1.db
      parsed no_run = h
      parsed (bad_run cause) = record_error-IsShown inst.observed_state cause m h
      parsed (good_run spec) = converge-IsShown spec m h
