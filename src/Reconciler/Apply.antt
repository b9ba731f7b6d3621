-- ===== src/Reconciler/Apply.antt =====
-- internal/reconciler/loop.go: `applyContainer` and `applyCompose` over the tables of the store. The
-- parsers of the specifications, the secrets of templates and docker are the interface `Docker`.
use obacht_agent.Base.{
  ℕ, suc, Bool, false, not, ◌&&◌, ◌||◌, Option, none, some, List, [], ◌∷◌, any, map, is_nil, ◌==◌,
  nat_eq, list_eq, if◌then◌else◌,
}
use obacht_agent.Base.Int.{ℤ, pos}
use obacht_agent.Base.Result.{Result, ok, err}
use obacht_agent.Base.Text.{Text, text, contains}
use obacht_agent.Readiness.Config.{beqℤ}
use obacht_agent.Store.Instances.{Instance}
use obacht_agent.Store.Locks.{Outcome}
use obacht_agent.Store.Db.{Db, StoreError, TemplateSecret}
use obacht_agent.Store.Statements.{upsert_service, set_observed_state}
use obacht_agent.Reconciler.Ipc.{IpcSpec, Injected, inject_ipc}

pub record NamedService : Type 0 where
  pub name : Text
  pub target_port : ℤ
  pub target_service : Text
  pub app_path : Text

pub record RunSpec : Type 0 where
  pub ipc : IpcSpec
  pub services : List NamedService

pub data ParsedRun : Type 0 where
  no_run : ParsedRun
  bad_run : Text → ParsedRun
  good_run : RunSpec → ParsedRun

-- `ParseSpec`, `ExpandSecrets` with `ExpandHostVars`, and `Apply`, which returns whether it changed
-- something; errors are their texts. `upstream` is the name that ingress reaches a service by.
pub record Docker : Type 0 where
  pub parse : Text → ParsedRun
  pub expand : Text → RunSpec → List TemplateSecret → Result Text RunSpec × List TemplateSecret
  pub apply : Text → Text → RunSpec → Result Text Bool
  pub upstream : Text → NamedService → Text
  pub container_state : Text → Option Text

pub record ApplyOutcomes : Type 0 where
  pub mark : Outcome
  pub observe : Outcome
  pub register : Text → Outcome
  pub read_secret : Outcome
  pub write_secret : Outcome
  pub random : Option Text
  pub socket : Text

-- The tables, the number of calls of `notifyChanged`, and the instances of the calls of `beginReadiness`.
pub record ApplyState : Type 0 where
  pub db : Db
  pub notified : ℕ
  pub begun : List Text

-- `isTransientDockerErr`
abbrev pub transient_causes : List Text
transient_causes = map text (
    "connection refused" ∷ "EOF" ∷ "dial unix" ∷ "broken pipe" ∷ "connection reset"
    ∷ "no such file or directory" ∷ [])

unfoldable pub is_transient : Text → Bool
is_transient message = any (λ sub. contains message sub) transient_causes

module _ (docker : Docker) (o : ApplyOutcomes) (inst : Instance) where
  abbrev pub after_error : ApplyState → Result StoreError (Unit {0}) × Db → Bool × ApplyState
  after_error m (err e, db) = (false, record m { db = db })
  after_error m (ok _, db) = (not (inst.observed_state == text "error"), record m { db = db })

  -- `recordObservedError`
  abbrev pub record_observed_error : Text → ApplyState → Bool × ApplyState
  record_observed_error cause m =
      after_error m (set_observed_state o.observe inst.id (text "error") cause m.db)

  abbrev pub after_mark : ApplyState → Result StoreError (Unit {0}) × Db → ApplyState
  after_mark m (err e, db) = record m { db = db }
  after_mark m (ok _, db) = record m { db = db; notified = suc m.notified }

  abbrev pub is_new : Bool
  is_new = is_nil inst.observed_state || inst.observed_state == text "pending"

  -- `markInstalling`
  unfoldable pub mark_installing : ApplyState → ApplyState
  mark_installing m =
      if is_new
      then after_mark m (set_observed_state o.mark inst.id (text "installing") [] m.db)
      else m

  unfoldable pub register_named : (NamedService → Bool) → List NamedService → Db → Db
  register_named routed [] db = db
  register_named routed (svc ∷ svcs) db =
      let next =
        (upsert_service (o.register svc.name)
          (record {
            instance_id = inst.id;
            service_name = svc.name;
            target_type = text "docker_dns";
            target = docker.upstream inst.id svc;
            app_path = svc.app_path;
          })
          db).1 in
      register_named routed svcs (if routed svc then next else db)

  -- What follows docker's `Apply`; `state` is what is then observed.
  abbrev pub converge :
      (NamedService → Bool) → Text → RunSpec → ApplyState → Result Text Bool → Bool × ApplyState
  converge routed state spec m (err message) =
      if is_transient message then (false, m) else record_observed_error message m
  converge routed state spec m (ok applied) = (
    applied || not (state == inst.observed_state),
    record {
      db =
          (set_observed_state o.observe inst.id state []
            (register_named routed spec.services m.db)).1;
      notified = m.notified;
      begun =
          if applied || state == text "installed" && not (inst.observed_state == text "installed")
          then inst.id ∷ m.begun
          else m.begun;
    },
  )

  abbrev pub run : (NamedService → Bool) → Text → RunSpec → ApplyState → Bool × ApplyState
  run routed state spec m =
      converge routed state spec (mark_installing m) (docker.apply inst.id inst.template_id spec)

  -- A service of a container, and of a compose project.
  abbrev pub has_port : NamedService → Bool
  has_port svc = not (is_nil svc.name || beqℤ svc.target_port (pos 0))

  abbrev pub has_upstream : NamedService → Bool
  has_upstream svc =
      not (is_nil svc.name || beqℤ svc.target_port (pos 0) || is_nil svc.target_service)

  -- the state of the container that the pass has seen
  abbrev pub state_seen : Option Text → Text
  state_seen none = text "installed"
  state_seen (some s) = if is_nil s || s == text "running" then text "installed" else s

  abbrev pub after_expand :
      ApplyState → Result Text RunSpec × List TemplateSecret → Bool × ApplyState
  after_expand m (err cause, secrets) =
      record_observed_error cause (record m { db = record m.db { template_secrets = secrets } })
  after_expand m (ok spec, secrets) =
      run has_port (state_seen (docker.container_state inst.id)) spec
        (record m { db = record m.db { template_secrets = secrets } })

  abbrev pub after_inject : RunSpec → ApplyState → Injected → Bool × ApplyState
  after_inject spec m (err e, db) = (false, record m { db = db })
  after_inject spec m (ok ipc, db) =
      after_expand (record m { db = db })
        (docker.expand inst.id (record spec { ipc = ipc }) db.template_secrets)

  abbrev pub container_run : ApplyState → ParsedRun → Bool × ApplyState
  container_run m no_run = (false, m)
  container_run m (bad_run cause) = (false, m)
  container_run m (good_run spec) =
      after_inject spec m
        (inject_ipc o.read_secret o.write_secret o.random o.socket inst.id spec.ipc m.db)

  -- `applyContainer`
  unfoldable pub apply_container : ApplyState → Bool × ApplyState
  apply_container m = container_run m (docker.parse inst.config_json)

  abbrev pub compose_run : ApplyState → ParsedRun → Bool × ApplyState
  compose_run m no_run = (false, m)
  compose_run m (bad_run cause) = record_observed_error cause m
  compose_run m (good_run spec) = run has_upstream (text "installed") spec m

  -- `applyCompose`, where the driver may not be wired
  unfoldable pub apply_compose : Bool → ApplyState → Bool × ApplyState
  apply_compose wired m =
      if wired then compose_run m (docker.parse inst.config_json) else (false, m)
