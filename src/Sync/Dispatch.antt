-- ===== src/Sync/Dispatch.antt =====
-- internal/sync/signed_mutation.go: `dispatchSignedMutation`, one function for each operation.
use obacht_agent.Base.{
  suc, Bool, true, false, not, ◌||◌, Option, none, some, [], is_nil, ◌==◌, nat_eq, list_eq,
  if◌then◌else◌,
}
use obacht_agent.Base.Result.{Result, ok, err}
use obacht_agent.Base.Text.{Text, text}
use obacht_agent.BasicAuth.{validate_credentials}
use obacht_agent.SignedMut.Envelope.{Mutation}
use obacht_agent.Store.Instances.{Instance, DesiredState, removed, to_desired}
use obacht_agent.Store.Db.{StoreError}
use obacht_agent.Store.Statements.{
  get_instance, upsert_instance, upsert_domain, delete_domain, set_domain_basic_auth,
  upsert_binding, delete_binding, BindingRequest,
}
use obacht_agent.Sync.Params.{
  BasicAuthParams, BindingParams, decode_one, decode_two, decode_basic_auth, decode_binding,
}
use obacht_agent.Sync.Device.{
  Outcomes, Host, bad_params, unsupported_op, bad_desired_state, store_failed, bad_credentials,
  hash_failed, Device, Step, refuse, finish,
}
use obacht_agent.Sync.Install.{dispatch_instance_upsert}

-- `s.ingress.Reload(ctx)`, which only a write that succeeded reaches; what it returns is dropped.
abbrev pub reload : Bool → Step → Step
reload true (ok _, d) = (ok tt, record d { reloads = suc d.reloads })
reload false (ok _, d) = (ok tt, d)
reload has (err e, d) = (err e, d)

-- `instance.set_state` and `instance.delete`: the row as it is stored, with another desired state.
abbrev pub set_desired : Outcomes → DesiredState → Result StoreError Instance → Device → Step
set_desired o s (err e) d = refuse (store_failed e) d
set_desired o s (ok inst) d =
    finish (upsert_instance o.write (record inst { desired_state = s }) d.db) d

module _ (host : Host) (o : Outcomes) (m : Mutation) (d : Device) where
  unfoldable pub domain_upsert : Step
  domain_upsert = elim (decode_two "domain" "desired_status" m.params) [
    | err e ↦ refuse (bad_params m.op) d
    | ok p ↦ reload host.has_ingress (finish (upsert_domain o.write p.0 p.1 d.db) d)
  ]

  unfoldable pub domain_delete : Step
  domain_delete = elim (decode_one "domain" m.params) [
    | err e ↦ refuse (bad_params m.op) d
    | ok domain ↦
        if is_nil domain
        then refuse (bad_params m.op) d
        else finish (delete_domain o.write domain d.db) d
  ]

  abbrev pub write_hash : BasicAuthParams → Option Text → Step
  write_hash p none = refuse hash_failed d
  write_hash p (some hash) = finish (set_domain_basic_auth o.write p.domain p.username hash d.db) d

  unfoldable pub set_credentials : BasicAuthParams → Step
  set_credentials p = elim (validate_credentials p.username p.password) [
    | err e ↦ refuse (bad_credentials e) d
    | ok _ ↦ write_hash p (host.hash p.password)
  ]

  unfoldable pub domain_set_basic_auth : Step
  domain_set_basic_auth = elim (decode_basic_auth m.params) [
    | err e ↦ refuse (bad_params m.op) d
    | ok p ↦
        if is_nil p.domain
        then refuse (bad_params m.op) d
        else if p.clear
        then finish (set_domain_basic_auth o.write p.domain [] [] d.db) d
        else set_credentials p
  ]

  unfoldable pub instance_delete : Step
  instance_delete = elim (decode_one "instance_id" m.params) [
    | err e ↦ refuse (bad_params m.op) d
    | ok id ↦
        if is_nil id
        then refuse (bad_params m.op) d
        else set_desired o removed (get_instance o.read_instance id d.db) d
  ]

  unfoldable pub instance_set_state : Step
  instance_set_state = elim (decode_two "instance_id" "desired_state" m.params) [
    | err e ↦ refuse (bad_params m.op) d
    | ok p ↦
        if is_nil p.0
        then refuse (bad_params m.op) d
        else if not (p.1 == text "installed" || p.1 == text "stopped")
        then refuse (bad_desired_state p.1) d
        else set_desired o (to_desired p.1) (get_instance o.read_instance p.0 d.db) d
  ]

  abbrev pub binding_request : BindingParams → BindingRequest
  binding_request p = record {
    domain = p.domain;
    instance_id = p.instance_id;
    service_name = p.service;
    local_port = p.local_port;
    mode = [];
    path_prefix = [];
  }

  unfoldable pub binding_upsert : Step
  binding_upsert = elim (decode_binding m.params) [
    | err e ↦ refuse (bad_params m.op) d
    | ok p ↦
        if is_nil p.domain
        then refuse (bad_params m.op) d
        else finish (upsert_binding o.write (binding_request p) d.db) d
  ]

  unfoldable pub binding_delete : Step
  binding_delete = elim (decode_one "domain" m.params) [
    | err e ↦ refuse (bad_params m.op) d
    | ok domain ↦
        if is_nil domain
        then refuse (bad_params m.op) d
        else finish (delete_binding o.write domain d.db) d
  ]

  unfoldable pub dispatch_signed_mutation : Step
  dispatch_signed_mutation =
      if m.op == text "domain.upsert"
      then domain_upsert
      else if m.op == text "domain.delete"
      then domain_delete
      else if m.op == text "domain.set_basic_auth"
      then domain_set_basic_auth
      else if m.op == text "instance.upsert"
      then dispatch_instance_upsert host o m d
      else if m.op == text "instance.delete"
      then instance_delete
      else if m.op == text "instance.set_state"
      then instance_set_state
      else if m.op == text "binding.upsert"
      then binding_upsert
      else if m.op == text "binding.delete"
      then binding_delete
      else refuse (unsupported_op m.op) d
