-- ===== src/Sync/Install.antt =====
-- internal/sync/signed_mutation.go: `dispatchInstanceUpsert`.
use obacht_agent.Base.{
  Bool, true, false, not, ◌&&◌, ◌||◌, Option, none, some, List, [], ◌∷◌, is_nil, ◌==◌, nat_eq,
  list_eq, if◌then◌else◌,
}
use obacht_agent.Base.Result.{Result, ok, err, ◌>>=◌, ◌>>◌, guard}
use obacht_agent.Base.Text.{Text, text}
use obacht_agent.SignedMut.Envelope.{Mutation}
use obacht_agent.SignedMut.Verify.{Bytes}
use obacht_agent.Store.Instances.{
  Instance, Runtime, DesiredState, installed, removed, system, to_runtime, to_desired,
}
use obacht_agent.Store.Locks.{Outcome, works, fails}
use obacht_agent.Store.Db.{Db, StoreError, statement_failed}
use obacht_agent.Store.Statements.{get_instance, upsert_instance}
use obacht_agent.Sync.Params.{InstallParams, decode_install}
use obacht_agent.Sync.Device.{
  Outcomes, Os, darwin, linux, Host, DispatchError, bad_params, ids_required,
  signed_manifest_required, bad_manifest_b64, bad_sig_b64, manifest_rejected, system_unsupported,
  power_mode_required, build_failed, list_failed, already_installed, Device, Step, refuse, finish,
}

abbrev pub is_darwin : Os → Bool
is_darwin darwin = true
is_darwin _ = false

abbrev pub is_linux : Os → Bool
is_linux linux = true
is_linux _ = false

abbrev pub is_system : Runtime → Bool
is_system system = true
is_system _ = false

abbrev pub is_removed : DesiredState → Bool
is_removed removed = true
is_removed _ = false

-- `ListInstances`
abbrev pub list_instances : Outcome → Db → Result StoreError (List Instance)
list_instances fails db = err statement_failed
list_instances works db = ok db.instances

-- The other instance of a template that runs on the host.
unfoldable pub find_duplicate : Text → Text → List Instance → Option Text
find_duplicate id template_id [] = none
find_duplicate id template_id (e ∷ es) =
    let rest = find_duplicate id template_id es in
    if is_system e.runtime
      && e.template_id == template_id
      && not (e.id == id)
      && not (is_removed e.desired_state)
    then some e.id
    else rest

abbrev pub refuse_duplicate : Text → Option Text → Result DispatchError (Unit {0})
refuse_duplicate template_id none = ok tt
refuse_duplicate template_id (some id) = err (already_installed template_id id)

abbrev pub from_option : {A : Type 0} → DispatchError → Option A → Result DispatchError A
from_option e none = err e
from_option e (some a) = ok a

abbrev pub from_listed : {A : Type 0} → Result StoreError A → Result DispatchError A
from_listed (err e) = err (list_failed e)
from_listed (ok a) = ok a

-- The stored configuration that the kept secrets are taken from.
abbrev pub stored_config : Result StoreError Instance → Text
stored_config (err e) = []
stored_config (ok inst) = inst.config_json

module _ (host : Host) where
  abbrev pub darwin_host_svc : Bytes → Bool
  darwin_host_svc manifest = is_darwin host.goos && host.manifests.has_host_service manifest

  abbrev pub linux_system : Bytes → Bool
  linux_system manifest =
      is_linux host.goos
      && (host.manifests.has_managed_service manifest || host.manifests.has_kiosk manifest)

  -- The bytes of the manifest, whose signature by the registry holds.
  unfoldable pub verified_manifest : InstallParams → Result DispatchError Bytes
  verified_manifest p = do
    guard (not (is_nil p.instance_id) && not (is_nil p.template_id)) ids_required
    guard (not (is_nil p.manifest_b64) && not (is_nil p.manifest_sig_b64)) signed_manifest_required
    manifest ← from_option bad_manifest_b64 (host.manifests.decode_base64 p.manifest_b64)
    signature ← from_option bad_sig_b64 (host.manifests.decode_base64 p.manifest_sig_b64)
    guard (host.manifests.verify manifest signature) manifest_rejected
    ok manifest

  unfoldable pub check_singleton :
      Outcome → InstallParams → Bytes → Db → Result DispatchError (Unit {0})
  check_singleton o p manifest db =
      if darwin_host_svc manifest && not (is_removed (to_desired p.desired_state))
      then (do
        existing ← from_listed (list_instances o db)
        refuse_duplicate p.template_id (find_duplicate p.instance_id p.template_id existing))
      else ok tt

  unfoldable pub check_system :
      Outcome → InstallParams → Bytes → Db → Result DispatchError (Unit {0})
  check_system o p manifest db =
      if host.manifests.runtime_type manifest == text "system"
      then (do
        guard (darwin_host_svc manifest || linux_system manifest) system_unsupported
        check_singleton o p manifest db)
      else ok tt

  unfoldable pub check_power : Bytes → Result DispatchError (Unit {0})
  check_power manifest =
      guard
        (not (host.manifests.min_sudo_level manifest == text "power")
          || is_linux host.goos && host.power_mode)
        power_mode_required

  -- The row that is written.
  unfoldable pub planned_instance :
      Outcomes → InstallParams → Bytes → Db → Result DispatchError Instance
  planned_instance o p manifest db = do
    built ← from_option build_failed (
        host.manifests.build_instance_config manifest
          (host.manifests.resolve_secret_sentinels p.user_config
            (stored_config (get_instance o.read_instance p.instance_id db)))
          p.instance_id p.template_id p.version)
    ok (record {
      id = p.instance_id;
      template_id = p.template_id;
      runtime = to_runtime built.runtime;
      version = built.version;
      desired_state = if is_nil p.desired_state then installed else to_desired p.desired_state;
      config_json = built.config_json;
      observed_state = [];
      observed_json = [];
      service_ready = [];
      ready_at = none;
    })

  -- everything before the write
  unfoldable pub plan_install : Outcomes → Mutation → Db → Result DispatchError Instance
  plan_install o m db = elim (decode_install m.params) [
    | err e ↦ err (bad_params m.op)
    | ok p ↦ do
      manifest ← verified_manifest p
      check_system o.list_instances p manifest db
      check_power manifest
      planned_instance o p manifest db
  ]

  abbrev pub write_install : Outcomes → Result DispatchError Instance → Device → Step
  write_install o (err e) d = refuse e d
  write_install o (ok inst) d = finish (upsert_instance o.write inst d.db) d

  unfoldable pub dispatch_instance_upsert : Outcomes → Mutation → Device → Step
  dispatch_instance_upsert o m d = write_install o (plan_install o m d.db) d
