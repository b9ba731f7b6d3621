-- ===== src/Sync/Device.antt =====
-- The state that a signed mutation can change, the errors of its dispatch, and what the dispatch takes
-- from the rest of the agent and from Go's library.
use obacht_agent.Base.{ℕ, suc, Bool, Option}
use obacht_agent.Base.Result.{Result, ok, err}
use obacht_agent.Base.Text.{Text}
use obacht_agent.SignedMut.Json.{Members}
use obacht_agent.SignedMut.Verify.{Bytes}
use obacht_agent.BasicAuth.{CredentialError}
use obacht_agent.Store.Locks.{Outcome}
use obacht_agent.Store.Db.{Db, StoreError}

-- What SQLite does to the reads and to the write of one dispatch.
pub record Outcomes : Type 0 where
  pub list_instances : Outcome
  pub read_instance : Outcome
  pub write : Outcome

-- `runtime.GOOS`
pub data Os : Type 0 where
  darwin linux other_os : Os

-- `manifest.BuildInstanceConfig`, its configuration as the JSON that is stored
pub record Built : Type 0 where
  pub runtime : Text
  pub version : Text
  pub config_json : Text

-- internal/manifest, seen from the dispatcher.
pub record Manifests : Type 0 where
  pub decode_base64 : Text → Option Bytes
  pub verify : Bytes → Bytes → Bool
  pub runtime_type : Bytes → Text
  pub has_host_service : Bytes → Bool
  pub has_managed_service : Bytes → Bool
  pub has_kiosk : Bytes → Bool
  pub min_sudo_level : Bytes → Text
  pub resolve_secret_sentinels : Members → Text → Members
  pub build_instance_config : Bytes → Members → Text → Text → Text → Option Built

-- The host: its platform, whether Power Mode is on, bcrypt, the ingress and the templates.
pub record Host : Type 0 where
  pub goos : Os
  pub power_mode : Bool
  pub hash : Text → Option Text
  pub has_ingress : Bool
  pub manifests : Manifests

pub data DispatchError : Type 0 where
  bad_params unsupported_op bad_desired_state : Text → DispatchError
  store_failed : StoreError → DispatchError
  bad_credentials : CredentialError → DispatchError
  hash_failed ids_required signed_manifest_required bad_manifest_b64 bad_sig_b64 : DispatchError
  manifest_rejected system_unsupported power_mode_required build_failed : DispatchError
  list_failed : StoreError → DispatchError
  already_installed : Text → Text → DispatchError

-- The database, how often the reconciler was asked for a pass, and how often the ingress for a reload.
pub record Device : Type 0 where
  pub db : Db
  pub triggers : ℕ
  pub reloads : ℕ

abbrev pub Step : Type 0
Step = Result DispatchError (Unit {0}) × Device

-- Nothing has been written.
abbrev pub refuse : DispatchError → Device → Step
refuse e d = (err e, d)

-- The end of a case: the write's error, or `rec.Trigger()`.
abbrev pub finish : Result StoreError (Unit {0}) × Db → Device → Step
finish (err e, db) d = (err (store_failed e), record d { db = db })
finish (ok _, db) d = (ok tt, record d { db = db; triggers = suc d.triggers })
