-- ===== src/Reconciler/Ipc.antt =====
-- internal/reconciler/loop.go: `injectIPC`, over the environment and the volumes of a container.
use obacht_agent.Base.{
  Bool, true, false, Option, List, [], ◌∷◌, ◌++◌, any, is_nil, ◌==◌, nat_eq, list_eq, if◌then◌else◌,
}
use obacht_agent.Base.Result.{Result, ok, err}
use obacht_agent.Base.Text.{Text, text}
use obacht_agent.Store.Table.{has_row}
use obacht_agent.Store.Locks.{Outcome}
use obacht_agent.Store.Db.{Db, StoreError}
use obacht_agent.Store.Secrets.{ensure_instance_secret}
use obacht_agent.Redact.{EnvVar}

pub record VolumeMount : Type 0 where
  pub source : Text
  pub target : Text
  pub read_only : Bool
  pub agent_managed : Bool

-- The fields of `container.Spec` that are read and written here.
pub record IpcSpec : Type 0 where
  pub env : List EnvVar
  pub volumes : List VolumeMount

abbrev pub env_key : EnvVar → Text
env_key e = e.key

abbrev pub container_socket : Text
container_socket = text "/run/obacht/agent.sock"

abbrev pub socket_var : Text
socket_var = text "OBACHT_AGENT_SOCKET"

abbrev pub secret_var : Text
secret_var = text "OBACHT_INSTANCE_SECRET"

-- `if _, ok := spec.Env[key]; !ok { spec.Env[key] = value }`
unfoldable pub set_default : Text → Text → List EnvVar → List EnvVar
set_default k v env = if has_row env_key k env then env else record { key = k; value = v } ∷ env

-- The socket is mounted once.
unfoldable pub mount_socket : Text → List VolumeMount → List VolumeMount
mount_socket socket vs =
    if any (λ v. v.target == container_socket) vs
    then vs
    else vs
      ++ record {
        source = socket;
        target = container_socket;
        read_only = false;
        agent_managed = true;
      }
        ∷ []

abbrev pub Injected : Type 0
Injected = Result StoreError IpcSpec × Db

abbrev pub with_secret :
    Text → List EnvVar → List VolumeMount → Result StoreError Text × Db → Injected
with_secret socket env vs (err e, db) = (err e, db)
with_secret socket env vs (ok secret, db) =
    (ok (record { env = set_default secret_var secret env; volumes = mount_socket socket vs }), db)

abbrev pub with_socket :
    Outcome → Outcome → Option Text → Text → Text → List EnvVar → List VolumeMount → Db → Injected
with_socket read write random socket id env vs db =
    if has_row env_key secret_var env
    then (ok (record { env = env; volumes = mount_socket socket vs }), db)
    else with_secret socket env vs (ensure_instance_secret read write random id db)

-- `injectIPC`; the outcomes are those of `EnsureInstanceSecret`
unfoldable pub inject_ipc : Outcome → Outcome → Option Text → Text → Text → IpcSpec → Db → Injected
inject_ipc read write random socket id spec db =
    if is_nil socket
    then (ok spec, db)
    else with_socket read write random socket id (set_default socket_var container_socket spec.env)
        spec.volumes db
