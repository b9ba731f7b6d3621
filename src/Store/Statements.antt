-- ===== src/Store/Statements.antt =====
-- internal/store/instances.go and domains.go: the operations on instances, services, domains and
-- bindings. The `Outcome` is whether SQLite carries out the statement.
use obacht_agent.Base.{
  ℕ, Bool, true, false, not, ◌&&◌, ◌||◌, Option, none, some, [], is_nil, elem, ◌==◌, nat_eq,
  list_eq, if◌then◌else◌,
}
use obacht_agent.Base.Int.{ℤ, pos, ltbℤ}
use obacht_agent.Base.Result.{Result, ok, err}
use obacht_agent.Base.Text.{Text, text}
use obacht_agent.Store.Table.{find_row, has_row, upsert_row, update_rows, delete_rows}
use obacht_agent.Store.Instances.{
  Instance, is_known_runtime, is_known_desired, is_no_runtime, is_no_desired,
}
use obacht_agent.Store.Locks.{Outcome, works, fails}
use obacht_agent.Store.Db.{
  Domain, Binding, InstanceService, Db, StoreError, missing_field, not_found, bad_binding,
  unpaired_auth, statement_failed, pair_eq, service_key, exec, known_statuses, known_targets,
  known_modes,
}

abbrev pub instance_key : Instance → Text
instance_key i = i.id

abbrev pub domain_key : Domain → Text
domain_key d = d.domain

abbrev pub binding_key : Binding → Text
binding_key b = b.domain

-- The columns that `ON CONFLICT` overwrites.
abbrev pub merge_instance : Instance → Instance → Instance
merge_instance old new = record old {
  template_id = new.template_id;
  runtime = new.runtime;
  version = new.version;
  desired_state = new.desired_state;
  config_json = new.config_json;
}

-- A row that is inserted has the defaults in the other columns.
abbrev pub fresh_instance : Instance → Instance
fresh_instance new = record new {
  observed_state = [];
  observed_json = [];
  service_ready = [];
  ready_at = none;
}

-- `UpsertInstance`
unfoldable pub upsert_instance : Outcome → Instance → Db → Result StoreError (Unit {0}) × Db
upsert_instance o inst db =
    if is_nil inst.id
      || is_nil inst.template_id
      || is_no_runtime inst.runtime
      || is_no_desired inst.desired_state
    then (err missing_field, db)
    else exec o (is_known_runtime inst.runtime && is_known_desired inst.desired_state) db
        (record db {
          instances = upsert_row instance_key merge_instance (fresh_instance inst) db.instances;
        })

-- `GetInstance`; a failing SELECT is `none` of the outer option
abbrev pub get_instance : Outcome → Text → Db → Result StoreError Instance
get_instance fails id db = err statement_failed
get_instance works id db = elim (find_row instance_key id db.instances) [
  | none ↦ err not_found
  | some inst ↦ ok inst
]

abbrev pub is_of : Text → Option Text → Bool
is_of id none = false
is_of id (some x) = x == id

-- ON DELETE CASCADE from `instances`
unfoldable pub cascade_instance : Text → Db → Db
cascade_instance id db = record {
  instances = delete_rows (λ i. i.id == id) db.instances;
  services = delete_rows (λ s. s.instance_id == id) db.services;
  domains = db.domains;
  bindings = delete_rows (λ b. is_of id b.instance_id) db.bindings;
  locks = delete_rows (λ l. l.holder == id) db.locks;
  secrets = delete_rows (λ s. s.instance_id == id) db.secrets;
  template_secrets = db.template_secrets;
}

-- `DeleteInstance`
unfoldable pub delete_instance : Outcome → Text → Db → Result StoreError (Unit {0}) × Db
delete_instance o id db = exec o true db (cascade_instance id db)

-- `SetObservedState`
unfoldable pub set_observed_state :
    Outcome → Text → Text → Text → Db → Result StoreError (Unit {0}) × Db
set_observed_state o id state payload db = exec o true db (record db {
  instances =
      update_rows instance_key id
        (λ i. record i { observed_state = state; observed_json = payload }) db.instances;
})

-- `SetServiceReady`; `none` is the zero time
unfoldable pub set_service_ready :
    Outcome → Text → Text → Option ℕ → Db → Result StoreError (Unit {0}) × Db
set_service_ready o id state at db = exec o true db (record db {
  instances =
      update_rows instance_key id (λ i. record i { service_ready = state; ready_at = at })
        db.instances;
})

abbrev pub merge_domain : Domain → Domain → Domain
merge_domain old new = record old { desired_status = new.desired_status }

abbrev pub new_domain : Text → Text → Domain
new_domain domain desired = record {
  domain = domain;
  desired_status = desired;
  observed_status = text "pending";
  cert_not_after = 0;
  cert_issuer = [];
  last_error = [];
  basic_auth_user = [];
  basic_auth_hash = [];
}

abbrev pub or_pending : Text → Text
or_pending desired = if is_nil desired then text "pending" else desired

-- `UpsertDomain`; the column `status`, which has the CHECK, gets the desired status
unfoldable pub upsert_domain : Outcome → Text → Text → Db → Result StoreError (Unit {0}) × Db
upsert_domain o domain desired db =
    if is_nil domain
    then (err missing_field, db)
    else exec o (elem (or_pending desired) known_statuses) db (record db {
      domains =
          upsert_row domain_key merge_domain (new_domain domain (or_pending desired)) db.domains;
    })

-- `SetDomainObserved`
unfoldable pub set_domain_observed :
    Outcome → Text → Text → Text → Db → Result StoreError (Unit {0}) × Db
set_domain_observed o domain observed last_err db = exec o true db (record db {
  domains =
      update_rows domain_key domain
        (λ d. record d { observed_status = observed; last_error = last_err }) db.domains;
})

-- `SetDomainCertNotAfter`; the zero time is 0
unfoldable pub set_domain_cert_not_after :
    Outcome → Text → ℕ → Db → Result StoreError (Unit {0}) × Db
set_domain_cert_not_after o domain not_after db = exec o true db (record db {
  domains = update_rows domain_key domain (λ d. record d { cert_not_after = not_after }) db.domains;
})

-- `SetDomainCert`
unfoldable pub set_domain_cert : Outcome → Text → ℕ → Text → Db → Result StoreError (Unit {0}) × Db
set_domain_cert o domain not_after issuer db = exec o true db (record db {
  domains =
      update_rows domain_key domain
        (λ d. record d { cert_not_after = not_after; cert_issuer = issuer }) db.domains;
})

abbrev pub affected : Bool → Result StoreError (Unit {0}) × Db → Result StoreError (Unit {0}) × Db
affected b (err e, db) = (err e, db)
affected true (ok _, db) = (ok tt, db)
affected false (ok _, db) = (err not_found, db)

abbrev pub same_emptiness : Text → Text → Bool
same_emptiness a b = if is_nil a then is_nil b else not (is_nil b)

-- `SetDomainBasicAuth`
unfoldable pub set_domain_basic_auth :
    Outcome → Text → Text → Text → Db → Result StoreError (Unit {0}) × Db
set_domain_basic_auth o domain username hash db =
    if is_nil domain
    then (err missing_field, db)
    else if not (same_emptiness username hash)
    then (err unpaired_auth, db)
    else affected (has_row domain_key domain db.domains) (
        exec o true db (record db {
          domains =
              update_rows domain_key domain
                (λ d. record d { basic_auth_user = username; basic_auth_hash = hash }) db.domains;
        }))

-- `DeleteDomain`, which cascades to the bindings
unfoldable pub delete_domain : Outcome → Text → Db → Result StoreError (Unit {0}) × Db
delete_domain o domain db = exec o true db (record db {
  domains = delete_rows (λ d. d.domain == domain) db.domains;
  bindings = delete_rows (λ b. b.domain == domain) db.bindings;
})

-- The argument of `UpsertBinding`, where the empty text stands for what is not set.
pub record BindingRequest : Type 0 where
  pub domain : Text
  pub instance_id : Text
  pub service_name : Text
  pub local_port : ℤ
  pub mode : Text
  pub path_prefix : Text

abbrev pub has_service : BindingRequest → Bool
has_service b = not (is_nil b.instance_id) && not (is_nil b.service_name)

abbrev pub has_local : BindingRequest → Bool
has_local b = ltbℤ (pos 0) b.local_port

abbrev pub to_binding : BindingRequest → Binding
to_binding b = record {
  domain = b.domain;
  instance_id = if has_service b then some b.instance_id else none;
  service_name = if has_service b then some b.service_name else none;
  local_port = b.local_port;
  mode = if is_nil b.mode then text "root" else b.mode;
  path_prefix = b.path_prefix;
}

-- The foreign keys and the CHECK of a binding.
abbrev pub instance_exists : Db → Option Text → Bool
instance_exists db none = true
instance_exists db (some id) = has_row instance_key id db.instances

abbrev pub binding_allowed : Db → Binding → Bool
binding_allowed db b =
    has_row domain_key b.domain db.domains
    && instance_exists db b.instance_id
    && elem b.mode known_modes

-- On a conflict every column but the key is overwritten.
abbrev pub merge_binding : Binding → Binding → Binding
merge_binding old new = record new { domain = old.domain }

abbrev pub merge_service : InstanceService → InstanceService → InstanceService
merge_service old new = record new {
  instance_id = old.instance_id;
  service_name = old.service_name;
}

-- `UpsertBinding`
unfoldable pub upsert_binding : Outcome → BindingRequest → Db → Result StoreError (Unit {0}) × Db
upsert_binding o b db =
    if is_nil b.domain
    then (err missing_field, db)
    else if not (has_service b) && not (has_local b)
    then (err bad_binding, db)
    else if has_service b && has_local b
    then (err bad_binding, db)
    else exec o (binding_allowed db (to_binding b)) db
        (record db { bindings = upsert_row binding_key merge_binding (to_binding b) db.bindings })

-- `DeleteBinding`
unfoldable pub delete_binding : Outcome → Text → Db → Result StoreError (Unit {0}) × Db
delete_binding o domain db =
    exec o true db (record db { bindings = delete_rows (λ b. b.domain == domain) db.bindings })

abbrev pub service_allowed : Db → InstanceService → Bool
service_allowed db s =
    has_row instance_key s.instance_id db.instances && elem s.target_type known_targets

-- `UpsertService`
unfoldable pub upsert_service : Outcome → InstanceService → Db → Result StoreError (Unit {0}) × Db
upsert_service o s db =
    if is_nil s.instance_id || is_nil s.service_name || is_nil s.target_type || is_nil s.target
    then (err missing_field, db)
    else exec o (service_allowed db s) db
        (record db { services = upsert_row service_key merge_service s db.services })
