-- ===== src/Store/Owned.antt =====
-- The constraints on exclusivity locks, instance secrets and template secrets, through the operations of
-- internal/store on instances, domains, bindings and services.
use obacht_agent.Base.{
  Bool, true, false, not, ◌&&◌, ◌||◌, ◌≡◌, refl, ◌∙◌, List, All, All-mono, is_nil, ◌==◌, nat_eq,
  list_eq, if◌then◌else◌, Bool-cases, inl, inr, arith,
}
use obacht_agent.Base.Result.{Result, err}
use obacht_agent.Base.Text.{Text}
use obacht_agent.Store.Table.{has_row, update_rows, IsKeyed, delete_rows}
use obacht_agent.Store.Rows.{
  All-delete, delete-All, All-both, has_row-upsert, has_row-update, delete-IsKeyed,
  has_row-delete_other,
}
use obacht_agent.Store.Instances.{Instance, is_no_runtime, is_no_desired}
use obacht_agent.Store.Locks.{Lock, Outcome, works, fails}
use obacht_agent.Store.Db.{
  Domain, Binding, InstanceService, InstanceSecret, Db, StoreError, pair_eq, exec,
}
use obacht_agent.Store.Statements.{
  instance_key, domain_key, merge_instance, fresh_instance, upsert_instance, cascade_instance,
  delete_instance, set_observed_state, set_service_ready, upsert_domain, set_domain_observed,
  set_domain_cert, set_domain_cert_not_after, affected, same_emptiness, set_domain_basic_auth,
  delete_domain, has_service, has_local, upsert_binding, delete_binding, upsert_service,
}
use obacht_agent.Store.Secrets.{secret_key}
use obacht_agent.Store.Templates.{template_key}
use obacht_agent.Store.Intact.{merge_instance_key, affected-keeps}
use obacht_agent.Store.Kept.{kept_key}
use obacht_agent.Store.Ops.{
  StoreOp, put_instance, drop_instance, observe_instance, ready_instance, put_domain,
  observe_domain, certify_domain, expire_domain, protect_domain, drop_domain, put_binding,
  drop_binding, put_service, run_op,
}

abbrev pub lock_key : Lock → Text
lock_key l = l.group

-- The foreign key of a lock or a secret.
abbrev pub IsInstance : Db → Text → Type 0
IsInstance db id = has_row instance_key id db.instances ≡ true

pub record IsOwned (db : Db) : Type 0 where
  pub lock_keys : IsKeyed lock_key db.locks
  pub secret_keys : IsKeyed secret_key db.secrets
  pub template_keys : IsKeyed template_key db.template_secrets
  pub lock_rows : All (λ l. IsInstance db l.holder) db.locks
  pub secret_rows : All (λ s. IsInstance db s.instance_id) db.secrets

pub exec-IsOwned :
    (o : Outcome) (allowed : Bool) (db db' : Db)
    → IsOwned db
    → (allowed ≡ true → IsOwned db')
    → IsOwned (exec o allowed db db').1
exec-IsOwned works true db db' h f = f refl
exec-IsOwned works false db db' h f = h
exec-IsOwned fails allowed db db' h f = h

-- The tables that these constraints do not speak of.
others-IsOwned :
    (db : Db) (ds : List Domain) (bs : List Binding) (ss : List InstanceService)
    → IsOwned db
    → IsOwned (record db { domains = ds; bindings = bs; services = ss })
others-IsOwned db ds bs ss h = record {
  lock_keys = h.lock_keys;
  secret_keys = h.secret_keys;
  template_keys = h.template_keys;
  lock_rows = h.lock_rows;
  secret_rows = h.secret_rows;
}

exec_others-IsOwned :
    (o : Outcome) (allowed : Bool) (db : Db) (ds : List Domain) (bs : List Binding)
    (ss : List InstanceService)
    → IsOwned db
    → IsOwned (exec o allowed db (record db { domains = ds; bindings = bs; services = ss })).1
exec_others-IsOwned o allowed db ds bs ss h =
    exec-IsOwned o allowed db _ h (λ _. others-IsOwned db ds bs ss h)

-- New instances that keep the keys.
instances-IsOwned :
    (db : Db) (is : List Instance)
    → IsOwned db
    → ((k : Text) → IsInstance db k → has_row instance_key k is ≡ true)
    → IsOwned (record db { instances = is })
instances-IsOwned db is h keep_keys = record {
  lock_keys = h.lock_keys;
  secret_keys = h.secret_keys;
  template_keys = h.template_keys;
  lock_rows = All-mono db.locks (λ l. keep_keys l.holder) h.lock_rows;
  secret_rows = All-mono db.secrets (λ s. keep_keys s.instance_id) h.secret_rows;
}

update_instance-IsOwned :
    (o : Outcome) (id : Text) (f : Instance → Instance) (db : Db)
    → ((i : Instance) → instance_key (f i) ≡ instance_key i)
    → IsOwned db
    → IsOwned
        (exec o true db (record db { instances = update_rows instance_key id f db.instances })).1
update_instance-IsOwned o id f db same h = exec-IsOwned o true db _ h (λ _.
    instances-IsOwned db _ h (λ k x. has_row-update instance_key f same id k db.instances ∙ x))

upsert_instance-IsOwned :
    (o : Outcome) (inst : Instance) (db : Db) → IsOwned db → IsOwned (upsert_instance o inst db).1
unfolding upsert_instance
upsert_instance-IsOwned o inst db h =
    elim (Bool-cases (
      is_nil inst.id
      || is_nil inst.template_id
      || is_no_runtime inst.runtime
      || is_no_desired inst.desired_state)) [
        | inl missing ↦ rw missing h
        | inr given ↦ rw given (
            exec-IsOwned o _ db _ h (λ _. instances-IsOwned db _ h (λ k x.
              has_row-upsert instance_key merge_instance merge_instance_key k (fresh_instance inst)
                db.instances
              ∙ ground (arith, x))))
      ]

-- The cascade takes the locks and the secrets of the instance that goes.
cascade_instance-IsOwned : (id : Text) (db : Db) → IsOwned db → IsOwned (cascade_instance id db)
unfolding cascade_instance
cascade_instance-IsOwned id db h = record {
  lock_keys = delete-IsKeyed lock_key (λ l. l.holder == id) db.locks h.lock_keys;
  secret_keys = delete-IsKeyed secret_key (λ s. s.instance_id == id) db.secrets h.secret_keys;
  template_keys = h.template_keys;
  lock_rows =
      All-both (delete_rows (λ l. l.holder == id) db.locks)
        (λ l row stays.
          has_row-delete_other instance_key id l.holder db.instances (kept_key id l.holder stays)
            row)
        (All-delete (λ (l : Lock). IsInstance db l.holder) (λ l. l.holder == id) db.locks
          h.lock_rows)
        (delete-All (λ l. l.holder == id) db.locks);
  secret_rows =
      All-both (delete_rows (λ s. s.instance_id == id) db.secrets)
        (λ s row stays.
          has_row-delete_other instance_key id s.instance_id db.instances
            (kept_key id s.instance_id stays) row)
        (All-delete (λ (s : InstanceSecret). IsInstance db s.instance_id) (λ s. s.instance_id == id)
          db.secrets h.secret_rows)
        (delete-All (λ s. s.instance_id == id) db.secrets);
}

-- Behind a guard that refuses.
guarded-IsOwned :
    (test : Bool) (e : StoreError) (db : Db) (r : Result StoreError (Unit {0}) × Db)
    → IsOwned db
    → IsOwned r.1
    → IsOwned (if test then (err e, db) else r).1
guarded-IsOwned true e db r h k = h
guarded-IsOwned false e db r h k = k

affected-IsOwned :
    (b : Bool) (r : Result StoreError (Unit {0}) × Db) → IsOwned r.1 → IsOwned (affected b r).1
affected-IsOwned b r h = rw (affected-keeps b r) h

pub run_op-IsOwned :
    (o : Outcome) (op : StoreOp) (db : Db) → IsOwned db → IsOwned (run_op o op db).1
unfolding delete_instance set_observed_state set_service_ready upsert_domain set_domain_observed
    set_domain_cert set_domain_cert_not_after set_domain_basic_auth delete_domain upsert_binding
    delete_binding upsert_service
run_op-IsOwned o (put_instance i) db h = upsert_instance-IsOwned o i db h
run_op-IsOwned o (drop_instance id) db h =
    exec-IsOwned o true db _ h (λ _. cascade_instance-IsOwned id db h)
run_op-IsOwned o (observe_instance id state payload) db h =
    update_instance-IsOwned o id (λ i. record i { observed_state = state; observed_json = payload })
      db (λ i. refl) h
run_op-IsOwned o (ready_instance id state at) db h =
    update_instance-IsOwned o id (λ i. record i { service_ready = state; ready_at = at }) db
      (λ i. refl) h
run_op-IsOwned o (put_domain d desired) db h =
    guarded-IsOwned (is_nil d) _ db _ h (exec_others-IsOwned o _ db _ db.bindings db.services h)
run_op-IsOwned o (observe_domain d observed e) db h =
    exec_others-IsOwned o true db _ db.bindings db.services h
run_op-IsOwned o (certify_domain d not_after issuer) db h =
    exec_others-IsOwned o true db _ db.bindings db.services h
run_op-IsOwned o (expire_domain d not_after) db h =
    exec_others-IsOwned o true db _ db.bindings db.services h
run_op-IsOwned o (protect_domain d user hash) db h = guarded-IsOwned (is_nil d) _ db _ h (
    guarded-IsOwned (not (same_emptiness user hash)) _ db _ h (
      affected-IsOwned (has_row domain_key d db.domains) _
        (exec_others-IsOwned o true db _ db.bindings db.services h)))
run_op-IsOwned o (drop_domain d) db h = exec_others-IsOwned o true db _ _ db.services h
run_op-IsOwned o (put_binding b) db h = guarded-IsOwned (is_nil b.domain) _ db _ h (
    guarded-IsOwned (not (has_service b) && not (has_local b)) _ db _ h (
      guarded-IsOwned (has_service b && has_local b) _ db _ h
        (exec_others-IsOwned o _ db db.domains _ db.services h)))
run_op-IsOwned o (drop_binding d) db h = exec_others-IsOwned o true db db.domains _ db.services h
run_op-IsOwned o (put_service s) db h =
    guarded-IsOwned _ _ db _ h (exec_others-IsOwned o _ db db.domains db.bindings _ h)
