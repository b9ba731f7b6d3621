-- ===== src/Store/Atomic.antt =====
-- An operation of the store that fails leaves the tables as they are.
use obacht_agent.Base.{
  Bool, true, false, not, ◌&&◌, ◌≡◌, refl, ap, List, [], ◌∷◌, is_nil, ◌==◌, nat_eq, list_eq, Eq,
  if◌then◌else◌, Bool-cases, inl, inr, arith,
}
use obacht_agent.Base.Result.{Result, err}
use obacht_agent.Base.Text.{Text}
use obacht_agent.Store.Table.{has_row, update_rows, upsert_row}
use obacht_agent.Store.Locks.{Outcome, works, fails}
use obacht_agent.Store.Db.{Domain, Db, StoreError, exec, missing_field, bad_binding, unpaired_auth}
use obacht_agent.Store.Statements.{
  upsert_instance, delete_instance, set_observed_state, set_service_ready, domain_key,
  upsert_domain, set_domain_observed, set_domain_cert, set_domain_cert_not_after, affected,
  same_emptiness, set_domain_basic_auth, delete_domain, to_binding, binding_key, merge_binding,
  binding_allowed, has_service, has_local, upsert_binding, delete_binding, upsert_service,
}
use obacht_agent.Store.Ops.{
  StoreOp, put_instance, drop_instance, observe_instance, ready_instance, put_domain,
  observe_domain, certify_domain, expire_domain, protect_domain, drop_domain, put_binding,
  drop_binding, put_service, run_op,
}

pub record IsAtomic (db : Db) (r : Result StoreError (Unit {0}) × Db) : Type 0 where
  pub unchanged : (e : StoreError) → r.0 ≡ err e → r.1 ≡ db

exec-IsAtomic : (o : Outcome) (allowed : Bool) (db db' : Db) → IsAtomic db (exec o allowed db db')
exec-IsAtomic works true db db' = record { unchanged = λ e h. absurd (ground arith) }
exec-IsAtomic works false db db' = record { unchanged = λ e h. refl }
exec-IsAtomic fails allowed db db' = record { unchanged = λ e h. refl }

guarded-IsAtomic :
    (test : Bool) (e : StoreError) (db : Db) (r : Result StoreError (Unit {0}) × Db)
    → IsAtomic db r
    → IsAtomic db (if test then (err e, db) else r)
guarded-IsAtomic true e db r h = record { unchanged = λ e h. refl }
guarded-IsAtomic false e db r h = h

update-absent :
    {A K : Type 0} ⦃e : Eq K⦄ (key : A → K) (k : K) (f : A → A) (rs : List A)
    → has_row key k rs ≡ false
    → update_rows key k f rs ≡ rs
unfolding has_row update_rows
update-absent key k f [] h = refl
update-absent key k f (r ∷ rs) h =
    let off : (key r == k) ≡ false = ground (arith, h) in
    rw (off, update-absent key k f rs (ground (arith, h))) refl

-- The write of credentials reports a domain that has no row, and then it has changed no row.
affected-IsAtomic :
    (o : Outcome) (domain : Text) (f : Domain → Domain) (db : Db)
    → IsAtomic db (
        affected
          (has_row domain_key domain db.domains)
          (exec o true db (record db { domains = update_rows domain_key domain f db.domains })))
affected-IsAtomic fails domain f db = record { unchanged = λ e h. refl }
affected-IsAtomic works domain f db = elim (Bool-cases (has_row domain_key domain db.domains)) [
  | inl there ↦ rw there (record { unchanged = λ e h. absurd (ground arith) })
  | inr absent ↦ rw absent (record {
    unchanged = λ e h.
        ap (λ ds. record db { domains = ds }) (update-absent domain_key domain f db.domains absent);
  })
]

-- An operation of the store on instances, domains, bindings or services that returns an error, whether
-- for its arguments, a constraint, a row that is not there or a failure of SQLite, has changed nothing.
pub run_op-IsAtomic : (o : Outcome) (op : StoreOp) (db : Db) → IsAtomic db (run_op o op db)
unfolding upsert_instance delete_instance set_observed_state set_service_ready upsert_domain
    set_domain_observed set_domain_cert set_domain_cert_not_after set_domain_basic_auth
    delete_domain upsert_binding delete_binding upsert_service
run_op-IsAtomic o (put_instance i) db = guarded-IsAtomic _ _ db _ (exec-IsAtomic o _ db _)
run_op-IsAtomic o (drop_instance id) db = exec-IsAtomic o _ db _
run_op-IsAtomic o (observe_instance id state payload) db = exec-IsAtomic o _ db _
run_op-IsAtomic o (ready_instance id state at) db = exec-IsAtomic o _ db _
run_op-IsAtomic o (put_domain d desired) db = guarded-IsAtomic _ _ db _ (exec-IsAtomic o _ db _)
run_op-IsAtomic o (observe_domain d observed e) db = exec-IsAtomic o _ db _
run_op-IsAtomic o (certify_domain d not_after issuer) db = exec-IsAtomic o _ db _
run_op-IsAtomic o (expire_domain d not_after) db = exec-IsAtomic o _ db _
run_op-IsAtomic o (protect_domain d user hash) db = guarded-IsAtomic (is_nil d) missing_field db _ (
    guarded-IsAtomic (not (same_emptiness user hash)) unpaired_auth db _
      (affected-IsAtomic o d (λ x. record x { basic_auth_user = user; basic_auth_hash = hash }) db))
run_op-IsAtomic o (drop_domain d) db = exec-IsAtomic o _ db _
run_op-IsAtomic o (put_binding b) db = guarded-IsAtomic (is_nil b.domain) missing_field db _ (
    guarded-IsAtomic (not (has_service b) && not (has_local b)) bad_binding db _ (
      guarded-IsAtomic (has_service b && has_local b) bad_binding db _ (
        exec-IsAtomic o (binding_allowed db (to_binding b)) db (record db {
          bindings = upsert_row binding_key merge_binding (to_binding b) db.bindings;
        }))))
run_op-IsAtomic o (drop_binding d) db = exec-IsAtomic o _ db _
run_op-IsAtomic o (put_service s) db = guarded-IsAtomic _ _ db _ (exec-IsAtomic o _ db _)
