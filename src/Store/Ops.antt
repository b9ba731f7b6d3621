-- ===== src/Store/Ops.antt =====
-- The operations of the store on instances, services, domains and bindings as data, and what they keep.
use obacht_agent.Base.{ℕ, true, refl, Option, nat_eq, list_eq}
use obacht_agent.Base.Result.{Result}
use obacht_agent.Base.Text.{Text}
use obacht_agent.Store.Instances.{Instance}
use obacht_agent.Store.Locks.{Outcome}
use obacht_agent.Store.Db.{InstanceService, Db, StoreError, pair_eq}
use obacht_agent.Store.Statements.{
  upsert_instance, delete_instance, set_observed_state, set_service_ready, upsert_domain,
  set_domain_observed, set_domain_cert, set_domain_cert_not_after, set_domain_basic_auth,
  delete_domain, BindingRequest, upsert_binding, delete_binding, upsert_service,
}
use obacht_agent.Store.Intact.{
  IsIntact, exec-IsIntact, update_instance-IsIntact, update_domain-IsIntact,
  upsert_instance-IsIntact, upsert_domain-IsIntact, set_domain_basic_auth-IsIntact,
}
use obacht_agent.Store.Kept.{
  cascade_instance-IsIntact, delete_domain-IsIntact, delete_binding-IsIntact,
  upsert_binding-IsIntact, upsert_service-IsIntact,
}

-- The operations of internal/store on these tables, as data.
pub data StoreOp : Type 0 where
  put_instance : Instance → StoreOp
  drop_instance : Text → StoreOp
  observe_instance : Text → Text → Text → StoreOp
  ready_instance : Text → Text → Option ℕ → StoreOp
  put_domain : Text → Text → StoreOp
  observe_domain : Text → Text → Text → StoreOp
  certify_domain : Text → ℕ → Text → StoreOp
  expire_domain : Text → ℕ → StoreOp
  protect_domain : Text → Text → Text → StoreOp
  drop_domain : Text → StoreOp
  put_binding : BindingRequest → StoreOp
  drop_binding : Text → StoreOp
  put_service : InstanceService → StoreOp

abbrev pub run_op : Outcome → StoreOp → Db → Result StoreError (Unit {0}) × Db
run_op o (put_instance i) = upsert_instance o i
run_op o (drop_instance id) = delete_instance o id
run_op o (observe_instance id state payload) = set_observed_state o id state payload
run_op o (ready_instance id state at) = set_service_ready o id state at
run_op o (put_domain d desired) = upsert_domain o d desired
run_op o (observe_domain d observed e) = set_domain_observed o d observed e
run_op o (certify_domain d not_after issuer) = set_domain_cert o d not_after issuer
run_op o (expire_domain d not_after) = set_domain_cert_not_after o d not_after
run_op o (protect_domain d user hash) = set_domain_basic_auth o d user hash
run_op o (drop_domain d) = delete_domain o d
run_op o (put_binding b) = upsert_binding o b
run_op o (drop_binding d) = delete_binding o d
run_op o (put_service s) = upsert_service o s

pub run_op-IsIntact :
    (o : Outcome) (op : StoreOp) (db : Db) → IsIntact db → IsIntact (run_op o op db).1
unfolding delete_instance set_observed_state set_service_ready set_domain_observed set_domain_cert
    set_domain_cert_not_after
run_op-IsIntact o (put_instance i) db h = upsert_instance-IsIntact o i db h
run_op-IsIntact o (drop_instance id) db h =
    exec-IsIntact o true db _ h (λ _. cascade_instance-IsIntact id db h)
run_op-IsIntact o (observe_instance id state payload) db h =
    update_instance-IsIntact o id
      (λ i. record i { observed_state = state; observed_json = payload }) db (λ i. refl) (λ i p. p)
      h
run_op-IsIntact o (ready_instance id state at) db h =
    update_instance-IsIntact o id (λ i. record i { service_ready = state; ready_at = at }) db
      (λ i. refl) (λ i p. p) h
run_op-IsIntact o (put_domain d desired) db h = upsert_domain-IsIntact o d desired db h
run_op-IsIntact o (observe_domain d observed e) db h =
    update_domain-IsIntact o d (λ x. record x { observed_status = observed; last_error = e }) db
      (λ x. refl) (λ x p. p) h
run_op-IsIntact o (certify_domain d not_after issuer) db h =
    update_domain-IsIntact o d (λ x. record x { cert_not_after = not_after; cert_issuer = issuer })
      db (λ x. refl) (λ x p. p) h
run_op-IsIntact o (expire_domain d not_after) db h =
    update_domain-IsIntact o d (λ x. record x { cert_not_after = not_after }) db (λ x. refl)
      (λ x p. p) h
run_op-IsIntact o (protect_domain d user hash) db h =
    set_domain_basic_auth-IsIntact o d user hash db h
run_op-IsIntact o (drop_domain d) db h = delete_domain-IsIntact o d db h
run_op-IsIntact o (put_binding b) db h = upsert_binding-IsIntact o b db h
run_op-IsIntact o (drop_binding d) db h = delete_binding-IsIntact o d db h
run_op-IsIntact o (put_service s) db h = upsert_service-IsIntact o s db h
