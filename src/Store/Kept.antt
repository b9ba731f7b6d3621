-- ===== src/Store/Kept.antt =====
-- The deletions and the upserts of bindings and services, and the constraints of the schema.
use obacht_agent.Base.{
  true, false, not, ◌&&◌, ◌||◌, ◌≡◌, ◌≢◌, sym, ap, ◌∙◌, List, is_nil, All, ◌==◌, nat_eq, list_eq,
  list_beq_iff, Bool-cases, inl, inr, arith,
}
use obacht_agent.Base.Text.{Text}
use obacht_agent.Store.Table.{IsKeyed, delete_rows}
use obacht_agent.Store.Rows.{
  All-delete, delete-All, All-both, upsert-IsKeyed, upsert-All, delete-IsKeyed,
  has_row-delete_other,
}
use obacht_agent.Store.Locks.{Outcome}
use obacht_agent.Store.Db.{Binding, InstanceService, Db, pair_eq, service_key}
use obacht_agent.Store.Statements.{
  instance_key, domain_key, binding_key, is_of, cascade_instance, delete_domain, BindingRequest,
  has_service, has_local, to_binding, merge_binding, merge_service, upsert_binding, delete_binding,
  upsert_service,
}
use obacht_agent.Store.Intact.{
  IsRow, IsDomainRow, IsBindingRow, IsServiceRow, is_one_target, IsIntact, exec-IsIntact,
  binding_mono, service_mono, merge_binding_key, merge_service_key,
}

-- A row whose key is not the one that a deletion takes.
pub kept_key : (id k : Text) → (k == id) ≡ false → id ≢ k
kept_key id k h e = absurd (ground (arith, h, (list_beq_iff k id).1 (sym e)))

pub cascade_instance-IsIntact :
    (id : Text) (db : Db) → IsIntact db → IsIntact (cascade_instance id db)
unfolding cascade_instance
cascade_instance-IsIntact id db h = record {
  instance_keys = delete-IsKeyed instance_key (λ i. i.id == id) db.instances h.instance_keys;
  service_keys = delete-IsKeyed service_key (λ s. s.instance_id == id) db.services h.service_keys;
  domain_keys = h.domain_keys;
  binding_keys =
      delete-IsKeyed binding_key (λ b. is_of id b.instance_id) db.bindings h.binding_keys;
  instance_rows = All-delete IsRow (λ i. i.id == id) db.instances h.instance_rows;
  domain_rows = h.domain_rows;
  binding_rows =
      All-both (delete_rows (λ b. is_of id b.instance_id) db.bindings)
        (λ b row stays.
          binding_mono db (cascade_instance id db) b
            (λ k e.
              has_row-delete_other instance_key id k db.instances
                (kept_key id k (sym (ap (is_of id) e) ∙ stays)))
            (λ x. x) row)
        (All-delete (IsBindingRow db) (λ b. is_of id b.instance_id) db.bindings h.binding_rows)
        (delete-All (λ b. is_of id b.instance_id) db.bindings);
  service_rows =
      All-both (delete_rows (λ s. s.instance_id == id) db.services)
        (λ s row stays.
          service_mono db (cascade_instance id db) s
            (has_row-delete_other instance_key id s.instance_id db.instances
              (kept_key id s.instance_id stays))
            row)
        (All-delete (IsServiceRow db) (λ s. s.instance_id == id) db.services h.service_rows)
        (delete-All (λ s. s.instance_id == id) db.services);
}

pub delete_domain-IsIntact :
    (o : Outcome) (domain : Text) (db : Db) → IsIntact db → IsIntact (delete_domain o domain db).1
unfolding delete_domain
delete_domain-IsIntact o domain db h = exec-IsIntact o true db _ h (λ _. record {
  instance_keys = h.instance_keys;
  service_keys = h.service_keys;
  domain_keys = delete-IsKeyed domain_key (λ d. d.domain == domain) db.domains h.domain_keys;
  binding_keys = delete-IsKeyed binding_key (λ b. b.domain == domain) db.bindings h.binding_keys;
  instance_rows = h.instance_rows;
  domain_rows = All-delete IsDomainRow (λ d. d.domain == domain) db.domains h.domain_rows;
  binding_rows =
      All-both (delete_rows (λ b. b.domain == domain) db.bindings)
        (λ b row stays.
          binding_mono db (record db { domains = delete_rows (λ d. d.domain == domain) db.domains })
            b (λ k _ x. x)
            (has_row-delete_other domain_key domain b.domain db.domains
              (kept_key domain b.domain stays))
            row)
        (All-delete (IsBindingRow db) (λ b. b.domain == domain) db.bindings h.binding_rows)
        (delete-All (λ b. b.domain == domain) db.bindings);
  service_rows = h.service_rows;
})

-- New bindings.
with_bindings :
    (db : Db) (bs : List Binding)
    → IsIntact db
    → IsKeyed binding_key bs
    → All (IsBindingRow db) bs
    → IsIntact (record db { bindings = bs })
with_bindings db bs h keyed rows = record {
  instance_keys = h.instance_keys;
  service_keys = h.service_keys;
  domain_keys = h.domain_keys;
  binding_keys = keyed;
  instance_rows = h.instance_rows;
  domain_rows = h.domain_rows;
  binding_rows = rows;
  service_rows = h.service_rows;
}

pub delete_binding-IsIntact :
    (o : Outcome) (domain : Text) (db : Db) → IsIntact db → IsIntact (delete_binding o domain db).1
unfolding delete_binding
delete_binding-IsIntact o domain db h = exec-IsIntact o true db _ h (λ _.
    with_bindings db _ h
      (delete-IsKeyed binding_key (λ b. b.domain == domain) db.bindings h.binding_keys)
      (All-delete (IsBindingRow db) (λ b. b.domain == domain) db.bindings h.binding_rows))

to_binding-one_target :
    (b : BindingRequest)
    → (not (has_service b) && not (has_local b)) ≡ false
    → (has_service b && has_local b) ≡ false
    → is_one_target (to_binding b).instance_id (to_binding b).service_name (to_binding b).local_port
      ≡ true
to_binding-one_target b some_target no_both = elim (Bool-cases (has_service b)) [
  | inl service ↦ rw service (ground (arith, no_both, service))
  | inr local ↦ rw local (ground (arith, some_target, local))
]

pub upsert_binding-IsIntact :
    (o : Outcome) (b : BindingRequest) (db : Db) → IsIntact db → IsIntact (upsert_binding o b db).1
unfolding upsert_binding
upsert_binding-IsIntact o b db h = elim (Bool-cases (is_nil b.domain)) [
  | inl missing ↦ rw missing h
  | inr given ↦ elim (Bool-cases (not (has_service b) && not (has_local b))) [
    | inl neither ↦ rw (given, neither) h
    | inr one ↦ elim (Bool-cases (has_service b && has_local b)) [
      | inl both ↦ rw (given, one, both) h
      | inr either ↦
          rw (given, one, either)
            (exec-IsIntact o _ db _ h (λ allowed.
              let row : IsBindingRow db (to_binding b) =
                (allowed, to_binding-one_target b one either) in
              with_bindings db _ h
                (upsert-IsKeyed binding_key merge_binding merge_binding_key (to_binding b)
                  db.bindings h.binding_keys)
                (upsert-All binding_key (IsBindingRow db) merge_binding (to_binding b) db.bindings
                  (λ r p. (ground (arith, allowed, p.0), row.1)) row h.binding_rows)))
    ]
  ]
]

pub upsert_service-IsIntact :
    (o : Outcome) (s : InstanceService) (db : Db) → IsIntact db → IsIntact (upsert_service o s db).1
unfolding upsert_service
upsert_service-IsIntact o s db h =
    elim (Bool-cases
      (is_nil s.instance_id || is_nil s.service_name || is_nil s.target_type || is_nil s.target)) [
        | inl missing ↦ rw missing h
        | inr given ↦ rw given (
            exec-IsIntact o _ db _ h (λ allowed. record {
              instance_keys = h.instance_keys;
              service_keys =
                  upsert-IsKeyed service_key merge_service merge_service_key s db.services
                    h.service_keys;
              domain_keys = h.domain_keys;
              binding_keys = h.binding_keys;
              instance_rows = h.instance_rows;
              domain_rows = h.domain_rows;
              binding_rows = h.binding_rows;
              service_rows =
                  upsert-All service_key (IsServiceRow db) merge_service s db.services
                    (λ r p. ground (arith, allowed, p)) allowed h.service_rows;
            }))
      ]
