-- ===== src/Store/Intact.antt =====
-- The constraints of the schema, and that every statement keeps them.
use obacht_agent.Base.{
  Bool, true, false, not, ◌||◌, ◌≡◌, refl, ◌∙◌, Option, none, some, List, is_nil, elem, All,
  All-mono, nat_eq, list_eq, Bool-cases, inl, inr, arith,
}
use obacht_agent.Base.Int.{ℤ, pos, ltbℤ}
use obacht_agent.Base.Result.{Result, ok, err}
use obacht_agent.Base.Text.{Text}
use obacht_agent.Store.Table.{has_row, update_rows, IsKeyed}
use obacht_agent.Store.Rows.{
  has_row-upsert, upsert-IsKeyed, upsert-All, has_row-update, update-IsKeyed, update-All,
}
use obacht_agent.Store.Instances.{
  Instance, is_known_runtime, is_known_desired, is_no_runtime, is_no_desired,
}
use obacht_agent.Store.Locks.{Outcome, works, fails}
use obacht_agent.Store.Db.{
  Domain, Binding, InstanceService, Db, StoreError, pair_eq, service_key, exec, known_statuses,
}
use obacht_agent.Store.Statements.{
  instance_key, domain_key, binding_key, merge_instance, fresh_instance, upsert_instance,
  merge_domain, new_domain, or_pending, upsert_domain, affected, same_emptiness,
  set_domain_basic_auth, instance_exists, binding_allowed, merge_binding, merge_service,
  service_allowed,
}

abbrev pub IsRow : Instance → Type 0
IsRow i =
    (is_nil i.id ≡ false)
    × (is_known_runtime i.runtime ≡ true)
    × (is_known_desired i.desired_state ≡ true)

-- A username and a hash are set together.
abbrev pub IsDomainRow : Domain → Type 0
IsDomainRow d =
    (elem d.desired_status known_statuses ≡ true)
    × (same_emptiness d.basic_auth_user d.basic_auth_hash ≡ true)

-- Either a service of an instance or a local port, not both.
abbrev pub is_one_target : Option Text → Option Text → ℤ → Bool
is_one_target (some i) (some s) port = not (ltbℤ (pos 0) port)
is_one_target none none port = ltbℤ (pos 0) port
is_one_target _ _ port = false

abbrev pub IsBindingRow : Db → Binding → Type 0
IsBindingRow db b =
    (binding_allowed db b ≡ true) × (is_one_target b.instance_id b.service_name b.local_port ≡ true)

abbrev pub IsServiceRow : Db → InstanceService → Type 0
IsServiceRow db s = service_allowed db s ≡ true

pub record IsIntact (db : Db) : Type 0 where
  pub instance_keys : IsKeyed instance_key db.instances
  pub service_keys : IsKeyed service_key db.services
  pub domain_keys : IsKeyed domain_key db.domains
  pub binding_keys : IsKeyed binding_key db.bindings
  pub instance_rows : All IsRow db.instances
  pub domain_rows : All IsDomainRow db.domains
  pub binding_rows : All (IsBindingRow db) db.bindings
  pub service_rows : All (IsServiceRow db) db.services

-- A statement keeps the constraints if what it writes keeps them where it is allowed.
pub exec-IsIntact :
    (o : Outcome) (allowed : Bool) (db db' : Db)
    → IsIntact db
    → (allowed ≡ true → IsIntact db')
    → IsIntact (exec o allowed db db').1
exec-IsIntact works true db db' h f = f refl
exec-IsIntact works false db db' h f = h
exec-IsIntact fails allowed db db' h f = h

-- A binding and a service stay allowed where the instances and the domains they name stay.
instance_exists_mono :
    (db db' : Db) (i : Option Text)
    → ((k : Text)
        → i ≡ some k
        → has_row instance_key k db.instances ≡ true
        → has_row instance_key k db'.instances ≡ true)
    → instance_exists db i ≡ true
    → instance_exists db' i ≡ true
instance_exists_mono db db' none f h = refl
instance_exists_mono db db' (some k) f h = f k refl h

pub binding_mono :
    (db db' : Db) (b : Binding)
    → ((k : Text)
        → b.instance_id ≡ some k
        → has_row instance_key k db.instances ≡ true
        → has_row instance_key k db'.instances ≡ true)
    → (has_row domain_key b.domain db.domains ≡ true
        → has_row domain_key b.domain db'.domains ≡ true)
    → IsBindingRow db b
    → IsBindingRow db' b
binding_mono db db' b f g (allowed, one) = (
  (let there : instance_exists db' b.instance_id ≡ true =
        instance_exists_mono db db' b.instance_id f (ground (arith, allowed)) in
      ground (arith, allowed, g, there)),
  one,
)

pub service_mono :
    (db db' : Db) (s : InstanceService)
    → (has_row instance_key s.instance_id db.instances ≡ true
        → has_row instance_key s.instance_id db'.instances ≡ true)
    → IsServiceRow db s
    → IsServiceRow db' s
service_mono db db' s f h = ground (arith, h, f)

pub merge_instance_key : (r n : Instance) → instance_key (merge_instance r n) ≡ instance_key r
merge_instance_key r n = refl

pub merge_domain_key : (r n : Domain) → domain_key (merge_domain r n) ≡ domain_key r
merge_domain_key r n = refl

pub merge_binding_key : (r n : Binding) → binding_key (merge_binding r n) ≡ binding_key r
merge_binding_key r n = refl

pub merge_service_key : (r n : InstanceService) → service_key (merge_service r n) ≡ service_key r
merge_service_key r n = refl

-- New instances that keep the keys.
pub with_instances :
    (db : Db) (is : List Instance)
    → IsIntact db
    → IsKeyed instance_key is
    → All IsRow is
    → ((k : Text) → has_row instance_key k db.instances ≡ true → has_row instance_key k is ≡ true)
    → IsIntact (record db { instances = is })
with_instances db is h keyed rows keep_keys = record {
  instance_keys = keyed;
  instance_rows = rows;
  binding_rows =
      All-mono db.bindings
        (λ b. binding_mono db (record db { instances = is }) b (λ k _. keep_keys k) (λ x. x))
        h.binding_rows;
  service_rows =
      All-mono db.services
        (λ s. service_mono db (record db { instances = is }) s (keep_keys s.instance_id))
        h.service_rows;
  service_keys = h.service_keys;
  domain_keys = h.domain_keys;
  binding_keys = h.binding_keys;
  domain_rows = h.domain_rows;
}

pub with_domains :
    (db : Db) (ds : List Domain)
    → IsIntact db
    → IsKeyed domain_key ds
    → All IsDomainRow ds
    → ((k : Text) → has_row domain_key k db.domains ≡ true → has_row domain_key k ds ≡ true)
    → IsIntact (record db { domains = ds })
with_domains db ds h keyed rows keep_keys = record {
  domain_keys = keyed;
  domain_rows = rows;
  binding_rows =
      All-mono db.bindings
        (λ b. binding_mono db (record db { domains = ds }) b (λ k _ x. x) (keep_keys b.domain))
        h.binding_rows;
  service_rows = h.service_rows;
  instance_keys = h.instance_keys;
  service_keys = h.service_keys;
  binding_keys = h.binding_keys;
  instance_rows = h.instance_rows;
}

pub upsert_instance-IsIntact :
    (o : Outcome) (inst : Instance) (db : Db) → IsIntact db → IsIntact (upsert_instance o inst db).1
unfolding upsert_instance
upsert_instance-IsIntact o inst db h =
    elim (Bool-cases (
      is_nil inst.id
      || is_nil inst.template_id
      || is_no_runtime inst.runtime
      || is_no_desired inst.desired_state)) [
        | inl missing ↦ rw missing h
        | inr given ↦ rw given (
            exec-IsIntact o _ db _ h (λ known.
              with_instances db _ h
                (upsert-IsKeyed instance_key merge_instance merge_instance_key (fresh_instance inst)
                  db.instances h.instance_keys)
                (upsert-All instance_key IsRow merge_instance (fresh_instance inst) db.instances
                  (λ r p. (p.0, ground (arith, known), ground (arith, known)))
                  (ground (arith, given), ground (arith, known), ground (arith, known))
                  h.instance_rows)
                (λ k x.
                  has_row-upsert instance_key merge_instance merge_instance_key k
                    (fresh_instance inst) db.instances
                  ∙ ground (arith, x))))
      ]

-- An update that leaves the key, the runtime and the desired state.
pub update_instance-IsIntact :
    (o : Outcome) (id : Text) (f : Instance → Instance) (db : Db)
    → ((i : Instance) → instance_key (f i) ≡ instance_key i)
    → ((i : Instance) → IsRow i → IsRow (f i))
    → IsIntact db
    → IsIntact
        (exec o true db (record db { instances = update_rows instance_key id f db.instances })).1
update_instance-IsIntact o id f db same rows h = exec-IsIntact o true db _ h (λ _.
    with_instances db _ h (update-IsKeyed instance_key f same id db.instances h.instance_keys)
      (update-All instance_key IsRow f id db.instances rows h.instance_rows)
      (λ k x. has_row-update instance_key f same id k db.instances ∙ x))

pub update_domain-IsIntact :
    (o : Outcome) (domain : Text) (f : Domain → Domain) (db : Db)
    → ((d : Domain) → domain_key (f d) ≡ domain_key d)
    → ((d : Domain) → IsDomainRow d → IsDomainRow (f d))
    → IsIntact db
    → IsIntact
        (exec o true db (record db { domains = update_rows domain_key domain f db.domains })).1
update_domain-IsIntact o domain f db same rows h = exec-IsIntact o true db _ h (λ _.
    with_domains db _ h (update-IsKeyed domain_key f same domain db.domains h.domain_keys)
      (update-All domain_key IsDomainRow f domain db.domains rows h.domain_rows)
      (λ k x. has_row-update domain_key f same domain k db.domains ∙ x))

pub upsert_domain-IsIntact :
    (o : Outcome) (domain desired : Text) (db : Db)
    → IsIntact db
    → IsIntact (upsert_domain o domain desired db).1
unfolding upsert_domain
upsert_domain-IsIntact o domain desired db h = elim (Bool-cases (is_nil domain)) [
  | inl missing ↦ rw missing h
  | inr given ↦
      let new = new_domain domain (or_pending desired) in
      rw given (
        exec-IsIntact o _ db _ h (λ known.
          with_domains db _ h
            (upsert-IsKeyed domain_key merge_domain merge_domain_key new db.domains h.domain_keys)
            (upsert-All domain_key IsDomainRow merge_domain new db.domains (λ r p. (known, p.1))
              (known, refl) h.domain_rows)
            (λ k x.
              has_row-upsert domain_key merge_domain merge_domain_key k new db.domains
              ∙ ground (arith, x))))
]

pub affected-keeps : (b : Bool) (r : Result StoreError (Unit {0}) × Db) → (affected b r).1 ≡ r.1
affected-keeps b (err e, db) = refl
affected-keeps true (ok _, db) = refl
affected-keeps false (ok _, db) = refl

pub set_domain_basic_auth-IsIntact :
    (o : Outcome) (domain username hash : Text) (db : Db)
    → IsIntact db
    → IsIntact (set_domain_basic_auth o domain username hash db).1
unfolding set_domain_basic_auth
set_domain_basic_auth-IsIntact o domain username hash db h = elim (Bool-cases (is_nil domain)) [
  | inl missing ↦ rw missing h
  | inr given ↦ elim (Bool-cases (same_emptiness username hash)) [
    | inr unpaired ↦ rw (given, unpaired) h
    | inl paired ↦
        rw (given, paired, affected-keeps (has_row domain_key domain db.domains))
          (update_domain-IsIntact o domain
            (λ d. record d { basic_auth_user = username; basic_auth_hash = hash }) db (λ d. refl)
            (λ d p. (p.0, paired)) h)
  ]
]
