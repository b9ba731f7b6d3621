-- ===== src/Reconciler/Held.antt =====
-- A system instance of an exclusivity group runs only with the lock of the group.
use obacht_agent.Base.{
  Bool, true, false, ◌||◌, ◌≡◌, ◌⊎◌, refl, ap, ◌∙◌, Option, none, some, List, [], ◌∷◌, is_nil, ◌==◌,
  nat_eq, list_eq, list_beq_iff, beq_refl, if◌then◌else◌, Bool-cases, inl, inr, arith,
}
use obacht_agent.Base.Result.{Result, ok, err}
use obacht_agent.Base.Text.{Text}
use obacht_agent.Store.Instances.{
  Instance, DesiredState, installed, stopped, removed, other_desired,
}
use obacht_agent.Store.Locks.{
  Lock, LockError, Outcome, works, fails, holder_of, after_read, after_select, try_acquire,
}
use obacht_agent.Store.Db.{Db, exec, InstanceService}
use obacht_agent.Store.Statements.{upsert_service, set_observed_state}
use obacht_agent.Reconciler.System.{
  SystemService, SystemSpec, ParsedSpec, empty_spec, bad_spec, good_spec, SystemDriver,
  SystemOutcomes, Machine, observe_as, is_registered, register_services, after_apply, apply_system,
  after_lock, install_system, spec_on_remove, end_system, remove_system, system_as,
  reconcile_system,
}

-- A lock that `TryAcquireLock` reports is held.
read-held :
    (insert : Outcome) (g id : Text) (ls : List Lock) (h : Option Text)
    → holder_of g ls ≡ h
    → (after_read insert g id ls h).0 ≡ ok tt
    → holder_of g (after_read insert g id ls h).1 ≡ some id
unfolding holder_of
read-held insert g id ls (some h) e r = elim (Bool-cases (h == id)) [
  | inl mine ↦ e ∙ ap some ((list_beq_iff h id).0 mine)
  | inr other ↦ absurd (ground (arith, rw other at r))
]
read-held works g id ls none e r = rw (e, beq_refl g) refl
read-held fails g id ls none e r = absurd (ground arith)

acquired-held :
    (read insert : Outcome) (g id : Text) (ls : List Lock)
    → (try_acquire read insert g id ls ls).0 ≡ ok tt
    → holder_of g (try_acquire read insert g id ls ls).1 ≡ some id
unfolding try_acquire
acquired-held read insert g id ls = elim (Bool-cases (is_nil g || is_nil id)) [
  | inl missing ↦ rw missing (λ r. absurd (ground arith))
  | inr given ↦ rw given (selected read)
]
  where
    selected :
        (o : Outcome)
        → (after_select o insert g id ls ls).0 ≡ ok tt
        → holder_of g (after_select o insert g id ls ls).1 ≡ some id
    selected fails r = absurd (ground arith)
    selected works r = read-held insert g id ls (holder_of g ls) refl r

exec-locks :
    (o : Outcome) (allowed : Bool) (db db' : Db)
    → db'.locks ≡ db.locks
    → (exec o allowed db db').1.locks ≡ db.locks
exec-locks works true db db' h = h
exec-locks works false db db' h = refl
exec-locks fails allowed db db' h = refl

upsert_service-locks :
    (o : Outcome) (s : InstanceService) (db : Db) → (upsert_service o s db).1.locks ≡ db.locks
unfolding upsert_service
upsert_service-locks o s db =
    elim (Bool-cases
      (is_nil s.instance_id || is_nil s.service_name || is_nil s.target_type || is_nil s.target)) [
        | inl missing ↦ rw missing refl
        | inr given ↦ rw given (exec-locks o _ db _ refl)
      ]

if-locks :
    (b : Bool) (db' db : Db) → db'.locks ≡ db.locks → (if b then db' else db).locks ≡ db.locks
if-locks true db' db h = h
if-locks false db' db h = refl

module _ (driver : SystemDriver) (o : SystemOutcomes) (inst : Instance) where
  observe_as-locks :
      (state payload : Text) (m : Machine)
      → (observe_as driver o inst state payload m).db.locks ≡ m.db.locks
  unfolding set_observed_state
  observe_as-locks state payload m = exec-locks o.observe true m.db _ refl

  register_services-locks :
      (svcs : List SystemService) (db : Db)
      → (register_services driver o inst svcs db).locks ≡ db.locks
  unfolding register_services
  register_services-locks [] db = refl
  register_services-locks (svc ∷ svcs) db =
      register_services-locks svcs _
      ∙ if-locks (is_registered driver o inst svc) _ db
          (upsert_service-locks (o.register svc.name) _ db)

  after_apply-kept :
      (spec : SystemSpec) (m : Machine) (r : Option Text)
      → ((after_apply driver o inst spec m r).1.db.locks ≡ m.db.locks)
        × ((after_apply driver o inst spec m r).1.applied ≡ m.applied)
  after_apply-kept spec m (some message) = (observe_as-locks _ message m, refl)
  after_apply-kept spec m none = (
    observe_as-locks _ [] (record m { db = register_services driver o inst spec.services m.db })
        ∙ register_services-locks spec.services m.db,
    refl,
  )

  -- What a pass does with the driver: nothing, or one `Apply` with the lock of the group, if there is one.
  abbrev pub IsLocked : Machine → Machine → Type 0
  IsLocked m m' =
      (m'.applied ≡ m.applied)
      ⊎ ((spec : SystemSpec) × (m'.applied ≡ (inst.id, spec) ∷ m.applied)
          × ((is_nil spec.exclusivity_group ≡ true)
              ⊎ (holder_of spec.exclusivity_group m'.db.locks ≡ some inst.id)))

  after_lock-IsLocked :
      (spec : SystemSpec) (m : Machine) (r : Result LockError (Unit {0}) × List Lock)
      → (r.0 ≡ ok tt → holder_of spec.exclusivity_group r.1 ≡ some inst.id)
      → IsLocked m (after_lock driver o inst spec m r).1
  unfolding apply_system
  after_lock-IsLocked spec m (err e, ls) h = inl refl
  after_lock-IsLocked spec m (ok tt, ls) h =
      let (locks, applied) = after_apply-kept spec _ (driver.apply inst.id spec) in
      inr (spec, applied, inr (ap (holder_of spec.exclusivity_group) locks ∙ h refl))

  install_system-IsLocked :
      (m : Machine) (p : ParsedSpec) → IsLocked m (install_system driver o inst m p).1
  unfolding install_system apply_system
  install_system-IsLocked m empty_spec = inl refl
  install_system-IsLocked m (bad_spec message) = inl refl
  install_system-IsLocked m (good_spec spec) = elim (Bool-cases (is_nil spec.exclusivity_group)) [
    | inl free ↦ rw free (
        inr (
          spec,
          (after_apply-kept spec (record m { applied = (inst.id, spec) ∷ m.applied })
              (driver.apply inst.id spec)).1,
          inl free,
        ))
    | inr grouped ↦ rw grouped (
        after_lock-IsLocked spec m _
          (acquired-held o.read_lock o.insert_lock spec.exclusivity_group inst.id m.db.locks))
  ]

  end_system-applied :
      (want : DesiredState) (m : Machine) → (end_system driver o inst want m).applied ≡ m.applied
  end_system-applied removed m = refl
  end_system-applied installed m = refl
  end_system-applied stopped m = refl
  end_system-applied (other_desired _) m = refl

  remove_system-applied : (m : Machine) → (remove_system driver o inst m).applied ≡ m.applied
  unfolding remove_system
  remove_system-applied m =
      elim (Bool-cases (
        driver.remove inst.id
          (spec_on_remove driver o inst (driver.parse_spec inst.config_json)))) [
            | inl gone ↦ rw gone (end_system-applied inst.desired_state _)
            | inr left ↦ rw left refl
          ]

  system_as-IsLocked :
      (m : Machine) (want : DesiredState) → IsLocked m (system_as driver o inst m want).1
  system_as-IsLocked m installed = install_system-IsLocked m (driver.parse_spec inst.config_json)
  system_as-IsLocked m stopped = inl (remove_system-applied m)
  system_as-IsLocked m removed = inl (remove_system-applied m)
  system_as-IsLocked m (other_desired _) = inl refl

  -- A pass over a system instance calls the driver's `Apply` at most once, and for a specification with an
  -- exclusivity group only if the instance holds the lock of the group, and still holds it after the pass,
  -- whatever the statements and the driver do.
  pub reconcile_system-IsLocked : (m : Machine) → IsLocked m (reconcile_system driver o inst m).1
  unfolding reconcile_system
  reconcile_system-IsLocked m = system_as-IsLocked m inst.desired_state
