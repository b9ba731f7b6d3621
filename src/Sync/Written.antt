-- ===== src/Sync/Written.antt =====
-- What a dispatch does to the device: nothing, or one operation of the store and one trigger.
use obacht_agent.Base.{
  suc, Bool, true, false, not, ◌||◌, ◌≡◌, refl, sym, ap, ◌∙◌, Option, none, some, [], is_nil, ◌==◌,
  nat_eq, list_eq, if◌then◌else◌, inl, inr, arith, subst,
}
use obacht_agent.Base.Result.{Result, ok, err, Result-cases}
use obacht_agent.Base.Text.{Text, text}
use obacht_agent.BasicAuth.{validate_credentials}
use obacht_agent.SignedMut.Envelope.{Mutation}
use obacht_agent.Store.Instances.{Instance, DesiredState, removed, to_desired}
use obacht_agent.Store.Db.{Db, StoreError}
use obacht_agent.Store.Statements.{get_instance}
use obacht_agent.Store.Intact.{IsIntact}
use obacht_agent.Store.Ops.{
  StoreOp, put_instance, put_domain, protect_domain, drop_domain, put_binding, drop_binding, run_op,
  run_op-IsIntact,
}
use obacht_agent.Store.Atomic.{IsAtomic, run_op-IsAtomic}
use obacht_agent.Sync.Params.{
  BasicAuthParams, decode_one, decode_two, decode_basic_auth, decode_binding,
}
use obacht_agent.Sync.Device.{
  Outcomes, Host, DispatchError, bad_params, bad_desired_state, store_failed, Device, Step, refuse,
  finish,
}
use obacht_agent.Sync.Install.{plan_install, dispatch_instance_upsert}
use obacht_agent.Sync.Dispatch.{
  reload, set_desired, domain_upsert, domain_delete, write_hash, set_credentials,
  domain_set_basic_auth, instance_delete, instance_set_state, binding_request, binding_upsert,
  binding_delete, dispatch_signed_mutation,
}

data Written (o : Outcomes) (d : Device) (r : Step) : Type 0 where
  refused_with : (e : DispatchError) → r ≡ refuse e d → Written o d r
  written :
      (op : StoreOp) (b : Bool) → r ≡ reload b (finish (run_op o.write op d.db) d) → Written o d r

reload-false : (r : Step) → r ≡ reload false r
reload-false (ok tt, d) = refl
reload-false (err e, d) = refl

finish-Written :
    (o : Outcomes) (d : Device) (op : StoreOp) → Written o d (finish (run_op o.write op d.db) d)
finish-Written o d op = written op false (reload-false _)

guarded-Written :
    (o : Outcomes) (d : Device) (test : Bool) (e : DispatchError) (r : Step)
    → Written o d r
    → Written o d (if test then refuse e d else r)
guarded-Written o d true e r h = refused_with e refl
guarded-Written o d false e r h = h

if-Written :
    {o : Outcomes} {d : Device} (test : Bool) (r r' : Step)
    → Written o d r
    → Written o d r'
    → Written o d (if test then r else r')
if-Written true r r' h h' = h
if-Written false r r' h h' = h'

set_desired-Written :
    (o : Outcomes) (s : DesiredState) (r : Result StoreError Instance) (d : Device)
    → Written o d (set_desired o s r d)
set_desired-Written o s (err e) d = refused_with (store_failed e) refl
set_desired-Written o s (ok inst) d =
    finish-Written o d (put_instance (record inst { desired_state = s }))

module _ (host : Host) (o : Outcomes) (m : Mutation) (d : Device) where
  domain_upsert-Written : Written o d (domain_upsert host o m d)
  unfolding domain_upsert
  domain_upsert-Written = elim (Result-cases (decode_two "domain" "desired_status" m.params)) [
    | inr (e, bad) ↦ rw (bad, domain_upsert) (refused_with _ refl)
    | inl (p, good) ↦ rw (good, domain_upsert) (written (put_domain p.0 p.1) host.has_ingress refl)
  ]

  domain_delete-Written : Written o d (domain_delete host o m d)
  unfolding domain_delete
  domain_delete-Written = elim (Result-cases (decode_one "domain" m.params)) [
    | inr (e, bad) ↦ rw (bad, domain_delete) (refused_with _ refl)
    | inl (domain, good) ↦
        rw (good, domain_delete)
          (guarded-Written o d _ _ _ (finish-Written o d (drop_domain domain)))
  ]

  write_hash-Written :
      (p : BasicAuthParams) (h : Option Text) → Written o d (write_hash host o m d p h)
  write_hash-Written p none = refused_with _ refl
  write_hash-Written p (some hash) = finish-Written o d (protect_domain p.domain p.username hash)

  set_credentials-Written : (p : BasicAuthParams) → Written o d (set_credentials host o m d p)
  unfolding set_credentials
  set_credentials-Written p = elim (Result-cases (validate_credentials p.username p.password)) [
    | inr (e, bad) ↦ rw (bad, set_credentials) (refused_with _ refl)
    | inl (u, good) ↦ rw (good, set_credentials) (write_hash-Written p (host.hash p.password))
  ]

  domain_set_basic_auth-Written : Written o d (domain_set_basic_auth host o m d)
  unfolding domain_set_basic_auth
  domain_set_basic_auth-Written = elim (Result-cases (decode_basic_auth m.params)) [
    | inr (e, bad) ↦ rw (bad, domain_set_basic_auth) (refused_with _ refl)
    | inl (p, good) ↦
        rw (good, domain_set_basic_auth)
          (guarded-Written o d (is_nil p.domain) (bad_params m.op) _ (
            if-Written p.clear _ _ (finish-Written o d (protect_domain p.domain [] []))
              (set_credentials-Written p)))
  ]

  instance_delete-Written : Written o d (instance_delete host o m d)
  unfolding instance_delete
  instance_delete-Written = elim (Result-cases (decode_one "instance_id" m.params)) [
    | inr (e, bad) ↦ rw (bad, instance_delete) (refused_with _ refl)
    | inl (id, good) ↦
        rw (good, instance_delete)
          (guarded-Written o d _ _ _
            (set_desired-Written o removed (get_instance o.read_instance id d.db) d))
  ]

  instance_set_state-Written : Written o d (instance_set_state host o m d)
  unfolding instance_set_state
  instance_set_state-Written =
      elim (Result-cases (decode_two "instance_id" "desired_state" m.params)) [
        | inr (e, bad) ↦ rw (bad, instance_set_state) (refused_with _ refl)
        | inl (p, good) ↦
            rw (good, instance_set_state)
              (guarded-Written o d (is_nil p.0) (bad_params m.op) _ (
                guarded-Written o d (not (p.1 == text "installed" || p.1 == text "stopped"))
                  (bad_desired_state p.1) _
                  (set_desired-Written o (to_desired p.1) (get_instance o.read_instance p.0 d.db)
                    d)))
      ]

  binding_upsert-Written : Written o d (binding_upsert host o m d)
  unfolding binding_upsert
  binding_upsert-Written = elim (Result-cases (decode_binding m.params)) [
    | inr (e, bad) ↦ rw (bad, binding_upsert) (refused_with _ refl)
    | inl (p, good) ↦
        rw (good, binding_upsert)
          (guarded-Written o d _ _ _
            (finish-Written o d (put_binding (binding_request host o m d p))))
  ]

  binding_delete-Written : Written o d (binding_delete host o m d)
  unfolding binding_delete
  binding_delete-Written = elim (Result-cases (decode_one "domain" m.params)) [
    | inr (e, bad) ↦ rw (bad, binding_delete) (refused_with _ refl)
    | inl (domain, good) ↦
        rw (good, binding_delete)
          (guarded-Written o d _ _ _ (finish-Written o d (drop_binding domain)))
  ]

  dispatch_instance_upsert-Written : Written o d (dispatch_instance_upsert host o m d)
  unfolding dispatch_instance_upsert
  dispatch_instance_upsert-Written = elim (Result-cases (plan_install host o m d.db)) [
    | inr (e, bad) ↦ rw (bad, dispatch_instance_upsert) (refused_with _ refl)
    | inl (inst, good) ↦
        rw (good, dispatch_instance_upsert) (finish-Written o d (put_instance inst))
  ]

  dispatch-Written : Written o d (dispatch_signed_mutation host o m d)
  unfolding dispatch_signed_mutation
  dispatch-Written = if-Written _ _ _ domain_upsert-Written (
      if-Written _ _ _ domain_delete-Written (
        if-Written _ _ _ domain_set_basic_auth-Written (
          if-Written _ _ _ dispatch_instance_upsert-Written (
            if-Written _ _ _ instance_delete-Written (
              if-Written _ _ _ instance_set_state-Written (
                if-Written _ _ _ binding_upsert-Written
                  (if-Written _ _ _ binding_delete-Written (refused_with _ refl))))))))

reload-keeps : (b : Bool) (r : Step) → (reload b r).1.db ≡ r.1.db
reload-keeps true (ok _, d) = refl
reload-keeps false (ok _, d) = refl
reload-keeps true (err e, d) = refl
reload-keeps false (err e, d) = refl

finish-keeps : (r : Result StoreError (Unit {0}) × Db) (d : Device) → (finish r d).1.db ≡ r.1
finish-keeps (ok _, db) d = refl
finish-keeps (err e, db) d = refl

-- Whatever a verified mutation asks for, its dispatch keeps the constraints of the database.
pub dispatch-IsIntact :
    (host : Host) (o : Outcomes) (m : Mutation) (d : Device)
    → IsIntact d.db
    → IsIntact (dispatch_signed_mutation host o m d).1.db
dispatch-IsIntact host o m d h = elim (dispatch-Written host o m d) [
  | refused_with e r ↦ subst (λ (s : Step). IsIntact s.1.db) (sym r) h
  | written op b r ↦
      subst IsIntact
        (sym (
          ap (λ (s : Step). s.1.db) r
          ∙ reload-keeps b (finish (run_op o.write op d.db) d)
          ∙ finish-keeps (run_op o.write op d.db) d))
        (run_op-IsIntact o.write op d.db h)
]

-- A dispatch does all of its work or none.
abbrev pub IsAllOrNothing : Device → Step → Type 0
IsAllOrNothing d r =
    (r.0 ≡ ok tt → r.1.triggers ≡ suc d.triggers) × ((e : DispatchError) → r.0 ≡ err e → r.1 ≡ d)

reload-IsAllOrNothing :
    (b : Bool) (d : Device) (r : Step) → IsAllOrNothing d r → IsAllOrNothing d (reload b r)
reload-IsAllOrNothing true d (ok _, d') h = (λ x. h.0 refl, λ e x. absurd (ground arith))
reload-IsAllOrNothing false d (ok _, d') h = (λ x. h.0 refl, λ e x. absurd (ground arith))
reload-IsAllOrNothing true d (err e, d') h = h
reload-IsAllOrNothing false d (err e, d') h = h

finish-IsAllOrNothing :
    (r : Result StoreError (Unit {0}) × Db) (d : Device)
    → IsAtomic d.db r
    → IsAllOrNothing d (finish r d)
finish-IsAllOrNothing (ok tt, db) d h = (λ x. refl, λ e x. absurd (ground arith))
finish-IsAllOrNothing (err e, db) d h =
    (λ x. absurd (ground arith), λ e' x. ap (λ t. record d { db = t }) (h.unchanged e refl))

-- A dispatch that returns an error has left the device as it was, its database included, and has not
-- asked the reconciler for a pass; one that succeeds has asked for exactly one.
pub dispatch-IsAllOrNothing :
    (host : Host) (o : Outcomes) (m : Mutation) (d : Device)
    → IsAllOrNothing d (dispatch_signed_mutation host o m d)
dispatch-IsAllOrNothing host o m d = elim (dispatch-Written host o m d) [
  | refused_with e r ↦ subst (IsAllOrNothing d) (sym r) (λ x. absurd (ground arith), λ e' x. refl)
  | written op b r ↦ subst (IsAllOrNothing d) (sym r) (
      reload-IsAllOrNothing b d _
        (finish-IsAllOrNothing (run_op o.write op d.db) d (run_op-IsAtomic o.write op d.db)))
]
