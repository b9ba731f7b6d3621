-- ===== src/Sync/Attested.antt =====
-- What an `instance.upsert` that succeeds has established.
use obacht_agent.Base.{
  Bool, true, false, not, ◌&&◌, ◌||◌, ◌≡◌, refl, sym, ap, ◌∙◌, Option, none, some, List, [], ◌∷◌,
  All, is_nil, ◌==◌, nat_eq, list_eq, Bool-cases, inl, inr, arith,
}
use obacht_agent.Base.Result.{ok, guard, guard-eq-ok, >>=-eq-ok, Result-cases}
use obacht_agent.Base.Text.{Text, text}
use obacht_agent.SignedMut.Envelope.{Mutation}
use obacht_agent.SignedMut.Verify.{Bytes}
use obacht_agent.Store.Instances.{Instance, to_desired}
use obacht_agent.Store.Locks.{Outcome, works, fails}
use obacht_agent.Store.Db.{Db}
use obacht_agent.Sync.Params.{InstallParams, decode_install}
use obacht_agent.Sync.Device.{
  Outcomes, Host, DispatchError, ids_required, signed_manifest_required, bad_manifest_b64,
  bad_sig_b64, manifest_rejected, system_unsupported, power_mode_required, Device,
}
use obacht_agent.Sync.Install.{
  is_system, is_removed, is_linux, list_instances, find_duplicate, refuse_duplicate, from_option,
  from_listed, darwin_host_svc, linux_system, verified_manifest, check_singleton, check_system,
  check_power, plan_install, dispatch_instance_upsert,
}

-- another instance of the template that is not being removed
abbrev pub is_rival : InstallParams → Instance → Bool
is_rival p e =
    is_system e.runtime
    && e.template_id == p.template_id
    && not (e.id == p.instance_id)
    && not (is_removed e.desired_state)

pub record IsAttested (host : Host) (p : InstallParams) (manifest : Bytes) (db : Db) : Type 0 where
  pub has_id : is_nil p.instance_id ≡ false
  pub has_template : is_nil p.template_id ≡ false
  pub signature : Bytes
  pub manifest_decoded : host.manifests.decode_base64 p.manifest_b64 ≡ some manifest
  pub signature_decoded : host.manifests.decode_base64 p.manifest_sig_b64 ≡ some signature
  pub registry : host.manifests.verify manifest signature ≡ true
  pub flavour :
      (host.manifests.runtime_type manifest == text "system") ≡ true
      → (darwin_host_svc host manifest || linux_system host manifest) ≡ true
  pub singleton :
      (host.manifests.runtime_type manifest == text "system") ≡ true
      → darwin_host_svc host manifest ≡ true
      → is_removed (to_desired p.desired_state) ≡ false
      → All (λ e. is_rival p e ≡ false) db.instances
  pub power :
      (host.manifests.min_sudo_level manifest == text "power") ≡ true
      → (is_linux host.goos && host.power_mode) ≡ true

from_option-ok :
    {A : Type 0} (e : DispatchError) (x : Option A) {a : A} → from_option e x ≡ ok a → x ≡ some a
from_option-ok e none h = absurd (ground arith)
from_option-ok e (some a) h = ground (arith, h)

find_duplicate-none :
    (p : InstallParams) (es : List Instance)
    → find_duplicate p.instance_id p.template_id es ≡ none
    → All (λ e. is_rival p e ≡ false) es
unfolding find_duplicate
find_duplicate-none p [] h = tt
find_duplicate-none p (e ∷ es) h = elim (Bool-cases (is_rival p e)) [
  | inl rival ↦ absurd (ground (arith, rw rival at h))
  | inr other ↦ (other, find_duplicate-none p es (rw other at h))
]

refuse_duplicate-ok : (t : Text) (o : Option Text) → refuse_duplicate t o ≡ ok tt → o ≡ none
refuse_duplicate-ok t none h = refl
refuse_duplicate-ok t (some id) h = absurd (ground arith)

list_instances-ok :
    (o : Outcome) (db : Db) {es : List Instance}
    → from_listed (list_instances o db) ≡ ok es
    → db.instances ≡ es
list_instances-ok works db h = ground (arith, h)
list_instances-ok fails db h = absurd (ground arith)

module _ (host : Host) where
  check_singleton-ok :
      (o : Outcome) (p : InstallParams) (manifest : Bytes) (db : Db)
      → check_singleton host o p manifest db ≡ ok tt
      → darwin_host_svc host manifest ≡ true
      → is_removed (to_desired p.desired_state) ≡ false
      → All (λ e. is_rival p e ≡ false) db.instances
  unfolding check_singleton
  check_singleton-ok o p manifest db h svc wanted =
      let (es, listed, free) =
        >>=-eq-ok (from_listed (list_instances o db)) _ (rw (svc, wanted) at h) in
      rw (list_instances-ok o db listed)
        (find_duplicate-none p es (refuse_duplicate-ok p.template_id _ free))

  check_system-ok :
      (o : Outcome) (p : InstallParams) (manifest : Bytes) (db : Db)
      → check_system host o p manifest db ≡ ok tt
      → (host.manifests.runtime_type manifest == text "system") ≡ true
      → ((darwin_host_svc host manifest || linux_system host manifest) ≡ true)
        × (check_singleton host o p manifest db ≡ ok tt)
  unfolding check_system
  check_system-ok o p manifest db h sys =
      let (u, allowed, rest) =
        >>=-eq-ok
          (guard (darwin_host_svc host manifest || linux_system host manifest) system_unsupported) _
          (rw sys at h) in
      (guard-eq-ok _ system_unsupported allowed, rest)

  verified_manifest-ok :
      (p : InstallParams) (manifest : Bytes)
      → verified_manifest host p ≡ ok manifest
      → ((not (is_nil p.instance_id) && not (is_nil p.template_id)) ≡ true)
        × (signature : Bytes) × (host.manifests.decode_base64 p.manifest_b64 ≡ some manifest)
        × (host.manifests.decode_base64 p.manifest_sig_b64 ≡ some signature)
        × (host.manifests.verify manifest signature ≡ true)
  unfolding verified_manifest
  verified_manifest-ok p manifest h =
      let (u₁, ids, h₁) =
        >>=-eq-ok (guard (not (is_nil p.instance_id) && not (is_nil p.template_id)) ids_required) _
          h in
      let (u₂, both, h₂) =
        >>=-eq-ok
          (guard (not (is_nil p.manifest_b64) && not (is_nil p.manifest_sig_b64))
            signed_manifest_required)
          _ h₁ in
      let (bytes, b, h₃) =
        >>=-eq-ok (from_option bad_manifest_b64 (host.manifests.decode_base64 p.manifest_b64)) _
          h₂ in
      let (signature, g, h₄) =
        >>=-eq-ok (from_option bad_sig_b64 (host.manifests.decode_base64 p.manifest_sig_b64)) _
          h₃ in
      let (u₅, v, h₅) =
        >>=-eq-ok (guard (host.manifests.verify bytes signature) manifest_rejected) _ h₄ in
      let same : bytes ≡ manifest = ground (arith, h₅) in
      (
        guard-eq-ok _ ids_required ids,
        signature,
        from_option-ok bad_manifest_b64 _ b ∙ ap some same,
        from_option-ok bad_sig_b64 _ g,
        ap (λ x. host.manifests.verify x signature) (sym same) ∙ guard-eq-ok _ manifest_rejected v,
      )

  plan_install-IsAttested :
      (o : Outcomes) (m : Mutation) (db : Db) (inst : Instance)
      → plan_install host o m db ≡ ok inst
      → (p : InstallParams) × (manifest : Bytes) × (decode_install m.params ≡ ok p)
        × IsAttested host p manifest db
  unfolding plan_install check_power
  plan_install-IsAttested o m db inst h = elim (Result-cases (decode_install m.params)) [
    | inr (e, bad) ↦ absurd (ground (arith, rw (bad, plan_install) at h))
    | inl (p, good) ↦
        let (manifest, v, h₁) =
          >>=-eq-ok (verified_manifest host p) _ (rw (good, plan_install) at h) in
        let (u₂, s, h₂) = >>=-eq-ok (check_system host o.list_instances p manifest db) _ h₁ in
        let (u₃, w, h₃) = >>=-eq-ok (check_power host manifest) _ h₂ in
        let (ids, signature, b, g, registry) = verified_manifest-ok p manifest v in
        let asks = guard-eq-ok _ power_mode_required w in
        (
          p,
          manifest,
          good,
          record {
            has_id = ground (arith, ids);
            has_template = ground (arith, ids);
            signature = signature;
            manifest_decoded = b;
            signature_decoded = g;
            registry = registry;
            flavour = λ sys. (check_system-ok o.list_instances p manifest db s sys).0;
            singleton = λ sys.
                check_singleton-ok o.list_instances p manifest db
                  (check_system-ok o.list_instances p manifest db s sys).1;
            power = λ x. ground (arith, asks, x);
          },
        )
  ]

  -- An `instance.upsert` that succeeds carried the ids and a manifest whose signature the trust bundle
  -- accepted, whatever the user's own signature says; a template of runtime `system` is a host service on
  -- darwin or a managed service or kiosk on linux; a host service that is not to be removed has no other
  -- instance of its template; and a template that asks for Power Mode found it unlocked on linux.
  pub instance_upsert-IsAttested :
      (o : Outcomes) (m : Mutation) (d : Device)
      → (dispatch_instance_upsert host o m d).0 ≡ ok tt
      → (p : InstallParams) × (manifest : Bytes) × (decode_install m.params ≡ ok p)
        × IsAttested host p manifest d.db
  unfolding dispatch_instance_upsert
  instance_upsert-IsAttested o m d h = elim (Result-cases (plan_install host o m d.db)) [
    | inr (e, bad) ↦ absurd (ground (arith, rw (bad, dispatch_instance_upsert) at h))
    | inl (inst, planned) ↦ plan_install-IsAttested o m d.db inst planned
  ]
