-- ===== src/Reconciler/Bound.antt =====
-- The service that `readinessTarget` picks, and the bindings of its instance.
use obacht_agent.Store.Db.{Binding}
use obacht_agent.Base.{
  Bool, true, false, ◌&&◌, ◌≡◌, ◌≢◌, is_nil, All, beq_ne, beq_refl, ◌++◌, refl, sym, ap, ◌∙◌,
  Option, none, some, List, [], ◌∷◌, Memᴰ, ◌==◌, nat_eq, list_eq, list_beq_iff, Bool-cases, inl,
  inr, arith,
}
use obacht_agent.Base.Text.{Text}
use obacht_agent.Reconciler.Target.{
  Service, Specs, Target, replaces, pick_service, of_list, services_of, routable_in, target_in,
  readiness_target, or_empty, bind_one, bound_from, bound_services,
}
use obacht_agent.Store.Instances.{Instance, Runtime, container, compose, system, other_runtime}

module _ (routable : Service → Bool) (want : Text) where
  -- A pick that is routable, and is the bound service if one has been met.
  abbrev pub IsPick : List Service → Option Service → Type 0
  IsPick all none = Unit
  IsPick all (some s) = Memᴰ s all × (routable s ≡ true)

  pick_service-IsPick :
      (all svcs : List Service) (pick : Option Service)
      → ((s : Service) → Memᴰ s svcs → Memᴰ s all)
      → IsPick all pick
      → IsPick all (pick_service routable want pick svcs)
  unfolding pick_service
  pick_service-IsPick all [] pick inside p = p
  pick_service-IsPick all (s ∷ svcs) pick inside p =
      elim (Bool-cases (routable s && replaces pick want s)) [
        | inl takes ↦ rw takes (
            pick_service-IsPick all svcs (some s) (λ x m. inside x (Memᴰ.tail m))
              (inside s (Memᴰ.head refl), ground (arith, takes)))
        | inr leaves ↦
            rw leaves (pick_service-IsPick all svcs pick (λ x m. inside x (Memᴰ.tail m)) p)
      ]

  abbrev pub IsNamed : Option Service → Type 0
  IsNamed none = true ≡ false
  IsNamed (some s) = s.name ≡ want

  IsNamed-kept :
      (svcs : List Service) (p : Service)
      → p.name ≡ want
      → IsNamed (pick_service routable want (some p) svcs)
  unfolding pick_service
  IsNamed-kept [] p h = h
  IsNamed-kept (s ∷ svcs) p h = elim (Bool-cases (routable s && s.name == want)) [
    | inl takes ↦ rw takes (IsNamed-kept svcs s (ground (arith, takes, list_beq_iff s.name want)))
    | inr leaves ↦ rw leaves (IsNamed-kept svcs p h)
  ]

  IsNamed-taken :
      (s : Service) (svcs : List Service) (pick : Option Service)
      → routable s ≡ true
      → s.name ≡ want
      → IsNamed (pick_service routable want pick (s ∷ svcs))
  unfolding pick_service
  IsNamed-taken s svcs none r n = rw r (IsNamed-kept svcs s n)
  IsNamed-taken s svcs (some p) r n =
      let same : (s.name == want) ≡ true = (list_beq_iff s.name want).1 n in
      rw (r, same) (IsNamed-kept svcs s n)

  IsNamed-found :
      (s : Service) {svcs : List Service} (pick : Option Service)
      → Memᴰ s svcs
      → routable s ≡ true
      → s.name ≡ want
      → IsNamed (pick_service routable want pick svcs)
  unfolding pick_service
  IsNamed-found s pick (Memᴰ.head {x = x} {xs = xs} e) r n =
      IsNamed-taken x xs pick (ap routable (sym e) ∙ r) (ap (λ (t : Service). t.name) (sym e) ∙ n)
  IsNamed-found s pick (Memᴰ.tail {x = x} {xs = xs} m) r n = IsNamed-found s _ m r n

  IsNamed-some :
      (all : List Service) (o : Option Service)
      → IsNamed o
      → IsPick all o
      → (t : Service) × (o ≡ some t) × Memᴰ t all × (routable t ≡ true) × (t.name ≡ want)
  IsNamed-some all none n p = absurd (ground (arith, n))
  IsNamed-some all (some t) n p = (t, refl, p.0, p.1, n)

  bound_pick :
      (svcs : List Service) (s : Service)
      → Memᴰ s svcs
      → routable s ≡ true
      → s.name ≡ want
      → (t : Service) × (pick_service routable want none svcs ≡ some t)
        × Memᴰ t svcs
        × (routable t ≡ true)
        × (t.name ≡ want)
  bound_pick svcs s m r n =
      IsNamed-some svcs _ (IsNamed-found s none m r n)
        (pick_service-IsPick svcs svcs none (λ x i. i) tt)

target_in-some :
    (r : Runtime) (inst : Instance) (t x : Service)
    → routable_in r x ≡ true
    → (target : Target) × (target_in r inst (some t) ≡ some target)
      × (target.service_name ≡ t.name)
      × (target.target_port ≡ t.target_port)
      × (target.instance_id ≡ inst.id)
target_in-some container inst t x h = (_, refl, refl, refl, refl)
target_in-some compose inst t x h = (_, refl, refl, refl, refl)
target_in-some system inst t x h = (_, refl, refl, refl, refl)
target_in-some (other_runtime _) inst t x h = absurd (ground arith)

-- Bindings of other instances leave what is bound.
bound_from-kept :
    (id : Text) (bound : Text → Text) (bs : List Binding)
    → All (λ b. b.instance_id ≢ some id) bs
    → bound_from bound bs id ≡ bound id
unfolding bound_from
bound_from-kept id bound [] h = refl
bound_from-kept id bound (b ∷ bs) h =
    bound_from-kept id (bind_one b bound) bs h.1
    ∙ elim (Bool-cases (is_nil (or_empty b.instance_id))) [
      | inl no_id ↦ rw no_id refl
      | inr named ↦
          let away : (id == or_empty b.instance_id) ≡ false = other b.instance_id h.0 named in
          rw (named, away) refl
    ]
  where
    other :
        (o : Option Text) → o ≢ some id → is_nil (or_empty o) ≡ false → (id == or_empty o) ≡ false
    other none ne named = absurd (ground (arith, named))
    other (some x) ne named = beq_ne id x (λ e. ne (ap some (sym e)))

-- The last binding of an instance decides.
bound_from-last :
    (id : Text) (bound : Text → Text) (before after : List Binding) (b : Binding)
    → is_nil id ≡ false
    → b.instance_id ≡ some id
    → All (λ x. x.instance_id ≢ some id) after
    → bound_from bound (before ++ b ∷ after) id ≡ or_empty b.service_name
unfolding bound_from
bound_from-last id bound [] after b named mine last =
    let own : or_empty b.instance_id ≡ id = ap or_empty mine in
    bound_from-kept id (bind_one b bound) after last ∙ rw (own, named, beq_refl id) refl
bound_from-last id bound (x ∷ before) after b named mine last =
    bound_from-last id (bind_one x bound) before after b named mine last

-- When `ListBindings` succeeds, and the last of the bindings of an instance names a routable service of
-- its specification, the prober asks a service of that name: the target names it, and has the port of a
-- routable service of that name in the specification.
pub target-bound :
    (specs : Specs) (inst : Instance) (before after : List Binding) (b : Binding)
    (svcs : List Service) (s : Service)
    → is_nil inst.id ≡ false
    → b.instance_id ≡ some inst.id
    → All (λ x. x.instance_id ≢ some inst.id) after
    → b.service_name ≡ some s.name
    → services_of specs inst.config_json inst.runtime ≡ some svcs
    → Memᴰ s svcs
    → routable_in inst.runtime s ≡ true
    → (target : Target) × (t : Service) × (readiness_target specs inst
          (bound_services (some (before ++ b ∷ after)))
        ≡ some target)
      × (target.service_name ≡ s.name)
      × (target.target_port ≡ t.target_port)
      × (target.instance_id ≡ inst.id)
      × Memᴰ t svcs
      × (routable_in inst.runtime t ≡ true)
      × (t.name ≡ s.name)
unfolding readiness_target bound_services
target-bound specs inst before after b svcs s named mine last names listed m r =
    let (t, picked, inside, good, same) =
      bound_pick (routable_in inst.runtime) s.name svcs s m r refl in
    let (target, made, name, port, id) = target_in-some inst.runtime inst t s r in
    let want : bound_from (λ id. []) (before ++ b ∷ after) inst.id ≡ s.name =
      bound_from-last inst.id (λ id. []) before after b named mine last ∙ ap or_empty names in
    let chosen : of_list (routable_in inst.runtime)
          (bound_from (λ id. []) (before ++ b ∷ after) inst.id)
          (services_of specs inst.config_json inst.runtime)
        ≡ some t =
      rw (want, listed) picked in
    (target, t, rw chosen made, name ∙ same, port, id, inside, good, same)
