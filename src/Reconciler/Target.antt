-- ===== src/Reconciler/Target.antt =====
-- internal/reconciler/loop.go: `boundServices` and `readinessTarget`, which service of an instance the prober asks. The
-- parsers of the three kinds of specifications are the parameter `Specs`.
use obacht_agent.Base.{
  Bool, true, false, not, ◌&&◌, ◌||◌, Option, none, some, List, [], ◌∷◌, ◌++◌, is_nil, ◌==◌, nat_eq,
  list_eq, if◌then◌else◌,
}
use obacht_agent.Base.Text.{Text, text}
use obacht_agent.Store.Instances.{Instance, Runtime, container, compose, system, other_runtime}
use obacht_agent.Base.Int.{ℤ, pos}
use obacht_agent.Readiness.Config.{Config, beqℤ}
use obacht_agent.Readiness.Prober.{put}
use obacht_agent.Store.Db.{Binding}

-- The fields that the three kinds of services have between them.
pub record Service : Type 0 where
  pub name : Text
  pub target_port : ℤ
  pub target_service : Text
  pub target_type : Text
  pub readiness : Option Config

-- `container.ParseSpec`, `compose.ParseSpec` and `system.ParseSpec`, which yield the services, and
-- `system.HasPostStart`.
pub record Specs : Type 0 where
  pub container_services : Text → Option (List Service)
  pub compose_services : Text → Option (List Service)
  pub system_services : Text → Option (Bool × List Service)

-- `readiness.Target`
pub record Target : Type 0 where
  pub instance_id : Text
  pub service_name : Text
  pub container_name : Text
  pub target_port : ℤ
  pub host_port : Bool
  pub config : Option Config

abbrev pub is_unset : ℤ → Bool
is_unset n = beqℤ n (pos 0)

-- The services that the loops of the three runtimes do not skip.
abbrev pub container_routable : Service → Bool
container_routable svc = not (is_nil svc.name || is_unset svc.target_port)

abbrev pub compose_routable : Service → Bool
compose_routable svc =
    not (is_nil svc.name || is_unset svc.target_port || is_nil svc.target_service)

abbrev pub system_routable : Service → Bool
system_routable svc = not (
    is_nil svc.name
    || is_unset svc.target_port
    || not (is_nil svc.target_type) && not (svc.target_type == text "host_port"))

abbrev pub replaces : Option Service → Text → Service → Bool
replaces none want svc = true
replaces (some _) want svc = svc.name == want

-- The loop over the services; the second argument is `pick`.
unfoldable pub pick_service :
    (Service → Bool) → Text → Option Service → List Service → Option Service
pick_service routable want pick [] = pick
pick_service routable want pick (svc ∷ svcs) =
    pick_service routable want (if routable svc && replaces pick want svc then some svc else pick)
      svcs

-- `compose.PrimaryContainerName`
abbrev pub primary_container_name : Text → Text → Text
primary_container_name id svc = text "obacht-" ++ (id ++ (text "-" ++ (svc ++ text "-1")))

abbrev pub container_target : Instance → Option Service → Option Target
container_target inst none = none
container_target inst (some pick) = some record {
  instance_id = inst.id;
  service_name = pick.name;
  container_name = text "obacht-" ++ inst.id;
  target_port = pick.target_port;
  host_port = false;
  config = pick.readiness;
}

abbrev pub compose_target : Instance → Option Service → Option Target
compose_target inst none = none
compose_target inst (some pick) = some record {
  instance_id = inst.id;
  service_name = pick.name;
  container_name = primary_container_name inst.id pick.target_service;
  target_port = pick.target_port;
  host_port = false;
  config = pick.readiness;
}

abbrev pub system_target : Instance → Option Service → Option Target
system_target inst none = none
system_target inst (some pick) = some record {
  instance_id = inst.id;
  service_name = pick.name;
  container_name = [];
  target_port = pick.target_port;
  host_port = true;
  config = pick.readiness;
}

-- A specification that does not parse has no target.
abbrev pub of_list : (Service → Bool) → Text → Option (List Service) → Option Service
of_list routable want none = none
of_list routable want (some svcs) = pick_service routable want none svcs

-- An instance with post_start hooks is not probed.
abbrev pub without_hooks : Option (Bool × List Service) → Option (List Service)
without_hooks none = none
without_hooks (some (hooks, svcs)) = if hooks then none else some svcs

-- The services of an instance that the loop goes over.
abbrev pub services_of : Specs → Text → Runtime → Option (List Service)
services_of specs config container = specs.container_services config
services_of specs config compose = specs.compose_services config
services_of specs config system = without_hooks (specs.system_services config)
services_of specs config (other_runtime _) = none

abbrev pub routable_in : Runtime → Service → Bool
routable_in container = container_routable
routable_in compose = compose_routable
routable_in system = system_routable
routable_in (other_runtime _) = λ svc. false

abbrev pub target_in : Runtime → Instance → Option Service → Option Target
target_in container = container_target
target_in compose = compose_target
target_in system = system_target
target_in (other_runtime _) = λ inst pick. none

-- `ListBindings` reads NULL as the empty text.
abbrev pub or_empty : Option Text → Text
or_empty none = []
or_empty (some t) = t

-- One binding in the loop of `boundServices`; an instance without one has the empty text.
abbrev pub bind_one : Binding → (Text → Text) → Text → Text
bind_one b bound =
    if is_nil (or_empty b.instance_id)
    then bound
    else put (or_empty b.instance_id) (or_empty b.service_name) bound

unfoldable pub bound_from : (Text → Text) → List Binding → Text → Text
bound_from bound [] = bound
bound_from bound (b ∷ bs) = bound_from (bind_one b bound) bs

-- `boundServices` on what `ListBindings` returns, `none` where that fails
unfoldable pub bound_services : Option (List Binding) → Text → Text
bound_services none = λ id. []
bound_services (some bs) = bound_from (λ id. []) bs

-- `readinessTarget`
unfoldable pub readiness_target : Specs → Instance → (Text → Text) → Option Target
readiness_target specs inst bound = target_in inst.runtime inst (
    of_list (routable_in inst.runtime) (bound inst.id)
      (services_of specs inst.config_json inst.runtime))
