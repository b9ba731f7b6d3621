-- ===== src/Compose/Allowlist.antt =====
-- internal/runtime/compose/allowlist.go: `ValidateComposeBody`. The tables of forbidden keys hold the
-- keys without the reasons that the messages quote.
use obacht_agent.Base.{
  ℕ, ◌+◌, Bool, true, false, not, ◌||◌, Option, none, some, List, [], ◌∷◌, map, elem, is_nil, ◌==◌,
  nat_eq, list_eq, if◌then◌else◌,
}
use obacht_agent.Base.Result.{Result, ok, err, guard, ◌>>◌}
use obacht_agent.Base.Text.{Text, text, has_prefix}
use obacht_agent.Compose.Yaml.{
  Yaml, null, str, other, seq, mapping, Items, nil, cons, Entries, end, entry, at_key, has_key,
  text_of, mapping_of,
}

abbrev pub allowed_top_level : List Text
allowed_top_level = map text ("services" ∷ "volumes" ∷ "networks" ∷ "version" ∷ "name" ∷ [])

abbrev pub allowed_service_keys : List Text
allowed_service_keys = map text (
    "image" ∷ "command" ∷ "entrypoint" ∷ "environment" ∷ "volumes" ∷ "depends_on" ∷ "healthcheck"
    ∷ "restart" ∷ "labels" ∷ "networks" ∷ "tmpfs" ∷ "read_only" ∷ "user" ∷ "working_dir"
    ∷ "cap_drop" ∷ "security_opt" ∷ "stop_grace_period" ∷ "stop_signal" ∷ "sysctls" ∷ "shm_size"
    ∷ "mem_limit" ∷ "cpus" ∷ "init" ∷ [])

abbrev pub forbidden_volume_keys : List Text
forbidden_volume_keys = map text ("driver" ∷ "driver_opts" ∷ "external" ∷ "name" ∷ [])

abbrev pub forbidden_network_keys : List Text
forbidden_network_keys = map text ("external" ∷ "name" ∷ "driver" ∷ "driver_opts" ∷ [])

abbrev pub forbidden_service_keys : List Text
forbidden_service_keys = map text (
    "build" ∷ "network_mode" ∷ "privileged" ∷ "cap_add" ∷ "devices" ∷ "pid" ∷ "ipc" ∷ "uts"
    ∷ "ports" ∷ "expose" ∷ "secrets" ∷ "configs" ∷ "extends" ∷ "profiles" ∷ "external_links"
    ∷ "links" ∷ "userns_mode" ∷ "cgroup_parent" ∷ "pids_limit" ∷ "env_file" ∷ [])

abbrev pub data_marker : Text
data_marker = text "x-obacht-data"

pub data ComposeError : Type 0 where
  parse_error empty_body no_services : ComposeError
  forbidden_extension top_level_key service_not_mapping definition_not_mapping : Text → ComposeError
  definition_key forbidden_key unknown_key : Text → Text → ComposeError
  volumes_not_array : Text → ComposeError
  bind_mount bad_mount : Text → ℕ → ComposeError
  undeclared_volume : Text → ℕ → Text → ComposeError

abbrev pub Check : Type 0
Check = Result ComposeError (Unit {0})

abbrev pub is_extension : Text → Bool
is_extension k = has_prefix k (text "x-")

-- A loop over the entries of a mapping that returns the first error.
unfoldable pub each_entry : (Text → Yaml → Check) → Entries → Check
each_entry check end = ok tt
each_entry check (entry k v es) = check k v >> each_entry check es

unfoldable pub check_top_level : Text → Yaml → Check
check_top_level k v =
    if is_extension k
    then guard (k == data_marker) (forbidden_extension k)
    else guard (elem k allowed_top_level) (top_level_key k)

unfoldable pub check_definition_key : List Text → Text → Text → Yaml → Check
check_definition_key forbidden name k v =
    if is_extension k
    then guard (k == data_marker) (forbidden_extension k)
    else if elem k forbidden
    then err (definition_key name k)
    else guard (k == text "labels") (unknown_key name k)

unfoldable pub check_definition : List Text → Text → Yaml → Check
check_definition forbidden name null = ok tt
check_definition forbidden name (mapping es) = each_entry (check_definition_key forbidden name) es
check_definition forbidden name (str _) = err (definition_not_mapping name)
check_definition forbidden name (other _) = err (definition_not_mapping name)
check_definition forbidden name (seq _) = err (definition_not_mapping name)

-- `validateTopLevelDefs`
unfoldable pub validate_top_level_defs : List Text → Entries → Check
validate_top_level_defs forbidden defs = each_entry (check_definition forbidden) defs

-- The text up to the first colon.
unfoldable pub before_colon : Text → Text
before_colon [] = []
before_colon (c ∷ s) = let rest = before_colon s in if c == b':' then [] else c ∷ rest

abbrev pub is_path : Text → Bool
is_path src = has_prefix src (text "/") || has_prefix src (text ".") || has_prefix src (text "~")

unfoldable pub check_mount : Text → Entries → ℕ → Yaml → Check
check_mount svc declared i (str m) =
    let src = before_colon m in
    if is_path src
    then err (bind_mount svc i)
    else guard (has_key src declared) (undeclared_volume svc i src)
check_mount svc declared i (mapping m) =
    let src = text_of (at_key (text "source") m) in
    if text_of (at_key (text "type") m) == text "bind"
    then err (bind_mount svc i)
    else guard (is_nil src || has_key src declared) (undeclared_volume svc i src)
check_mount svc declared i null = err (bad_mount svc i)
check_mount svc declared i (other _) = err (bad_mount svc i)
check_mount svc declared i (seq _) = err (bad_mount svc i)

unfoldable pub check_mounts : Text → Entries → ℕ → Items → Check
check_mounts svc declared i nil = ok tt
check_mounts svc declared i (cons m ms) =
    check_mount svc declared i m >> check_mounts svc declared (i + 1) ms

-- `validateServiceVolumes`; `declared` is the mapping `volumes`, of which the code keeps the keys.
unfoldable pub validate_service_volumes : Text → Entries → Yaml → Check
validate_service_volumes svc declared (seq ms) = check_mounts svc declared 0 ms
validate_service_volumes svc declared null = err (volumes_not_array svc)
validate_service_volumes svc declared (str _) = err (volumes_not_array svc)
validate_service_volumes svc declared (other _) = err (volumes_not_array svc)
validate_service_volumes svc declared (mapping _) = err (volumes_not_array svc)

unfoldable pub check_service_key : Text → Entries → Text → Yaml → Check
check_service_key svc declared k v =
    if is_extension k
    then ok tt
    else if elem k forbidden_service_keys
    then err (forbidden_key svc k)
    else if not (elem k allowed_service_keys)
    then err (unknown_key svc k)
    else if k == text "volumes"
    then validate_service_volumes svc declared v
    else ok tt

unfoldable pub check_service : Entries → Text → Yaml → Check
check_service declared svc (mapping es) = each_entry (check_service_key svc declared) es
check_service declared svc null = err (service_not_mapping svc)
check_service declared svc (str _) = err (service_not_mapping svc)
check_service declared svc (other _) = err (service_not_mapping svc)
check_service declared svc (seq _) = err (service_not_mapping svc)

abbrev pub check_defs : List Text → Option Entries → Check
check_defs forbidden none = ok tt
check_defs forbidden (some defs) = validate_top_level_defs forbidden defs

-- The declared volumes; none if `volumes` is no mapping.
abbrev pub or_end : Option Entries → Entries
or_end none = end
or_end (some es) = es

abbrev pub check_services : Entries → Option Entries → Check
check_services declared none = err no_services
check_services declared (some end) = err no_services
check_services declared (some (entry k v es)) = each_entry (check_service declared) (entry k v es)

abbrev pub has_services : Option Entries → Bool
has_services none = false
has_services (some end) = false
has_services (some (entry _ _ _)) = true

-- `ValidateComposeBody` behind the parser
unfoldable pub validate_document : Entries → Check
validate_document doc =
    let volumes = mapping_of (at_key (text "volumes") doc) in
    let services = mapping_of (at_key (text "services") doc) in
    do
      each_entry check_top_level doc
      guard (has_services services) no_services
      check_defs forbidden_volume_keys volumes
      check_defs forbidden_network_keys (mapping_of (at_key (text "networks") doc))
      check_services (or_end volumes) services

-- `yaml.Unmarshal` into a `map[string]any`: an error, a nil map, or the entries.
module _ (parse_yaml : Text → Option (Option Entries)) where
  abbrev pub validate_parsed : Option (Option Entries) → Check
  validate_parsed none = err parse_error
  validate_parsed (some none) = err empty_body
  validate_parsed (some (some doc)) = validate_document doc

  unfoldable pub validate_compose_body : Text → Check
  validate_compose_body body = validate_parsed (parse_yaml body)
