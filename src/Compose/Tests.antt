-- ===== src/Compose/Tests.antt =====
-- Runs of the allowlist, with stand-ins for the YAML parser.
use obacht_agent.Base.{◌≡◌, refl, Bool, true, Option, some, list_beq}
use obacht_agent.Base.Result.{ok, err}
use obacht_agent.Base.Text.{Text, text, has_prefix}
use obacht_agent.Compose.Yaml.{
  Yaml, null, str, seq, mapping, nil, cons, Entries, end, entry, at_key,
}
use obacht_agent.Compose.Allowlist.{
  bind_mount, definition_key, each_entry, check_top_level, check_definition_key, check_definition,
  validate_top_level_defs, before_colon, check_mount, check_mounts, validate_service_volumes,
  check_service_key, check_service, validate_document, validate_compose_body,
}
use obacht_agent.Compose.Accepted.{IsConfinedDocument, validate-IsConfinedDocument}

-- All that a run computes with.
abbrev runs : Bool
unfolding has_prefix at_key each_entry check_top_level check_definition_key check_definition
    validate_top_level_defs before_colon check_mount check_mounts validate_service_volumes
    check_service_key check_service validate_document validate_compose_body list_beq
runs = true

-- One service that mounts `source` at /data, and one volume `store` with the given definition.
abbrev document : Text → Yaml → Entries
document mount definition =
    entry (text "services")
      (mapping (
        entry (text "app")
          (mapping (
            entry (text "image") (str (text "nginx"))
              (entry (text "volumes") (seq (cons (str mount) nil)) end)))
          end))
      (entry (text "volumes") (mapping (entry (text "store") definition end)) end)

abbrev parser : Entries → Text → Option (Option Entries)
parser doc body = some (some doc)

abbrev plain_document : Entries
plain_document = document (text "store:/data") null

sample_accepted : validate_compose_body (parser plain_document) (text "") ≡ ok tt
unfolding runs
sample_accepted = refl

bind_refused :
    validate_compose_body (parser (document (text "/etc:/data") null)) (text "")
    ≡ err (bind_mount (text "app") 0)
unfolding runs
bind_refused = refl

driver_refused :
    validate_compose_body
      (parser (document (text "store:/data") (mapping (entry (text "driver_opts") null end))))
      (text "")
    ≡ err (definition_key (text "store") (text "driver_opts"))
unfolding runs
driver_refused = refl

validate-IsConfinedDocument_example :
    (doc : Entries) × (parser plain_document (text "") ≡ some (some doc)) × IsConfinedDocument doc
validate-IsConfinedDocument_example =
    validate-IsConfinedDocument (parser plain_document) (text "") sample_accepted
