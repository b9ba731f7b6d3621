-- ===== src/Redact/Tests.antt =====
-- An environment with a secret and a name that the manifest declares; its names are upper case.
use obacht_agent.Base.{◌≡◌, refl, List, [], ◌∷◌, map, list_beq}
use obacht_agent.Base.Text.{Text, text, contains, has_suffix, has_prefix}
use obacht_agent.Redact.{
  EnvVar, cut_at_equals, join_entry, is_secret_key, env_map, env_slice, env_slice-env_map,
}

abbrev env : List EnvVar
env =
    record { key = text "DB_PASSWORD"; value = text "a=b" }
    ∷ record { key = text "PORT"; value = text "80" }
    ∷ record { key = text "SALT"; value = text "x" }
    ∷ []

abbrev same : Text → Text
same s = s

env_redacted :
    env_slice same (map join_entry env) (text "SALT" ∷ [])
    ≡ map text ("DB_PASSWORD=<redacted>" ∷ "PORT=80" ∷ "SALT=<redacted>" ∷ [])
unfolding env_slice cut_at_equals is_secret_key contains has_suffix has_prefix list_beq
env_redacted = refl

env_slice-env_map_example :
    env_slice same (map join_entry env) (text "SALT" ∷ [])
    ≡ map join_entry (env_map same env (text "SALT" ∷ []))
env_slice-env_map_example =
    env_slice-env_map same env (text "SALT" ∷ []) ((refl, refl), ((refl, refl), ((refl, refl), tt)))
