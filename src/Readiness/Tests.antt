-- ===== src/Readiness/Tests.antt =====
-- A readiness block as a manifest has it.
use obacht_agent.Base.{◌≡◌, refl, Bool, true, Option, some, [], ◌∷◌}
use obacht_agent.Base.Int.{pos}
use obacht_agent.Base.Result.{ok}
use obacht_agent.Base.Text.{text, has_prefix, contains}
use obacht_agent.Readiness.Config.{
  Config, check_path, check_statuses, check_timeout, validate_config, path_of, timeout_of,
  accepts_status, trim_slash, join_path,
}
use obacht_agent.Readiness.Bounds.{IsWithin, IsProbable, validate-IsProbable, validate-accepts}

abbrev runs : Bool
unfolding has_prefix contains check_path check_statuses check_timeout validate_config path_of
    timeout_of accepts_status trim_slash join_path
runs = true

abbrev block : Option Config
block = some record {
  path = text "/health";
  expect_status = pos 204 ∷ pos 301 ∷ [];
  timeout_seconds = pos 600;
}

block_accepted : validate_config block ≡ ok tt
unfolding runs
block_accepted = refl

block_answer : accepts_status block (pos 301) ≡ true
unfolding runs
block_answer = refl

joined : join_path (text "/app/") (text "/health") ≡ text "/app/health"
unfolding runs
joined = refl

validate-IsProbable_example : IsProbable block
validate-IsProbable_example = validate-IsProbable block block_accepted

validate-accepts_example : IsWithin 100 599 (pos 301)
validate-accepts_example = validate-accepts block (pos 301) block_accepted block_answer
