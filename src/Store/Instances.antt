-- ===== src/Store/Instances.antt =====
-- internal/store/instances.go: the row of an instance, with the fields that the reconciler reads.
use obacht_agent.Base.{ℕ, Bool, true, false, Option, is_nil, ◌==◌, nat_eq, list_eq, if◌then◌else◌}
use obacht_agent.Base.Text.{Text, text}

-- The four values of `Runtime`, or a value that the agent does not know.
pub data Runtime : Type 0 where
  container compose system : Runtime
  other_runtime : Text → Runtime

-- The values of `DesiredState`, or a value that the agent does not know.
pub data DesiredState : Type 0 where
  installed stopped removed : DesiredState
  other_desired : Text → DesiredState

-- `Runtime(s)` and `DesiredState(s)`
unfoldable pub to_runtime : Text → Runtime
to_runtime s =
    if s == text "container"
    then container
    else if s == text "compose"
    then compose
    else if s == text "system"
    then system
    else other_runtime s

unfoldable pub to_desired : Text → DesiredState
to_desired s =
    if s == text "installed"
    then installed
    else if s == text "stopped"
    then stopped
    else if s == text "removed"
    then removed
    else other_desired s

-- The CHECKs of the columns.
abbrev pub is_known_runtime : Runtime → Bool
is_known_runtime container = true
is_known_runtime compose = true
is_known_runtime system = true
is_known_runtime (other_runtime _) = false

abbrev pub is_known_desired : DesiredState → Bool
is_known_desired installed = true
is_known_desired stopped = true
is_known_desired removed = true
is_known_desired (other_desired _) = false

-- `== ""`
abbrev pub is_no_runtime : Runtime → Bool
is_no_runtime (other_runtime s) = is_nil s
is_no_runtime container = false
is_no_runtime compose = false
is_no_runtime system = false

abbrev pub is_no_desired : DesiredState → Bool
is_no_desired (other_desired s) = is_nil s
is_no_desired installed = false
is_no_desired stopped = false
is_no_desired removed = false

-- The times at which a row was made, changed and last observed are left out.
pub record Instance : Type 0 where
  pub id : Text
  pub template_id : Text
  pub runtime : Runtime
  pub version : Text
  pub desired_state : DesiredState
  pub config_json : Text
  pub observed_state : Text
  pub observed_json : Text
  pub service_ready : Text
  pub ready_at : Option ℕ
