-- ===== src/Readiness/Config.antt =====
-- internal/readiness/config.go: the block `readiness` of a manifest. A missing block is `none`.
use obacht_agent.Base.{
  ℕ, Bool, false, not, ◌&&◌, ◌||◌, Option, none, some, List, [], ◌∷◌, ◌++◌, is_nil, ◌==◌, nat_eq,
  list_eq, if◌then◌else◌,
}
use obacht_agent.Base.Int.{ℤ, pos, ltbℤ}
use obacht_agent.Base.Result.{Result, ok, guard, ◌>>◌}
use obacht_agent.Base.Text.{Text, text, has_prefix, contains, contains_any}

pub record Config : Type 0 where
  pub path : Text
  pub expect_status : List ℤ
  pub timeout_seconds : ℤ

pub data ConfigError : Type 0 where
  no_slash is_url blank_in_path timeout_range : ConfigError
  status_range : ℤ → ConfigError

abbrev pub Check : Type 0
Check = Result ConfigError (Unit {0})

-- in seconds
abbrev pub default_timeout : ℤ
default_timeout = pos 300

abbrev pub min_timeout : ℤ
min_timeout = pos 10

abbrev pub max_timeout : ℤ
max_timeout = pos 1800

abbrev pub default_path : Text
default_path = text "/"

abbrev pub beqℤ : ℤ → ℤ → Bool
beqℤ a b = not (ltbℤ a b) && not (ltbℤ b a)

abbrev pub is_blank : ℕ → Bool
is_blank c = c == b' ' || c == b'\t' || c == 0 || c == b'\n' || c == b'\r'

unfoldable pub check_path : Text → Check
check_path p = if is_nil p then ok tt else do
  guard (has_prefix p (text "/")) no_slash
  guard (not (contains p (text "://"))) is_url
  guard (not (contains_any is_blank p)) blank_in_path

unfoldable pub check_statuses : List ℤ → Check
check_statuses [] = ok tt
check_statuses (s ∷ ss) =
    guard (not (ltbℤ s (pos 100) || ltbℤ (pos 599) s)) (status_range s) >> check_statuses ss

unfoldable pub check_timeout : ℤ → Check
check_timeout t =
    guard (beqℤ t (pos 0) || not (ltbℤ t min_timeout || ltbℤ max_timeout t)) timeout_range

-- `Validate`
unfoldable pub validate_config : Option Config → Check
validate_config none = ok tt
validate_config (some c) = do
  check_path c.path
  check_statuses c.expect_status
  check_timeout c.timeout_seconds

-- `path`
unfoldable pub path_of : Option Config → Text
path_of none = default_path
path_of (some c) = if is_nil c.path then default_path else c.path

-- `timeout`, in seconds
unfoldable pub timeout_of : Option Config → ℤ
timeout_of none = default_timeout
timeout_of (some c) = if beqℤ c.timeout_seconds (pos 0) then default_timeout else c.timeout_seconds

abbrev pub is_listed : ℤ → List ℤ → Bool
is_listed status [] = false
is_listed status (s ∷ ss) = beqℤ s status || is_listed status ss

abbrev pub accepts_default : ℤ → Bool
accepts_default status =
    not (ltbℤ status (pos 200)) && not (ltbℤ (pos 399) status)
    || beqℤ status (pos 401)
    || beqℤ status (pos 403)

-- `accepts`
unfoldable pub accepts_status : Option Config → ℤ → Bool
accepts_status none status = accepts_default status
accepts_status (some c) status =
    if is_nil c.expect_status then accepts_default status else is_listed status c.expect_status

-- `strings.TrimSuffix(s, "/")`
unfoldable pub trim_slash : Text → Text
trim_slash [] = []
trim_slash (c ∷ []) = if c == b'/' then [] else c ∷ []
trim_slash (c ∷ d ∷ s) = c ∷ trim_slash (d ∷ s)

-- `joinPath`
unfoldable pub join_path : Text → Text → Text
join_path prefix path = if is_nil prefix then path else trim_slash prefix ++ path
