-- ===== src/Disk/Check.antt =====
-- internal/diskcheck/diskcheck.go. The variable of the environment, `strconv.ParseUint` and `statfs`
-- are parameters; an error has no text here.
use obacht_agent.Base.{
  ℕ, ◌*◌, ◌%◌, ◌^◌, ◌&&◌, Option, none, some, is_nil, ltb, leb, ◌==◌, nat_eq, if◌then◌else◌,
}
use obacht_agent.Base.Int.{ℤ, pos, negsuc}
use obacht_agent.Base.Result.{Result, ok, err}
use obacht_agent.Base.Text.{Text}

abbrev pub default_min_free_bytes : ℕ
default_min_free_bytes = 2 * 2 ^ 30

-- Who asks for the space that is missing.
pub data Shortage : Type 0 where
  by_template by_agent : Shortage

-- `Statfs_t`
pub record Statfs : Type 0 where
  pub bsize : ℕ
  pub bavail : ℕ

abbrev pub positive_or_default : Option ℕ → ℕ
positive_or_default none = default_min_free_bytes
positive_or_default (some n) = if ltb 0 n then n else default_min_free_bytes

-- `MinFreeBytes`
unfoldable pub min_free_bytes : (Text → Option ℕ) → Text → ℕ
min_free_bytes parse_uint v =
    if is_nil v then default_min_free_bytes else positive_or_default (parse_uint v)

-- `FreeBytes`
unfoldable pub free_bytes : Option Statfs → Option ℕ
free_bytes none = none
free_bytes (some st) = some (st.bsize * st.bavail % 2 ^ 64)

abbrev pub larger : ℕ → ℕ → ℕ
larger floor min_bytes = if ltb floor min_bytes then min_bytes else floor

abbrev pub enough : ℕ → ℕ → Option ℕ → Result Shortage (Unit {0})
enough floor min_bytes none = ok tt
enough floor min_bytes (some free) =
    let need = larger floor min_bytes in
    if leb need free
    then ok tt
    else if need == min_bytes && ltb floor min_bytes
    then err by_template
    else err by_agent

-- `EnsureFreeAtLeast`
unfoldable pub ensure_free_at_least :
    (Text → Option ℕ) → Text → Option Statfs → ℕ → Result Shortage (Unit {0})
ensure_free_at_least parse_uint v st min_bytes =
    enough (min_free_bytes parse_uint v) min_bytes (free_bytes st)

-- `EnsureFree`
unfoldable pub ensure_free : (Text → Option ℕ) → Text → Option Statfs → Result Shortage (Unit {0})
ensure_free parse_uint v st = ensure_free_at_least parse_uint v st 0

-- `MiB`
unfoldable pub mib : ℤ → ℕ
mib (negsuc n) = 0
mib (pos n) = if n == 0 then 0 else n * 2 ^ 10 % 2 ^ 64 * 2 ^ 10 % 2 ^ 64
