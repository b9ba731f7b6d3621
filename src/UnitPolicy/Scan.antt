-- ===== src/UnitPolicy/Scan.antt =====
-- internal/unitpolicy/policy.go: `Validate`, the scan over the lines and the presence checks.
use obacht_agent.Base.{
  ℕ, suc, ◌+◌, not, ◌&&◌, ◌||◌, Option, none, some, List, [], ◌∷◌, ◌++◌, is_nil, ltb, ◌==◌, nat_eq,
  list_eq, if◌then◌else◌,
}
use obacht_agent.Base.Result.{Result, ok, err, guard, ◌>>=◌, ◌>>◌}
use obacht_agent.Base.Text.{
  Text, text, byte_len, has_prefix, has_suffix, contains_any, trim_left, trim_right, trim_space,
  split_by,
}
use obacht_agent.UnitPolicy.Rules.{
  Section, unit, service, install, section_eq, Cause, leading_whitespace, continuation, comment,
  not_key_value, outside_section, duplicate, is_letter, max_unit_size, validate_name,
  required_exact, repeatable, validate_kv,
}

pub data Violation : Type 0 where
  bad_name empty_content too_large nul_byte : Violation
  at_line : ℕ → Cause → Violation
  missing : Text → Text → Violation
  bad_exec_count no_wanted_by no_description : Violation

-- `sectionRe`
unfoldable pub section_re : Text → Option Section
section_re line =
    if line == text "[Unit]"
    then some unit
    else if line == text "[Service]"
    then some service
    else if line == text "[Install]"
    then some install
    else none

abbrev pub after_key : Text → Text → Option (Text × Text)
after_key key [] = none
after_key key (c ∷ val) =
    if c == b'=' && not (is_nil key) && not (contains_any (λ d. d == b'\n') val)
    then some (key, val)
    else none

abbrev pub kv_from : Text → Text → Option (Text × Text)
kv_from key [] = none
kv_from key (c ∷ s) =
    let longer = kv_from (key ++ c ∷ []) s in if is_letter c then longer else after_key key (c ∷ s)

-- `kvRe`: the letters before the first `=`, and what follows it on the line
unfoldable pub kv_re : Text → Option (Text × Text)
kv_re line = kv_from [] line

-- The variables of the loop. `seen[section + "/" + key]` is `seen section key`: a section has no
-- slash in its name.
pub record State : Type 0 where
  pub section : Option Section
  pub seen : Section → Text → ℕ
  pub exec_start : Text

abbrev pub start : State
start = record { section = none; seen = λ s k. 0; exec_start = [] }

abbrev pub bump : Section → Text → (Section → Text → ℕ) → Section → Text → ℕ
bump sec key seen s k = if sec == s && key == k then suc (seen s k) else seen s k

unfoldable pub check_entry : Option Section → State → Text → Text → Result Cause State
check_entry none s key val = err outside_section
check_entry (some sec) s key val =
    if ltb 1 (suc (s.seen sec key)) && not (repeatable key) then err (duplicate sec key) else do
      validate_kv sec key val
      ok (record s {
        seen = bump sec key s.seen;
        exec_start = if sec == service && key == text "ExecStart" then val else s.exec_start;
      })

unfoldable pub check_line : State → Text → Result Cause State
check_line s raw =
    let line = trim_right (λ c. c == b'\r') raw in
    if is_nil (trim_space line)
    then ok s
    else if not (line == trim_left (λ c. c == b' ' || c == b'\t') line)
    then err leading_whitespace
    else if has_suffix line (0x5c ∷ [])
    then err continuation
    else if has_prefix line (text "#") || has_prefix line (text ";")
    then err comment
    else elim (section_re line) [
      | some sec ↦ ok (record s { section = some sec })
      | none ↦ elim (kv_re line) [
        | none ↦ err not_key_value
        | some (key, val) ↦ check_entry s.section s key val
      ]
    ]

abbrev pub number {ℓ} : {A : Type ℓ} → ℕ → Result Cause A → Result Violation A
number ln (ok a) = ok a
number ln (err e) = err (at_line ln e)

-- the loop over `strings.Split(string(content), "\n")`
unfoldable pub scan : ℕ → State → List Text → Result Violation State
scan ln s [] = ok s
scan ln s (raw ∷ raws) = number ln (check_line s raw) >>= λ t. scan (ln + 1) t raws

-- The loop over the map `requiredExact`. Go visits it in no fixed order, so only whether it returns
-- an error is the code's, not which directive the error names.
unfoldable pub check_required : List (Text × Text) → State → Result Violation (Unit {0})
check_required [] s = ok tt
check_required ((k, want) ∷ rest) s =
    let later = check_required rest s in
    if s.seen service k == 0 then err (missing k want) else later

unfoldable pub check_presence : State → Result Violation (Unit {0})
check_presence s = do
  check_required required_exact s
  guard (s.seen service (text "ExecStart") == 1 && not (is_nil s.exec_start)) bad_exec_count
  guard (s.seen install (text "WantedBy") == 1) no_wanted_by
  guard (s.seen unit (text "Description") == 1) no_description

unfoldable pub lines : Text → List Text
lines content = split_by (λ c. c == b'\n') content

unfoldable pub validate : Text → Text → Result Violation (Unit {0})
validate name content = do
  guard (validate_name name) bad_name
  guard (not (is_nil content)) empty_content
  guard (not (ltb max_unit_size (byte_len content))) too_large
  guard (not (contains_any (λ c. c == 0) content)) nul_byte
  s ← scan 1 start (lines content)
  check_presence s
