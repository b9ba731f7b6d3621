-- ===== src/UnitPolicy/Rules.antt =====
-- internal/unitpolicy/policy.go: the unit name, the allowlists, `validateKV` and
-- `validateExecStart`. An error keeps what its message names.
use obacht_agent.Base.{
  ℕ, Bool, true, false, not, ◌&&◌, ◌||◌, Option, none, some, List, [], ◌∷◌, ◌++◌, String, ◌*◌, ◌≡◌,
  ◌↔◌, arith, is_nil, elem, leb, Eq, ◌==◌, nat_eq, list_eq, if◌then◌else◌,
}
use obacht_agent.Base.Result.{Result, ok, err, guard}
use obacht_agent.Base.Text.{Text, text, has_prefix, contains, contains_any, fields}
use obacht_agent.Base.Regex.{Regex, cls, seq, alt, star, plus, upto, lit, accepts}

pub data Section : Type 0 where
  unit service install : Section

abbrev section_beq : Section → Section → Bool
section_beq unit unit = true
section_beq service service = true
section_beq install install = true
section_beq _ _ = false

pub section_beq_iff : (a b : Section) → (section_beq a b ≡ true) ↔ (a ≡ b)
section_beq_iff a b = ground arith

instance abbrev pub section_eq : Eq Section
section_eq = record { beq = section_beq; beq_iff = section_beq_iff }

pub data Cause : Type 0 where
  leading_whitespace continuation comment not_key_value outside_section : Cause
  duplicate unknown_key : Section → Text → Cause
  bad_target : Text → Text → Cause
  inexact : Text → Text → Text → Cause
  bad_binary bad_token traversal bad_group bad_device bad_environment bad_family : Text → Cause
  bad_number : Text → Cause
  bad_description bad_type no_exec binary_traversal no_groups bad_state_directory : Cause
  bad_restart bad_umask bad_wanted_by : Cause

abbrev pub Check : Type 0
Check = Result Cause (Unit {0})

abbrev pub is_lower : ℕ → Bool
is_lower c = leb b'a' c && leb c b'z'

abbrev pub is_letter : ℕ → Bool
is_letter c = is_lower c || leb b'A' c && leb c b'Z'

abbrev pub is_digit : ℕ → Bool
is_digit c = leb b'0' c && leb c b'9'

abbrev pub one_of : String → ℕ → Bool
one_of s c = elem c (text s)

abbrev pub unit_prefix : Text
unit_prefix = text "obacht-svc-"

abbrev pub bin_root : Text
bin_root = text "/opt/obacht/system/bin"

abbrev pub max_unit_size : ℕ
max_unit_size = 16 * 1024

abbrev pub token_char : ℕ → Bool
token_char c = is_lower c || is_digit c || c == b'-'

-- `[a-z0-9][a-z0-9-]{0,63}`
abbrev pub instance_token : Regex
instance_token = seq (cls (λ c. is_lower c || is_digit c)) (upto 63 (cls token_char))

abbrev pub unit_name_re : Regex
unit_name_re = seq (lit (text "obacht-svc-")) (seq instance_token (lit (text ".service")))

abbrev pub digits_re : Regex
digits_re = seq (cls is_digit) (upto 4 (cls is_digit))

abbrev pub unit_token_re : Regex
unit_token_re = seq (plus (cls (λ c. is_letter c || is_digit c || one_of "@._-" c))) (
    seq (cls (λ c. b'.' == c))
      (alt (lit (text "target")) (alt (lit (text "service")) (lit (text "socket")))))

abbrev pub state_dir_re : Regex
state_dir_re = seq (lit (text "obacht-svc/")) instance_token

-- `[^"'\\$`\x00-\x1f]`
abbrev pub plain_env_char : ℕ → Bool
plain_env_char c = not (elem c (0x22 ∷ 0x27 ∷ 0x5c ∷ 0x24 ∷ 0x60 ∷ []) || leb c 0x1f)

abbrev pub env_re : Regex
env_re = seq (cls (λ c. is_letter c || c == b'_')) (
    seq (star (cls (λ c. is_letter c || is_digit c || c == b'_')))
      (seq (cls (λ c. b'=' == c)) (star (cls plain_env_char))))

abbrev pub exec_char : ℕ → Bool
exec_char c = is_letter c || is_digit c || one_of "/._:=+,@-" c

abbrev pub exec_token_re : Regex
exec_token_re = plus (cls exec_char)

abbrev pub umask_re : Regex
umask_re =
    let octal = cls (λ c. leb b'0' c && leb c b'7') in
    seq (cls (λ c. b'0' == c)) (seq octal (seq octal octal))

unfoldable pub validate_name : Text → Bool
validate_name name = accepts unit_name_re name

abbrev pub required_exact : List (Text × Text)
required_exact =
    (text "DynamicUser", text "yes")
    ∷ (text "NoNewPrivileges", text "yes")
    ∷ (text "ProtectSystem", text "strict")
    ∷ (text "ProtectHome", text "yes")
    ∷ (text "PrivateTmp", text "yes")
    ∷ (text "DevicePolicy", text "closed")
    ∷ (text "RestrictSUIDSGID", text "yes")
    ∷ []

unfoldable pub lookup {ℓ} : {V : Type ℓ} → Text → List (Text × V) → Option V
lookup k [] = none
lookup k ((j, v) ∷ m) = if k == j then some v else lookup k m

abbrev pub allowed_device_allow : List Text
allowed_device_allow =
    text "char-video4linux rw"
    ∷ text "char-media rw"
    ∷ text "char-drm rw"
    ∷ text "char-dma_heap rw"
    ∷ []

abbrev pub allowed_groups : List Text
allowed_groups = text "video" ∷ text "render" ∷ text "input" ∷ []

abbrev pub allowed_families : List Text
allowed_families = text "AF_UNIX" ∷ text "AF_INET" ∷ text "AF_INET6" ∷ []

abbrev pub repeatable : Text → Bool
repeatable key = elem key (text "DeviceAllow" ∷ text "Environment" ∷ [])

-- `for _, tok := range toks { if !test(tok) { return err } }`
unfoldable pub check_each : (Text → Bool) → (Text → Cause) → List Text → Check
check_each test fault [] = ok tt
check_each test fault (tok ∷ toks) =
    let rest = check_each test fault toks in if test tok then rest else err (fault tok)

-- The loop over the tokens of ExecStart makes two tests on each token.
unfoldable pub check_tokens : List Text → Check
check_tokens [] = ok tt
check_tokens (tok ∷ toks) =
    let rest = check_tokens toks in
    if not (accepts exec_token_re tok)
    then err (bad_token tok)
    else if contains tok (text "..")
    then err (traversal tok)
    else rest

unfoldable pub check_exec : List Text → Check
check_exec [] = err no_exec
check_exec (bin ∷ args) =
    if not (has_prefix bin (bin_root ++ text "/"))
    then err (bad_binary bin)
    else if contains bin (text "..")
    then err binary_traversal
    else check_tokens (bin ∷ args)

unfoldable pub validate_exec_start : Text → Check
validate_exec_start val = check_exec (fields val)

unfoldable pub validate_unit : Text → Text → Check
validate_unit key val =
    if key == text "Description"
    then guard (not (is_nil val || contains_any (λ c. c == 0) val)) bad_description
    else if key == text "After" || key == text "Wants"
    then check_each (accepts unit_token_re) (bad_target key) (fields val)
    else err (unknown_key unit key)

unfoldable pub validate_groups : List Text → Check
validate_groups [] = err no_groups
validate_groups (g ∷ gs) = check_each (λ x. elem x allowed_groups) bad_group (g ∷ gs)

-- The `switch` on the keys of [Service] that have no exact value.
unfoldable pub validate_service : Text → Text → Check
validate_service key val =
    if key == text "Type"
    then guard (val == text "simple" || val == text "exec") bad_type
    else if key == text "ExecStart"
    then validate_exec_start val
    else if key == text "SupplementaryGroups"
    then validate_groups (fields val)
    else if key == text "DeviceAllow"
    then guard (elem val allowed_device_allow) (bad_device val)
    else if key == text "StateDirectory"
    then guard (accepts state_dir_re val) bad_state_directory
    else if key == text "Environment"
    then guard (accepts env_re val) (bad_environment val)
    else if key == text "Restart"
    then guard (val == text "always" || val == text "on-failure" || val == text "no") bad_restart
    else if key == text "RestartSec" || key == text "TimeoutStopSec"
    then guard (accepts digits_re val) (bad_number key)
    else if key == text "UMask"
    then guard (accepts umask_re val) bad_umask
    else if key == text "RestrictAddressFamilies"
    then check_each (λ f. elem f allowed_families) bad_family (fields val)
    else err (unknown_key service key)

unfoldable pub exact_or : Option Text → Text → Text → Check
exact_or none key val = validate_service key val
exact_or (some want) key val = guard (val == want) (inexact key want val)

unfoldable pub validate_kv : Section → Text → Text → Check
validate_kv unit key val = validate_unit key val
validate_kv service key val = exact_or (lookup key required_exact) key val
validate_kv install key val =
    if key == text "WantedBy"
    then guard (val == text "multi-user.target") bad_wanted_by
    else err (unknown_key install key)
