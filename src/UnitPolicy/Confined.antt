-- ===== src/UnitPolicy/Confined.antt =====
-- What an accepted unit cannot do: no directive, device or group outside the allowlists, no name with
-- a path in it, no repeated key.
use mathlib.Core.Path.{subst₂}
use obacht_agent.Base.{
  ℕ, ◌≤◌, Bool, true, false, List, [], ◌∷◌, ◌||◌, ◌≡◌, refl, arith, All, All-mono, length, elem,
  ◌==◌, nat_eq, list_eq, list_beq, ◌++◌, ap, ◌∙◌,
}
use obacht_agent.Base.Result.{ok, guard-eq-ok}
use obacht_agent.Base.Text.{Text, text, fields}
use obacht_agent.Base.Regex.{
  accepts, accepts_iff, All-Matches, Within-upto, Within-lit, cls, Matches, Matches-lit,
}
use obacht_agent.UnitPolicy.Rules.{
  Section, unit, service, install, section_eq, Cause, bad_device, repeatable, validate_kv,
  validate_name, lookup, exact_or, check_each, validate_service, validate_groups, validate_unit,
  allowed_families, bad_family, state_dir_re, bad_state_directory, allowed_groups,
  allowed_device_allow, is_lower, is_digit, unit_name_re, env_re, token_char, bad_environment,
  plain_env_char,
}
use obacht_agent.UnitPolicy.Scan.{validate}
use obacht_agent.UnitPolicy.Directives.{Directive, directives, values}
use obacht_agent.UnitPolicy.Hardened.{Passed-validate, IsSafeCommand, validate_kv-command}

-- The keys that a unit may use, by section.
abbrev pub allowed_keys : Section → List Text
allowed_keys unit = text "Description" ∷ text "After" ∷ text "Wants" ∷ []
allowed_keys service =
    text "DynamicUser"
    ∷ text "NoNewPrivileges"
    ∷ text "ProtectSystem"
    ∷ text "ProtectHome"
    ∷ text "PrivateTmp"
    ∷ text "DevicePolicy"
    ∷ text "RestrictSUIDSGID"
    ∷ text "Type"
    ∷ text "ExecStart"
    ∷ text "SupplementaryGroups"
    ∷ text "DeviceAllow"
    ∷ text "StateDirectory"
    ∷ text "Environment"
    ∷ text "Restart"
    ∷ text "RestartSec"
    ∷ text "TimeoutStopSec"
    ∷ text "UMask"
    ∷ text "RestrictAddressFamilies"
    ∷ []
allowed_keys install = text "WantedBy" ∷ []

check_each-All :
    (test : Text → Bool) (fault : Text → Cause) (toks : List Text)
    → check_each test fault toks ≡ ok tt
    → All (λ tok. test tok ≡ true) toks
unfolding check_each
check_each-All test fault [] h = tt
check_each-All test fault (tok ∷ toks) h =
    (ground arith, check_each-All test fault toks (ground arith))

validate_groups-All :
    (gs : List Text) → validate_groups gs ≡ ok tt → All (λ g. elem g allowed_groups ≡ true) gs
unfolding validate_groups
validate_groups-All [] h = tt
validate_groups-All (g ∷ gs) h = check_each-All _ _ (g ∷ gs) h

devices_allowed :
    (val : Text)
    → validate_kv service (text "DeviceAllow") val ≡ ok tt
    → elem val allowed_device_allow ≡ true
unfolding validate_kv exact_or lookup validate_service list_beq
devices_allowed val h = guard-eq-ok (elem val allowed_device_allow) (bad_device val) h

groups_allowed :
    (val : Text)
    → validate_kv service (text "SupplementaryGroups") val ≡ ok tt
    → All (λ g. elem g allowed_groups ≡ true) (fields val)
unfolding validate_kv exact_or lookup validate_service list_beq
groups_allowed val h = validate_groups-All (fields val) h

-- The characters of a unit name.
abbrev pub name_char : ℕ → Bool
name_char c = is_lower c || is_digit c || c == b'-' || c == b'.'

key_allowed :
    (sec : Section) (key val : Text)
    → validate_kv sec key val ≡ ok tt
    → elem key (allowed_keys sec) ≡ true
unfolding validate_kv validate_unit validate_service exact_or lookup
key_allowed unit key val h = ground arith
key_allowed install key val h = ground arith
key_allowed service key val h = ground arith

environment_plain :
    (val : Text)
    → validate_kv service (text "Environment") val ≡ ok tt
    → All (λ c. plain_env_char c ≡ true) val
unfolding validate_kv exact_or lookup validate_service list_beq
environment_plain val h =
    All-Matches plain_env_char
      ((λ c e. ground arith), ((λ c e. ground arith), ((λ c e. ground arith), (λ c e. e))))
      ((accepts_iff env_re val).0 (guard-eq-ok (accepts env_re val) (bad_environment val) h))

families_allowed :
    (val : Text)
    → validate_kv service (text "RestrictAddressFamilies") val ≡ ok tt
    → All (λ f. elem f allowed_families ≡ true) (fields val)
unfolding validate_kv exact_or lookup validate_service list_beq
families_allowed val h = check_each-All (λ f. elem f allowed_families) bad_family (fields val) h

-- A directory of the instances, and below it a name without slashes and dots.
abbrev pub IsStateDirectory : Text → Type 0
IsStateDirectory val =
    (name : Text) × (val ≡ text "obacht-svc/" ++ name) × All (λ c. token_char c ≡ true) name

state_dir-IsStateDirectory : (val : Text) → Matches state_dir_re val → IsStateDirectory val
state_dir-IsStateDirectory val (Matches.join s t m n e) = (
  t,
  e ∙ ap (λ x. x ++ t) (Matches-lit (text "obacht-svc/") m),
  All-Matches token_char
      ((λ c e. ground arith), Within-upto token_char 63 (cls token_char) (λ c e. e)) n,
)

validate_kv-directory :
    (val : Text) → validate_kv service (text "StateDirectory") val ≡ ok tt → IsStateDirectory val
unfolding validate_kv exact_or lookup validate_service list_beq
validate_kv-directory val h = state_dir-IsStateDirectory val (
    (accepts_iff state_dir_re val).0 (guard-eq-ok (accepts state_dir_re val) bad_state_directory h))

-- What a directive may grant.
pub record IsConfined (d : Directive) : Type 0 where
  pub known : elem d.key (allowed_keys d.section) ≡ true
  pub devices :
      d.section ≡ service → d.key ≡ text "DeviceAllow" → elem d.value allowed_device_allow ≡ true
  pub groups :
      d.section ≡ service
      → d.key ≡ text "SupplementaryGroups"
      → All (λ g. elem g allowed_groups ≡ true) (fields d.value)
  pub command : d.section ≡ service → d.key ≡ text "ExecStart" → IsSafeCommand d.value
  pub families :
      d.section ≡ service
      → d.key ≡ text "RestrictAddressFamilies"
      → All (λ f. elem f allowed_families ≡ true) (fields d.value)
  pub directory : d.section ≡ service → d.key ≡ text "StateDirectory" → IsStateDirectory d.value
  pub environment :
      d.section ≡ service → d.key ≡ text "Environment" → All (λ c. plain_env_char c ≡ true) d.value

permitted-IsConfined : (d : Directive) → validate_kv d.section d.key d.value ≡ ok tt → IsConfined d
permitted-IsConfined d h =
    let at : (sec : Section) (key : Text)
        → d.section ≡ sec
        → d.key ≡ key
        → validate_kv sec key d.value ≡ ok tt =
      λ sec key s k. subst₂ (λ x y. validate_kv x y d.value ≡ ok tt) s k h in
    record {
      known = key_allowed d.section d.key d.value h;
      devices = λ s k. devices_allowed d.value (at service (text "DeviceAllow") s k);
      groups = λ s k. groups_allowed d.value (at service (text "SupplementaryGroups") s k);
      command = λ s k. validate_kv-command d.value (at service (text "ExecStart") s k);
      families = λ s k. families_allowed d.value (at service (text "RestrictAddressFamilies") s k);
      directory = λ s k. validate_kv-directory d.value (at service (text "StateDirectory") s k);
      environment = λ s k. environment_plain d.value (at service (text "Environment") s k);
    }

-- Every directive of a unit that `validate` accepts has a key of the closed list of its section;
-- each ExecStart is a program below the binary root with plain arguments; each DeviceAllow names one of
-- the four device groups, each group of SupplementaryGroups is video, render or input, each address family
-- is AF_UNIX, AF_INET or AF_INET6; each StateDirectory is a plain name below obacht-svc; and no Environment
-- value holds a quote, a backslash, a dollar sign, a backtick or a control character.
pub validate-IsConfined :
    (name content : Text) → validate name content ≡ ok tt → All IsConfined (directives content)
validate-IsConfined name content h =
    All-mono (directives content) permitted-IsConfined
      (Passed-validate name content h).scanned.permitted

-- In a unit that `validate` accepts, every key but DeviceAllow and Environment stands at most once in
-- its section; SupplementaryGroups is among them.
pub validate-IsSingle :
    (name content : Text)
    → validate name content ≡ ok tt
    → (sec : Section) (key : Text) → repeatable key ≡ false
    → length (values sec key (directives content)) ≤ 1
validate-IsSingle name content h sec key once =
    let p = Passed-validate name content h in
    omega (arith, p.scanned.counted sec key, p.scanned.single sec key once)

-- The name of a unit that `validate` accepts holds lower-case letters, digits, dashes and dots only:
-- no slash, no space and no wildcard.
pub validate-IsPlainName :
    (name content : Text) → validate name content ≡ ok tt → All (λ c. name_char c ≡ true) name
unfolding validate_name
validate-IsPlainName name content h =
    All-Matches name_char
      (
        Within-lit name_char (text "obacht-svc-") refl,
        (
          (λ c e. ground arith, Within-upto name_char 63 (cls token_char) (λ c e. ground arith)),
          Within-lit name_char (text ".service") refl,
        ),
      )
      ((accepts_iff unit_name_re name).0 (Passed-validate name content h).named)
