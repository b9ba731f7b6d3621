-- ===== src/UnitPolicy/Directives.antt =====
-- What a unit file says, with no check: each `key=value` line under its section header. This is
-- the reading against which the policy is stated.
use obacht_agent.Base.{
  Option, none, some, List, [], ◌∷◌, ◌&&◌, is_nil, ◌==◌, nat_eq, list_eq, if◌then◌else◌,
}
use obacht_agent.Base.Text.{Text, trim_right, trim_space}
use obacht_agent.UnitPolicy.Rules.{Section, section_eq}
use obacht_agent.UnitPolicy.Scan.{section_re, kv_re, lines}

pub record Directive : Type 0 where
  pub section : Section
  pub key : Text
  pub value : Text

pub data Line : Type 0 where
  blank other : Line
  header : Section → Line
  entry : Text → Text → Line

unfoldable pub read_line : Text → Line
read_line raw =
    let line = trim_right (λ c. c == b'\r') raw in
    if is_nil (trim_space line) then blank else elim (section_re line) [
      | some sec ↦ header sec
      | none ↦ elim (kv_re line) [ none ↦ other | some (key, val) ↦ entry key val ]
    ]

abbrev pub next_section : Line → Option Section → Option Section
next_section (header sec) cur = some sec
next_section _ cur = cur

abbrev pub add : Line → Option Section → List Directive → List Directive
add (entry key val) (some sec) ds = record { section = sec; key = key; value = val } ∷ ds
add _ _ ds = ds

unfoldable pub directives_from : Option Section → List Text → List Directive
directives_from cur [] = []
directives_from cur (raw ∷ raws) =
    add (read_line raw) cur (directives_from (next_section (read_line raw) cur) raws)

unfoldable pub directives : Text → List Directive
unfolding directives_from
directives content = directives_from none (lines content)

-- The values that a key has in a section, in their order.
unfoldable pub values : Section → Text → List Directive → List Text
values sec key [] = []
values sec key (d ∷ ds) =
    let rest = values sec key ds in
    if d.section == sec && d.key == key then d.value ∷ rest else rest
