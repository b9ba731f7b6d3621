-- ===== src/Compose/Yaml.antt =====
-- A YAML document as gopkg.in/yaml.v3 decodes it into Go's `any`. A mapping has each key once; its
-- entries are listed in the order of the keys, in which the code visits them.
use obacht_agent.Base.{
  Bool, false, ◌||◌, Option, none, some, [], ◌==◌, nat_eq, list_eq, if◌then◌else◌,
}
use obacht_agent.Base.Text.{Text}

mutual
  -- `other` is a scalar that is no string, or a mapping with a key that is none.
  pub data Yaml : Type 0 where
    null : Yaml
    str : Text → Yaml
    other : Text → Yaml
    seq : Items → Yaml
    mapping : Entries → Yaml

  pub data Items : Type 0 where
    nil : Items
    cons : Yaml → Items → Items

  pub data Entries : Type 0 where
    end : Entries
    entry : Text → Yaml → Entries → Entries

-- `doc[key]`
unfoldable pub at_key : Text → Entries → Option Yaml
at_key k end = none
at_key k (entry j v es) = let rest = at_key k es in if j == k then some v else rest

abbrev pub has_key : Text → Entries → Bool
has_key k end = false
has_key k (entry j v es) = k == j || has_key k es

-- `s, _ := m[key].(string)`
abbrev pub text_of : Option Yaml → Text
text_of (some (str s)) = s
text_of (some null) = []
text_of (some (other _)) = []
text_of (some (seq _)) = []
text_of (some (mapping _)) = []
text_of none = []

-- `m, ok := doc[key].(map[string]any)`
abbrev pub mapping_of : Option Yaml → Option Entries
mapping_of (some (mapping es)) = some es
mapping_of (some null) = none
mapping_of (some (other _)) = none
mapping_of (some (seq _)) = none
mapping_of (some (str _)) = none
mapping_of none = none

-- Every entry, and every item.
module _ {κ} (P : Text → Yaml → Type κ) where
  abbrev pub AllEntries : Entries → Type κ
  AllEntries end = Unit
  AllEntries (entry k v es) = P k v × AllEntries es

module _ {κ} (P : Yaml → Type κ) where
  abbrev pub AllItems : Items → Type κ
  AllItems nil = Unit
  AllItems (cons v vs) = P v × AllItems vs
