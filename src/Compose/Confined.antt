-- ===== src/Compose/Confined.antt =====
-- What a compose file that passes `ValidateComposeBody` can mount and declare.
use obacht_agent.Base.{
  true, false, ◌≡◌, ◌≢◌, Option, none, some, List, [], ◌∷◌, ◌++◌, All, elem, ◌==◌, nat_eq, list_eq,
  list_beq_iff, Bool-cases, ◌⊎◌, inl, inr, arith,
}
use obacht_agent.Base.Result.{ok, >>=-eq-ok}
use obacht_agent.Base.Text.{Text, text}
use obacht_agent.Compose.Yaml.{
  Yaml, null, str, other, seq, mapping, Entries, end, entry, at_key, has_key, text_of, AllEntries,
  AllItems,
}
use obacht_agent.Compose.Allowlist.{
  allowed_service_keys, forbidden_service_keys, data_marker, Check, is_extension, each_entry,
  check_definition_key, check_definition, validate_top_level_defs, is_path, check_defs, or_end,
}

-- A key that a plain volume or network may carry.
abbrev pub IsPlainKey : Text → Yaml → Type 0
IsPlainKey k v = (k ≡ text "labels") ⊎ (k ≡ data_marker)

-- A definition without a driver, without options and without a name of its own.
abbrev pub IsPlain : Yaml → Type 0
IsPlain null = Unit
IsPlain (mapping es) = AllEntries IsPlainKey es
IsPlain (str _) = true ≡ false
IsPlain (other _) = true ≡ false
IsPlain (seq _) = true ≡ false

-- `name` has a plain definition among the declared volumes.
abbrev pub IsDeclared : Text → Entries → Type 0
IsDeclared name end = true ≡ false
IsDeclared name (entry k v es) = ((name ≡ k) × IsPlain v) ⊎ IsDeclared name es

-- What is behind the source in the short form of a mount.
abbrev pub IsTarget : Text → Type 0
IsTarget [] = Unit
IsTarget (c ∷ s) = c ≡ b':'

-- A short mount that names a declared volume and no path.
pub record IsVolumeMount (volumes : Entries) (m : Text) : Type 0 where
  pub source : Text
  pub target : Text
  pub split : m ≡ source ++ target
  pub no_colon : All (λ c. c ≢ b':') source
  pub at_colon : IsTarget target
  pub not_path : is_path source ≡ false
  pub declared : IsDeclared source volumes

abbrev pub IsSafeMount : Entries → Yaml → Type 0
IsSafeMount volumes (str m) = IsVolumeMount volumes m
IsSafeMount volumes (mapping m) =
    (text_of (at_key (text "type") m) ≢ text "bind")
    × ((text_of (at_key (text "source") m) ≡ [])
        ⊎ IsDeclared (text_of (at_key (text "source") m)) volumes)
IsSafeMount volumes null = true ≡ false
IsSafeMount volumes (other _) = true ≡ false
IsSafeMount volumes (seq _) = true ≡ false

abbrev pub IsSafeMounts : Entries → Yaml → Type 0
IsSafeMounts volumes (seq ms) = AllItems (IsSafeMount volumes) ms
IsSafeMounts volumes null = true ≡ false
IsSafeMounts volumes (str _) = true ≡ false
IsSafeMounts volumes (other _) = true ≡ false
IsSafeMounts volumes (mapping _) = true ≡ false

-- A key of a service is an extension or is allowed, and `volumes` holds safe mounts.
abbrev pub IsSafeKey : Entries → Text → Yaml → Type 0
IsSafeKey volumes k v =
    (is_extension k ≡ true)
    ⊎ ((elem k allowed_service_keys ≡ true)
        × (elem k forbidden_service_keys ≡ false)
        × ((k ≢ text "volumes") ⊎ IsSafeMounts volumes v))

abbrev pub IsSafeService : Entries → Text → Yaml → Type 0
IsSafeService volumes name (mapping es) = AllEntries (IsSafeKey volumes) es
IsSafeService volumes name null = true ≡ false
IsSafeService volumes name (str _) = true ≡ false
IsSafeService volumes name (other _) = true ≡ false
IsSafeService volumes name (seq _) = true ≡ false

pub each_entry-All :
    (P : Text → Yaml → Type 0) (check : Text → Yaml → Check)
    → ((k : Text) (v : Yaml) → check k v ≡ ok tt → P k v)
    → (es : Entries) → each_entry check es ≡ ok tt
    → AllEntries P es
unfolding each_entry
each_entry-All P check f end h = tt
each_entry-All P check f (entry k v es) h =
    let (_, a, b) = >>=-eq-ok (check k v) (λ _. each_entry check es) h in
    (f k v a, each_entry-All P check f es b)

definition_key-IsPlainKey :
    (forbidden : List Text) (name k : Text) (v : Yaml)
    → check_definition_key forbidden name k v ≡ ok tt
    → IsPlainKey k v
unfolding check_definition_key
definition_key-IsPlainKey forbidden name k v h = elim (Bool-cases (is_extension k)) [
  | inl x ↦ inr (ground (arith, x, h, list_beq_iff k data_marker))
  | inr x ↦ inl (ground (arith, x, h, list_beq_iff k (text "labels")))
]

definition-IsPlain :
    (forbidden : List Text) (name : Text) (v : Yaml)
    → check_definition forbidden name v ≡ ok tt
    → IsPlain v
unfolding check_definition
definition-IsPlain forbidden name null h = tt
definition-IsPlain forbidden name (mapping es) h =
    each_entry-All IsPlainKey _ (definition_key-IsPlainKey forbidden name) es h
definition-IsPlain forbidden name (str _) h = absurd (ground arith)
definition-IsPlain forbidden name (other _) h = absurd (ground arith)
definition-IsPlain forbidden name (seq _) h = absurd (ground arith)

pub defs-IsPlain :
    (forbidden : List Text) (o : Option Entries)
    → check_defs forbidden o ≡ ok tt
    → AllEntries (λ k v. IsPlain v) (or_end o)
unfolding validate_top_level_defs
defs-IsPlain forbidden none h = tt
defs-IsPlain forbidden (some es) h =
    each_entry-All (λ k v. IsPlain v) _ (definition-IsPlain forbidden) es h

pub has_key-IsDeclared :
    (k : Text) (es : Entries)
    → AllEntries (λ j v. IsPlain v) es
    → has_key k es ≡ true
    → IsDeclared k es
has_key-IsDeclared k end plain h = ground arith
has_key-IsDeclared k (entry j v es) plain h = elim (Bool-cases (k == j)) [
  | inl here ↦ inl (ground (arith, here, list_beq_iff k j), plain.0)
  | inr there ↦ inr (has_key-IsDeclared k es plain.1 (ground (arith, there, h)))
]
