-- ===== src/Redact.antt =====
-- internal/redact/redact.go: which values leave the process. `strings.ToUpper` is a parameter, and a map
-- is the list of its entries.
mod Tests
use obacht_agent.Base.{
  ℕ, Bool, true, false, not, ◌&&◌, ◌||◌, ◌≡◌, ◌≢◌, refl, sym, ap, ◌∙◌, Option, none, some, List, [],
  ◌∷◌, ◌++◌, map, All, any, elem, is_nil, ◌==◌, nat_eq, list_eq, if◌then◌else◌, Bool-cases, inl,
  inr, arith,
}
use obacht_agent.Base.Text.{Text, text, contains, has_suffix}

-- `Placeholder`
abbrev pub placeholder : Text
placeholder = text "<redacted>"

abbrev pub patterns : List Text
patterns =
    map text ("PASSWORD" ∷ "PASSWD" ∷ "TOKEN" ∷ "SECRET" ∷ "PRIVATE" ∷ "APIKEY" ∷ "API_KEY" ∷ [])

pub record EnvVar : Type 0 where
  pub key : Text
  pub value : Text

-- `strings.IndexByte(e, '=')` with the texts before and behind it
abbrev pub cons_key : ℕ → Option (Text × Text) → Option (Text × Text)
cons_key c none = none
cons_key c (some (k, v)) = some (c ∷ k, v)

unfoldable pub cut_at_equals : Text → Option (Text × Text)
cut_at_equals [] = none
cut_at_equals (c ∷ s) =
    let rest = cut_at_equals s in if c == b'=' then some ([], s) else cons_key c rest

abbrev pub join_entry : EnvVar → Text
join_entry e = e.key ++ b'=' ∷ e.value

module _ (to_upper : Text → Text) where
  -- `IsSecretKey`
  unfoldable pub is_secret_key : Text → Bool
  is_secret_key key =
      let up = to_upper key in
      any (λ p. contains up p) patterns || has_suffix up (text "_KEY") || up == text "KEY"

  -- the condition of both functions
  abbrev pub is_hidden : List Text → Text → Bool
  is_hidden extra k = elem k extra || is_secret_key k

  abbrev pub redact_var : List Text → EnvVar → EnvVar
  redact_var extra e = record {
    key = e.key;
    value = if is_hidden extra e.key then placeholder else e.value;
  }

  -- `EnvMap`
  unfoldable pub env_map : List EnvVar → List Text → List EnvVar
  env_map [] extra = []
  env_map (e ∷ es) extra = redact_var extra e ∷ env_map es extra

  -- an entry of `EnvSlice`; one whose `=` stands first, or is not there, is left as it is
  abbrev pub redact_cut : List Text → Text → Option (Text × Text) → Text
  redact_cut extra e none = e
  redact_cut extra e (some ([], v)) = e
  redact_cut extra e (some (c ∷ k, v)) =
      if is_hidden extra (c ∷ k) then (c ∷ k) ++ b'=' ∷ placeholder else e

  -- `EnvSlice`
  unfoldable pub env_slice : List Text → List Text → List Text
  env_slice [] extra = []
  env_slice (e ∷ es) extra = redact_cut extra e (cut_at_equals e) ∷ env_slice es extra

  -- The key of an environment variable: not empty, and without `=`.
  abbrev pub IsKey : Text → Type 0
  IsKey k = (is_nil k ≡ false) × (any (λ c. c == b'=') k ≡ false)

  cut-join :
      (k v : Text) → any (λ c. c == b'=') k ≡ false → cut_at_equals (k ++ b'=' ∷ v) ≡ some (k, v)
  unfolding cut_at_equals
  cut-join [] v h = refl
  cut-join (c ∷ k) v h =
      let off : (c == b'=') ≡ false = ground (arith, h) in
      rw off (ap (cons_key c) (cut-join k v (ground (arith, h))))

  redact-join :
      (extra : List Text) (k v : Text)
      → IsKey k
      → redact_cut extra (k ++ b'=' ∷ v) (cut_at_equals (k ++ b'=' ∷ v))
        ≡ join_entry (redact_var extra (record { key = k; value = v }))
  redact-join extra [] v h = absurd (ground arith)
  redact-join extra (c ∷ k) v h =
      ap (redact_cut extra ((c ∷ k) ++ b'=' ∷ v)) (cut-join (c ∷ k) v h.1)
      ∙ elim (Bool-cases (is_hidden extra (c ∷ k))) [
        | inl hidden ↦ rw hidden refl
        | inr shown ↦ rw shown refl
      ]

  -- `EnvSlice` does to the entries `KEY=VALUE` of an environment what `EnvMap` does to the environment,
  -- whatever the values hold, for keys that are not empty and hold no `=`.
  pub env_slice-env_map :
      (es : List EnvVar) (extra : List Text)
      → All (λ e. IsKey e.key) es
      → env_slice (map join_entry es) extra ≡ map join_entry (env_map es extra)
  unfolding env_slice env_map
  env_slice-env_map [] extra h = refl
  env_slice-env_map (e ∷ es) extra h =
      λ i. redact-join extra e.key e.value h.0 i ∷ env_slice-env_map es extra h.1 i
