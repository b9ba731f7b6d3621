-- ===== src/SignedMut/Integers.antt =====
-- The numbers of a mutation that has a canonical form are within the range of `canonicalize`, so the
-- `int64` arithmetic of the time window does not wrap.
use obacht_agent.Base.{
  subst, list_beq, Option-cases, ◌≡◌, ◌≢◌, refl, some, ◌==◌, nat_eq, list_eq, arith, inl, inr, ◌⊎◌,
  ap, ◌∙◌, list_beq_iff, Bool-cases,
}
use obacht_agent.Base.Int.{ℤ, ◌-ℤ◌, wrap64, wrap64_of_IsInt64, parts_disjoint}
use obacht_agent.Base.Result.{ok, ◌>>=◌, >>=-eq-ok}
use obacht_agent.Base.Text.{Text, text}
use obacht_agent.SignedMut.Json.{
  Json, null, bool, int, other_number, str, arr, obj, Members, end, member,
}
use obacht_agent.SignedMut.Jcs.{canonicalize}
use obacht_agent.SignedMut.Envelope.{
  Mutation, no_mutation, get_int, fold_key, set_mutation_field, fill_mutation, decode_mutation,
}
use obacht_agent.SignedMut.Safe.{IsSafeInt, IsSafe, last_value, last_value-IsSafe}

-- No member of the object is `null`.
abbrev pub HasNoNull : Members → Type 0
HasNoNull end = Unit
HasNoNull (member k v ms) = (v ≢ null) × HasNoNull ms

module _ (get : Mutation → ℤ) (name : Text)
    (set_here : (k : Text) (j : Json) (m m' : Mutation)
      → k ≡ name
      → j ≢ null
      → set_mutation_field k j m ≡ ok m'
      → j ≡ int (get m'))
    (set_there : (k : Text) (j : Json) (m m' : Mutation)
      → k ≢ name
      → set_mutation_field k j m ≡ ok m'
      → get m' ≡ get m) where
  -- A later member fills the field.
  abbrev Pending : Members → Type 0
  Pending ms = (k : Text) × (v : Json) × (fold_key k ≡ name) × (last_value k ms ≡ some v)

  Pending-step :
      (k : Text) (j : Json) (ms : Members) (m u : Mutation)
      → j ≢ null
      → ((k' : Text) (v : Json) → last_value k' (member k j ms) ≡ some v → IsSafe v)
      → (IsSafeInt (get m) ⊎ Pending (member k j ms))
      → set_mutation_field (fold_key k) j m ≡ ok u
      → IsSafeInt (get u) ⊎ Pending ms
  unfolding last_value
  Pending-step k j ms m u nn safe p h = elim (Bool-cases (fold_key k == name)) [
    | inl here ↦
        let named : fold_key k ≡ name = (list_beq_iff (fold_key k) name).0 here in
        elim (Option-cases (last_value k ms)) [
          | inl last ↦ inl (
              subst IsSafe (set_here (fold_key k) j m u named nn h)
                (safe k j (ground (arith, list_beq_iff k k))))
          | inr (v, later) ↦ inr (k, v, named, later)
        ]
    | inr other ↦
        let kept =
          set_there (fold_key k) j m u (λ e. ground (arith, list_beq_iff (fold_key k) name)) h in
        elim p [
          | inl s ↦ inl (rw kept s)
          | inr (k', v, named, e) ↦
              inr (k', v, named, ground (arith, list_beq_iff k' k, list_beq_iff (fold_key k) name))
        ]
  ]

  IsSafe-tail :
      (k : Text) (j : Json) (ms : Members)
      → ((k' : Text) (v : Json) → last_value k' (member k j ms) ≡ some v → IsSafe v)
      → (k' : Text) (v : Json) → last_value k' ms ≡ some v
      → IsSafe v
  unfolding last_value
  IsSafe-tail k j ms safe k' v e = safe k' v (ground arith)

  field-IsSafe :
      (ms : Members) (m m' : Mutation)
      → HasNoNull ms
      → ((k : Text) (v : Json) → last_value k ms ≡ some v → IsSafe v)
      → (IsSafeInt (get m) ⊎ Pending ms)
      → fill_mutation ms m ≡ ok m'
      → IsSafeInt (get m')
  unfolding fill_mutation last_value
  field-IsSafe end m m' nn safe (inl s) h = let same : m ≡ m' = cc in rw (← same) s
  field-IsSafe end m m' nn safe (inr (k, v, f, e)) h = cc
  field-IsSafe (member k j ms) m m' nn safe p h =
      let (u, set, rest) = >>=-eq-ok (set_mutation_field (fold_key k) j m) _ h in
      field-IsSafe ms u m' nn.1 (IsSafe-tail k j ms safe) (Pending-step k j ms m u nn.0 safe p set)
        rest

int_field :
    (j : Json) (old : ℤ) (f : ℤ → Mutation) (m' : Mutation)
    → j ≢ null
    → (get_int j old >>= λ x. ok (f x)) ≡ ok m'
    → (n : ℤ) × (j ≡ int n) × (f n ≡ m')
int_field (int n) old f m' nn h = (n, refl, cc)
int_field null old f m' nn h = absurd (nn refl)
int_field (bool _) old f m' nn h = cc
int_field (other_number _) old f m' nn h = cc
int_field (str _) old f m' nn h = cc
int_field (arr _) old f m' nn h = cc
int_field (obj _) old f m' nn h = cc

iat_here :
    (j : Json) (m m' : Mutation)
    → j ≢ null
    → set_mutation_field (text "iat") j m ≡ ok m'
    → j ≡ int m'.iat
unfolding set_mutation_field list_beq
iat_here j m m' nn h =
    let (n, e, f) = int_field j m.iat (λ x. record m { iat = x }) m' nn h in
    e ∙ ap (λ (t : Mutation). int t.iat) f

exp_here :
    (j : Json) (m m' : Mutation)
    → j ≢ null
    → set_mutation_field (text "exp") j m ≡ ok m'
    → j ≡ int m'.exp
unfolding set_mutation_field list_beq
exp_here j m m' nn h =
    let (n, e, f) = int_field j m.exp (λ x. record m { exp = x }) m' nn h in
    e ∙ ap (λ (t : Mutation). int t.exp) f

iat_kept :
    (k : Text) (j : Json) (m m' : Mutation)
    → k ≢ text "iat"
    → set_mutation_field k j m ≡ ok m'
    → m'.iat ≡ m.iat
unfolding set_mutation_field
iat_kept k j m m' e h = ground (arith, list_beq_iff k (text "iat"))

exp_kept :
    (k : Text) (j : Json) (m m' : Mutation)
    → k ≢ text "exp"
    → set_mutation_field k j m ≡ ok m'
    → m'.exp ≡ m.exp
unfolding set_mutation_field
exp_kept k j m m' e h = ground (arith, list_beq_iff k (text "exp"))

-- No value in the mutation object is `null`.
abbrev pub IsNullFree : Json → Type 0
IsNullFree (obj ms) = HasNoNull ms
IsNullFree _ = Unit

pub decode-IsSafeInt :
    (j : Json) (canon : Text) (m : Mutation)
    → canonicalize j ≡ ok canon
    → IsNullFree j
    → decode_mutation j ≡ ok m
    → IsSafeInt m.iat × IsSafeInt m.exp
unfolding decode_mutation
decode-IsSafeInt (obj ms) canon m h nn e =
    let safe = λ (k : Text) (v : Json). last_value-IsSafe k v ms canon h in
    (
      field-IsSafe (λ t. t.iat) (text "iat")
          (λ k j a b named n set. iat_here j a b n (rw named at set)) iat_kept ms no_mutation m nn
          safe (inl (omega arith)) e,
      field-IsSafe (λ t. t.exp) (text "exp")
          (λ k j a b named n set. exp_here j a b n (rw named at set)) exp_kept ms no_mutation m nn
          safe (inl (omega arith)) e,
    )
decode-IsSafeInt null canon m h nn e = ground arith
decode-IsSafeInt (bool _) canon m h nn e = cc
decode-IsSafeInt (int _) canon m h nn e = cc
decode-IsSafeInt (other_number _) canon m h nn e = cc
decode-IsSafeInt (str _) canon m h nn e = cc
decode-IsSafeInt (arr _) canon m h nn e = cc

-- The lifetime of such a mutation is computed without wrap-around.
pub lifetime_exact : (a b : ℤ) → IsSafeInt a → IsSafeInt b → wrap64 (b -ℤ a) ≡ b -ℤ a
lifetime_exact a b p q = wrap64_of_IsInt64 (b -ℤ a) (omega (arith, parts_disjoint b a))
