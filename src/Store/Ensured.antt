-- ===== src/Store/Ensured.antt =====
-- internal/store/template_secrets.go: what `EnsureTemplateSecret` does to a later call.
use obacht_agent.Base.{
  true, false, ◌||◌, ◌≡◌, ◌≢◌, ◌⊎◌, refl, sym, ap, ◌∙◌, Option, none, some, is_nil, elem, nat_eq,
  list_eq, beq_refl, beq_ne, Bool-cases, inl, inr, arith, ◌∷◌,
}
use obacht_agent.Base.Int.{ℤ, pos, ltbℤ}
use obacht_agent.Base.Result.{Result, ok, err}
use obacht_agent.Base.Text.{Text}
use obacht_agent.Store.Table.{find_row}
use obacht_agent.Store.Locks.{Outcome, works, fails}
use obacht_agent.Store.Db.{TemplateSecret, Db, StoreError, pair_eq}
use obacht_agent.Store.Secrets.{Issued, issued-ok}
use obacht_agent.Store.Templates.{
  template_key, known_charsets, read_random, generate_secret_value, insert_generated,
  found_or_generated, read_or_generate, ensure_template_secret,
}

-- What `GenerateSecretValue` yields comes of a length from 8 to 256 and a known alphabet.
abbrev pub IsGenerated : Option Text → Text → ℤ → Text → Type 0
IsGenerated random charset length value =
    (random ≡ some value)
    × ((ltbℤ length (pos 8) || ltbℤ (pos 256) length) ≡ false)
    × (elem charset known_charsets ≡ true)

read_random-ok :
    (random : Option Text) (value : Text) → read_random random ≡ ok value → random ≡ some value
read_random-ok none value h = absurd (ground arith)
read_random-ok (some v) value h = ground (arith, h)

generate-ok :
    (random : Option Text) (charset : Text) (length : ℤ) (value : Text)
    → generate_secret_value random charset length ≡ ok value
    → IsGenerated random charset length value
unfolding generate_secret_value
generate-ok random charset length value =
    elim (Bool-cases (ltbℤ length (pos 8) || ltbℤ (pos 256) length)) [
      | inl bad ↦ rw bad (λ h. absurd (ground arith))
      | inr good ↦ elim (Bool-cases (elem charset known_charsets)) [
        | inl known ↦ rw (good, known) (λ h. (read_random-ok random value h, refl, refl))
        | inr unknown ↦ rw (good, unknown) (λ h. absurd (ground arith))
      ]
    ]

abbrev row_of : Text → Text → Text → ℤ → Text → TemplateSecret
row_of id key charset length value = record {
  instance_id = id;
  key = key;
  value = value;
  charset = charset;
  length = length;
}

-- What a call has done: it has found the secret, or generated and stored it.
abbrev IsEnsured : Option Text → Text → Text → Text → ℤ → Text → Db → Db → Type 0
IsEnsured random id key charset length value db db' =
    ((db' ≡ db)
      × ((row : TemplateSecret) × (find_row template_key (id, key) db.template_secrets ≡ some row)
          × (row.value ≡ value)))
    ⊎ (IsGenerated random charset length value
        × (db' ≡ record db {
          template_secrets = row_of id key charset length value ∷ db.template_secrets;
        }))

inserted-IsEnsured :
    (write : Outcome) (random : Option Text) (id key charset : Text) (length : ℤ) (value : Text)
    (db db' : Db) (r : Result StoreError Text)
    → generate_secret_value random charset length ≡ r
    → insert_generated write id key charset length db r ≡ (ok value, db')
    → IsEnsured random id key charset length value db db'
inserted-IsEnsured write random id key charset length value db db' (err e) made h =
    absurd (ground arith)
inserted-IsEnsured write random id key charset length value db db' (ok v) made h =
    let (same, written) = issued-ok write _ v value db _ db' h in
    inr (
      generate-ok random charset length value (made ∙ ap ok same),
      sym written
          ∙ ap
              (λ x. record db {
                template_secrets = row_of id key charset length x ∷ db.template_secrets;
              })
              same,
    )

found-IsEnsured :
    (write : Outcome) (random : Option Text) (id key charset : Text) (length : ℤ) (value : Text)
    (db db' : Db) (found : Option TemplateSecret)
    → find_row template_key (id, key) db.template_secrets ≡ found
    → found_or_generated write random id key charset length db found ≡ (ok value, db')
    → IsEnsured random id key charset length value db db'
found-IsEnsured write random id key charset length value db db' none f h =
    inserted-IsEnsured write random id key charset length value db db'
      (generate_secret_value random charset length) refl h
found-IsEnsured write random id key charset length value db db' (some row) f h =
    inl (sym (ap (λ (x : Issued). x.1) h), (row, f, ground (arith, h)))

read-IsEnsured :
    (read write : Outcome) (random : Option Text) (id key charset : Text) (length : ℤ)
    (value : Text) (db db' : Db)
    → read_or_generate read write random id key charset length db ≡ (ok value, db')
    → IsEnsured random id key charset length value db db'
read-IsEnsured fails write random id key charset length value db db' h = absurd (ground arith)
read-IsEnsured works write random id key charset length value db db' h =
    found-IsEnsured write random id key charset length value db db'
      (find_row template_key (id, key) db.template_secrets) refl h

ensure_template-IsEnsured :
    (read write : Outcome) (random : Option Text) (id key charset : Text) (length : ℤ)
    (value : Text) (db db' : Db)
    → ensure_template_secret read write random id key charset length db ≡ (ok value, db')
    → ((is_nil id || is_nil key) ≡ false) × IsEnsured random id key charset length value db db'
unfolding ensure_template_secret
ensure_template-IsEnsured read write random id key charset length value db db' =
    elim (Bool-cases (is_nil id || is_nil key)) [
      | inl missing ↦ rw missing (λ h. absurd (ground arith))
      | inr given ↦
          rw given
            (λ h. (refl, read-IsEnsured read write random id key charset length value db db' h))
    ]

-- The secret stands in the table, and those of other keys are as before.
stored :
    (random : Option Text) (id key charset : Text) (length : ℤ) (value : Text) (db db' : Db)
    → IsEnsured random id key charset length value db db'
    → (row : TemplateSecret) × (find_row template_key (id, key) db'.template_secrets ≡ some row)
      × (row.value ≡ value)
unfolding find_row
stored random id key charset length value db db' (inl (same, (row, found, v))) =
    (row, ap (λ (x : Db). find_row template_key (id, key) x.template_secrets) same ∙ found, v)
stored random id key charset length value db db' (inr (made, written)) = (
  row_of id key charset length value,
  ap (λ (x : Db). find_row template_key (id, key) x.template_secrets) written
      ∙ rw (beq_refl {A = Text × Text} (id, key)) refl,
  refl,
)

others_kept :
    (random : Option Text) (id key charset : Text) (length : ℤ) (value : Text) (db db' : Db)
    (k : Text × Text)
    → (id, key) ≢ k
    → IsEnsured random id key charset length value db db'
    → find_row template_key k db'.template_secrets ≡ find_row template_key k db.template_secrets
unfolding find_row
others_kept random id key charset length value db db' k ne (inl (same, found)) =
    ap (λ (x : Db). find_row template_key k x.template_secrets) same
others_kept random id key charset length value db db' k ne (inr (made, written)) =
    ap (λ (x : Db). find_row template_key k x.template_secrets) written
    ∙ rw (beq_ne (id, key) k ne) refl

origin :
    (random : Option Text) (id key charset : Text) (length : ℤ) (value : Text) (db db' : Db)
    → IsEnsured random id key charset length value db db'
    → (db' ≡ db) ⊎ IsGenerated random charset length value
origin random id key charset length value db db' (inl (same, found)) = inl same
origin random id key charset length value db db' (inr (made, written)) = inr made

-- An `EnsureTemplateSecret` that succeeds either changes nothing or returns a value that was generated for
-- a length from 8 to 256 and a known alphabet; after it any call for the same instance and key whose read
-- succeeds returns the same value and changes nothing, whatever length, alphabet and random numbers it has;
-- and the template secret of another instance or key is as before.
pub ensure_template-again :
    (read write write' : Outcome) (random random' : Option Text) (id key charset charset' : Text)
    (length length' : ℤ) (value : Text) (db db' : Db) (k : Text × Text)
    → ensure_template_secret read write random id key charset length db ≡ (ok value, db')
    → (id, key) ≢ k
    → ((db' ≡ db) ⊎ IsGenerated random charset length value)
      × (ensure_template_secret works write' random' id key charset' length' db' ≡ (ok value, db'))
      × (find_row template_key k db'.template_secrets ≡ find_row template_key k db.template_secrets)
unfolding ensure_template_secret
ensure_template-again read write write' random random' id key charset charset' length length' value
      db db' k h ne =
    let (given, ensured) =
      ensure_template-IsEnsured read write random id key charset length value db db' h in
    let (row, found, same) = stored random id key charset length value db db' ensured in
    (
      origin random id key charset length value db db' ensured,
      rw given (
          ap (found_or_generated write' random' id key charset' length' db') found
          ∙ (λ i. (ok (same i), db'))),
      others_kept random id key charset length value db db' k ne ensured,
    )
