-- ===== src/Store/Templates.antt =====
-- internal/store/template_secrets.go: the secrets that the placeholders of a template stand for. What
-- `rand.Read` and the encoding of its bytes yield is a parameter, `none` where it fails.
use obacht_agent.Base.{
  true, not, ◌||◌, Option, none, some, List, [], ◌∷◌, map, is_nil, elem, ◌==◌, nat_eq, list_eq,
  if◌then◌else◌,
}
use obacht_agent.Base.Int.{ℤ, pos, ltbℤ}
use obacht_agent.Base.Result.{Result, ok, err}
use obacht_agent.Base.Text.{Text, text}
use obacht_agent.Store.Table.{find_row, has_row, delete_rows}
use obacht_agent.Store.Locks.{Outcome, works, fails}
use obacht_agent.Store.Db.{
  TemplateSecret, Db, StoreError, missing_field, statement_failed, bad_length, bad_charset,
  no_random, pair_eq, exec,
}
use obacht_agent.Store.Secrets.{Issued, issued}

abbrev pub template_key : TemplateSecret → Text × Text
template_key s = (s.instance_id, s.key)

abbrev pub known_charsets : List Text
known_charsets =
    map text ("" ∷ "alphanumeric" ∷ "alphanumeric_symbols" ∷ "hex" ∷ "base64" ∷ "base64_bytes" ∷ [])

abbrev pub read_random : Option Text → Result StoreError Text
read_random none = err no_random
read_random (some value) = ok value

-- `GenerateSecretValue`
unfoldable pub generate_secret_value : Option Text → Text → ℤ → Result StoreError Text
generate_secret_value random charset length =
    if ltbℤ length (pos 8) || ltbℤ (pos 256) length
    then err bad_length
    else if elem charset known_charsets
    then read_random random
    else err bad_charset

-- The INSERT, which the primary key may refuse.
abbrev pub insert_generated :
    Outcome → Text → Text → Text → ℤ → Db → Result StoreError Text → Issued
insert_generated write id key charset length db (err e) = (err e, db)
insert_generated write id key charset length db (ok value) = issued value (
    exec write (not (has_row template_key (id, key) db.template_secrets)) db (record db {
      template_secrets =
          record { instance_id = id; key = key; value = value; charset = charset; length = length }
          ∷ db.template_secrets;
    }))

abbrev pub found_or_generated :
    Outcome → Option Text → Text → Text → Text → ℤ → Db → Option TemplateSecret → Issued
found_or_generated write random id key charset length db (some row) = (ok row.value, db)
found_or_generated write random id key charset length db none =
    insert_generated write id key charset length db (generate_secret_value random charset length)

abbrev pub read_or_generate : Outcome → Outcome → Option Text → Text → Text → Text → ℤ → Db → Issued
read_or_generate fails write random id key charset length db = (err statement_failed, db)
read_or_generate works write random id key charset length db =
    found_or_generated write random id key charset length db
      (find_row template_key (id, key) db.template_secrets)

-- `EnsureTemplateSecret`: the outcomes of its SELECT and its INSERT
unfoldable pub ensure_template_secret :
    Outcome → Outcome → Option Text → Text → Text → Text → ℤ → Db → Issued
ensure_template_secret read write random id key charset length db =
    if is_nil id || is_nil key
    then (err missing_field, db)
    else read_or_generate read write random id key charset length db

-- `DropTemplateSecrets`
unfoldable pub drop_template_secrets : Outcome → Text → Db → Result StoreError (Unit {0}) × Db
drop_template_secrets o id db =
    exec o true db
      (record db { template_secrets = delete_rows (λ s. s.instance_id == id) db.template_secrets })
