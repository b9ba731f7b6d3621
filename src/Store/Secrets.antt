-- ===== src/Store/Secrets.antt =====
-- internal/store/secrets.go: the secrets by which instances authenticate to the agent. What
-- `rand.Read` and hex yield is a parameter, `none` where it fails.
use obacht_agent.Base.{
  Bool, true, false, ◌≡◌, refl, sym, ap, ◌∙◌, Option, none, some, List, [], ◌∷◌, All, is_nil, ◌==◌,
  nat_eq, list_eq, list_beq_iff, if◌then◌else◌, Bool-cases, Option-cases, inl, inr, arith,
}
use obacht_agent.Base.Result.{Result, ok, err}
use obacht_agent.Base.Text.{Text}
use obacht_agent.Store.Table.{find_row, has_row, upsert_row}
use obacht_agent.Store.Rows.{merged, find-upsert}
use obacht_agent.Store.Locks.{Outcome, works, fails}
use obacht_agent.Store.Db.{
  InstanceSecret, Db, StoreError, missing_field, not_found, statement_failed, no_random, exec,
}
use obacht_agent.Store.Statements.{instance_key}

abbrev pub secret_key : InstanceSecret → Text
secret_key s = s.instance_id

abbrev pub merge_secret : InstanceSecret → InstanceSecret → InstanceSecret
merge_secret old new = record old { secret = new.secret }

abbrev pub Issued : Type 0
Issued = Result StoreError Text × Db

abbrev pub issued : Text → Result StoreError (Unit {0}) × Db → Issued
issued secret (err e, db) = (err e, db)
issued secret (ok _, db) = (ok secret, db)

abbrev pub store_secret : Outcome → Text → Option Text → Db → Issued
store_secret o id none db = (err no_random, db)
store_secret o id (some secret) db = issued secret (
    exec o (has_row instance_key id db.instances) db (record db {
      secrets =
          upsert_row secret_key merge_secret (record { instance_id = id; secret = secret })
            db.secrets;
    }))

-- `CreateInstanceSecret`
unfoldable pub create_instance_secret : Outcome → Option Text → Text → Db → Issued
create_instance_secret o random id db =
    if is_nil id then (err missing_field, db) else store_secret o id random db

-- `EnsureInstanceSecret`: the outcomes of its SELECT and its INSERT
abbrev pub found_or_created : Outcome → Option Text → Text → Db → Option InstanceSecret → Issued
found_or_created write random id db (some row) = (ok row.secret, db)
found_or_created write random id db none = create_instance_secret write random id db

abbrev pub read_or_create : Outcome → Outcome → Option Text → Text → Db → Issued
read_or_create fails write random id db = (err statement_failed, db)
read_or_create works write random id db =
    found_or_created write random id db (find_row secret_key id db.secrets)

unfoldable pub ensure_instance_secret : Outcome → Outcome → Option Text → Text → Db → Issued
ensure_instance_secret read write random id db =
    if is_nil id then (err missing_field, db) else read_or_create read write random id db

-- The scan over all rows, of which the last that matches stays.
unfoldable pub scan_secrets : Text → List InstanceSecret → Option Text → Option Text
scan_secrets want [] found = found
scan_secrets want (r ∷ rs) found =
    scan_secrets want rs (if r.secret == want then some r.instance_id else found)

abbrev pub found_or_not : Option Text → Result StoreError Text
found_or_not none = err not_found
found_or_not (some id) = ok id

-- `LookupInstanceBySecret`
unfoldable pub lookup_instance_by_secret : Outcome → Text → Db → Result StoreError Text
lookup_instance_by_secret o secret db = if is_nil secret then err not_found else scan_all o
  where
    scan_all : Outcome → Result StoreError Text
    scan_all fails = err statement_failed
    scan_all works = found_or_not (scan_secrets secret db.secrets none)

-- A scan of rows of which no other instance has the secret.
abbrev pub IsOwn : Text → Text → InstanceSecret → Type 0
IsOwn id secret r = r.secret ≡ secret → r.instance_id ≡ id

scan-kept :
    (id secret : Text) (rs : List InstanceSecret)
    → All (IsOwn id secret) rs
    → scan_secrets secret rs (some id) ≡ some id
unfolding scan_secrets
scan-kept id secret [] h = refl
scan-kept id secret (r ∷ rs) h = elim (Bool-cases (r.secret == secret)) [
  | inl same ↦
      let own : r.instance_id ≡ id = h.0 ((list_beq_iff r.secret secret).0 same) in
      rw (same, own) (scan-kept id secret rs h.1)
  | inr other ↦ rw other (scan-kept id secret rs h.1)
]

scan-found :
    (id secret : Text) (rs : List InstanceSecret) (found : Option Text) (row : InstanceSecret)
    → All (IsOwn id secret) rs
    → find_row secret_key id rs ≡ some row
    → row.secret ≡ secret
    → scan_secrets secret rs found ≡ some id
unfolding scan_secrets find_row
scan-found id secret [] found row h f s = absurd (ground arith)
scan-found id secret (r ∷ rs) found row h f s = elim (Bool-cases (r.secret == secret)) [
  | inl same ↦
      let own : r.instance_id ≡ id = h.0 ((list_beq_iff r.secret secret).0 same) in
      rw (same, own) (scan-kept id secret rs h.1)
  | inr other ↦ rw other (elim (Bool-cases (r.instance_id == id)) [
    | inl here ↦
        let eq : r ≡ row = ground (arith, rw here at f) in
        let is : r.secret ≡ secret = ap (λ (x : InstanceSecret). x.secret) eq ∙ s in
        absurd (ground (arith, other, (list_beq_iff r.secret secret).1 is))
    | inr there ↦ scan-found id secret rs found row h.1 (rw there at f) s
  ])
]

-- What `Ensure` has returned stands in the table.
abbrev pub IsStored : Text → Text → Db → Type 0
IsStored id secret db =
    (row : InstanceSecret) × (find_row secret_key id db.secrets ≡ some row) × (row.secret ≡ secret)

pub issued-ok :
    (o : Outcome) (allowed : Bool) (s secret : Text) (db next db' : Db)
    → issued s (exec o allowed db next) ≡ (ok secret, db')
    → (s ≡ secret) × (next ≡ db')
issued-ok works true s secret db next db' h = (ground (arith, h), ap (λ (x : Issued). x.1) h)
issued-ok works false s secret db next db' h = absurd (ground arith)
issued-ok fails allowed s secret db next db' h = absurd (ground arith)

merged_secret :
    (old : Option InstanceSecret) (new : InstanceSecret)
    → (merged secret_key merge_secret new old).secret ≡ new.secret
merged_secret none new = refl
merged_secret (some old) new = refl

store-IsStored :
    (o : Outcome) (id secret : Text) (random : Option Text) (db db' : Db)
    → store_secret o id random db ≡ (ok secret, db')
    → IsStored id secret db'
store-IsStored o id secret none db db' h = absurd (ground arith)
store-IsStored o id secret (some s) db db' h =
    let row : InstanceSecret = record { instance_id = id; secret = s } in
    let rows = upsert_row secret_key merge_secret row db.secrets in
    let (same, written) =
      issued-ok o (has_row instance_key id db.instances) s secret db (record db { secrets = rows })
        db' h in
    let found : find_row secret_key id db'.secrets
        ≡ some (merged secret_key merge_secret row (find_row secret_key id db.secrets)) =
      ap (λ (x : Db). find_row secret_key id x.secrets) (sym written)
      ∙ find-upsert secret_key merge_secret (λ r n. refl) row db.secrets in
    (
      merged secret_key merge_secret row (find_row secret_key id db.secrets),
      found,
      merged_secret (find_row secret_key id db.secrets) row ∙ same,
    )

pub ensure-IsStored :
    (read write : Outcome) (random : Option Text) (id secret : Text) (db db' : Db)
    → ensure_instance_secret read write random id db ≡ (ok secret, db')
    → (is_nil id ≡ false) × IsStored id secret db'
unfolding ensure_instance_secret create_instance_secret
ensure-IsStored fails write random id secret db db' h = elim (Bool-cases (is_nil id)) [
  | inl missing ↦ absurd (ground (arith, rw missing at h))
  | inr named ↦ absurd (ground (arith, rw named at h))
]
ensure-IsStored works write random id secret db db' h = elim (Bool-cases (is_nil id)) [
  | inl missing ↦ absurd (ground (arith, rw missing at h))
  | inr named ↦ elim (Option-cases (find_row secret_key id db.secrets)) [
    | inl absent ↦
        let created : found_or_created write random id db (find_row secret_key id db.secrets)
            ≡ (ok secret, db') =
          rw named at h in
        let at_none : create_instance_secret write random id db ≡ (ok secret, db') =
          ap (found_or_created write random id db) (sym absent) ∙ created in
        (named, store-IsStored write id secret random db db' (rw named at at_none))
    | inr (row, found) ↦
        let read : found_or_created write random id db (find_row secret_key id db.secrets)
            ≡ (ok secret, db') =
          rw named at h in
        let kept : (ok row.secret, db) ≡ (ok secret, db') =
          ap (found_or_created write random id db) (sym found) ∙ read in
        let same : db ≡ db' = ap (λ (x : Issued). x.1) kept in
        (
          named,
          (
            row,
            ap (λ (x : Db). find_row secret_key id x.secrets) (sym same) ∙ found,
            ground (arith, kept),
          ),
        )
  ]
]

-- A secret that `EnsureInstanceSecret` returned identifies its instance, if no other instance has the
-- same secret; and to ensure it again returns the same secret and changes nothing, whatever the random
-- numbers are.
pub ensure-lookup :
    (read write : Outcome) (random : Option Text) (id secret : Text) (db db' : Db)
    → ensure_instance_secret read write random id db ≡ (ok secret, db')
    → is_nil secret ≡ false
    → All (IsOwn id secret) db'.secrets
    → (lookup_instance_by_secret works secret db' ≡ ok id)
      × ((write' : Outcome) (random' : Option Text)
          → ensure_instance_secret works write' random' id db' ≡ (ok secret, db'))
unfolding lookup_instance_by_secret ensure_instance_secret
ensure-lookup read write random id secret db db' h given own =
    let (named, stored) = ensure-IsStored read write random id secret db db' h in
    let (row, found, same) = stored in
    (
      rw given (ap found_or_not (scan-found id secret db'.secrets none row own found same)),
      λ write' random'.
          rw named (ap (found_or_created write' random' id db') found ∙ (λ i. (ok (same i), db'))),
    )
