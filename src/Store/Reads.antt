-- ===== src/Store/Reads.antt =====
-- internal/store/instances.go: what the operations do to a later read.
use obacht_agent.Base.{
  ℕ, Bool, true, false, ◌||◌, ◌≡◌, ◌≢◌, refl, sym, ap, ◌∙◌, Option, none, some, List, [], ◌∷◌,
  is_nil, ◌==◌, nat_eq, list_eq, list_beq_iff, Bool-cases, inl, inr, arith,
}
use obacht_agent.Base.Result.{Result, ok, err}
use obacht_agent.Base.Text.{Text}
use obacht_agent.Store.Table.{find_row, upsert_row}
use obacht_agent.Store.Rows.{merged, find-upsert, find-upsert_other}
use obacht_agent.Store.Instances.{Instance, is_no_runtime, is_no_desired}
use obacht_agent.Store.Locks.{Outcome, works, fails}
use obacht_agent.Store.Db.{Db, StoreError, not_found, exec}
use obacht_agent.Store.Statements.{
  instance_key, merge_instance, fresh_instance, upsert_instance, get_instance,
}

exec-ok :
    (o : Outcome) (allowed : Bool) (db db' : Db)
    → (exec o allowed db db').0 ≡ ok tt
    → (exec o allowed db db').1 ≡ db'
exec-ok works true db db' h = refl
exec-ok works false db db' h = absurd (ground arith)
exec-ok fails allowed db db' h = absurd (ground arith)

upsert_instance-ok :
    (o : Outcome) (inst : Instance) (db : Db)
    → (upsert_instance o inst db).0 ≡ ok tt
    → (upsert_instance o inst db).1.instances
      ≡ upsert_row instance_key merge_instance (fresh_instance inst) db.instances
unfolding upsert_instance
upsert_instance-ok o inst db =
    elim (Bool-cases (
      is_nil inst.id
      || is_nil inst.template_id
      || is_no_runtime inst.runtime
      || is_no_desired inst.desired_state)) [
        | inl missing ↦ rw missing (λ h. absurd (ground arith))
        | inr given ↦ rw given (λ h. ap (λ (x : Db). x.instances) (exec-ok o _ db _ h))
      ]

abbrev pub row_or_not_found : Option Instance → Result StoreError Instance
row_or_not_found none = err not_found
row_or_not_found (some inst) = ok inst

pub get-row :
    (id : Text) (db : Db)
    → get_instance works id db ≡ row_or_not_found (find_row instance_key id db.instances)
get-row id db =
    elim (find_row instance_key id db.instances)
      as (λ r. elim r [ none ↦ err not_found | some inst ↦ ok inst ] ≡ row_or_not_found r) [
        | none ↦ refl
        | some inst ↦ refl
      ]

-- What the reconciler and the prober have observed; of an instance that is not there, nothing.
abbrev pub observed_of : Result StoreError Instance → Text × Text × Text × Option ℕ
observed_of (err e) = ([], [], [], none)
observed_of (ok i) = (i.observed_state, i.observed_json, i.service_ready, i.ready_at)

-- The columns of the row that come from the argument.
abbrev pub IsWritten : Instance → Instance → Type 0
IsWritten inst row =
    (row.id ≡ inst.id)
    × (row.template_id ≡ inst.template_id)
    × (row.runtime ≡ inst.runtime)
    × (row.version ≡ inst.version)
    × (row.desired_state ≡ inst.desired_state)
    × (row.config_json ≡ inst.config_json)

find-key :
    (id : Text) (rs : List Instance) (row : Instance)
    → find_row instance_key id rs ≡ some row
    → row.id ≡ id
unfolding find_row
find-key id [] row h = absurd (ground arith)
find-key id (r ∷ rs) row h = elim (Bool-cases (r.id == id)) [
  | inl here ↦ ground (arith, h, here, list_beq_iff r.id id)
  | inr away ↦ find-key id rs row (rw away at h)
]

merged-IsWritten :
    (inst : Instance) (old : Option Instance) (before : Result StoreError Instance)
    → before ≡ row_or_not_found old
    → ((row : Instance) → old ≡ some row → row.id ≡ inst.id)
    → IsWritten inst (merged instance_key merge_instance (fresh_instance inst) old)
      × (observed_of (ok (merged instance_key merge_instance (fresh_instance inst) old))
          ≡ observed_of before)
merged-IsWritten inst none before e key =
    ((refl, refl, refl, refl, refl, refl), ap observed_of (sym e))
merged-IsWritten inst (some old) before e key =
    ((key old refl, refl, refl, refl, refl, refl), ap observed_of (sym e))

-- After an `UpsertInstance` that succeeds, `GetInstance` of its id finds a row that has every column of
-- the argument that the agent decides, and of the columns that are observed what `GetInstance` has found
-- before, or nothing where there was no row; another id reads as before.
pub get_instance-upsert_instance :
    (o : Outcome) (inst : Instance) (db : Db) (k : Text)
    → (upsert_instance o inst db).0 ≡ ok tt
    → inst.id ≢ k
    → ((row : Instance) × (get_instance works inst.id (upsert_instance o inst db).1 ≡ ok row)
        × IsWritten inst row
        × (observed_of (ok row) ≡ observed_of (get_instance works inst.id db)))
      × (get_instance works k (upsert_instance o inst db).1 ≡ get_instance works k db)
get_instance-upsert_instance o inst db k h ne =
    let rows = upsert_instance-ok o inst db h in
    let old = find_row instance_key inst.id db.instances in
    let (written, seen) =
      merged-IsWritten inst old (get_instance works inst.id db) (get-row inst.id db)
        (find-key inst.id db.instances) in
    (
      (
        merged instance_key merge_instance (fresh_instance inst) old,
        get-row inst.id (upsert_instance o inst db).1
            ∙ ap row_or_not_found (
                ap (find_row instance_key inst.id) rows
                ∙ find-upsert instance_key merge_instance (λ r n. refl) (fresh_instance inst)
                    db.instances),
        written,
        seen,
      ),
      get-row k (upsert_instance o inst db).1
          ∙ ap row_or_not_found (
              ap (find_row instance_key k) rows
              ∙ find-upsert_other instance_key merge_instance (λ r n. refl) k (fresh_instance inst)
                  db.instances ne)
          ∙ sym (get-row k db),
    )
