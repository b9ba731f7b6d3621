-- ===== src/Store/Constraints.antt =====
-- Sequences of the operations of internal/store, and the constraints of the schema.
use obacht_agent.Base.{
  Bool, true, false, not, ◌||◌, ◌≡◌, refl, Option, none, some, List, [], ◌∷◌, is_nil, ◌==◌, nat_eq,
  list_eq, if◌then◌else◌, arith,
}
use obacht_agent.Base.Int.{ℤ}
use obacht_agent.Base.Result.{Result, ok, err}
use obacht_agent.Base.Text.{Text}
use obacht_agent.Store.Table.{find_row, has_row}
use obacht_agent.Store.Rows.{upsert-IsKeyed, upsert-All, delete-IsKeyed}
use obacht_agent.Store.Locks.{Lock, Outcome, works, fails, release_locks_for}
use obacht_agent.Store.Db.{InstanceSecret, TemplateSecret, Db, StoreError, pair_eq, exec}
use obacht_agent.Store.Statements.{instance_key}
use obacht_agent.Store.Secrets.{
  secret_key, merge_secret, Issued, issued, store_secret, create_instance_secret, found_or_created,
  ensure_instance_secret,
}
use obacht_agent.Store.Templates.{
  template_key, generate_secret_value, insert_generated, found_or_generated, ensure_template_secret,
  drop_template_secrets,
}
use obacht_agent.Store.Intact.{IsIntact, exec-IsIntact}
use obacht_agent.Store.Owned.{IsInstance, IsOwned, exec-IsOwned, run_op-IsOwned}
use obacht_agent.Store.Ops.{run_op-IsIntact}
use obacht_agent.Store.Whole.{
  AnyOp, statement, claim_group, free_group, free_groups, reissue_secret, ensure_secret,
  ensure_template, drop_template, acquire_lock, run_any, run_all, IsConsistent, IsLockTable,
  with_tables-IsIntact, acquired-IsLockTable, deleted-IsLockTable, released-IsLockTable,
}

-- A new table of locks.
locks-IsConsistent :
    (db : Db) (ls : List Lock)
    → IsConsistent db
    → IsLockTable db ls
    → IsConsistent (record db { locks = ls })
locks-IsConsistent db ls h t = record {
  intact = with_tables-IsIntact db ls db.secrets db.template_secrets h.intact;
  owned = record {
    lock_keys = t.keys;
    secret_keys = h.owned.secret_keys;
    template_keys = h.owned.template_keys;
    lock_rows = t.rows;
    secret_rows = h.owned.secret_rows;
  };
}

lock_table : (db : Db) → IsConsistent db → IsLockTable db db.locks
lock_table db h = record { keys = h.owned.lock_keys; rows = h.owned.lock_rows }

exec-IsConsistent :
    (o : Outcome) (allowed : Bool) (db db' : Db)
    → IsConsistent db
    → IsIntact db'
    → (allowed ≡ true → IsOwned db')
    → IsConsistent (exec o allowed db db').1
exec-IsConsistent o allowed db db' h i f = record {
  intact = exec-IsIntact o allowed db db' h.intact (λ _. i);
  owned = exec-IsOwned o allowed db db' h.owned f;
}

issued-IsConsistent :
    (s : Text) (r : Result StoreError (Unit {0}) × Db)
    → IsConsistent r.1
    → IsConsistent (issued s r).1
issued-IsConsistent s (err e, db) h = h
issued-IsConsistent s (ok _, db) h = h

guarded-IsConsistent :
    (test : Bool) (e : StoreError) (db : Db) (r : Issued)
    → IsConsistent db
    → IsConsistent r.1
    → IsConsistent (if test then (err e, db) else r).1
guarded-IsConsistent true e db r h k = h
guarded-IsConsistent false e db r h k = k

store_secret-IsConsistent :
    (o : Outcome) (id : Text) (random : Option Text) (db : Db)
    → IsConsistent db
    → IsConsistent (store_secret o id random db).1
store_secret-IsConsistent o id none db h = h
store_secret-IsConsistent o id (some s) db h =
    let row : InstanceSecret = record { instance_id = id; secret = s } in
    issued-IsConsistent s _ (
      exec-IsConsistent o (has_row instance_key id db.instances) db _ h
        (with_tables-IsIntact db db.locks _ db.template_secrets h.intact)
        (λ there. record {
          lock_keys = h.owned.lock_keys;
          secret_keys =
              upsert-IsKeyed secret_key merge_secret (λ r n. refl) row db.secrets
                h.owned.secret_keys;
          template_keys = h.owned.template_keys;
          lock_rows = h.owned.lock_rows;
          secret_rows =
              upsert-All secret_key (λ s. IsInstance db s.instance_id) merge_secret row db.secrets
                (λ r p. p) there h.owned.secret_rows;
        }))

created-IsConsistent :
    (o : Outcome) (random : Option Text) (id : Text) (db : Db)
    → IsConsistent db
    → IsConsistent (create_instance_secret o random id db).1
unfolding create_instance_secret
created-IsConsistent o random id db h =
    guarded-IsConsistent (is_nil id) _ db _ h (store_secret-IsConsistent o id random db h)

found-IsConsistent :
    (o : Outcome) (random : Option Text) (id : Text) (db : Db) (found : Option InstanceSecret)
    → IsConsistent db
    → IsConsistent (found_or_created o random id db found).1
found-IsConsistent o random id db none h = created-IsConsistent o random id db h
found-IsConsistent o random id db (some row) h = h

ensured-IsConsistent :
    (read o : Outcome) (random : Option Text) (id : Text) (db : Db)
    → IsConsistent db
    → IsConsistent (ensure_instance_secret read o random id db).1
unfolding ensure_instance_secret
ensured-IsConsistent fails o random id db h = guarded-IsConsistent (is_nil id) _ db _ h h
ensured-IsConsistent works o random id db h =
    guarded-IsConsistent (is_nil id) _ db _ h
      (found-IsConsistent o random id db (find_row secret_key id db.secrets) h)

generated-IsConsistent :
    (o : Outcome) (id key charset : Text) (length : ℤ) (db : Db) (r : Result StoreError Text)
    → IsConsistent db
    → IsConsistent (insert_generated o id key charset length db r).1
generated-IsConsistent o id key charset length db (err e) h = h
generated-IsConsistent o id key charset length db (ok value) h = issued-IsConsistent value _ (
    exec-IsConsistent o (not (has_row template_key (id, key) db.template_secrets)) db _ h
      (with_tables-IsIntact db db.locks db.secrets _ h.intact)
      (λ absent. record {
        lock_keys = h.owned.lock_keys;
        secret_keys = h.owned.secret_keys;
        template_keys = (ground (arith, absent), h.owned.template_keys);
        lock_rows = h.owned.lock_rows;
        secret_rows = h.owned.secret_rows;
      }))

found_template-IsConsistent :
    (o : Outcome) (random : Option Text) (id key charset : Text) (length : ℤ) (db : Db)
    (found : Option TemplateSecret)
    → IsConsistent db
    → IsConsistent (found_or_generated o random id key charset length db found).1
found_template-IsConsistent o random id key charset length db none h =
    generated-IsConsistent o id key charset length db (generate_secret_value random charset length)
      h
found_template-IsConsistent o random id key charset length db (some row) h = h

ensured_template-IsConsistent :
    (read o : Outcome) (random : Option Text) (id key charset : Text) (length : ℤ) (db : Db)
    → IsConsistent db
    → IsConsistent (ensure_template_secret read o random id key charset length db).1
unfolding ensure_template_secret
ensured_template-IsConsistent fails o random id key charset length db h =
    guarded-IsConsistent (is_nil id || is_nil key) _ db _ h h
ensured_template-IsConsistent works o random id key charset length db h =
    guarded-IsConsistent (is_nil id || is_nil key) _ db _ h (
      found_template-IsConsistent o random id key charset length db
        (find_row template_key (id, key) db.template_secrets) h)

run_any-IsConsistent :
    (o : Outcome) (op : AnyOp) (db : Db) → IsConsistent db → IsConsistent (run_any o op db)
unfolding release_locks_for drop_template_secrets acquire_lock
run_any-IsConsistent o (statement op) db h = record {
  intact = run_op-IsIntact o op db h.intact;
  owned = run_op-IsOwned o op db h.owned;
}
run_any-IsConsistent o (claim_group read seen g id) db h =
    locks-IsConsistent db _ h (acquired-IsLockTable read o seen g id db (lock_table db h))
run_any-IsConsistent o (free_group g id) db h =
    locks-IsConsistent db _ h (released-IsLockTable db o g id db.locks (lock_table db h))
run_any-IsConsistent o (free_groups id) db h =
    locks-IsConsistent db _ h
      (deleted-IsLockTable db o (λ l. l.holder == id) db.locks (lock_table db h))
run_any-IsConsistent o (reissue_secret random id) db h = created-IsConsistent o random id db h
run_any-IsConsistent o (ensure_secret read random id) db h =
    ensured-IsConsistent read o random id db h
run_any-IsConsistent o (ensure_template read random id key charset length) db h =
    ensured_template-IsConsistent read o random id key charset length db h
run_any-IsConsistent o (drop_template id) db h =
    exec-IsConsistent o true db _ h (with_tables-IsIntact db db.locks db.secrets _ h.intact) (λ _.
      record {
        lock_keys = h.owned.lock_keys;
        secret_keys = h.owned.secret_keys;
        template_keys =
            delete-IsKeyed template_key (λ s. s.instance_id == id) db.template_secrets
              h.owned.template_keys;
        lock_rows = h.owned.lock_rows;
        secret_rows = h.owned.secret_rows;
      })

-- Every sequence of the store's operations on instances, services, domains, bindings, exclusivity locks,
-- instance secrets and template secrets, whichever of the statements fail and whatever older table an
-- acquisition has read, keeps the constraints of the schema on these tables: the primary keys, the checked
-- columns, and bindings, services, locks and instance secrets that refer to rows that exist. It also
-- keeps one target for each binding, and usernames and password hashes that are set together.
pub run_all-IsConsistent :
    (ops : List (Outcome × AnyOp)) (db : Db) → IsConsistent db → IsConsistent (run_all ops db)
run_all-IsConsistent [] db h = h
run_all-IsConsistent ((o, op) ∷ ops) db h =
    run_all-IsConsistent ops (run_any o op db) (run_any-IsConsistent o op db h)
