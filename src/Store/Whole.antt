-- ===== src/Store/Whole.antt =====
-- The operations of internal/store that write to the tables with constraints, and what those on the
-- exclusivity locks keep.
use obacht_agent.Base.{
  Bool, true, false, ◌&&◌, ◌||◌, ◌≡◌, refl, Option, none, some, List, [], ◌∷◌, All, is_nil, ◌==◌,
  nat_eq, list_eq, Bool-cases, inl, inr, arith,
}
use obacht_agent.Base.Int.{ℤ}
use obacht_agent.Base.Text.{Text}
use obacht_agent.Store.Table.{has_row, IsKeyed}
use obacht_agent.Store.Rows.{All-delete, delete-IsKeyed}
use obacht_agent.Store.Locks.{
  Lock, Outcome, works, fails, holder_of, inserted, after_read, try_acquire, deleted, release_lock,
  release_locks_for,
}
use obacht_agent.Store.Db.{InstanceSecret, TemplateSecret, Db, pair_eq}
use obacht_agent.Store.Statements.{instance_key}
use obacht_agent.Store.Secrets.{create_instance_secret, ensure_instance_secret}
use obacht_agent.Store.Templates.{ensure_template_secret, drop_template_secrets}
use obacht_agent.Store.Intact.{IsIntact}
use obacht_agent.Store.Owned.{lock_key, IsInstance, IsOwned}
use obacht_agent.Store.Ops.{StoreOp, run_op}

-- The foreign key of `exclusivity_locks`: the INSERT fails where the instance has no row.
abbrev pub foreign_key : Bool → Outcome → Outcome
foreign_key true o = o
foreign_key false o = fails

-- `TryAcquireLock` on the database; `seen` is the table that its SELECT reads
unfoldable pub acquire_lock : Outcome → Outcome → List Lock → Text → Text → Db → Db
acquire_lock read insert seen g id db = record db {
  locks =
      (try_acquire read (foreign_key (has_row instance_key id db.instances) insert) g id seen
        db.locks).1;
}

-- The operations, with the outcome of a SELECT, the random text and the other arguments.
pub data AnyOp : Type 0 where
  statement : StoreOp → AnyOp
  claim_group : Outcome → List Lock → Text → Text → AnyOp
  free_group : Text → Text → AnyOp
  free_groups : Text → AnyOp
  reissue_secret : Option Text → Text → AnyOp
  ensure_secret : Outcome → Option Text → Text → AnyOp
  ensure_template : Outcome → Option Text → Text → Text → Text → ℤ → AnyOp
  drop_template : Text → AnyOp

abbrev pub run_any : Outcome → AnyOp → Db → Db
run_any o (statement op) db = (run_op o op db).1
run_any o (claim_group read seen g id) db = acquire_lock read o seen g id db
run_any o (free_group g id) db = record db { locks = (release_lock o g id db.locks).1 }
run_any o (free_groups id) db = record db { locks = (release_locks_for o id db.locks).1 }
run_any o (reissue_secret random id) db = (create_instance_secret o random id db).1
run_any o (ensure_secret read random id) db = (ensure_instance_secret read o random id db).1
run_any o (ensure_template read random id key charset length) db =
    (ensure_template_secret read o random id key charset length db).1
run_any o (drop_template id) db = (drop_template_secrets o id db).1

abbrev pub run_all : List (Outcome × AnyOp) → Db → Db
run_all [] db = db
run_all ((o, op) ∷ ops) db = run_all ops (run_any o op db)

-- All the constraints.
pub record IsConsistent (db : Db) : Type 0 where
  pub intact : IsIntact db
  pub owned : IsOwned db

pub record IsLockTable (db : Db) (ls : List Lock) : Type 0 where
  pub keys : IsKeyed lock_key ls
  pub rows : All (λ l. IsInstance db l.holder) ls

pub with_tables-IsIntact :
    (db : Db) (ls : List Lock) (ss : List InstanceSecret) (ts : List TemplateSecret)
    → IsIntact db
    → IsIntact (record db { locks = ls; secrets = ss; template_secrets = ts })
with_tables-IsIntact db ls ss ts h = record {
  instance_keys = h.instance_keys;
  service_keys = h.service_keys;
  domain_keys = h.domain_keys;
  binding_keys = h.binding_keys;
  instance_rows = h.instance_rows;
  domain_rows = h.domain_rows;
  binding_rows = h.binding_rows;
  service_rows = h.service_rows;
}

holder_of-none : (g : Text) (ls : List Lock) → holder_of g ls ≡ none → has_row lock_key g ls ≡ false
unfolding holder_of has_row
holder_of-none g [] h = refl
holder_of-none g (l ∷ ls) h = elim (Bool-cases (l.group == g)) [
  | inl here ↦ absurd (ground (arith, rw here at h))
  | inr away ↦ ground (arith, away, holder_of-none g ls (rw away at h))
]

inserted-IsLockTable :
    (db : Db) (there : Bool) (insert : Outcome) (g id : Text) (ls : List Lock) (o : Option Text)
    → (there ≡ true → IsInstance db id)
    → holder_of g ls ≡ o
    → IsLockTable db ls
    → IsLockTable db (inserted (foreign_key there insert) g id ls o).1
inserted-IsLockTable db true works g id ls none f e h = record {
  keys = (holder_of-none g ls e, h.keys);
  rows = (f refl, h.rows);
}
inserted-IsLockTable db true works g id ls (some x) f e h = h
inserted-IsLockTable db true fails g id ls o f e h = h
inserted-IsLockTable db false insert g id ls o f e h = h

selected-IsLockTable :
    (db : Db) (there : Bool) (insert : Outcome) (g id : Text) (ls : List Lock) (o : Option Text)
    → (there ≡ true → IsInstance db id)
    → IsLockTable db ls
    → IsLockTable db (after_read (foreign_key there insert) g id ls o).1
selected-IsLockTable db there insert g id ls none f h =
    inserted-IsLockTable db there insert g id ls (holder_of g ls) f refl h
selected-IsLockTable db there insert g id ls (some x) f h = h

pub acquired-IsLockTable :
    (read insert : Outcome) (seen : List Lock) (g id : Text) (db : Db)
    → IsLockTable db db.locks
    → IsLockTable db (acquire_lock read insert seen g id db).locks
unfolding acquire_lock try_acquire
acquired-IsLockTable fails insert seen g id db h = elim (Bool-cases (is_nil g || is_nil id)) [
  | inl blank ↦ rw blank h
  | inr given ↦ rw given h
]
acquired-IsLockTable works insert seen g id db h = elim (Bool-cases (is_nil g || is_nil id)) [
  | inl blank ↦ rw blank h
  | inr given ↦ rw given (
      selected-IsLockTable db (has_row instance_key id db.instances) insert g id db.locks
        (holder_of g seen) (λ e. e) h)
]

pub deleted-IsLockTable :
    (db : Db) (o : Outcome) (doomed : Lock → Bool) (ls : List Lock)
    → IsLockTable db ls
    → IsLockTable db (deleted o doomed ls).1
deleted-IsLockTable db works doomed ls h = record {
  keys = delete-IsKeyed lock_key doomed ls h.keys;
  rows = All-delete (λ (l : Lock). IsInstance db l.holder) doomed ls h.rows;
}
deleted-IsLockTable db fails doomed ls h = h

pub released-IsLockTable :
    (db : Db) (o : Outcome) (g id : Text) (ls : List Lock)
    → IsLockTable db ls
    → IsLockTable db (release_lock o g id ls).1
unfolding release_lock
released-IsLockTable db o g id ls h = elim (Bool-cases (is_nil g || is_nil id)) [
  | inl blank ↦ rw blank h
  | inr given ↦ rw given (deleted-IsLockTable db o (λ l. l.group == g && l.holder == id) ls h)
]
