-- ===== src/Store/Locks.antt =====
-- internal/store/locks.go: the table of exclusivity locks. `group_name` is the key of the table, so an
-- INSERT for a group that has a row fails.
use obacht_agent.Base.{
  Bool, not, ◌&&◌, ◌||◌, Option, none, some, List, [], ◌∷◌, keep, is_nil, ◌==◌, nat_eq, list_eq,
  if◌then◌else◌,
}
use obacht_agent.Base.Result.{Result, ok, err}
use obacht_agent.Base.Text.{Text}

pub record Lock : Type 0 where
  pub group : Text
  pub holder : Text

pub data LockError : Type 0 where
  missing_argument lock_held read_failed delete_failed : LockError

-- What SQLite does to the statements of an operation, beside the check of the key.
pub data Outcome : Type 0 where
  works fails : Outcome

-- The row of a group.
unfoldable pub holder_of : Text → List Lock → Option Text
holder_of g [] = none
holder_of g (l ∷ ls) = let rest = holder_of g ls in if l.group == g then some l.holder else rest

abbrev pub inserted :
    Outcome → Text → Text → List Lock → Option Text → Result LockError (Unit {0}) × List Lock
inserted works g id ls none = (ok tt, record { group = g; holder = id } ∷ ls)
inserted works g id ls (some h) = (err lock_held, ls)
inserted fails g id ls o = (err lock_held, ls)

abbrev pub after_read :
    Outcome → Text → Text → List Lock → Option Text → Result LockError (Unit {0}) × List Lock
after_read insert g id ls none = inserted insert g id ls (holder_of g ls)
after_read insert g id ls (some h) = (if h == id then ok tt else err lock_held, ls)

abbrev pub after_select :
    Outcome
    → Outcome
    → Text
    → Text
    → List Lock
    → List Lock
    → Result LockError (Unit {0}) × List Lock
after_select fails insert g id seen ls = (err read_failed, ls)
after_select works insert g id seen ls = after_read insert g id ls (holder_of g seen)

-- `TryAcquireLock`: `seen` is the table that the SELECT reads, and `ls` the one that the INSERT meets.
unfoldable pub try_acquire :
    Outcome
    → Outcome
    → Text
    → Text
    → List Lock
    → List Lock
    → Result LockError (Unit {0}) × List Lock
try_acquire read insert g id seen ls =
    if is_nil g || is_nil id
    then (err missing_argument, ls)
    else after_select read insert g id seen ls

-- `GetLockHolder`, where the empty text stands for no holder
unfoldable pub get_lock_holder : Outcome → Text → List Lock → Result LockError Text
get_lock_holder fails g ls = err read_failed
get_lock_holder works g ls = elim (holder_of g ls) [ none ↦ ok [] | some h ↦ ok h ]

abbrev pub deleted : Outcome → (Lock → Bool) → List Lock → Result LockError (Unit {0}) × List Lock
deleted works doomed ls = (ok tt, keep (λ l. not (doomed l)) ls)
deleted fails doomed ls = (err delete_failed, ls)

-- `ReleaseLock`
unfoldable pub release_lock :
    Outcome → Text → Text → List Lock → Result LockError (Unit {0}) × List Lock
release_lock delete g id ls =
    if is_nil g || is_nil id
    then (ok tt, ls)
    else deleted delete (λ l. l.group == g && l.holder == id) ls

-- `ReleaseLocksForInstance`
unfoldable pub release_locks_for :
    Outcome → Text → List Lock → Result LockError (Unit {0}) × List Lock
release_locks_for delete id ls = deleted delete (λ l. l.holder == id) ls

-- One operation on the table, with the faults that it meets.
pub data Op : Type 0 where
  acquire : Outcome → Outcome → Text → Text → List Lock → Op
  release : Outcome → Text → Text → Op
  release_all : Outcome → Text → Op

unfoldable pub apply_op : Op → List Lock → List Lock
apply_op (acquire read insert g id seen) ls = (try_acquire read insert g id seen ls).1
apply_op (release delete g id) ls = (release_lock delete g id ls).1
apply_op (release_all delete id) ls = (release_locks_for delete id ls).1

unfoldable pub apply_ops : List Op → List Lock → List Lock
apply_ops [] ls = ls
apply_ops (o ∷ os) ls = apply_ops os (apply_op o ls)
