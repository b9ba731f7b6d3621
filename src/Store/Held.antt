-- ===== src/Store/Held.antt =====
-- A lock is held by one instance until that instance releases it.
use obacht_agent.Base.{
  Bool, false, not, ◌||◌, ◌≡◌, ◌≢◌, refl, ap, Option, none, some, List, [], ◌∷◌, All, keep, is_nil,
  ◌==◌, nat_eq, list_eq, list_beq_iff, Bool-cases, inl, inr, arith,
}
use obacht_agent.Base.Result.{ok}
use obacht_agent.Base.Text.{Text}
use obacht_agent.Store.Locks.{
  Lock, Outcome, works, fails, holder_of, inserted, after_read, try_acquire, deleted, release_lock,
  release_locks_for, Op, acquire, release, release_all, apply_op, apply_ops,
}

-- An operation that does not release for the instance.
abbrev pub IsOthers : Text → Op → Type 0
IsOthers id (acquire _ _ _ _ _) = Unit
IsOthers id (release _ _ x) = x ≢ id
IsOthers id (release_all _ x) = x ≢ id

-- A deletion that spares the rows of the holder keeps the holder of each group.
keep-holder :
    (g id : Text) (doomed : Lock → Bool) (ls : List Lock)
    → ((l : Lock) → l.holder ≡ id → doomed l ≡ false)
    → holder_of g ls ≡ some id
    → holder_of g (keep (λ l. not (doomed l)) ls) ≡ some id
unfolding holder_of
keep-holder g id doomed [] spares h = h
keep-holder g id doomed (l ∷ ls) spares h = elim (Bool-cases (l.group == g)) [
  | inl here ↦
      let mine : l.holder ≡ id = ground (arith, here, h) in
      ground (arith, spares l mine, here, mine)
  | inr away ↦ ground (arith, keep-holder g id doomed ls spares (ground (arith, away, h)), away)
]

insert-holder :
    (insert : Outcome) (g g' id id' : Text) (ls : List Lock) (o : Option Text)
    → holder_of g' ls ≡ o
    → holder_of g ls ≡ some id
    → holder_of g (inserted insert g' id' ls o).1 ≡ some id
unfolding holder_of
insert-holder works g g' id id' ls none e h = ground (arith, e, h, list_beq_iff g' g)
insert-holder works g g' id id' ls (some x) e h = h
insert-holder fails g g' id id' ls o e h = h

read-holder :
    (insert : Outcome) (g g' id id' : Text) (ls : List Lock) (o : Option Text)
    → holder_of g ls ≡ some id
    → holder_of g (after_read insert g' id' ls o).1 ≡ some id
read-holder insert g g' id id' ls none h =
    insert-holder insert g g' id id' ls (holder_of g' ls) refl h
read-holder insert g g' id id' ls (some x) h = h

acquire-holder :
    (read insert : Outcome) (g g' id id' : Text) (seen ls : List Lock)
    → holder_of g ls ≡ some id
    → holder_of g (try_acquire read insert g' id' seen ls).1 ≡ some id
unfolding try_acquire
acquire-holder works insert g g' id id' seen ls h = elim (Bool-cases (is_nil g' || is_nil id')) [
  | inl blank ↦ rw blank h
  | inr given ↦ rw given (read-holder insert g g' id id' ls (holder_of g' seen) h)
]
acquire-holder fails insert g g' id id' seen ls h = ground arith

deleted-holder :
    (delete : Outcome) (g id : Text) (doomed : Lock → Bool) (ls : List Lock)
    → ((l : Lock) → l.holder ≡ id → doomed l ≡ false)
    → holder_of g ls ≡ some id
    → holder_of g (deleted delete doomed ls).1 ≡ some id
deleted-holder works g id doomed ls spares h = keep-holder g id doomed ls spares h
deleted-holder fails g id doomed ls spares h = h

release-holder :
    (delete : Outcome) (g g' id x : Text) (ls : List Lock)
    → x ≢ id
    → holder_of g ls ≡ some id
    → holder_of g (release_lock delete g' x ls).1 ≡ some id
unfolding release_lock
release-holder delete g g' id x ls other h = elim (Bool-cases (is_nil g' || is_nil x)) [
  | inl blank ↦ rw blank h
  | inr given ↦ rw given (
      deleted-holder delete g id _ ls
        (λ l mine. ground (arith, mine, other, list_beq_iff l.holder x)) h)
]

op-holder :
    (o : Op) (g id : Text) (ls : List Lock)
    → IsOthers id o
    → holder_of g ls ≡ some id
    → holder_of g (apply_op o ls) ≡ some id
unfolding apply_op release_lock release_locks_for
op-holder (acquire read insert g' id' seen) g id ls other h =
    acquire-holder read insert g g' id id' seen ls h
op-holder (release delete g' x) g id ls other h = release-holder delete g g' id x ls other h
op-holder (release_all delete x) g id ls other h =
    deleted-holder delete g id _ ls (λ l mine. ground (arith, mine, other, list_beq_iff l.holder x))
      h

-- A lock that an instance holds stays its own through any operations of the others, whatever table
-- their SELECT has read and whatever statement fails, and as long as the instance does not release it.
pub ops-holder :
    (os : List Op) (g id : Text) (ls : List Lock)
    → All (IsOthers id) os
    → holder_of g ls ≡ some id
    → holder_of g (apply_ops os ls) ≡ some id
unfolding apply_ops
ops-holder [] g id ls others h = h
ops-holder (o ∷ os) g id ls (other, others) h =
    ops-holder os g id (apply_op o ls) others (op-holder o g id ls other h)

inserted-own :
    (insert : Outcome) (g id : Text) (ls : List Lock) (o : Option Text)
    → (inserted insert g id ls o).0 ≡ ok tt
    → holder_of g (inserted insert g id ls o).1 ≡ some id
unfolding holder_of
inserted-own works g id ls none h = ground (arith, list_beq_iff g g)
inserted-own works g id ls (some x) h = absurd (ground arith)
inserted-own fails g id ls o h = absurd (ground arith)

read-own :
    (insert : Outcome) (g id : Text) (ls : List Lock) (o : Option Text)
    → holder_of g ls ≡ o
    → (after_read insert g id ls o).0 ≡ ok tt
    → holder_of g (after_read insert g id ls o).1 ≡ some id
read-own insert g id ls none e h = inserted-own insert g id ls (holder_of g ls) h
read-own insert g id ls (some x) e h = ground (arith, e, h, list_beq_iff x id)

-- An acquisition that succeeds leaves the instance as the holder, if no other goroutine has written to
-- the table between its SELECT and its INSERT.
pub acquired-holder :
    (read insert : Outcome) (g id : Text) (ls : List Lock)
    → (try_acquire read insert g id ls ls).0 ≡ ok tt
    → holder_of g (try_acquire read insert g id ls ls).1 ≡ some id
unfolding try_acquire
acquired-holder fails insert g id ls h = absurd (ground arith)
acquired-holder works insert g id ls h = elim (Bool-cases (is_nil g || is_nil id)) [
  | inl blank ↦ absurd (ground arith)
  | inr given ↦
      rw given (read-own insert g id ls (holder_of g ls) refl (rw (given, try_acquire) at h))
]

read_excludes :
    (insert : Outcome) (g id other : Text) (ls : List Lock) (o : Option Text)
    → holder_of g ls ≡ some id
    → o ≢ some other
    → (after_read insert g other ls o).0 ≢ ok tt
read_excludes works g id other ls none held away h =
    let denied = rw held at h in ground (arith, denied)
read_excludes fails g id other ls none held away h = ground arith
read_excludes insert g id other ls (some x) held away h =
    away (ap some (ground (arith, h, list_beq_iff x other)))

-- Once an instance has acquired a lock, by a SELECT and an INSERT between which nobody else has written,
-- no other instance acquires it after any operations that do not release it for the first one: not even
-- one whose SELECT has read an older table, as long as that table does not name this other instance as
-- the holder.
pub acquire_excludes :
    (read insert read' insert' : Outcome) (g id other : Text) (os : List Op) (seen ls : List Lock)
    → (try_acquire read insert g id ls ls).0 ≡ ok tt
    → All (IsOthers id) os
    → holder_of g seen ≢ some other
    → (try_acquire read' insert' g other seen
        (apply_ops os (try_acquire read insert g id ls ls).1)).0
      ≢ ok tt
unfolding try_acquire
acquire_excludes read insert fails insert' g id other os seen ls h others away again = ground arith
acquire_excludes read insert works insert' g id other os seen ls h others away again =
    elim (Bool-cases (is_nil g || is_nil other)) [
      | inl blank ↦ absurd (ground arith)
      | inr given ↦
          read_excludes insert' g id other _ (holder_of g seen)
            (ops-holder os g id _ others (acquired-holder read insert g id ls h)) away
            (rw (given, try_acquire) at again)
    ]
