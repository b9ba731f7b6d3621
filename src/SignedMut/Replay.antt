-- ===== src/SignedMut/Replay.antt =====
-- Replay protection: the verifier over the nonce table, across calls.
use obacht_agent.Base.{
  All, All-mono, ℕ, ◌+◌, ◌≤◌, true, ◌≡◌, ◌≢◌, refl, some, List, [], ◌∷◌, Memᴰ, nat_eq, list_eq,
  arith, inl, inr, Bool-cases, is_nil, ap, keep-mem, beq_refl,
}
use obacht_agent.Base.Result.{ok}
use obacht_agent.Base.Text.{Text}
use obacht_agent.SignedMut.Json.{Json}
use obacht_agent.SignedMut.Envelope.{Mutation}
use obacht_agent.SignedMut.Verify.{Primitives, UserKey, Verdict, accepted, verify}
use obacht_agent.SignedMut.Integers.{IsNullFree}
use obacht_agent.SignedMut.Sound.{carried_mutation, verify-accepted, verify-lifetime}
use obacht_agent.SignedMut.Kept.{verify-keeps}
use obacht_agent.Store.Nonces.{
  Row, Fault, no_fault, insert_fails, rows_fail, prune_fails, has_nonce, nonce_retention, prune,
  insert_or_ignore, mark, check_and_mark_nonce, nonce_table,
}

-- One envelope that reaches the agent: the time of its arrival and what SQLite does.
pub record Arrival : Type 0 where
  pub raw : Text
  pub now : ℕ
  pub fault : Fault

module _ (prim : Primitives) (own : Text) (keys : List UserKey) where
  abbrev pub receive : Arrival → List Row → Verdict × List Row
  receive a rows = verify prim (nonce_table a.fault) own a.now keys a.raw rows

  -- The table after a row of arrivals.
  unfoldable pub receive_all : List Arrival → List Row → List Row
  receive_all [] rows = rows
  receive_all (a ∷ later) rows = receive_all later (receive a rows).1

-- A row that is not older than the retention at any of the times stays.
abbrev IsKept : Text → ℕ → List Row → Type 0
IsKept n t rows = Memᴰ (record { nonce = n; seen_at = t }) rows

prune-IsKept :
    (n : Text) (t now : ℕ) (rows : List Row)
    → now ≤ t + nonce_retention
    → IsKept n t rows
    → IsKept n t (prune now rows)
unfolding prune
prune-IsKept n t now rows h m = keep-mem _ _ m (ground arith)

insert-IsKept :
    (n n' : Text) (t now : ℕ) (rows : List Row)
    → IsKept n t rows
    → IsKept n t (insert_or_ignore n' now rows).1
unfolding insert_or_ignore
insert-IsKept n n' t now rows m = elim (Bool-cases (has_nonce n' rows)) [
  | inl old ↦ rw old m
  | inr new ↦ rw new (Memᴰ.tail m)
]

mark-IsKept :
    (fault : Fault) (n n' : Text) (t now : ℕ) (rows : List Row)
    → now ≤ t + nonce_retention
    → IsKept n t rows
    → IsKept n t (check_and_mark_nonce fault n' now rows).1
unfolding check_and_mark_nonce
mark-IsKept fault n n' t now rows h m = elim (Bool-cases (is_nil n')) [
  | inl blank ↦ rw blank m
  | inr given ↦ rw given (at_fault fault)
]
  where
    inserted : IsKept n t (insert_or_ignore n' now rows).1
    inserted = insert-IsKept n n' t now rows m

    at_fault : (fault : Fault) → IsKept n t (mark fault n' now rows).1
    at_fault no_fault = prune-IsKept n t now _ h inserted
    at_fault insert_fails = m
    at_fault rows_fail = inserted
    at_fault prune_fails = inserted

has_nonce-IsKept : (n : Text) (t : ℕ) {rows : List Row} → IsKept n t rows → has_nonce n rows ≡ true
has_nonce-IsKept n t (Memᴰ.head {x = x} {xs = xs} e) =
    ground (arith, ap (λ (r : Row). r.nonce) e, beq_refl n)
has_nonce-IsKept n t (Memᴰ.tail {x = x} {xs = xs} m) = ground (arith, has_nonce-IsKept n t m)

inserted-IsKept :
    (n : Text) (now : ℕ) (rows : List Row)
    → (insert_or_ignore n now rows).0 ≡ true
    → IsKept n now (insert_or_ignore n now rows).1
unfolding insert_or_ignore
inserted-IsKept n now rows h = elim (Bool-cases (has_nonce n rows)) [
  | inl old ↦ absurd (ground arith)
  | inr new ↦ rw new (Memᴰ.head refl)
]

fresh-IsKept :
    (fault : Fault) (n : Text) (now : ℕ) (rows rows' : List Row)
    → check_and_mark_nonce fault n now rows ≡ (ok true, rows')
    → IsKept n now rows'
unfolding check_and_mark_nonce
fresh-IsKept no_fault n now rows rows' h =
    let kept = inserted-IsKept n now rows (ground arith) in
    let same : prune now (insert_or_ignore n now rows).1 ≡ rows' = ground arith in
    rw (← same) (prune-IsKept n now now _ (omega arith) kept)
fresh-IsKept prune_fails n now rows rows' h =
    let kept = inserted-IsKept n now rows (ground arith) in
    let same : (insert_or_ignore n now rows).1 ≡ rows' = ground arith in rw (← same) kept
fresh-IsKept insert_fails n now rows rows' h = absurd (ground arith)
fresh-IsKept rows_fail n now rows rows' h = absurd (ground arith)

stale_not_fresh :
    (fault : Fault) (n : Text) (now : ℕ) (rows rows' : List Row)
    → has_nonce n rows ≡ true
    → check_and_mark_nonce fault n now rows ≢ (ok true, rows')
unfolding check_and_mark_nonce insert_or_ignore
stale_not_fresh no_fault n now rows rows' old h = ground arith
stale_not_fresh insert_fails n now rows rows' old h = ground arith
stale_not_fresh rows_fail n now rows rows' old h = ground arith
stale_not_fresh prune_fails n now rows rows' old h = ground arith

module _ (prim : Primitives) (own : Text) (keys : List UserKey) where
  receive-IsKept :
      (n : Text) (t : ℕ) (a : Arrival) (rows : List Row)
      → a.now ≤ t + nonce_retention
      → IsKept n t rows
      → IsKept n t (receive prim own keys a rows).1
  receive-IsKept n t a rows h m =
      verify-keeps prim (nonce_table a.fault) own a.now rows (IsKept n t) keys a.raw m
        (λ n'. mark-IsKept a.fault n n' t a.now rows h m)

  receive_all-IsKept :
      (n : Text) (t : ℕ) (later : List Arrival) (rows : List Row)
      → All (λ a. a.now ≤ t + nonce_retention) later
      → IsKept n t rows
      → IsKept n t (receive_all prim own keys later rows)
  unfolding receive_all
  receive_all-IsKept n t [] rows h m = m
  receive_all-IsKept n t (a ∷ later) rows h m =
      receive_all-IsKept n t later _ h.1 (receive-IsKept n t a rows h.0 m)

  -- A nonce that has been accepted is refused for a day: whatever arrives in between, no envelope with
  -- this nonce is accepted while the times since are at most `nonceRetention` after its acceptance.
  pub nonce_refused_for_a_day :
      (a b : Arrival) (between : List Arrival) (rows rows' : List Row)
      → (m m' : Mutation) (k k' : UserKey) → receive prim own keys a rows ≡ (accepted m k, rows')
      → All (λ x. x.now ≤ a.now + nonce_retention) between
      → m'.nonce ≡ m.nonce
      → (receive prim own keys b (receive_all prim own keys between rows')).0 ≢ accepted m' k'
  nonce_refused_for_a_day a b between rows rows' m m' k k' first times same second =
      let marked =
        (verify-accepted prim (nonce_table a.fault) own a.now keys a.raw m k rows rows'
          first).1.marked in
      let kept =
        receive_all-IsKept m.nonce a.now between rows' times
          (fresh-IsKept a.fault m.nonce a.now rows rows' marked) in
      let table = receive_all prim own keys between rows' in
      let again =
        (verify-accepted prim (nonce_table b.fault) own b.now keys b.raw m' k' table
          (receive prim own keys b table).1
          (ap (λ v. (v, (receive prim own keys b table).1)) second)).1.marked in
      stale_not_fresh b.fault m.nonce b.now table _ (has_nonce-IsKept m.nonce a.now kept)
        (rw same at again)

  -- No mutation is accepted twice, ever: once `Verify` has accepted a mutation whose object holds no
  -- `null`, it accepts the same mutation from no later envelope, if the clock of the second arrival has
  -- not been passed by the arrivals in between.
  pub accepted_once :
      (a b : Arrival) (between : List Arrival) (rows rows' : List Row)
      → (tree : Json) (m : Mutation) (k k' : UserKey)
      → receive prim own keys a rows ≡ (accepted m k, rows')
      → carried_mutation prim a.raw ≡ some tree
      → IsNullFree tree
      → All (λ x. x.now ≤ b.now) between
      → (receive prim own keys b (receive_all prim own keys between rows')).0 ≢ accepted m k'
  accepted_once a b between rows rows' tree m k k' first carries nn times second =
      let table = receive_all prim own keys between rows' in
      let timely =
        (verify-accepted prim (nonce_table b.fault) own b.now keys b.raw m k' table
          (receive prim own keys b table).1
          (ap (λ v. (v, (receive prim own keys b table).1)) second)).1.timely in
      let soon =
        (verify-lifetime prim (nonce_table a.fault) own a.now keys a.raw tree m k rows rows' first
          carries nn).1 in
      let close : b.now ≤ a.now + nonce_retention = omega (arith, soon, timely.unexpired) in
      nonce_refused_for_a_day a b between rows rows' m m k k' first
        (All-mono between (λ x h. omega arith) times) refl second
