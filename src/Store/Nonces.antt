-- ===== src/Store/Nonces.antt =====
-- internal/store/nonces.go: the persistent store of the nonces of signed mutations, and the interface
-- `ReplayStore` of internal/signedmut/envelope.go through which the verifier sees it.
use obacht_agent.Base.{
  ℕ, ◌-◌, Bool, true, false, not, List, ◌∷◌, any, keep, is_nil, ltb, ◌==◌, list_eq, nat_eq,
  if◌then◌else◌,
}
use obacht_agent.Base.Result.{Result, ok, err}
use obacht_agent.Base.Text.{Text}

pub data NonceError : Type 0 where
  empty_nonce insert_failed rows_affected : NonceError

-- `CheckAndMarkNonce` on a store whose contents are the type `S`.
pub record ReplayStore (S : Type 0) : Type 0 where
  pub check_and_mark_nonce : Text → ℕ → S → Result NonceError Bool × S

pub record Row : Type 0 where
  pub nonce : Text
  pub seen_at : ℕ

-- What SQLite may do to the three calls of `CheckAndMarkNonce`.
pub data Fault : Type 0 where
  no_fault insert_fails rows_fail prune_fails : Fault

-- `nonceRetention`, in seconds
abbrev pub nonce_retention : ℕ
nonce_retention = 86400

abbrev pub has_nonce : Text → List Row → Bool
has_nonce n = any (λ r. r.nonce == n)

-- `DELETE … WHERE seen_at < cutoff`; a cutoff below 0 deletes nothing, as no time is below 0
unfoldable pub prune : ℕ → List Row → List Row
prune now rows = keep (λ r. not (ltb r.seen_at (now - nonce_retention))) rows

-- `INSERT OR IGNORE`: the table, and `RowsAffected` as whether a row was written
unfoldable pub insert_or_ignore : Text → ℕ → List Row → Bool × List Row
insert_or_ignore n now rows =
    if has_nonce n rows then (false, rows) else (true, record { nonce = n; seen_at = now } ∷ rows)

abbrev pub after_insert : Fault → ℕ → Bool × List Row → Result NonceError Bool × List Row
after_insert rows_fail now (fresh, rows) = (err rows_affected, rows)
after_insert prune_fails now (fresh, rows) = (ok fresh, rows)
after_insert no_fault now (fresh, rows) = (ok fresh, prune now rows)
after_insert insert_fails now (fresh, rows) = (ok fresh, prune now rows)

abbrev pub mark : Fault → Text → ℕ → List Row → Result NonceError Bool × List Row
mark insert_fails n now rows = (err insert_failed, rows)
mark rows_fail n now rows = after_insert rows_fail now (insert_or_ignore n now rows)
mark prune_fails n now rows = after_insert prune_fails now (insert_or_ignore n now rows)
mark no_fault n now rows = after_insert no_fault now (insert_or_ignore n now rows)

unfoldable pub check_and_mark_nonce :
    Fault → Text → ℕ → List Row → Result NonceError Bool × List Row
check_and_mark_nonce fault n now rows =
    if is_nil n then (err empty_nonce, rows) else mark fault n now rows

-- The table of nonces as a store, whatever SQLite does.
abbrev pub nonce_table : Fault → ReplayStore (List Row)
nonce_table fault = record { check_and_mark_nonce = check_and_mark_nonce fault }
