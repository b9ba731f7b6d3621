-- ===== src/Store/Table.antt =====
-- Tables of SQLite as lists of rows, and the statements that internal/store runs on them.
use obacht_agent.Base.{
  Bool, false, not, ◌||◌, ◌≡◌, Option, none, some, List, [], ◌∷◌, keep, ◌==◌, nat_eq, list_eq, Eq,
  if◌then◌else◌,
}

module _ {A K : Type 0} ⦃e : Eq K⦄ (key : A → K) where
  -- `SELECT … WHERE key = ?` of a table with that primary key
  unfoldable pub find_row : K → List A → Option A
  find_row k [] = none
  find_row k (r ∷ rs) = let rest = find_row k rs in if key r == k then some r else rest

  -- whether the key has a row, as a foreign key asks
  unfoldable pub has_row : K → List A → Bool
  has_row k [] = false
  has_row k (r ∷ rs) = key r == k || has_row k rs

  -- `INSERT … ON CONFLICT(key) DO UPDATE`: the columns that stay are the old row's
  unfoldable pub upsert_row : (A → A → A) → A → List A → List A
  upsert_row merge new [] = new ∷ []
  upsert_row merge new (r ∷ rs) =
      let rest = upsert_row merge new rs in if key r == key new then merge r new ∷ rs else r ∷ rest

  -- `UPDATE … WHERE key = ?`
  unfoldable pub update_rows : K → (A → A) → List A → List A
  update_rows k f [] = []
  update_rows k f (r ∷ rs) = (if key r == k then f r else r) ∷ update_rows k f rs

  -- The primary key: no two rows have the same.
  abbrev pub IsKeyed : List A → Type 0
  IsKeyed [] = Unit
  IsKeyed (r ∷ rs) = (has_row (key r) rs ≡ false) × IsKeyed rs

-- `DELETE … WHERE`
abbrev pub delete_rows : {A : Type 0} → (A → Bool) → List A → List A
delete_rows doomed = keep (λ r. not (doomed r))
