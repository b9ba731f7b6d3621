-- ===== src/Store/Rows.antt =====
-- What the statements keep: primary keys, the keys that are there, and a predicate of the rows.
use obacht_agent.Base.{
  Bool, true, false, ◌||◌, ◌≡◌, ◌≢◌, refl, sym, ap, ◌∙◌, Option, none, some, List, [], ◌∷◌, All,
  ◌==◌, nat_eq, list_eq, Eq, beq_refl, beq_ne, Bool-cases, inl, inr, arith,
}
use obacht_agent.Store.Table.{find_row, has_row, upsert_row, update_rows, IsKeyed, delete_rows}

-- A predicate of the rows through a deletion.
pub All-delete :
    {A : Type 0} (P : A → Type 0) (doomed : A → Bool) (rs : List A)
    → All P rs
    → All P (delete_rows doomed rs)
All-delete P doomed [] h = tt
All-delete P doomed (r ∷ rs) h = elim (Bool-cases (doomed r)) [
  | inl gone ↦ rw gone (All-delete P doomed rs h.1)
  | inr stays ↦ rw stays (h.0, All-delete P doomed rs h.1)
]

pub delete-All :
    {A : Type 0} (doomed : A → Bool) (rs : List A)
    → All (λ r. doomed r ≡ false) (delete_rows doomed rs)
delete-All doomed [] = tt
delete-All doomed (r ∷ rs) = elim (Bool-cases (doomed r)) [
  | inl gone ↦ rw gone (delete-All doomed rs)
  | inr stays ↦ rw stays (stays, delete-All doomed rs)
]

-- What two predicates give together.
pub All-both :
    {A : Type 0} {P Q R : A → Type 0} (rs : List A)
    → ((r : A) → P r → Q r → R r)
    → All P rs
    → All Q rs
    → All R rs
All-both [] f p q = tt
All-both (r ∷ rs) f p q = (f r p.0 q.0, All-both rs f p.1 q.1)

module _ {A K : Type 0} ⦃e : Eq K⦄ (key : A → K) where
  pub has_row-upsert :
      (merge : A → A → A) (same : (r n : A) → key (merge r n) ≡ key r) (k : K) (new : A)
      (rs : List A)
      → has_row key k (upsert_row key merge new rs) ≡ (has_row key k rs || key new == k)
  unfolding has_row upsert_row
  has_row-upsert merge same k new [] = ground arith
  has_row-upsert merge same k new (r ∷ rs) = elim (Bool-cases (key r == key new)) [
    | inl here ↦
        let eq : key r ≡ key new = (e.beq_iff (key r) (key new)).0 here in
        rw (here, same r new) (ground (arith, ap (λ x. x == k) eq))
    | inr there ↦ rw there (ground (arith, has_row-upsert merge same k new rs))
  ]

  pub upsert-IsKeyed :
      (merge : A → A → A) (same : (r n : A) → key (merge r n) ≡ key r) (new : A) (rs : List A)
      → IsKeyed key rs
      → IsKeyed key (upsert_row key merge new rs)
  unfolding has_row upsert_row
  upsert-IsKeyed merge same new [] h = (refl, tt)
  upsert-IsKeyed merge same new (r ∷ rs) h = elim (Bool-cases (key r == key new)) [
    | inl here ↦ rw (here, same r new) h
    | inr there ↦ rw there (
      ground (
        arith,
        has_row-upsert merge same (key r) new rs,
        h.0,
        there,
        e.beq_iff (key r) (key new),
        e.beq_iff (key new) (key r),
      ),
      upsert-IsKeyed merge same new rs h.1,
    )
  ]

  pub upsert-All :
      (P : A → Type 0) (merge : A → A → A) (new : A) (rs : List A)
      → ((r : A) → P r → P (merge r new))
      → P new
      → All P rs
      → All P (upsert_row key merge new rs)
  unfolding upsert_row
  upsert-All P merge new [] f n h = (n, tt)
  upsert-All P merge new (r ∷ rs) f n h = elim (Bool-cases (key r == key new)) [
    | inl here ↦ rw here (f r h.0, h.1)
    | inr there ↦ rw there (h.0, upsert-All P merge new rs f n h.1)
  ]

  pub has_row-update :
      (f : A → A) (same : (r : A) → key (f r) ≡ key r) (k k' : K) (rs : List A)
      → has_row key k' (update_rows key k f rs) ≡ has_row key k' rs
  unfolding has_row update_rows
  has_row-update f same k k' [] = refl
  has_row-update f same k k' (r ∷ rs) = elim (Bool-cases (key r == k)) [
    | inl here ↦ rw (here, same r, has_row-update f same k k' rs) refl
    | inr there ↦ rw (there, has_row-update f same k k' rs) refl
  ]

  pub update-IsKeyed :
      (f : A → A) (same : (r : A) → key (f r) ≡ key r) (k : K) (rs : List A)
      → IsKeyed key rs
      → IsKeyed key (update_rows key k f rs)
  unfolding update_rows
  update-IsKeyed f same k [] h = tt
  update-IsKeyed f same k (r ∷ rs) h = elim (Bool-cases (key r == k)) [
    | inl here ↦
        rw (here, same r, has_row-update f same k (key r) rs) (h.0, update-IsKeyed f same k rs h.1)
    | inr there ↦
        rw (there, has_row-update f same k (key r) rs) (h.0, update-IsKeyed f same k rs h.1)
  ]

  pub update-All :
      (P : A → Type 0) (f : A → A) (k : K) (rs : List A)
      → ((r : A) → P r → P (f r))
      → All P rs
      → All P (update_rows key k f rs)
  unfolding update_rows
  update-All P f k [] g h = tt
  update-All P f k (r ∷ rs) g h = elim (Bool-cases (key r == k)) [
    | inl here ↦ rw here (g r h.0, update-All P f k rs g h.1)
    | inr there ↦ rw there (h.0, update-All P f k rs g h.1)
  ]

  has_row-delete :
      (doomed : A → Bool) (k : K) (rs : List A)
      → has_row key k rs ≡ false
      → has_row key k (delete_rows doomed rs) ≡ false
  unfolding has_row
  has_row-delete doomed k [] h = refl
  has_row-delete doomed k (r ∷ rs) h = elim (Bool-cases (doomed r)) [
    | inl gone ↦ rw gone (has_row-delete doomed k rs (ground (arith, h)))
    | inr stays ↦ rw stays (ground (arith, h, has_row-delete doomed k rs))
  ]

  pub delete-IsKeyed :
      (doomed : A → Bool) (rs : List A) → IsKeyed key rs → IsKeyed key (delete_rows doomed rs)
  delete-IsKeyed doomed [] h = tt
  delete-IsKeyed doomed (r ∷ rs) h = elim (Bool-cases (doomed r)) [
    | inl gone ↦ rw gone (delete-IsKeyed doomed rs h.1)
    | inr stays ↦ rw stays (has_row-delete doomed (key r) rs h.0, delete-IsKeyed doomed rs h.1)
  ]

  -- A deletion by key leaves the other keys.
  pub has_row-delete_other :
      (k k' : K) (rs : List A)
      → k ≢ k'
      → has_row key k' rs ≡ true
      → has_row key k' (delete_rows (λ r. key r == k) rs) ≡ true
  unfolding has_row
  has_row-delete_other k k' [] ne h = h
  has_row-delete_other k k' (r ∷ rs) ne h = elim (Bool-cases (key r == k)) [
    | inl gone ↦
        let eq : key r ≡ k = (e.beq_iff (key r) k).0 gone in
        let off : (key r == k') ≡ false = beq_ne (key r) k' (λ x. ne (sym eq ∙ x)) in
        rw gone (has_row-delete_other k k' rs ne (ground (arith, h, off)))
    | inr stays ↦ rw stays (ground (arith, h, has_row-delete_other k k' rs ne))
  ]

  -- What a lookup finds behind an upsert.
  abbrev pub merged : (A → A → A) → A → Option A → A
  merged merge new none = new
  merged merge new (some old) = merge old new

  pub find-upsert :
      (merge : A → A → A) (same : (r n : A) → key (merge r n) ≡ key r) (new : A) (rs : List A)
      → find_row key (key new) (upsert_row key merge new rs)
        ≡ some (merged merge new (find_row key (key new) rs))
  unfolding find_row upsert_row
  find-upsert merge same new [] = rw (beq_refl (key new)) refl
  find-upsert merge same new (r ∷ rs) = elim (Bool-cases (key r == key new)) [
    | inl here ↦ rw (here, same r new, here) refl
    | inr there ↦ rw (there, there) (find-upsert merge same new rs)
  ]

  pub find-upsert_other :
      (merge : A → A → A) (same : (r n : A) → key (merge r n) ≡ key r) (k : K) (new : A)
      (rs : List A)
      → key new ≢ k
      → find_row key k (upsert_row key merge new rs) ≡ find_row key k rs
  unfolding find_row upsert_row
  find-upsert_other merge same k new [] ne = rw (beq_ne (key new) k ne) refl
  find-upsert_other merge same k new (r ∷ rs) ne = elim (Bool-cases (key r == key new)) [
    | inl here ↦
        let off : (key r == k) ≡ false =
          beq_ne (key r) k (λ x. ne (sym ((e.beq_iff (key r) (key new)).0 here) ∙ x)) in
        rw (here, same r new, off) refl
    | inr there ↦ rw (there, find-upsert_other merge same k new rs ne) refl
  ]

  -- A row that a lookup finds has the key, and every predicate of the rows.
  pub find-All :
      (P : A → Type 0) (k : K) (rs : List A) {r : A}
      → All P rs
      → find_row key k rs ≡ some r
      → P r × (key r ≡ k)
  unfolding find_row
  find-All P k [] h f = absurd (ground arith)
  find-All P k (x ∷ rs) {r = r} h f = elim (Bool-cases (key x == k)) [
    | inl here ↦
        let eq : x ≡ r = ground (arith, rw here at f) in
        (rw (← eq) h.0, ap key (sym eq) ∙ (e.beq_iff (key x) k).0 here)
    | inr there ↦ find-All P k rs h.1 (rw there at f)
  ]

  pub find-has_row :
      (k : K) (rs : List A) {r : A} → find_row key k rs ≡ some r → has_row key k rs ≡ true
  unfolding find_row has_row
  find-has_row k [] f = absurd (ground arith)
  find-has_row k (x ∷ rs) f = elim (Bool-cases (key x == k)) [
    | inl here ↦ rw here refl
    | inr there ↦ rw there (find-has_row k rs (rw there at f))
  ]

  -- What a lookup finds behind an update of its key.
  pub find-update :
      (f : A → A) (same : (r : A) → key (f r) ≡ key r) (k : K) (rs : List A) {r : A}
      → find_row key k rs ≡ some r
      → find_row key k (update_rows key k f rs) ≡ some (f r)
  unfolding find_row update_rows
  find-update f same k [] h = absurd (ground arith)
  find-update f same k (x ∷ rs) {r = r} h = elim (Bool-cases (key x == k)) [
    | inl here ↦
        let eq : x ≡ r = ground (arith, rw here at h) in
        rw (here, same x, here) (ap (λ y. some (f y)) eq)
    | inr there ↦ rw (there, there) (find-update f same k rs (rw there at h))
  ]
