-- ===== src/Disk/Enough.antt =====
-- When an install is refused for lack of space.
use obacht_agent.Base.{
  ℕ, ◌≡◌, ◌<◌, ◌≤◌, Option, some, is_nil, Bool-cases, ltb, Option-cases, ◌⊎◌, inl, inr, arith,
}
use obacht_agent.Base.Result.{ok, err}
use obacht_agent.Base.Text.{Text}
use obacht_agent.Disk.Check.{
  Shortage, by_template, by_agent, Statfs, min_free_bytes, free_bytes, enough, ensure_free_at_least,
}

-- The floor is never 0, whatever the variable holds, and 2 GiB without it.
min_free_bytes-pos : (parse_uint : Text → Option ℕ) (v : Text) → 0 < min_free_bytes parse_uint v
unfolding min_free_bytes
min_free_bytes-pos parse_uint v = elim (Bool-cases (is_nil v)) [
  | inl blank ↦ ground arith
  | inr given ↦ elim (Option-cases (parse_uint v)) [
    | inl bad ↦ ground arith
    | inr (n, good) ↦ ground arith
  ]
]

enough-eq-err :
    (floor min_bytes free : ℕ) (why : Shortage)
    → enough floor min_bytes (some free) ≡ err why
    → ((free < floor) × (min_bytes ≤ floor) × (why ≡ by_agent))
      ⊎ ((free < min_bytes) × (floor < min_bytes) × (why ≡ by_template))
enough-eq-err floor min_bytes free why h = elim (Bool-cases (ltb floor min_bytes)) [
  | inl more ↦ inr (ground arith, ground arith, ground arith)
  | inr less ↦ inl (ground arith, ground arith, ground arith)
]

-- An install is refused only when the file system could be queried and holds less than is needed: less
-- than the floor, which is then at least the template's figure, and the agent is named; or less
-- than the template's figure, which is then above the floor, and the template is named.
pub ensure_free-refuses :
    (parse_uint : Text → Option ℕ) (v : Text) (st : Option Statfs) (min_bytes : ℕ) (why : Shortage)
    → ensure_free_at_least parse_uint v st min_bytes ≡ err why
    → (free : ℕ) × (free_bytes st ≡ some free)
      × (((free < min_free_bytes parse_uint v)
            × (min_bytes ≤ min_free_bytes parse_uint v)
            × (why ≡ by_agent))
          ⊎ ((free < min_bytes) × (min_free_bytes parse_uint v < min_bytes) × (why ≡ by_template)))
unfolding ensure_free_at_least
ensure_free-refuses parse_uint v st min_bytes why h = elim (Option-cases (free_bytes st)) [
  | inl unknown ↦ absurd (ground (arith, rw unknown at h))
  | inr (free, known) ↦
      (free, known, enough-eq-err (min_free_bytes parse_uint v) min_bytes free why (rw known at h))
]

-- When an install goes ahead on a file system that could be queried, the free space reaches both the
-- floor, which is above 0, and the template's figure.
pub ensure_free-allows :
    (parse_uint : Text → Option ℕ) (v : Text) (st : Statfs) (min_bytes free : ℕ)
    → ensure_free_at_least parse_uint v (some st) min_bytes ≡ ok tt
    → free_bytes (some st) ≡ some free
    → (min_free_bytes parse_uint v ≤ free) × (min_bytes ≤ free) × (0 < free)
unfolding ensure_free_at_least
ensure_free-allows parse_uint v st min_bytes free h known =
    let allowed : enough (min_free_bytes parse_uint v) min_bytes (some free) ≡ ok tt =
      rw known at h in
    let floor : min_free_bytes parse_uint v ≤ free = ground arith in
    (floor, ground arith, omega (arith, floor, min_free_bytes-pos parse_uint v))
