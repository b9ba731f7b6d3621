-- ===== src/Readiness/Bounds.antt =====
-- What a readiness block that has been validated asks of the prober.
use obacht_agent.Base.{
  ℕ, ◌+◌, ◌≤◌, ◌≡◌, refl, true, not, ◌||◌, Option, none, some, List, [], ◌∷◌, is_nil, Bool-cases,
  inl, inr, arith,
}
use obacht_agent.Base.Int.{ℤ, pos, pos_part, neg_part, ltbℤ}
use obacht_agent.Base.Result.{ok, guard, guard-eq-ok, >>=-eq-ok}
use obacht_agent.Base.Text.{text, has_prefix}
use obacht_agent.Readiness.Config.{
  Config, no_slash, status_range, check_path, check_statuses, check_timeout, validate_config,
  path_of, timeout_of, is_listed, accepts_status,
}

-- z lies between two natural numbers.
abbrev pub IsWithin : ℕ → ℕ → ℤ → Type 0
IsWithin low high z = (low + neg_part z ≤ pos_part z) × (pos_part z ≤ high + neg_part z)

-- What the prober works with.
pub record IsProbable (o : Option Config) : Type 0 where
  pub rooted : has_prefix (path_of o) (text "/") ≡ true
  pub patient : IsWithin 10 1800 (timeout_of o)

timeout-IsWithin :
    (c : Config) → check_timeout c.timeout_seconds ≡ ok tt → IsWithin 10 1800 (timeout_of (some c))
unfolding check_timeout timeout_of
timeout-IsWithin c h = (ground arith, ground arith)

path-rooted :
    (c : Config) → check_path c.path ≡ ok tt → has_prefix (path_of (some c)) (text "/") ≡ true
unfolding check_path path_of has_prefix
path-rooted c h = elim (Bool-cases (is_nil c.path)) [
  | inl blank ↦ rw blank refl
  | inr given ↦
      let checks = rw given at h in
      let (_, first, rest) = >>=-eq-ok (guard (has_prefix c.path (text "/")) no_slash) _ checks in
      rw given (guard-eq-ok (has_prefix c.path (text "/")) no_slash first)
]

listed-IsWithin :
    (ss : List ℤ) (z : ℤ) → check_statuses ss ≡ ok tt → is_listed z ss ≡ true → IsWithin 100 599 z
unfolding check_statuses
listed-IsWithin [] z h l = absurd (ground arith)
listed-IsWithin (s ∷ ss) z h l =
    let in_range = not (ltbℤ s (pos 100) || ltbℤ (pos 599) s) in
    let (_, first, rest) = >>=-eq-ok (guard in_range (status_range s)) _ h in
    let range = guard-eq-ok in_range (status_range s) first in
    elim (Bool-cases (is_listed z ss)) [
      | inl later ↦ listed-IsWithin ss z rest later
      | inr here ↦ (ground (arith, range, l, here), ground (arith, range, l, here))
    ]

accepts-IsWithin :
    (c : Config) (z : ℤ)
    → check_statuses c.expect_status ≡ ok tt
    → accepts_status (some c) z ≡ true
    → IsWithin 100 599 z
unfolding accepts_status
accepts-IsWithin c z h a = elim (Bool-cases (is_nil c.expect_status)) [
  | inl blank ↦ let d = rw blank at a in (ground (arith, d), ground (arith, d))
  | inr given ↦ listed-IsWithin c.expect_status z h (rw given at a)
]

missing-IsProbable : IsProbable none
unfolding has_prefix path_of timeout_of
missing-IsProbable = record { rooted = refl; patient = (omega arith, omega arith) }

-- A validated block, or a missing one, gives the prober a path that begins with a slash and a time of
-- ten seconds to thirty minutes.
pub validate-IsProbable : (o : Option Config) → validate_config o ≡ ok tt → IsProbable o
unfolding validate_config
validate-IsProbable none h = missing-IsProbable
validate-IsProbable (some c) h =
    let (_, path, h₁) = >>=-eq-ok (check_path c.path) _ h in
    let (_, statuses, time) = >>=-eq-ok (check_statuses c.expect_status) _ h₁ in
    record { rooted = path-rooted c path; patient = timeout-IsWithin c time }

-- With a validated block, or a missing one, the prober takes no other statuses as an answer than those
-- from 100 to 599.
pub validate-accepts :
    (o : Option Config) (z : ℤ)
    → validate_config o ≡ ok tt
    → accepts_status o z ≡ true
    → IsWithin 100 599 z
unfolding validate_config accepts_status
validate-accepts none z h a = (ground arith, ground arith)
validate-accepts (some c) z h a =
    let (_, path, h₁) = >>=-eq-ok (check_path c.path) _ h in
    let (_, statuses, time) = >>=-eq-ok (check_statuses c.expect_status) _ h₁ in
    accepts-IsWithin c z statuses a
