-- ===== src/Base/Regex.antt =====
-- The part of Go's package `regexp` that the agent uses: whole-text matches (`^…$`) of expressions
-- built from classes of code points. The matcher is by derivatives.
use obacht_agent.Base.{
  ℕ, zero, suc, ◌≡◌, refl, ◌↔◌, sym, ap, Bool, true, false, ◌&&◌, ◌||◌, ◌⊎◌, inl, inr, [], ◌∷◌,
  ◌++◌, ◌∙◌, arith, All, all, nat_beq_iff, All-append, Bool-cases, ◌==◌, nat_eq, if◌then◌else◌,
}
use obacht_agent.Base.Text.{Text}

pub data Regex : Type 0 where
  empty eps : Regex
  cls : (ℕ → Bool) → Regex
  seq alt : Regex → Regex → Regex
  star : Regex → Regex

-- `r+`
abbrev pub plus : Regex → Regex
plus r = seq r (star r)

-- `r{0,n}`
abbrev pub upto : ℕ → Regex → Regex
upto zero r = eps
upto (suc n) r = alt eps (seq r (upto n r))

-- A literal text.
abbrev pub lit : Text → Regex
lit [] = eps
lit (c ∷ []) = cls (λ d. c == d)
lit (c ∷ s) = seq (cls (λ d. c == d)) (lit s)

abbrev pub nullable : Regex → Bool
nullable empty = false
nullable eps = true
nullable (cls p) = false
nullable (seq r q) = nullable r && nullable q
nullable (alt r q) = nullable r || nullable q
nullable (star r) = true

-- Concatenation and choice that drop an expression with no match.
abbrev seq_of : Regex → Regex → Regex
seq_of empty q = empty
seq_of r q = seq r q

abbrev alt_of : Regex → Regex → Regex
alt_of empty q = q
alt_of r q = alt r q

-- What may follow `c` in a match.
abbrev deriv : ℕ → Regex → Regex
deriv c empty = empty
deriv c eps = empty
deriv c (cls p) = if p c then eps else empty
deriv c (seq r q) =
    let first = seq_of (deriv c r) q in
    let second = deriv c q in if nullable r then alt_of first second else first
deriv c (alt r q) = alt_of (deriv c r) (deriv c q)
deriv c (star r) = seq_of (deriv c r) (star r)

-- `regexp.MustCompile("^r$").MatchString(s)`
unfoldable pub accepts : Regex → Text → Bool
accepts r [] = nullable r
accepts r (c ∷ s) = accepts (deriv c r) s

-- What it is for a text to match.
pub data Matches : Regex → Text → Type 0 where
  done : Matches eps []
  one : {p : ℕ → Bool} {c : ℕ} → p c ≡ true → Matches (cls p) (c ∷ [])
  join :
      {r q : Regex} {u : Text} (s t : Text)
      → Matches r s
      → Matches q t
      → u ≡ s ++ t
      → Matches (seq r q) u
  left : {r q : Regex} {s : Text} → Matches r s → Matches (alt r q) s
  right : {r q : Regex} {s : Text} → Matches q s → Matches (alt r q) s
  stop : {r : Regex} → Matches (star r) []
  again :
      {r : Regex} {u : Text} (s t : Text)
      → Matches r s
      → Matches (star r) t
      → u ≡ s ++ t
      → Matches (star r) u

Matches-nil : (r : Regex) → nullable r ≡ true → Matches r []
Matches-nil empty h = cc
Matches-nil eps h = done
Matches-nil (cls p) h = cc
Matches-nil (seq r q) h =
    join [] [] (Matches-nil r (ground arith)) (Matches-nil q (ground arith)) refl
Matches-nil (alt r q) h = elim (Bool-cases (nullable r)) [
  | inl e ↦ left (Matches-nil r e)
  | inr e ↦ right (Matches-nil q (ground arith))
]
Matches-nil (star r) h = stop

nil-append : (s t : Text) → s ++ t ≡ [] → (s ≡ []) × (t ≡ [])
nil-append [] t h = (refl, h)
nil-append (c ∷ s) t h = cc

nullable-Matches : {r : Regex} {u : Text} → Matches r u → u ≡ [] → nullable r ≡ true
nullable-Matches done e = refl
nullable-Matches (one p) e = cc
nullable-Matches (join s t m n f) e =
    let (a, b) = nil-append s t (cc) in ground (arith, nullable-Matches m a, nullable-Matches n b)
nullable-Matches (left m) e = ground (arith, nullable-Matches m e)
nullable-Matches (right m) e = ground (arith, nullable-Matches m e)
nullable-Matches stop e = refl
nullable-Matches (again s t m n f) e = refl

Matches-seq_of : (r q : Regex) {s : Text} → Matches (seq_of r q) s → Matches (seq r q) s
Matches-seq_of empty q h = elim h [ ]
Matches-seq_of eps q h = h
Matches-seq_of (cls p) q h = h
Matches-seq_of (seq _ _) q h = h
Matches-seq_of (alt _ _) q h = h
Matches-seq_of (star _) q h = h

seq_of-Matches :
    (r q : Regex) {u : Text} (s t : Text)
    → Matches r s
    → Matches q t
    → u ≡ s ++ t
    → Matches (seq_of r q) u
seq_of-Matches empty q s t m n e = elim m [ ]
seq_of-Matches eps q s t m n e = join s t m n e
seq_of-Matches (cls p) q s t m n e = join s t m n e
seq_of-Matches (seq _ _) q s t m n e = join s t m n e
seq_of-Matches (alt _ _) q s t m n e = join s t m n e
seq_of-Matches (star _) q s t m n e = join s t m n e

Matches-alt_of : (r q : Regex) {s : Text} → Matches (alt_of r q) s → Matches r s ⊎ Matches q s
Matches-alt_of empty q h = inr h
Matches-alt_of eps q (left h) = inl h
Matches-alt_of eps q (right h) = inr h
Matches-alt_of (cls p) q (left h) = inl h
Matches-alt_of (cls p) q (right h) = inr h
Matches-alt_of (seq _ _) q (left h) = inl h
Matches-alt_of (seq _ _) q (right h) = inr h
Matches-alt_of (alt _ _) q (left h) = inl h
Matches-alt_of (alt _ _) q (right h) = inr h
Matches-alt_of (star _) q (left h) = inl h
Matches-alt_of (star _) q (right h) = inr h

alt_of-Matches : (r q : Regex) {s : Text} → Matches r s ⊎ Matches q s → Matches (alt_of r q) s
alt_of-Matches empty q (inl h) = elim h [ ]
alt_of-Matches empty q (inr h) = h
alt_of-Matches eps q (inl h) = left h
alt_of-Matches eps q (inr h) = right h
alt_of-Matches (cls p) q (inl h) = left h
alt_of-Matches (cls p) q (inr h) = right h
alt_of-Matches (seq _ _) q (inl h) = left h
alt_of-Matches (seq _ _) q (inr h) = right h
alt_of-Matches (alt _ _) q (inl h) = left h
alt_of-Matches (alt _ _) q (inr h) = right h
alt_of-Matches (star _) q (inl h) = left h
alt_of-Matches (star _) q (inr h) = right h

Matches-seq :
    {r q : Regex} {u : Text}
    → Matches (seq r q) u
    → (s : Text) × (t : Text) × Matches r s × Matches q t × (u ≡ s ++ t)
Matches-seq (join s t m n e) = (s, t, m, n, e)

Matches-cls :
    (p : ℕ → Bool) (c : ℕ) (b : Bool) {s : Text}
    → p c ≡ b
    → Matches (if b then eps else empty) s
    → Matches (cls p) (c ∷ s)
Matches-cls p c true e done = one e
Matches-cls p c false e h = elim h [ ]

Matches-if :
    (b : Bool) (first second : Regex) {s : Text}
    → Matches (if b then alt_of first second else first) s
    → Matches first s ⊎ ((b ≡ true) × Matches second s)
Matches-if true first second h = elim (Matches-alt_of first second h) [
  | inl m ↦ inl m
  | inr m ↦ inr (refl, m)
]
Matches-if false first second h = inl h

if-Matches :
    (b : Bool) (first second : Regex) {s : Text}
    → Matches first s ⊎ ((b ≡ true) × Matches second s)
    → Matches (if b then alt_of first second else first) s
if-Matches true first second (inl m) = alt_of-Matches first second (inl m)
if-Matches true first second (inr m) = alt_of-Matches first second (inr m.1)
if-Matches false first second (inl m) = m
if-Matches false first second (inr m) = cc (m.0)

Matches-deriv : (r : Regex) (c : ℕ) {s : Text} → Matches (deriv c r) s → Matches r (c ∷ s)
Matches-deriv empty c h = elim h [ ]
Matches-deriv eps c h = elim h [ ]
Matches-deriv (cls p) c h = Matches-cls p c (p c) refl h
Matches-deriv (seq r q) c {s} h =
    elim (Matches-if (nullable r) (seq_of (deriv c r) q) (deriv c q) h) [
      | inl m ↦
          let (u, v, first, second, e) = Matches-seq (Matches-seq_of (deriv c r) q m) in
          join (c ∷ u) v (Matches-deriv r c first) second (ap (λ x. c ∷ x) e)
      | inr m ↦ join [] (c ∷ s) (Matches-nil r m.0) (Matches-deriv q c m.1) refl
    ]
Matches-deriv (alt r q) c h = elim (Matches-alt_of (deriv c r) (deriv c q) h) [
  | inl m ↦ left (Matches-deriv r c m)
  | inr m ↦ right (Matches-deriv q c m)
]
Matches-deriv (star r) c h =
    let (s, t, m, n, e) = Matches-seq (Matches-seq_of (deriv c r) (star r) h) in
    again (c ∷ s) t (Matches-deriv r c m) n (ap (λ x. c ∷ x) e)

-- Where a text that begins with `c` is cut in two, `c` begins the first part or the second.
cons-append :
    (c : ℕ) (v s t : Text)
    → (c ∷ v) ≡ s ++ t
    → ((s ≡ []) × (t ≡ c ∷ v)) ⊎ ((s' : Text) × (s ≡ c ∷ s') × (v ≡ s' ++ t))
cons-append c v [] t e = inl (refl, sym e)
cons-append c v (d ∷ s) t e = inr (s, cc, cc)

deriv-Matches :
    {r : Regex} {u : Text} (c : ℕ) (v : Text) → Matches r u → u ≡ c ∷ v → Matches (deriv c r) v
deriv-Matches c v done e = cc
deriv-Matches c v (one {p = p} {c = d} h) e =
    let here : p c ≡ true = cc in let none_left : v ≡ [] = cc in rw (here, none_left) done
deriv-Matches c v (join {r = r} {q = q} s t m n f) e =
    if-Matches (nullable r) (seq_of (deriv c r) q) (deriv c q) (elim (cons-append c v s t (cc)) [
      | inl cut ↦ inr (nullable-Matches m cut.0, deriv-Matches c v n cut.1)
      | inr cut ↦ inl (seq_of-Matches (deriv c r) q cut.0 t (deriv-Matches c cut.0 m cut.1) n cut.2)
    ])
deriv-Matches c v (left {r = r} {q = q} m) e =
    alt_of-Matches (deriv c r) (deriv c q) (inl (deriv-Matches c v m e))
deriv-Matches c v (right {r = r} {q = q} m) e =
    alt_of-Matches (deriv c r) (deriv c q) (inr (deriv-Matches c v m e))
deriv-Matches c v stop e = cc
deriv-Matches c v (again {r = r} s t m n f) e = elim (cons-append c v s t (cc)) [
  | inl cut ↦ deriv-Matches c v n cut.1
  | inr cut ↦ seq_of-Matches (deriv c r) (star r) cut.0 t (deriv-Matches c cut.0 m cut.1) n cut.2
]

-- The matcher accepts exactly the texts that match.
pub accepts_iff : (r : Regex) (s : Text) → (accepts r s ≡ true) ↔ Matches r s
unfolding accepts
accepts_iff r [] = (Matches-nil r, λ m. nullable-Matches m refl)
accepts_iff r (c ∷ s) = (
  λ h. Matches-deriv r c ((accepts_iff (deriv c r) s).0 h),
  λ m. (accepts_iff (deriv c r) s).1 (deriv-Matches c s m refl),
)

-- Every class of the expression lies within `p`.
abbrev pub Within : (ℕ → Bool) → Regex → Type 0
Within p empty = Unit
Within p eps = Unit
Within p (cls q) = (c : ℕ) → q c ≡ true → p c ≡ true
Within p (seq r q) = Within p r × Within p q
Within p (alt r q) = Within p r × Within p q
Within p (star r) = Within p r

pub All-Matches :
    (p : ℕ → Bool) {r : Regex} {s : Text} → Within p r → Matches r s → All (λ c. p c ≡ true) s
All-Matches p w done = tt
All-Matches p w (one {c = c} h) = (w c h, tt)
All-Matches p w (join s t m n e) =
    rw e (All-append (λ c. p c ≡ true) s t (All-Matches p w.0 m) (All-Matches p w.1 n))
All-Matches p w (left m) = All-Matches p w.0 m
All-Matches p w (right m) = All-Matches p w.1 m
All-Matches p w stop = tt
All-Matches p w (again s t m n e) =
    rw e (All-append (λ c. p c ≡ true) s t (All-Matches p w m) (All-Matches p w n))

pub Within-upto : (p : ℕ → Bool) (n : ℕ) (r : Regex) → Within p r → Within p (upto n r)
Within-upto p zero r w = tt
Within-upto p (suc n) r w = (tt, (w, Within-upto p n r w))

pub Within-lit : (p : ℕ → Bool) (s : Text) → all p s ≡ true → Within p (lit s)
Within-lit p [] h = tt
Within-lit p (c ∷ []) h = λ d e. ground (arith, nat_beq_iff c d)
Within-lit p (c ∷ d ∷ s) h =
    ((λ d e. ground (arith, nat_beq_iff c d)), Within-lit p (d ∷ s) (ground arith))

one-eq : {c : ℕ} {t : Text} → Matches (cls (λ d. c == d)) t → t ≡ c ∷ []
one-eq {c = c} (one {c = d} h) = ap (λ x. x ∷ []) (sym ((nat_beq_iff c d).0 h))

-- A literal matches only itself.
pub Matches-lit : (s : Text) {t : Text} → Matches (lit s) t → t ≡ s
Matches-lit [] done = refl
Matches-lit (c ∷ []) m = one-eq m
Matches-lit (c ∷ d ∷ s) (join x y m n e) =
    e ∙ ap (λ z. z ++ y) (one-eq m) ∙ ap (λ z. c ∷ z) (Matches-lit (d ∷ s) n)
