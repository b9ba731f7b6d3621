-- ===== src/SignedMut/Safe.antt =====
-- A value tree that has a canonical form holds numbers of a safe range only.
use obacht_agent.Base.{
  All, Memᴰ, beq_ne, Option-cases, ◌≤◌, Bool, true, false, ◌≡◌, ◌≢◌, refl, Option, none, some, List,
  [], ◌∷◌, ◌==◌, nat_eq, list_eq, arith, inl, inr, sym, ap, ◌∙◌, list_beq_iff, if◌then◌else◌,
  Bool-cases,
}
use obacht_agent.Base.Int.{ℤ, pos_part, neg_part}
use obacht_agent.Base.Result.{Result, ok, >>=-eq-ok}
use obacht_agent.Base.Text.{Text}
use obacht_agent.SignedMut.Json.{
  Json, null, bool, int, other_number, str, arr, obj, Members, end, member,
}
use obacht_agent.SignedMut.Jcs.{
  JcsError, Entry, key_lt, max_safe_integer, canonicalize, canonical_members, insert_entry,
  write_entries, write_int,
}

abbrev pub IsSafeInt : ℤ → Type 0
IsSafeInt n = (pos_part n ≤ max_safe_integer) × (neg_part n ≤ max_safe_integer)

write_int-IsSafeInt : (n : ℤ) (s : Text) → write_int n ≡ ok s → IsSafeInt n
unfolding write_int
write_int-IsSafeInt n s h = (ground arith, ground arith)

-- A value that is a number is a safe one.
abbrev pub IsSafe : Json → Type 0
IsSafe (int n) = IsSafeInt n
IsSafe _ = Unit

canonicalize-IsSafe : (j : Json) (s : Text) → canonicalize j ≡ ok s → IsSafe j
unfolding canonicalize
canonicalize-IsSafe (int n) s h = write_int-IsSafeInt n s h
canonicalize-IsSafe null s h = tt
canonicalize-IsSafe (bool b) s h = tt
canonicalize-IsSafe (other_number t) s h = tt
canonicalize-IsSafe (str t) s h = tt
canonicalize-IsSafe (arr xs) s h = tt
canonicalize-IsSafe (obj ms) s h = tt

-- The value that an object has for a key is that of the last member with the key.
abbrev or_else : Option Json → Option Json → Option Json
or_else (some v) o = some v
or_else none o = o

unfoldable pub last_value : Text → Members → Option Json
last_value k end = none
last_value k (member j v ms) = or_else (last_value k ms) (if k == j then some v else none)

module _ (k : Text) where
  abbrev Absent : List Entry → Type 0
  Absent es = All (λ e. e.0 ≢ k) es

  Absent-insert :
      (j : Text) (r : Result JcsError Text) (es : List Entry)
      → (j ≢ k)
      → Absent es
      → Absent (insert_entry j r es)
  unfolding insert_entry
  Absent-insert j r [] h a = (h, tt)
  Absent-insert j r ((i, q) ∷ es) h a = elim (Bool-cases (j == i)) [
    | inl here ↦ rw here a
    | inr there ↦ rw there (elim (Bool-cases (key_lt j i)) [
      | inl before ↦ rw before (h, a)
      | inr behind ↦ rw behind (a.0, Absent-insert j r es h a.1)
    ])
  ]

  mem-insert_absent :
      (r : Result JcsError Text) (es : List Entry) → Absent es → Memᴰ (k, r) (insert_entry k r es)
  unfolding insert_entry
  mem-insert_absent r [] a = Memᴰ.head refl
  mem-insert_absent r ((i, q) ∷ es) a =
      rw (beq_ne k i (λ e. a.0 (sym e))) (elim (Bool-cases (key_lt k i)) [
        | inl before ↦ rw before (Memᴰ.head refl)
        | inr behind ↦ rw behind (Memᴰ.tail (mem-insert_absent r es a.1))
      ])

  Absent-members : (ms : Members) → last_value k ms ≡ none → Absent (canonical_members ms)
  unfolding canonicalize last_value
  Absent-members end h = tt
  Absent-members (member j v ms) h =
      Absent-insert j (canonicalize v) (canonical_members ms)
        (λ e. ground (arith, list_beq_iff k j)) (Absent-members ms (ground arith))

mem-if {ℓ} :
    {A : Type ℓ} {e : A} (a b : Bool) {x y z : List A}
    → Memᴰ e x
    → Memᴰ e y
    → Memᴰ e z
    → Memᴰ e (if a then x else if b then y else z)
mem-if true b mx my mz = mx
mem-if false true mx my mz = my
mem-if false false mx my mz = mz

mem-insert :
    (e : Entry) (j : Text) (r : Result JcsError Text) {es : List Entry}
    → Memᴰ e es
    → Memᴰ e (insert_entry j r es)
unfolding insert_entry
mem-insert e j r (Memᴰ.head {x = (i, q)} {xs = es} h) =
    mem-if (j == i) (key_lt j i) (Memᴰ.head h) (Memᴰ.tail (Memᴰ.head h)) (Memᴰ.head h)
mem-insert e j r (Memᴰ.tail {x = (i, q)} {xs = es} m) =
    mem-if (j == i) (key_lt j i) (Memᴰ.tail m) (Memᴰ.tail (Memᴰ.tail m))
      (Memᴰ.tail (mem-insert e j r m))

mem-members :
    (k : Text) (v : Json) (ms : Members)
    → last_value k ms ≡ some v
    → Memᴰ (k, canonicalize v) (canonical_members ms)
unfolding canonicalize last_value
mem-members k v end h = cc
mem-members k v (member j w ms) h = elim (Option-cases (last_value k ms)) [
  | inl last ↦
      let here : k ≡ j = (list_beq_iff k j).0 (ground arith) in
      let same : w ≡ v = ground arith in
      rw (← here, same)
        (mem-insert_absent k (canonicalize v) (canonical_members ms) (Absent-members k ms last))
  | inr (u, later) ↦ mem-insert _ j (canonicalize w) (mem-members k v ms (ground arith))
]

written-entry :
    {k : Text} {r : Result JcsError Text} {es : List Entry}
    → Memᴰ (k, r) es
    → (out : List Text) → write_entries es ≡ ok out
    → (s : Text) × (r ≡ ok s)
unfolding write_entries
written-entry (Memᴰ.head {x = (i, q)} {xs = es} m) out h =
    let (s, e, rest) = >>=-eq-ok q _ h in (s, ap (λ (p : Entry). p.1) m ∙ e)
written-entry (Memᴰ.tail {x = (i, q)} {xs = es} m) out h =
    let (s, e, rest) = >>=-eq-ok q _ h in
    let (later, e', done) = >>=-eq-ok (write_entries es) _ rest in written-entry m later e'

-- In an object that has a canonical form the value of each key is safe.
pub last_value-IsSafe :
    (k : Text) (v : Json) (ms : Members) (canon : Text)
    → canonicalize (obj ms) ≡ ok canon
    → last_value k ms ≡ some v
    → IsSafe v
unfolding canonicalize
last_value-IsSafe k v ms canon h e =
    let (out, written, done) = >>=-eq-ok (write_entries (canonical_members ms)) _ h in
    let (s, safe) = written-entry (mem-members k v ms e) out written in canonicalize-IsSafe v s safe
