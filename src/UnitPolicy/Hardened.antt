-- ===== src/UnitPolicy/Hardened.antt =====
-- What an accepted unit grants: the hardening block, its command, and nothing beyond the allowlists.
use mathlib.Core.Path.{subst₂}
use obacht_agent.Base.{
  inl, inr, subst, sym, ◌<◌, true, false, some, List, [], ◌∷◌, ◌&&◌, ◌++◌, ◌≡◌, ◌≢◌, refl, arith,
  All, length, ◌==◌, nat_eq, list_eq, Bool-cases, beq_refl, list_beq_iff, list_beq,
}
use obacht_agent.Base.Result.{ok, Result-cases}
use obacht_agent.Base.Text.{Text, text, fields, has_prefix, contains}
use obacht_agent.Base.Regex.{accepts, accepts_iff, All-Matches}
use obacht_agent.UnitPolicy.Rules.{
  Section, unit, service, install, section_eq, section_beq_iff, repeatable, validate_kv,
  validate_name, required_exact, lookup, exact_or, bin_root, exec_char, exec_token_re, check_exec,
  check_tokens, validate_exec_start, validate_service, validate_unit,
}
use obacht_agent.UnitPolicy.Scan.{
  State, start, scan, validate, check_presence, check_required, lines,
}
use obacht_agent.UnitPolicy.Directives.{Directive, directives, values}
use obacht_agent.UnitPolicy.Accepted.{Scanned, Scanned-scan}

-- What `validate` has established when it accepts.
pub record Passed (name content : Text) : Type 0 where
  pub named : validate_name name ≡ true
  pub state : State
  pub scanned : Scanned start state (directives content)
  pub present : check_presence state ≡ ok tt

pub Passed-validate : (name content : Text) → validate name content ≡ ok tt → Passed name content
unfolding validate directives
Passed-validate name content h = elim (Result-cases (scan 1 start (lines content))) [
  | inl (t, e) ↦ record {
    named = ground arith;
    state = t;
    scanned = Scanned-scan 1 start t (lines content) e;
    present = ground arith;
  }
  | inr (v, e) ↦ absurd (ground arith)
]

lookup-seen :
    (m : List (Text × Text)) (s : State) (key want : Text)
    → check_required m s ≡ ok tt
    → lookup key m ≡ some want
    → 0 < s.seen service key
unfolding check_required lookup
lookup-seen [] s key want h e = cc
lookup-seen ((j, w) ∷ m) s key want h e =
    ground (arith, list_beq_iff key j, lookup-seen m s key want)

lookup-All {ℓ} :
    (P : Text → Type ℓ) (m : List (Text × Text)) (key want : Text)
    → All (λ e. P e.0) m
    → lookup key m ≡ some want
    → P key
unfolding lookup
lookup-All P [] key want h e = cc
lookup-All P ((j, w) ∷ m) key want h e = elim (Bool-cases (key == j)) [
  | inl here ↦ subst P (sym ((list_beq_iff key j).0 here)) h.0
  | inr later ↦ lookup-All P m key want h.1 (rw later at e)
]

required-repeatable :
    (key want : Text) → lookup key required_exact ≡ some want → repeatable key ≡ false
unfolding list_beq
required-repeatable key want =
    lookup-All (λ k. repeatable k ≡ false) required_exact key want
      (refl, (refl, (refl, (refl, (refl, (refl, (refl, tt)))))))

pub values-All :
    (P : Directive → Type 0) (sec : Section) (key : Text) (ds : List Directive)
    → All P ds
    → All (λ v. P (record { section = sec; key = key; value = v })) (values sec key ds)
unfolding values
values-All P sec key [] h = tt
values-All P sec key (d ∷ ds) h = elim (Bool-cases (d.section == sec && d.key == key)) [
  | inl here ↦
      let named : d.section ≡ sec = (section_beq_iff d.section sec).0 (ground arith) in
      let keyed : d.key ≡ key = (list_beq_iff d.key key).0 (ground arith) in
      rw here (
        subst₂ (λ s k. P (record { section = s; key = k; value = d.value })) named keyed h.0,
        values-All P sec key ds h.1,
      )
  | inr other ↦ rw other (values-All P sec key ds h.1)
]

length-one {ℓ} : {A : Type ℓ} (xs : List A) → length xs ≡ 1 → (x : A) × (xs ≡ x ∷ [])
length-one [] h = absurd (omega arith)
length-one (x ∷ []) h = (x, refl)
length-one (x ∷ y ∷ xs) h = absurd (omega arith)

-- A key that the presence checks ask for, and that may not be repeated, has one value.
one_value :
    {name content : Text} (p : Passed name content) (sec : Section) (key : Text)
    → repeatable key ≡ false
    → 0 < p.state.seen sec key
    → (v : Text) × (values sec key (directives content) ≡ v ∷ []) × (validate_kv sec key v ≡ ok tt)
one_value {content = content} p sec key once found =
    let few = p.scanned.single sec key once (omega arith) in
    let count = p.scanned.counted sec key in
    let (v, alone) = length-one (values sec key (directives content)) (omega arith) in
    let checked =
      values-All (λ d. validate_kv d.section d.key d.value ≡ ok tt) sec key (directives content)
        p.scanned.permitted in
    (v, alone, (rw alone at checked).0)

-- The command of a unit: one binary below the content-addressed root, and plain tokens.
pub record IsSafeCommand (val : Text) : Type 0 where
  pub bin : Text
  pub args : List Text
  pub split : fields val ≡ bin ∷ args
  pub rooted : has_prefix bin (bin_root ++ text "/") ≡ true
  pub plain : All (λ tok. All (λ c. exec_char c ≡ true) tok) (bin ∷ args)
  pub no_traversal : All (λ tok. contains tok (text "..") ≡ false) (bin ∷ args)

tokens-plain :
    (toks : List Text)
    → check_tokens toks ≡ ok tt
    → All (λ tok. All (λ c. exec_char c ≡ true) tok) toks
      × All (λ tok. contains tok (text "..") ≡ false) toks
unfolding check_tokens
tokens-plain [] h = (tt, tt)
tokens-plain (tok ∷ toks) h =
    let matched : accepts exec_token_re tok ≡ true = ground arith in
    let clean : contains tok (text "..") ≡ false = ground arith in
    let (plain, safe) = tokens-plain toks (ground arith) in
    let chars =
      All-Matches exec_char ((λ c e. e), (λ c e. e)) ((accepts_iff exec_token_re tok).0 matched) in
    ((chars, plain), (clean, safe))

check_exec-IsSafe :
    (toks : List Text)
    → check_exec toks ≡ ok tt
    → (bin : Text) × (args : List Text) × (toks ≡ bin ∷ args)
      × (has_prefix bin (bin_root ++ text "/") ≡ true)
      × (check_tokens (bin ∷ args) ≡ ok tt)
unfolding check_exec
check_exec-IsSafe [] h = cc
check_exec-IsSafe (bin ∷ args) h = (bin, args, refl, ground arith, ground arith)

validate_exec_start-IsSafe : (val : Text) → validate_exec_start val ≡ ok tt → IsSafeCommand val
unfolding validate_exec_start
validate_exec_start-IsSafe val h =
    let (bin, args, cut, rooted, tokens) = check_exec-IsSafe (fields val) h in
    let (plain, safe) = tokens-plain (bin ∷ args) tokens in
    record {
      bin = bin;
      args = args;
      split = cut;
      rooted = rooted;
      plain = plain;
      no_traversal = safe;
    }

-- The part of a unit that confines its process.
pub record IsHardened (ds : List Directive) : Type 0 where
  pub exact :
      (key want : Text) → lookup key required_exact ≡ some want → values service key ds ≡ want ∷ []
  pub command : (val : Text) × (values service (text "ExecStart") ds ≡ val ∷ []) × IsSafeCommand val
  pub enabled : values install (text "WantedBy") ds ≡ text "multi-user.target" ∷ []
  pub described : (val : Text) × (values unit (text "Description") ds ≡ val ∷ []) × (val ≢ [])

validate_kv-exact :
    (key want val : Text)
    → lookup key required_exact ≡ some want
    → validate_kv service key val ≡ ok tt
    → val ≡ want
unfolding validate_kv exact_or
validate_kv-exact key want val e h = ground (arith, list_beq_iff val want)

exact_value :
    {name content : Text} (p : Passed name content) (key want : Text)
    → check_required required_exact p.state ≡ ok tt
    → lookup key required_exact ≡ some want
    → values service key (directives content) ≡ want ∷ []
exact_value {content = content} p key want present e =
    let (v, alone, checked) =
      one_value p service key (required-repeatable key want e)
        (lookup-seen required_exact p.state key want present e) in
    rw (← validate_kv-exact key want v e checked) alone

pub validate_kv-command :
    (val : Text) → validate_kv service (text "ExecStart") val ≡ ok tt → IsSafeCommand val
unfolding validate_kv exact_or lookup validate_service list_beq
validate_kv-command val h = validate_exec_start-IsSafe val h

validate_kv-enabled :
    (val : Text)
    → validate_kv install (text "WantedBy") val ≡ ok tt
    → val ≡ text "multi-user.target"
unfolding validate_kv
validate_kv-enabled val h =
    ground (arith, beq_refl (text "WantedBy"), list_beq_iff val (text "multi-user.target"))

validate_kv-described : (val : Text) → validate_kv unit (text "Description") val ≡ ok tt → val ≢ []
unfolding validate_kv validate_unit
validate_kv-described val h = ground (arith, beq_refl (text "Description"))

record Presence (t : State) : Type 0 where
  required : check_required required_exact t ≡ ok tt
  command : 0 < t.seen service (text "ExecStart")
  enabled : 0 < t.seen install (text "WantedBy")
  described : 0 < t.seen unit (text "Description")

Presence-check : (t : State) → check_presence t ≡ ok tt → Presence t
unfolding check_presence
Presence-check t h = record {
  required = ground arith;
  command = ground arith;
  enabled = ground arith;
  described = ground arith;
}

-- A unit that `validate` accepts has each directive of the hardening block exactly once and with its
-- required value, exactly one ExecStart, whose binary lies below the content-addressed root and whose
-- tokens hold only plain characters and no `..`, exactly one WantedBy=multi-user.target, and exactly
-- one Description, which is not empty.
pub validate-IsHardened :
    (name content : Text) → validate name content ≡ ok tt → IsHardened (directives content)
validate-IsHardened name content h =
    let p = Passed-validate name content h in
    let present = Presence-check p.state p.present in
    let (c, alone, safe) =
      one_value p service (text "ExecStart") (unfold list_beq in refl) present.command in
    let (w, alone', target) =
      one_value p install (text "WantedBy") (unfold list_beq in refl) present.enabled in
    let (d, alone'', filled) =
      one_value p unit (text "Description") (unfold list_beq in refl) present.described in
    record {
      exact = λ key want e. exact_value p key want present.required e;
      command = (c, alone, validate_kv-command c safe);
      enabled = rw (← validate_kv-enabled w target) alone';
      described = (d, alone'', validate_kv-described d filled);
    }
