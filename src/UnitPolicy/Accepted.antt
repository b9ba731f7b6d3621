-- ===== src/UnitPolicy/Accepted.antt =====
-- What an accepting scan says of the directives of the unit.
use obacht_agent.Base.{
  ℕ, ◌+◌, ◌≤◌, false, Option, none, some, List, [], ◌∷◌, ◌&&◌, ◌≡◌, refl, arith, All, length, ◌==◌,
  nat_eq, list_eq, if◌then◌else◌, list_beq_iff,
}
use obacht_agent.Base.Result.{Result, ok, err, >>=-eq-ok}
use obacht_agent.Base.Text.{Text, text}
use obacht_agent.UnitPolicy.Rules.{
  Section, service, section_eq, section_beq_iff, Cause, repeatable, validate_kv,
}
use obacht_agent.UnitPolicy.Scan.{State, bump, check_entry, check_line, scan, number}
use obacht_agent.UnitPolicy.Directives.{
  Directive, Line, blank, other, header, entry, read_line, next_section, add, directives_from,
  values,
}

abbrev pub enter : Option Section → Text → Text → State → State
enter none key val s = s
enter (some sec) key val s = record s {
  seen = bump sec key s.seen;
  exec_start = if sec == service && key == text "ExecStart" then val else s.exec_start;
}

abbrev pub after : Line → Option Section → State → State
after (header sec) cur s = record s { section = some sec }
after (entry key val) cur s = enter cur key val s
after _ cur s = s

-- What the scan has checked of a line.
abbrev pub IsChecked : Line → Option Section → State → Type 0
IsChecked (entry key val) (some sec) s =
    (validate_kv sec key val ≡ ok tt) × (repeatable key ≡ false → s.seen sec key ≡ 0)
IsChecked (entry key val) none s = ⊥
IsChecked other cur s = ⊥
IsChecked _ cur s = Unit

check_line_lem :
    (s t : State) (raw : Text)
    → check_line s raw ≡ ok t
    → (t ≡ after (read_line raw) s.section s) × IsChecked (read_line raw) s.section s
unfolding check_line check_entry read_line
check_line_lem s t raw h = (ground arith, ground arith)

-- The scan goes from `s` to `t` over lines whose directives are `ds`.
pub record Scanned (s t : State) (ds : List Directive) : Type 0 where
  pub counted :
      (sec : Section) (key : Text) → t.seen sec key ≡ s.seen sec key + length (values sec key ds)
  pub permitted : All (λ d. validate_kv d.section d.key d.value ≡ ok tt) ds
  pub single :
      (sec : Section) (key : Text)
      → repeatable key ≡ false
      → s.seen sec key ≤ 1
      → t.seen sec key ≤ 1

Scanned-add :
    (l : Line) (cur : Option Section) (s t : State) (ds : List Directive)
    → IsChecked l cur s
    → Scanned (after l cur s) t ds
    → Scanned s t (add l cur ds)
unfolding values
Scanned-add blank cur s t ds c o = o
Scanned-add other cur s t ds c o = elim c [ ]
Scanned-add (header sec) cur s t ds c o = record {
  counted = o.counted;
  permitted = o.permitted;
  single = o.single;
}
Scanned-add (entry key val) none s t ds c o = elim c [ ]
Scanned-add (entry key val) (some sec) s t ds c o = record {
  counted = λ sec' key'. ground (arith, o.counted sec' key');
  permitted = (c.0, o.permitted);
  single = λ sec' key' once few.
      ground (arith, o.single sec' key' once, c.1, list_beq_iff key key', section_beq_iff sec sec');
}

section-after : (l : Line) (s : State) → (after l s.section s).section ≡ next_section l s.section
section-after (header sec) s = refl
section-after (entry key val) s = section-enter s.section s key val
  where
    section-enter :
        (cur : Option Section) (s : State) (key val : Text)
        → (enter cur key val s).section ≡ s.section
    section-enter none s key val = refl
    section-enter (some sec) s key val = refl
section-after blank s = refl
section-after other s = refl

number-eq-ok {ℓ} :
    {A : Type ℓ} (ln : ℕ) (r : Result Cause A) {a : A} → number ln r ≡ ok a → r ≡ ok a
number-eq-ok ln (ok a) h = cc
number-eq-ok ln (err e) h = cc

Scanned-refl : (s : State) → Scanned s s []
unfolding values
Scanned-refl s = record {
  counted = λ sec key. omega arith;
  permitted = tt;
  single = λ sec key once few. few;
}

pub Scanned-scan :
    (ln : ℕ) (s t : State) (raws : List Text)
    → scan ln s raws ≡ ok t
    → Scanned s t (directives_from s.section raws)
unfolding scan directives_from
Scanned-scan ln s t [] h = let same : s ≡ t = cc in rw (← same) (Scanned-refl s)
Scanned-scan ln s t (raw ∷ raws) h =
    let (u, numbered, rest) = >>=-eq-ok (number ln (check_line s raw)) _ h in
    let (reached, checked) = check_line_lem s u raw (number-eq-ok ln _ numbered) in
    Scanned-add (read_line raw) s.section s t _ checked (
      rw (← section-after (read_line raw) s) (rw (← reached) (Scanned-scan (ln + 1) u t raws rest)))
