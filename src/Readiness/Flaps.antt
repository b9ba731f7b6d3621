-- ===== src/Readiness/Flaps.antt =====
-- The steady probes against the automaton that they implement.
use obacht_agent.Base.{
  ℕ, suc, Bool, true, false, not, ◌&&◌, ◌||◌, ◌≡◌, ◌≢◌, refl, sym, ap, subst, Option-cases, ◌∙◌,
  Option, none, some, List, [], ◌∷◌, leb, ◌==◌, nat_eq, list_eq, list_beq, Bool-cases, inl, inr,
  arith, list_beq_iff,
}
use obacht_agent.Base.Result.{ok}
use obacht_agent.Base.Text.{Text}
use obacht_agent.Store.Table.{find_row}
use obacht_agent.Store.Rows.{find-update}
use obacht_agent.Store.Instances.{Instance}
use obacht_agent.Store.Locks.{works}
use obacht_agent.Store.Statements.{instance_key, get_instance, set_service_ready}
use obacht_agent.Store.Reads.{row_or_not_found, get-row}
use obacht_agent.Readiness.Prober.{
  ready, unhealthy, unhealthy_after, Prober, Io, recorded, set_from, set_state, count, flap,
  steady_one, state_of, run_steady,
}
use obacht_agent.Readiness.Starting.{put-same, set_state-active}

-- One probe of a tick: whether the context was cancelled meanwhile, and whether it passed.
abbrev pub Probe : Type 0
Probe = Bool × Bool

-- The failures in a row, of which a cancelled probe is none.
abbrev pub next : ℕ → Probe → ℕ
next n (true, _) = n
next n (false, true) = 0
next n (false, false) = suc n

-- Whether the instance is ready: a probe that passes makes it so, the third failure in a row ends it.
abbrev pub next_up : Bool → ℕ → Probe → Bool
next_up up n (true, _) = up
next_up up n (false, true) = true
next_up up n (false, false) = up && not (leb unhealthy_after (suc n))

abbrev pub failures_after : ℕ → List Probe → ℕ
failures_after n [] = n
failures_after n (b ∷ bs) = failures_after (next n b) bs

abbrev pub up_after : Bool → ℕ → List Probe → Bool
up_after up n [] = up
up_after up n (b ∷ bs) = up_after (next_up up n b) (next n b) bs

abbrev pub status : Bool → Text
status true = ready
status false = unhealthy

-- A read and a write that SQLite carries out.
abbrev pub io_at : ℕ → Io
io_at now = record { read = works; write = works; now = now }

-- The ticks of one instance that answer its probes.
abbrev pub ticks : ℕ → Text → List Probe → Prober → Prober
ticks now id [] p = p
ticks now id (b ∷ bs) p =
    ticks now id bs (run_steady works (λ _. io_at now) (λ _. b.0) (λ _. b.1) (id ∷ []) p)

abbrev pub shown : Text → Prober → Text
shown id p = state_of (get_instance works id p.db)

-- No starting run owns the instance, and it is ready or unhealthy, with a number of failures counted.
pub record IsSettled (id : Text) (up : Bool) (n : ℕ) (p : Prober) : Type 0 where
  pub idle : p.active id ≡ none
  pub counted : p.failures id ≡ n
  pub shows : shown id p ≡ status up

shown-row :
    (id : Text) (p : Prober)
    → shown id p ≡ state_of (row_or_not_found (find_row instance_key id p.db.instances))
shown-row id p = ap state_of (get-row id p.db)

recorded-shown :
    (now : ℕ) (id s : Text) (at : Option ℕ) (p : Prober) (inst : Instance)
    → find_row instance_key id p.db.instances ≡ some inst
    → shown id (recorded (set_service_ready works id s at p.db) p) ≡ s
unfolding set_service_ready
recorded-shown now id s at p inst found =
    shown-row id (recorded (set_service_ready works id s at p.db) p)
    ∙ ap (λ r. state_of (row_or_not_found r))
        (find-update instance_key (λ i. record i { service_ready = s; ready_at = at }) (λ r. refl)
          id p.db.instances found)

recorded-failures :
    (id s : Text) (at : Option ℕ) (p : Prober)
    → (recorded (set_service_ready works id s at p.db) p).failures ≡ p.failures
unfolding set_service_ready
recorded-failures id s at p = refl

-- A `Set` of an instance that has a row.
set_state-shown :
    (now : ℕ) (id s : Text) (p : Prober) (inst : Instance)
    → find_row instance_key id p.db.instances ≡ some inst
    → (shown id (set_state (io_at now) id s p) ≡ s)
      × ((set_state (io_at now) id s p).failures ≡ p.failures)
unfolding set_state
set_state-shown now id s p inst found =
    let got : get_instance works id p.db ≡ ok inst = get-row id p.db ∙ ap row_or_not_found found in
    let opened : set_from (io_at now) id s (get_instance works id p.db) p
        ≡ set_from (io_at now) id s (ok inst) p =
      ap (λ r. set_from (io_at now) id s r p) got in
    rw opened (elim (Bool-cases (inst.service_ready == s)) [
      | inl same ↦ rw same (ap state_of got ∙ (list_beq_iff inst.service_ready s).0 same, refl)
      | inr other ↦ rw other (recorded-shown now id s _ p inst found, recorded-failures id s _ p)
    ])

-- What `Set` leaves of a prober that has no run for the instance.
set_state-IsSettled :
    (now : ℕ) (id : Text) (up : Bool) (n : ℕ) (p : Prober) (inst : Instance)
    → find_row instance_key id p.db.instances ≡ some inst
    → p.active id ≡ none
    → p.failures id ≡ n
    → IsSettled id up n (set_state (io_at now) id (status up) p)
set_state-IsSettled now id up n p inst found idle counted =
    let (shows, same) = set_state-shown now id (status up) p inst found in
    record {
      idle = ap (λ f. f id) (set_state-active (io_at now) id (status up) p) ∙ idle;
      counted = ap (λ f. f id) same ∙ counted;
      shows = shows;
    }

-- The flap rule of one probe, the failures counted.
flap-IsSettled :
    (now : ℕ) (id : Text) (up : Bool) (n : ℕ) (b : Bool) (p : Prober) (inst : Instance)
    → find_row instance_key id p.db.instances ≡ some inst
    → p.active id ≡ none
    → p.failures id ≡ next n (false, b)
    → shown id p ≡ status up
    → IsSettled id
        (next_up up n (false, b))
        (next n (false, b))
        (flap (io_at now) id (status up) b p)
unfolding flap list_beq
flap-IsSettled now id true n true p inst found idle counted shows = record {
  idle = idle;
  counted = counted;
  shows = shows;
}
flap-IsSettled now id false n true p inst found idle counted shows =
    set_state-IsSettled now id true 0 p inst found idle counted
flap-IsSettled now id false n false p inst found idle counted shows = record {
  idle = idle;
  counted = counted;
  shows = shows;
}
flap-IsSettled now id true n false p inst found idle counted shows =
    elim (Bool-cases (leb unhealthy_after (suc n))) [
      | inl third ↦
          let full : leb unhealthy_after (p.failures id) ≡ true = rw counted third in
          rw (full, third) (set_state-IsSettled now id false (suc n) p inst found idle counted)
      | inr fewer ↦
          let short : leb unhealthy_after (p.failures id) ≡ false = rw counted fewer in
          rw (short, fewer) (record { idle = idle; counted = counted; shows = shows })
    ]

-- A shown state that is not empty has a row behind it.
row_of :
    (id : Text) (up : Bool) (p : Prober)
    → shown id p ≡ status up
    → (inst : Instance) × (find_row instance_key id p.db.instances ≡ some inst)
row_of id up p shows = elim (Option-cases (find_row instance_key id p.db.instances)) [
  | inr found ↦ found
  | inl absent ↦
      absurd (
        nonempty up (sym (shown-row id p ∙ ap (λ r. state_of (row_or_not_found r)) absent) ∙ shows))
]
  where
    nonempty : (b : Bool) → [] ≢ status b
    nonempty true e = ground (arith, e)
    nonempty false e = ground (arith, e)

status_known : (up : Bool) → (status up == ready || status up == unhealthy) ≡ true
unfolding list_beq
status_known true = refl
status_known false = refl

counted-next :
    (id : Text) (n : ℕ) (b : Bool) (p : Prober)
    → p.failures id ≡ n
    → (count id b p).failures id ≡ next n (false, b)
counted-next id n true p h = put-same id 0 p.failures
counted-next id n false p h = put-same id (suc (p.failures id)) p.failures ∙ ap suc h

steady_one-IsSettled :
    (now : ℕ) (id : Text) (up : Bool) (n : ℕ) (b : Probe) (p : Prober)
    → IsSettled id up n p
    → IsSettled id (next_up up n b) (next n b) (steady_one (io_at now) id (status up) b.0 b.1 p)
unfolding steady_one
steady_one-IsSettled now id up n (true, b) p h = rw (h.idle, status_known up) h
steady_one-IsSettled now id up n (false, b) p h =
    let (inst, found) = row_of id up p h.shows in
    rw (h.idle, status_known up)
      (flap-IsSettled now id up n b (count id b p) inst found h.idle
        (counted-next id n b p h.counted) h.shows)

steady-IsSettled :
    (now : ℕ) (id : Text) (up : Bool) (n : ℕ) (b : Probe) (p : Prober)
    → IsSettled id up n p
    → IsSettled id
        (next_up up n b)
        (next n b)
        (run_steady works (λ _. io_at now) (λ _. b.0) (λ _. b.1) (id ∷ []) p)
unfolding run_steady
steady-IsSettled now id up n b p h =
    subst
      (λ cur. IsSettled id (next_up up n b) (next n b) (steady_one (io_at now) id cur b.0 b.1 p))
      (sym h.shows) (steady_one-IsSettled now id up n b p h)

-- What the automaton does to a state that fits the failures that are counted.
next_up-fits :
    (up : Bool) (n : ℕ) (b : Probe)
    → up ≡ not (leb unhealthy_after n)
    → next_up up n b ≡ not (leb unhealthy_after (next n b))
next_up-fits up n (true, b) h = h
next_up-fits up n (false, true) h = ground arith
next_up-fits true n (false, false) h = refl
next_up-fits false n (false, false) h = ground (arith, h)

up_after-fits :
    (bs : List Probe) (up : Bool) (n : ℕ)
    → up ≡ not (leb unhealthy_after n)
    → up_after up n bs ≡ not (leb unhealthy_after (failures_after n bs))
up_after-fits [] up n h = h
up_after-fits (b ∷ bs) up n h = up_after-fits bs (next_up up n b) (next n b) (next_up-fits up n b h)

ticks-up :
    (now : ℕ) (id : Text) (bs : List Probe) (up : Bool) (n : ℕ) (p : Prober)
    → IsSettled id up n p
    → IsSettled id (up_after up n bs) (failures_after n bs) (ticks now id bs p)
ticks-up now id [] up n p h = h
ticks-up now id (b ∷ bs) up n p h =
    ticks-up now id bs (next_up up n b) (next n b) _ (steady-IsSettled now id up n b p h)

-- The steady probes implement the flap rule, where SQLite carries out its statements: of an instance that
-- no starting run owns and that is ready or unhealthy, whatever number of failures is counted, any row of
-- probes leaves the state and the number that the rule gives: a probe that passes makes it ready and the
-- number 0, one that fails adds to the number and makes it unhealthy at three, and one that is cancelled
-- changes nothing. Of an instance that was ready with no failure counted, this state is unhealthy exactly
-- when the last three probes or more have failed, the cancelled ones left out.
pub ticks-IsSettled :
    (now : ℕ) (id : Text) (bs : List Probe) (up : Bool) (n : ℕ) (p : Prober)
    → IsSettled id up n p
    → IsSettled id (up_after up n bs) (failures_after n bs) (ticks now id bs p)
      × (up_after true 0 bs ≡ not (leb unhealthy_after (failures_after 0 bs)))
ticks-IsSettled now id bs up n p h = (ticks-up now id bs up n p h, up_after-fits bs true 0 refl)
