-- ===== src/Readiness/Samples.antt =====
-- The prober on the instance `notes` of the sample database.
use obacht_agent.Base.{
  ℕ, ◌+◌, ◌*◌, ◌/◌, ◌≡◌, refl, Bool, true, false, none, some, [], ◌∷◌, arith, list_beq,
}
use obacht_agent.Base.Int.{pos}
use obacht_agent.Base.Text.{text}
use obacht_agent.Store.Table.{find_row, update_rows}
use obacht_agent.Store.Statements.{set_service_ready}
use obacht_agent.Store.Samples.{sample_db}
use obacht_agent.Readiness.Prober.{
  starting_interval, Target, Prober, set_state, register, begin, mark_done, became_ready,
  became_unhealthy, Round, run_starting, finish_run, flap, steady_one, run_steady,
}
use obacht_agent.Readiness.Starting.{IsFinished, run_starting-ends, begin-survives}
use obacht_agent.Readiness.Flaps.{Probe, io_at, ticks, shown, IsSettled, ticks-IsSettled}

abbrev runs : Bool
unfolding list_beq find_row update_rows set_service_ready set_state register begin mark_done
    run_starting finish_run flap steady_one run_steady
runs = true

abbrev prober : Prober
prober = record {
  db = sample_db;
  active = λ id. none;
  failures = λ id. 0;
  ips = λ name. none;
  cancelled = λ run. false;
  next_run = 1;
  notified = 0;
}

abbrev target : Target
target = record {
  instance_id = text "notes";
  service_name = text "web";
  container_name = text "obacht-notes";
  target_port = pos 80;
  host_port = false;
}

-- No probe passes, and each takes a second.
abbrev silent : ℕ → Round
silent k = record {
  passed = false;
  cancelled = false;
  cancelled_waiting = false;
  time = 1 + starting_interval * k;
}

silent_ends : run_starting 4 10 silent 0 ≡ some became_unhealthy
unfolding runs
silent_ends = refl

run_starting-ends_example : IsFinished (1 + (1 + 10 / starting_interval)) (0 + 10) silent 0
run_starting-ends_example = run_starting-ends 0 10 silent (λ k. omega arith)

begin-survives_example :
    ((begin (io_at 7) target prober).active (text "notes") ≡ some 1)
    × ((finish_run (io_at 9) (text "notes") 0 became_ready (begin (io_at 7) target prober)).active
          (text "notes")
        ≡ some 1)
begin-survives_example =
    begin-survives (io_at 7) (io_at 9) target prober 0 became_ready refl (omega arith)

notes_ready : IsSettled (text "notes") true 0 prober
unfolding runs
notes_ready = record { idle = refl; counted = refl; shows = refl }

abbrev passes : Probe
passes = (false, true)

abbrev misses : Probe
misses = (false, false)

abbrev stops : Probe
stops = (true, false)

-- Two failures do not change the state, a third after a probe that passed neither; three in a row do.
lost_after_three :
    shown (text "notes") (
      ticks 5
        (text "notes")
        (misses ∷ misses ∷ passes ∷ misses ∷ misses ∷ stops ∷ misses ∷ [])
        prober)
    ≡ text "unhealthy"
unfolding runs
lost_after_three = refl

ticks-IsSettled_example :
    IsSettled
      (text "notes")
      true
      2
      (ticks 5 (text "notes") (misses ∷ misses ∷ passes ∷ misses ∷ misses ∷ stops ∷ []) prober)
    × (true ≡ true)
ticks-IsSettled_example =
    ticks-IsSettled 5 (text "notes") (misses ∷ misses ∷ passes ∷ misses ∷ misses ∷ stops ∷ []) true
      0 prober notes_ready
