-- ===== src/Reconciler/Purged.antt =====
-- What a stop or a removal leaves of the other instances.
use obacht_agent.Base.{
  Bool, true, false, not, ◌&&◌, ◌≡◌, ◌≢◌, if◌then◌else◌, Option, none, some, List, is_nil, ◌==◌,
  nat_eq, list_eq, Memᴰ, keep-mem, beq_ne, Bool-cases, inl, inr, arith,
}
use obacht_agent.Store.Instances.{
  Instance, DesiredState, installed, stopped, removed, other_desired,
}
use obacht_agent.Store.Locks.{Outcome, works, fails}
use obacht_agent.Reconciler.Down.{
  clear_ready, set_service_ready, is_stopped, forget, drop_template_secrets, delete_instance,
  release_for, Tables, Host, reset_readiness, purge, container_down, compose_down, down_as,
  stop_with, remove_with,
}

module _ (host : Host) (inst : Instance) (row : Instance) (other : row.id ≢ inst.id) where
  clear_ready-mem : {rows : List Instance} → Memᴰ row rows → Memᴰ row (clear_ready inst.id rows)
  clear_ready-mem (Memᴰ.head {x = x} {xs = xs} e) =
      let away : (x.id == inst.id) ≡ false = rw (← e) (beq_ne row.id inst.id other) in
      rw away (Memᴰ.head e)
  clear_ready-mem (Memᴰ.tail {x = x} {xs = xs} m) = Memᴰ.tail (clear_ready-mem m)

  reset_readiness-mem :
      (db : Tables) → Memᴰ row db.rows → Memᴰ row (reset_readiness host inst db).rows
  unfolding reset_readiness
  reset_readiness-mem db m = elim (Bool-cases host.has_prober) [
    | inr off ↦ rw off m
    | inl on ↦
        rw on
          (elim (Bool-cases (is_stopped inst.desired_state && not (is_nil inst.service_ready))) [
            | inr kept ↦ rw kept m
            | inl cleared ↦ rw cleared (at_outcome host.set_ready)
          ])
  ]
    where
      at_outcome : (o : Outcome) → Memᴰ row (set_service_ready o inst.id (forget inst.id db)).rows
      at_outcome works = clear_ready-mem m
      at_outcome fails = m

  purge-mem :
      (secrets : Bool) (db : Tables) → Memᴰ row db.rows → Memᴰ row (purge host secrets inst db).rows
  unfolding purge
  purge-mem secrets db m = deleted host.delete_row
    where
      db₁ : Tables
      db₁ = reset_readiness host inst db

      dropped : (o : Outcome) → Memᴰ row (drop_template_secrets o inst.id db₁).rows
      dropped works = reset_readiness-mem db m
      dropped fails = reset_readiness-mem db m

      without_secrets :
          (b : Bool)
          → Memᴰ row (if b then drop_template_secrets host.drop_secrets inst.id db₁ else db₁).rows
      without_secrets true = dropped host.drop_secrets
      without_secrets false = reset_readiness-mem db m

      deleted :
          (o : Outcome)
          → Memᴰ row
              (delete_instance o inst.id (
                release_for host.release_locks inst.id (
                  if secrets
                  then drop_template_secrets host.drop_secrets inst.id db₁
                  else db₁))).rows
      deleted works =
          keep-mem (λ (i : Instance). not (i.id == inst.id)) row (without_secrets secrets)
            (ground (arith, beq_ne row.id inst.id other))
      deleted fails = without_secrets secrets

  down-mem :
      (secrets : Bool) (db : Tables) (want : DesiredState)
      → Memᴰ row db.rows
      → Memᴰ row (down_as host secrets inst db want).1.rows
  down-mem secrets db installed m = m
  down-mem secrets db (other_desired _) m = m
  down-mem secrets db stopped m = stopping (host.remove inst.id)
    where
      stopping : (o : Option Bool) → Memᴰ row (stop_with host inst db o).1.rows
      stopping none = m
      stopping (some gone) = reset_readiness-mem db m
  down-mem secrets db removed m = removing (host.remove inst.id)
    where
      removing : (o : Option Bool) → Memᴰ row (remove_with host secrets inst db o).1.rows
      removing none = m
      removing (some gone) = purge-mem secrets db m

  -- The stop or the removal of an instance leaves the rows of the other instances as they are, for a
  -- container and for a compose project, whatever docker and the database do.
  pub down-keeps_others :
      (wired : Bool) (db : Tables)
      → Memᴰ row db.rows
      → Memᴰ row (container_down host inst db).1.rows
        × Memᴰ row (compose_down wired host inst db).1.rows
  unfolding container_down compose_down
  down-keeps_others true db m =
      (down-mem true db inst.desired_state m, down-mem false db inst.desired_state m)
  down-keeps_others false db m = (down-mem true db inst.desired_state m, m)
