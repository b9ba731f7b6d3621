-- ===== src/Store/Tests.antt =====
-- Two instances that ask for one exclusivity group.
use obacht_agent.Base.{◌≡◌, ◌≢◌, refl, Bool, true, some, List, [], ◌∷◌, list_beq, arith}
use obacht_agent.Base.Result.{ok}
use obacht_agent.Base.Text.{Text, text}
use obacht_agent.Store.Locks.{
  Lock, works, fails, holder_of, try_acquire, release_lock, release_locks_for, get_lock_holder, Op,
  acquire, release, release_all, apply_op, apply_ops,
}
use obacht_agent.Store.Held.{ops-holder, acquire_excludes}

abbrev runs : Bool
unfolding holder_of try_acquire release_lock release_locks_for get_lock_holder apply_op apply_ops
    list_beq
runs = true

abbrev display : Text
display = text "display"

abbrev kiosk : Text
kiosk = text "kiosk"

abbrev camera : Text
camera = text "camera"

abbrev of_kiosk : List Lock
of_kiosk = record { group = display; holder = kiosk } ∷ []

-- The camera asks for the lock with an old table, releases what it does not hold, and asks again.
abbrev meanwhile : List Op
meanwhile =
    acquire works works display camera []
    ∷ release works display camera
    ∷ release_all fails camera
    ∷ acquire works fails display camera of_kiosk
    ∷ []

kiosk_acquires : (try_acquire works works display kiosk [] []).0 ≡ ok tt
unfolding runs
kiosk_acquires = refl

kiosk_holds : holder_of display of_kiosk ≡ some kiosk
unfolding runs
kiosk_holds = refl

kiosk_reported : get_lock_holder works display of_kiosk ≡ ok kiosk
unfolding runs
kiosk_reported = refl

camera_is_other : camera ≢ kiosk
camera_is_other h = ground arith

ops-holder_example : holder_of display (apply_ops meanwhile of_kiosk) ≡ some kiosk
ops-holder_example =
    ops-holder meanwhile display kiosk of_kiosk (tt, (camera_is_other, (camera_is_other, (tt, tt))))
      kiosk_holds

nobody_seen : holder_of display [] ≢ some camera
unfolding holder_of
nobody_seen h = ground arith

acquire_excludes_example :
    (try_acquire works works display camera []
      (apply_ops meanwhile (try_acquire works works display kiosk [] []).1)).0
    ≢ ok tt
acquire_excludes_example =
    acquire_excludes works works works works display kiosk camera meanwhile [] [] kiosk_acquires
      (tt, (camera_is_other, (camera_is_other, (tt, tt)))) nobody_seen
