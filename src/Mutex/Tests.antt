-- ===== src/Mutex/Tests.antt =====
-- The theorems about mutexes at a concrete machine.
use borfos.Common.{◌≡◌, refl, arith, some, [], ◌∷◌}
use borfos.System.{System, ok, panic}
use borfos.Scheduler.Queue.{IsQueue}
use borfos.Mutex.{entered, mutex_lock_resume, mutex_unlock}
use borfos.Mutex.Steps.{IsHeld, IsUnlocked, mutex_unlock-wakes, mutex_lock_resume-steals}
use borfos.Mutex.Nested.{locks, unlocks, locks-unlocks}
use borfos.Example.{machine}

held : IsHeld 500 1 machine
held = record { owner = refl; depth = refl; task = λ e. omega (arith, e) }

queue : IsQueue machine (1000 ∷ 2000 ∷ [])
queue = record {
  ring = record {
    chain = (refl, refl, (refl, refl, (refl, refl)));
    distinct = (refl, (refl, (refl, tt)));
  };
  count = refl;
  small = omega arith;
}

mutex_unlock-wakes_example :
    (s' : System) × (mutex_unlock 500 machine ≡ ok s')
    × IsUnlocked 500 s'
    × IsQueue s' (1000 ∷ 2000 ∷ 3000 ∷ [])
mutex_unlock-wakes_example =
    mutex_unlock-wakes 500 600 [] (1000 ∷ 2000 ∷ []) machine held
      (record { chain = (refl, refl, (refl, refl)); distinct = (refl, (refl, tt)) }) queue
      (λ e. omega (arith, e)) (omega arith) (record { chain = (refl, refl); distinct = (refl, tt) })
      refl

abbrev resumed : System
resumed = record machine { current_task = 3000 }

mutex_lock_resume-steals_example :
    (s' : System) × (mutex_lock_resume 500 600 resumed ≡ entered s')
    × (s'.locker 500 ≡ 3000)
    × (s'.nesting 500 ≡ 2)
    × (mutex_unlock 500 (record s' { current_task = 1000 }) ≡ panic)
mutex_lock_resume-steals_example =
    mutex_lock_resume-steals 500 600 1000 1 resumed refl (λ e. omega (arith, e))
      (λ e. omega (arith, e)) refl (omega arith)

locks-unlocks_example :
    (s1 s2 s3 : System) × (locks 700 600 3 machine ≡ some s1)
    × (unlocks 700 2 s1 ≡ ok s2)
    × IsHeld 700 1 s2
    × (mutex_unlock 700 s2 ≡ ok s3)
    × IsUnlocked 700 s3
    × (s3.links ≡ machine.links)
locks-unlocks_example =
    locks-unlocks 700 600 2 machine (omega arith) (λ e. omega (arith, e))
      (record { owner = refl; depth = refl })
      (record { chain = (refl, refl); distinct = (refl, tt) })
