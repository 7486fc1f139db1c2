-- ===== src/Timers/Tests.antt =====
-- The theorems about the timers at a concrete machine.
use borfos.Common.{◌≡◌, refl, arith, [], ◌∷◌}
use borfos.System.{System, ok}
use borfos.Timers.{timer_register}
use borfos.Timers.Sorted.{IsTimers, IsRearmed, insert_timer, timer_register-IsRearmed}
use borfos.Example.{machine}

registered : IsTimers machine (1016 ∷ 2016 ∷ [])
registered = record {
  ring = record {
    chain = (refl, refl, (refl, refl, (refl, refl)));
    distinct = (refl, (refl, (refl, tt)));
  };
  sorted = (omega arith, (omega arith, tt));
}

timer_register-IsRearmed_example :
    (s' : System) × (timer_register 3 3016 machine ≡ ok s')
    × IsRearmed machine (1016 ∷ 3016 ∷ 2016 ∷ []) s'
unfolding insert_timer
timer_register-IsRearmed_example =
    timer_register-IsRearmed machine 3016 3 (1016 ∷ 2016 ∷ []) registered refl
      (record { chain = (refl, refl); distinct = (refl, tt) }) refl (omega arith)
