-- ===== src/Scheduler/Tests.antt =====
-- The theorems about the run queue at a concrete machine.
use borfos.Common.{refl, arith, [], ◌∷◌}
use borfos.Scheduler.Queue.{IsQueue}
use borfos.Scheduler.RoundRobin.{IsRunning, giveups, giveups-IsRunning}
use borfos.Example.{machine}

queue : IsQueue machine (1000 ∷ 2000 ∷ [])
queue = record {
  ring = record {
    chain = (refl, refl, (refl, refl, (refl, refl)));
    distinct = (refl, (refl, (refl, tt)));
  };
  count = refl;
  small = omega arith;
}

giveups-IsRunning_example : IsRunning (giveups 1 machine) 2000 (1000 ∷ [])
giveups-IsRunning_example =
    giveups-IsRunning (1000 ∷ []) machine 1000 2000 (2000 ∷ []) [] refl
      (record { queue = queue; current = refl })
