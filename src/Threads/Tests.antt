-- ===== src/Threads/Tests.antt =====
-- Three kernel threads of Xernel/kernel/src/sched.rs.
use xernel.Prelude.{ℕ, ◌+◌, ◌≡◌, refl, some, [], arith}
use xernel.Threads.{Scheduler, new, spawn, yield_now, send, try_recv}
use xernel.Threads.Rounds.{position, yield_times, yield_times-current}

abbrev three : Scheduler
three = (spawn (spawn (spawn (new 0x9000) 0x1000).1 0x2000).1 0x3000).1

-- A thread that has yielded goes on where it was when its turn comes again.
turns :
    ((spawn three 0x4000).0 ≡ 3)
    × ((yield_now three).cpu_rsp ≡ 0x2000 + 56)
    × ((yield_times 3 three).cpu_rsp ≡ 0x9000)
unfolding spawn yield_now
turns = (refl, refl, refl)

channel : (try_recv (send (send [] 4) 5)).0 ≡ some 4
unfolding send try_recv
channel = refl

yield_times-current_example :
    ((yield_times 5 three).current ≡ 2)
    × ((yield_times 5 three).cpu_rsp ≡ 0x3000 + 56)
    × ((i : ℕ) → position (yield_times 5 three) i ≡ position three i)
unfolding spawn
yield_times-current_example = yield_times-current 5 three (omega arith) (omega arith) (omega arith)
