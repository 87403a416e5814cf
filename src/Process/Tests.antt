-- ===== src/Process/Tests.antt =====
-- The scheduler at a concrete table: the root, a worker and a parked client.
use xernel.Process.Steps.{blocks, kills, wakes, here, next}
use xernel.Prelude.{
  length, u64_max, ℕ, zero, suc, ◌+◌, ◌*◌, ◌≤◌, ◌≡◌, refl, ◌≢◌, ◌⊎◌, none, some, [], ◌∷◌, arith,
}
use xernel.Process.{
  on_endpoint, State, ready, blocked, done, Process, Core, process_at, update, on_sched,
}
use xernel.Process.Switch.{pick_next, yield_now, block_on, wake, finish}
use xernel.Process.Schedule.{IsNext, pick_next-IsNext}
use xernel.Process.Isolation.{IsValid}
use xernel.Process.Blocking.{state_at}
use xernel.Process.Control.{kill, wait_round, log_buf_cap, log_write, log_read}
use xernel.Process.Terminal.{kill-cases}
use xernel.Process.Log.{latest, log_write-latest}
use xernel.Process.Lifetime.{Reach-IsValid, wait_round-Reach}
use xernel.Process.Revival.{kill-block_on_revives}
use xernel.Process.Fairness.{yield_times, yield_times-reach}

abbrev sample : ℕ → State → Process
sample pid st = record {
  pid = pid;
  space = 0x10_0000 + pid * 4096;
  entry = 0x40_0000;
  user_stack_top = 0x80_fff8;
  heap_break = 0x1000_0000;
  ksp = 0x9000 + pid * 0x8000;
  kstack_top = 0xa008 + pid * 0x8000;
  state = st;
  caps = record { slots = none ∷ [] };
  envp_user = 0;
  envp_len = 0;
  log_buf = 7 ∷ 8 ∷ [];
  exit_code = 0;
}

abbrev system : Core
system = record {
  sched = record {
    procs = sample 0 ready ∷ sample 1 ready ∷ sample 2 (blocked (on_endpoint 0)) ∷ [];
    current = 1;
    next_pid = 3;
  };
  cpu = record { kernel_rsp = 0x1_2000; rsp0 = 0x1_2008; cr3 = 0x10_1000; rsp = 0x1_1f00 };
}

yield_to_root : (yield_now system).sched.current ≡ 0
unfolding yield_now
yield_to_root = refl

kill_root : (kill system 0 9).0 ≡ u64_max
unfolding kill
kill_root = refl

log_read_drains : (log_read system 1 1).0 ≡ 7 ∷ []
unfolding log_read
log_read_drains = refl

numbered_system : (i : ℕ) (p : Process) → process_at system.sched i ≡ some p → p.pid ≡ i
numbered_system zero p e = ground arith
numbered_system (suc zero) p e = ground arith
numbered_system (suc (suc zero)) p e = ground arith
numbered_system (suc (suc (suc i))) p e = absurd (cc)

system-IsValid : IsValid system
system-IsValid = record {
  running =
      (sample 1 ready, refl, record { space = refl; syscall_stack = refl; interrupt_stack = refl });
  numbered = numbered_system;
  counted = refl;
}

abbrev system_yielded : Core
system_yielded = yield_now system

-- It kills itself and then blocks.
abbrev lingering : Core
lingering = block_on (kill system 1 15).1 (on_endpoint 0)

Reach-IsValid_example : IsValid lingering
Reach-IsValid_example =
    Reach-IsValid system lingering system-IsValid
      (next (next here (kills 1 15 refl)) (blocks (on_endpoint 0) tt refl))

abbrev ended_worker : Process
ended_worker = finish 15 (sample 1 ready)

abbrev after_kill : Core
after_kill = record {
  sched = record {
    procs = sample 0 ready ∷ ended_worker ∷ sample 2 (blocked (on_endpoint 0)) ∷ [];
    current = 0;
    next_pid = 3;
  };
  cpu = record { kernel_rsp = 0xa000; rsp0 = 0xa008; cr3 = 0x10_0000; rsp = 0x9f00 };
}

after_kill-IsValid : IsValid after_kill
after_kill-IsValid = record {
  running =
      (sample 0 ready, refl, record { space = refl; syscall_stack = refl; interrupt_stack = refl });
  numbered = numbered;
  counted = refl;
}
  where
    numbered : (i : ℕ) (p : Process) → process_at after_kill.sched i ≡ some p → p.pid ≡ i
    numbered zero p e = ground arith
    numbered (suc zero) p e = ground arith
    numbered (suc (suc zero)) p e = ground arith
    numbered (suc (suc (suc i))) p e = absurd (cc)

wait_round-Reach_example : wait_round (wake after_kill (on_endpoint 0)).sched 1 ≡ some 15
wait_round-Reach_example =
    wait_round-Reach after_kill (wake after_kill (on_endpoint 0)) 1 ended_worker after_kill-IsValid
      (next here (wakes (on_endpoint 0) refl)) (omega arith) (unfold wake in (omega arith)) refl
      refl

yield_times-reach_example :
    (k : ℕ) × (k ≤ length system.sched.procs) × ((yield_times k system).sched.current ≡ 0)
yield_times-reach_example = yield_times-reach system 0 (omega arith) (omega arith) refl

kill-block_on_revives_example :
    let (status, killed) = kill system 1 15 in
    (status ≡ 0)
    × (state_at killed.sched 1 ≡ some done)
    × (killed.sched.current ≡ 1)
    × (state_at (wake (block_on killed (on_endpoint 1)) (on_endpoint 1)).sched 1 ≡ some ready)
kill-block_on_revives_example =
    kill-block_on_revives system 15 (on_endpoint 1) system-IsValid (omega arith) (λ e. cc)

kill-cases_example :
    (((◌≡◌ {A = ℕ} 2 0) ⊎ ((length system.sched.procs ≤ 2) ⊎ (state_at system.sched 2 ≡ some done)))
      × (kill system 2 9 ≡ (u64_max, system)))
    ⊎ ((◌≢◌ {A = ℕ} 2 0)
        × (p : Process) × (process_at system.sched 2 ≡ some p)
        × (p.state ≢ done)
        × (kill system 2 9 ≡ (0, on_sched system (λ s. update s 2 (finish 9)))))
kill-cases_example = kill-cases system 2 9 system-IsValid

system_picks : pick_next system.sched ≡ some 0
unfolding pick_next
system_picks = refl

pick_next-IsNext_example : (off : ℕ) × IsNext system.sched 0 off
pick_next-IsNext_example = pick_next-IsNext system.sched 0 system_picks

log_write-latest_example :
    (q : Process) × (process_at (log_write system (9 ∷ [])).sched 1 ≡ some q)
    × (q.log_buf ≡ latest (7 ∷ 8 ∷ 9 ∷ []))
    × (length q.log_buf ≤ log_buf_cap)
log_write-latest_example = log_write-latest system (sample 1 ready) (7 ∷ 8 ∷ []) (9 ∷ []) refl refl
