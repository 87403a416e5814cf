-- ===== src/Threads.antt =====
-- Xernel/kernel/src/sched.rs and ipc.rs: the kernel threads, their cooperative round robin, and
-- the channel over which they talk. The contents of the stacks are not modelled.
pub mod Rounds
mod Tests
use xernel.Prelude.{
  modify, ltb, if◌then◌else◌, length, get_elem?, add64, sub64, ℕ, ◌+◌, ◌%◌, Option, none, some,
  List, [], ◌∷◌, ◌++◌,
}

pub record Thread : Type 0 where
  pub id : ℕ
  pub rsp : ℕ

-- `Scheduler`, with the stack pointer of the processor.
pub record Scheduler : Type 0 where
  pub threads : List Thread
  pub current : ℕ
  pub next_id : ℕ
  pub cpu_rsp : ℕ

abbrev pub new : ℕ → Scheduler
new cpu_rsp = record { threads = []; current = 0; next_id = 0; cpu_rsp = cpu_rsp }

-- `spawn`, given the stack pointer that `init_thread_stack` leaves.
unfoldable pub spawn : Scheduler → ℕ → ℕ × Scheduler
spawn s rsp = (
  s.next_id,
  record s {
    threads = s.threads ++ record { id = s.next_id; rsp = rsp } ∷ [];
    next_id = add64 s.next_id 1;
  },
)

abbrev pub rsp_of : Option Thread → ℕ
rsp_of none = 0
rsp_of (some t) = t.rsp

abbrev pub save_rsp : ℕ → Thread → Thread
save_rsp rsp t = record t { rsp = rsp }

-- `switch` saves the stack pointer below the return address and six registers, and returns from
-- the other stack above them.
unfoldable pub yield_now : Scheduler → Scheduler
yield_now s =
    let n = length s.threads in
    if ltb n 2
    then s
    else let next = (s.current + 1) % n in
      record s {
        threads = modify s.threads s.current (save_rsp (sub64 s.cpu_rsp 56));
        current = next;
        cpu_rsp = add64 (rsp_of (get_elem? s.threads next)) 56;
      }

-- A channel: the front of the queue is the head.
unfoldable pub send : List ℕ → ℕ → List ℕ
send queue msg = queue ++ msg ∷ []

unfoldable pub try_recv : List ℕ → Option ℕ × List ℕ
try_recv [] = (none, [])
try_recv (msg ∷ queue) = (some msg, queue)
