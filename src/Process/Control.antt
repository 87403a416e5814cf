-- ===== src/Process/Control.antt =====
-- What one process does to another in Xernel/kernel/src/process.rs: `get_status`, `kill`, one
-- round of `wait_pid`, `grant_to`, and the log buffers.
use xernel.Prelude.{
  leb, ◌==◌, if◌then◌else◌, length, take, drop, u64_max, ℕ, suc, min, Bool, true, false, Option,
  none, some, List, [], ◌∷◌, ◌++◌,
}
use xernel.Process.{
  State, ready, blocked, done, Process, Scheduler, Core, is_done, process_at, update, on_sched,
}
use xernel.Process.Switch.{finish}
use xernel.Cap.{CapEntry, Result, ok, err}
use xernel.Cap.Node.{CNode, insert}

-- `procs.iter().find(|p| p.pid == target)`, as the place of the process found.
unfoldable pub find_pid : List Process → ℕ → Option ℕ
find_pid [] target = none
find_pid (p ∷ procs) target =
    let rest = find_pid procs target in
    if p.pid == target then some 0 else elim rest [ none ↦ none | some i ↦ some (suc i) ]

abbrev pub at_place : Scheduler → Option ℕ → Option Process
at_place s none = none
at_place s (some i) = process_at s i

abbrev pub find_process : Scheduler → ℕ → Option Process
find_process s target = at_place s (find_pid s.procs target)

abbrev pub status_of : State → ℕ
status_of ready = 0
status_of (blocked r) = 0
status_of done = 1

abbrev pub status_or_unknown : Option Process → ℕ
status_or_unknown none = 2
status_or_unknown (some p) = status_of p.state

unfoldable pub get_status : Scheduler → ℕ → ℕ
unfolding find_pid
get_status s target = status_or_unknown (find_process s target)

-- The three arms of the `match` on the signal.
abbrev pub exit_code_for : ℕ → ℕ
exit_code_for signal = if signal == 9 then 9 else if signal == 15 then 15 else signal

abbrev pub done_at : Option Process → Bool
done_at none = true
done_at (some p) = is_done p.state

abbrev pub kill_at : Core → ℕ → ℕ → Option ℕ → ℕ × Core
kill_at c target signal none = (u64_max, c)
kill_at c target signal (some i) =
    if done_at (process_at c.sched i)
    then (u64_max, c)
    else (0, on_sched c (λ s. update s i (finish (exit_code_for signal))))

unfoldable pub kill : Core → ℕ → ℕ → ℕ × Core
unfolding find_pid
kill c target signal =
    if target == 0 then (u64_max, c) else kill_at c target signal (find_pid c.sched.procs target)

-- One round of the loop: the value it returns, or `none` when it yields and looks again.
abbrev pub wait_on : Option Process → Option ℕ
wait_on none = some u64_max
wait_on (some p) = if is_done p.state then some p.exit_code else none

abbrev pub has_pid : Option Process → ℕ → Bool
has_pid none target = false
has_pid (some p) target = p.pid == target

unfoldable pub wait_round : Scheduler → ℕ → Option ℕ
unfolding find_pid
wait_round s target =
    if target == 0
    then some u64_max
    else if has_pid (process_at s s.current) target
    then some u64_max
    else wait_on (find_process s target)

abbrev pub with_caps : CNode → Process → Process
with_caps t p = record p { caps = t }

abbrev pub place_cap : Core → ℕ → Result CNode → Bool × Core
place_cap c i (ok t) = (true, on_sched c (λ s. update s i (with_caps t)))
place_cap c i (err e) = (false, c)

abbrev pub insert_at : Core → ℕ → Option Process → CapEntry → ℕ → Bool × Core
insert_at c i none cp slot = (false, c)
insert_at c i (some p) cp slot = place_cap c i (insert p.caps slot cp)

-- `current_cap_install`, and the same at the place of any process.
unfoldable pub install_at : Core → ℕ → CapEntry → ℕ → Bool × Core
install_at c i cp slot = insert_at c i (process_at c.sched i) cp slot

abbrev pub current_cap_install : Core → ℕ → CapEntry → Bool × Core
current_cap_install c slot cp = install_at c c.sched.current cp slot

unfoldable pub grant_to : Core → ℕ → CapEntry → ℕ → Bool × Core
unfolding find_pid install_at
grant_to c target cp dst_slot = elim (find_pid c.sched.procs target) [
  | none ↦ (false, c)
  | some i ↦ install_at c i cp dst_slot
]

abbrev pub log_buf_cap : ℕ
log_buf_cap = 65536

-- One byte: the oldest goes when the buffer is full. The head of the list is the oldest.
abbrev pub log_push : List ℕ → ℕ → List ℕ
log_push buf b = (if leb log_buf_cap (length buf) then drop 1 buf else buf) ++ b ∷ []

unfoldable pub log_bytes : List ℕ → List ℕ → List ℕ
log_bytes buf [] = buf
log_bytes buf (b ∷ bytes) = log_bytes (log_push buf b) bytes

abbrev pub with_log : List ℕ → Process → Process
with_log buf p = record p { log_buf = buf }

unfoldable pub log_write : Core → List ℕ → Core
unfolding log_bytes
log_write c bytes =
    on_sched c (λ s. update s s.current (λ p. with_log (log_bytes p.log_buf bytes) p))

abbrev pub read_at : Core → ℕ → Option Process → ℕ → List ℕ × Core
read_at c i none limit = ([], c)
read_at c i (some p) limit =
    let n = min limit (length p.log_buf) in
    (take n p.log_buf, on_sched c (λ s. update s i (with_log (drop n p.log_buf))))

-- The bytes that go to the front of `out`; how many there are is what the source returns.
unfoldable pub log_read : Core → ℕ → ℕ → List ℕ × Core
unfolding find_pid
log_read c target limit = elim (find_pid c.sched.procs target) [
  | none ↦ ([], c)
  | some i ↦ read_at c i (process_at c.sched i) limit
]
