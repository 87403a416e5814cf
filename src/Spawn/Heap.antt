-- ===== src/Spawn/Heap.antt =====
-- `sbrk` of Xernel/kernel/src/process.rs, and the accessors of the running process.
use xernel.Spawn.Create.{alloc_pages}
use xernel.Prelude.{
  ltb, leb, ◌==◌, if◌then◌else◌, u64_mod, add64, checked_add, checked_sub, ℕ, ◌-◌, ◌*◌, ◌/◌, ◌^◌,
  Bool, true, false, ◌||◌, Option, none, some,
}
use xernel.Process.{Process, Core, update, on_sched}
use xernel.Syscall.{Kernel}
use xernel.Syscall.Memory.{MapPage}
use xernel.Syscall.Ipc.{running, space_of, with_core}
use xernel.Spawn.{heap_start, heap_max}

-- `page_up`.
abbrev pub page_up : ℕ → ℕ
page_up x = add64 x 4095 / 4096 * 4096

-- The argument is a `u64` read as an `i64`.
abbrev pub is_negative : ℕ → Bool
is_negative delta = leb (2 ^ 63) delta

abbrev pub new_break : ℕ → ℕ → Option ℕ
new_break old delta =
    if is_negative delta then checked_sub old (u64_mod - delta) else checked_add old delta

abbrev break_of : Option Process → ℕ
break_of none = 0
break_of (some p) = p.heap_break

abbrev pub heap_break_of : Kernel → ℕ
heap_break_of k = break_of (running k.core)

abbrev pub set_break : Kernel → ℕ → Kernel
set_break k new =
    with_core k (on_sched k.core (λ s. update s s.current (λ p. record p { heap_break = new })))

module _ (map_to : MapPage) where
  -- The pages from the old break to the new one.
  abbrev grow : Kernel → ℕ → ℕ → Bool × Kernel
  grow k old new =
      alloc_pages map_to k (space_of (running k.core)) (page_up old)
        ((page_up new - page_up old) / 4096)

  abbrev pub moved : ℕ → ℕ → Bool × Kernel → Option ℕ × Kernel
  moved old new (true, k) = (some old, set_break k new)
  moved old new (false, k) = (none, k)

  abbrev pub move_break : Kernel → ℕ → ℕ → Option ℕ → Option ℕ × Kernel
  move_break k delta old none = (none, k)
  move_break k delta old (some new) =
      if ltb new heap_start || ltb heap_max new
      then (none, k)
      else if is_negative delta
      then (some old, set_break k new)
      else moved old new (grow k old new)

  unfoldable pub sbrk : Kernel → ℕ → Option ℕ × Kernel
  unfolding alloc_pages
  sbrk k delta =
      let old = heap_break_of k in
      if delta == 0 then (some old, k) else move_break k delta old (new_break old delta)

abbrev pub pid_or_zero : Option Process → ℕ
pid_or_zero none = 0
pid_or_zero (some p) = p.pid

abbrev pub getpid : Core → ℕ
getpid c = pid_or_zero (running c)

abbrev env_of : Option Process → ℕ × ℕ
env_of none = (0, 0)
env_of (some p) = (p.envp_user, p.envp_len)

abbrev pub current_getenvp : Core → ℕ × ℕ
current_getenvp c = env_of (running c)
