-- ===== src/Spawn/Runs.antt =====
-- `spawn` and `sbrk` of Xernel/kernel/src/process.rs as runs of the steps on the process table.
use xernel.Prelude.{
  ltb, ◌==◌, Bool-cases, length, u64_max, ℕ, ◌-◌, ◌/◌, ◌<◌, ◌≡◌, refl, sym, subst, inl, inr, Bool,
  true, false, ◌||◌, Option, none, some, List,
}
use xernel.Process.{Process, Core}
use xernel.Process.Steps.{Reach, here, next, breaks, enrols}
use xernel.Syscall.{Kernel}
use xernel.Syscall.Memory.{MapPage}
use xernel.Syscall.Ipc.{running, space_of}
use xernel.Spawn.{heap_start, heap_max}
use xernel.Spawn.Create.{created, create, spawn}
use xernel.Spawn.Heap.{page_up, is_negative, new_break, heap_break_of, moved, move_break, sbrk}
use xernel.Spawn.Effect.{Made, create-Made, alloc_pages-core}

module _ {may : Core → Type 0} where
  created-Reach :
      (c : Core) (cap_slot : ℕ) (r : Option Process × Kernel)
      → Made c.sched.next_pid c r
      → length c.sched.procs < u64_max
      → Reach may c (created cap_slot r).1.core
  created-Reach c cap_slot (none, k) same room = subst (λ d. Reach may c d) (sym same) here
  created-Reach c cap_slot (some p, k) (same, newborn) room =
      next here (enrols k p cap_slot same newborn.0 room refl)

  -- A spawn is an enrolment, or leaves the table alone.
  spawn-Reach :
      (map_to : MapPage) (image : Option (List ℕ)) (stack_end : ℕ → ℕ) (k : Kernel) (cap_slot : ℕ)
      → length k.core.sched.procs < u64_max
      → Reach may k.core (spawn map_to image stack_end k cap_slot).1.core
  unfolding spawn
  spawn-Reach map_to none stack_end k cap_slot room = here
  spawn-Reach map_to (some bytes) stack_end k cap_slot room =
      created-Reach k.core cap_slot (create map_to stack_end k k.core.sched.next_pid bytes)
        (create-Made map_to stack_end k k.core.sched.next_pid bytes) room

  module _ (map_to : MapPage) where
    moved-Reach :
        (c : Core) (old new : ℕ) (r : Bool × Kernel)
        → r.1.core ≡ c
        → Reach may c (moved map_to old new r).1.core
    moved-Reach c old new (false, k) same = subst (λ d. Reach may c d) (sym same) here
    moved-Reach c old new (true, k) same = next here (breaks new k same refl)

    move_break-Reach :
        (k : Kernel) (delta old : ℕ) (to : Option ℕ)
        → Reach may k.core (move_break map_to k delta old to).1.core
    move_break-Reach k delta old none = here
    move_break-Reach k delta old (some new) =
        elim (Bool-cases (ltb new heap_start || ltb heap_max new)) [
          | inl outside ↦ rw outside here
          | inr inside ↦ elim (Bool-cases (is_negative delta)) [
            | inl shrinks ↦ rw (inside, shrinks) (next here (breaks new k refl refl))
            | inr grows ↦
                rw (inside, grows)
                  (moved-Reach k.core old new _ (
                    alloc_pages-core map_to ((page_up new - page_up old) / 4096) k
                      (space_of (running k.core)) (page_up old)))
          ]
        ]

    -- `sbrk` moves the break, or leaves the table alone.
    sbrk-Reach : (k : Kernel) (delta : ℕ) → Reach may k.core (sbrk map_to k delta).1.core
    unfolding sbrk
    sbrk-Reach k delta = elim (Bool-cases (delta == 0)) [
      | inl none_asked ↦ rw none_asked here
      | inr some_asked ↦
          rw some_asked
            (move_break-Reach k delta (heap_break_of k) (new_break (heap_break_of k) delta))
    ]
