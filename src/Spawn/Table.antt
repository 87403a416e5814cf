-- ===== src/Spawn/Table.antt =====
-- What `spawn` of Xernel/kernel/src/process.rs does to the process table.
use xernel.Prelude.{
  ◌==◌, if◌then◌else◌, ==→eq, Bool-cases, Option-cases, length, u64_max, ℕ, ◌<◌, ◌≡◌, refl, sym, ap,
  subst, ◌∙◌, ◌⊎◌, inl, inr, Bool, true, false, Option, none, some, List, arith,
}
use xernel.Cap.{process_cap, Result, ok, err, invalid_cap}
use xernel.Process.{Process, Core, process_at, update, on_sched}
use xernel.Process.Isolation.{IsValid}
use xernel.Process.Control.{place_cap, install_at}
use xernel.Process.Touches.{
  Touches, Touches-IsValid, Touches-next_pid, install_process_cap-Touches, admit-IsValid,
}
use xernel.Cap.Node.{CNode, get, insert}
use xernel.Cap.Node.Laws.{get-insert}
use xernel.Syscall.{Kernel}
use xernel.Syscall.Memory.{MapPage}
use xernel.Spawn.{install_process_cap, admit, enrolled, enrol}
use xernel.Spawn.Create.{created, create, spawn}
use xernel.Spawn.Effect.{Newborn, Made, create-Made}

-- What becomes of the table and of the PID that is returned: nothing, or a new process.
abbrev Spawned : Core → ℕ → Option ℕ × Kernel → Type 0
Spawned c cap_slot (r, k) =
    ((r ≡ none) × (k.core ≡ c))
    ⊎ ((p : Process) × (d : Core) × (r ≡ some c.sched.next_pid)
        × (install_process_cap c c.sched.next_pid cap_slot ≡ (true, d))
        × (k.core ≡ admit d p)
        × Newborn c.sched.next_pid p)

enrolled-Spawned :
    (k : Kernel) (p : Process) (cap_slot : ℕ) (r : Bool × Core)
    → Newborn k.core.sched.next_pid p
    → install_process_cap k.core p.pid cap_slot ≡ r
    → Spawned k.core cap_slot (enrolled k p r)
enrolled-Spawned k p cap_slot (false, d) newborn e = inl (refl, refl)
enrolled-Spawned k p cap_slot (true, d) newborn e = inr (
  p,
  d,
  ap some newborn.0,
  subst (λ x. install_process_cap k.core x cap_slot ≡ (true, d)) newborn.0 e,
  refl,
  newborn,
)

created-Spawned :
    (c : Core) (cap_slot : ℕ) (r : Option Process × Kernel)
    → Made c.sched.next_pid c r
    → Spawned c cap_slot (created cap_slot r)
unfolding enrol
created-Spawned c cap_slot (none, k) h = inl (refl, h)
created-Spawned c cap_slot (some p, k) (h, newborn) =
    subst (λ x. Spawned x cap_slot (enrol k p cap_slot)) h
      (enrolled-Spawned k p cap_slot (install_process_cap k.core p.pid cap_slot)
        (subst (λ x. Newborn x.sched.next_pid p) (sym h) newborn) refl)

-- What becomes of the table and of the PID, by the calls of the code.
spawn-Spawned :
    (map_to : MapPage) (image : Option (List ℕ)) (stack_end : ℕ → ℕ) (k : Kernel) (cap_slot : ℕ)
    → Spawned k.core cap_slot (spawn map_to image stack_end k cap_slot)
unfolding spawn
spawn-Spawned map_to none stack_end k cap_slot = inl (refl, refl)
spawn-Spawned map_to (some bytes) stack_end k cap_slot =
    created-Spawned k.core cap_slot (create map_to stack_end k k.core.sched.next_pid bytes)
      (create-Made map_to stack_end k k.core.sched.next_pid bytes)

-- What `cap_slot` asked for: no handle, and then nothing changes, or the handle to `pid` in a slot of
-- the table of the process that runs, which was empty; every other slot reads as before, and no
-- other process changes.
abbrev pub Handed : Core → ℕ → ℕ → Core → Type 0
Handed c cap_slot pid d =
    ((cap_slot ≡ u64_max) × (d ≡ c))
    ⊎ ((q : Process) × (t : CNode) × (process_at c.sched c.sched.current ≡ some q)
        × (get q.caps cap_slot ≡ err invalid_cap)
        × ((j : ℕ) → get t j ≡ (if cap_slot == j then ok (process_cap pid) else get q.caps j))
        × (d ≡ on_sched c (λ s. update s s.current (λ p. record p { caps = t }))))

inserted-Handed :
    (c d : Core) (q : Process) (cap_slot pid : ℕ) (r : Result CNode)
    → process_at c.sched c.sched.current ≡ some q
    → insert q.caps cap_slot (process_cap pid) ≡ r
    → place_cap c c.sched.current r ≡ (true, d)
    → Handed c cap_slot pid d
inserted-Handed c d q cap_slot pid (err e) at_q put h =
    let no : false ≡ true = ap (λ x. x.0) h in absurd (cc)
inserted-Handed c d q cap_slot pid (ok t) at_q put h = inr (
  q,
  t,
  at_q,
  (get-insert q.caps t cap_slot cap_slot (process_cap pid) put).0,
  λ j. (get-insert q.caps t cap_slot j (process_cap pid) put).2,
  sym (ap (λ x. x.1) h),
)

install_process_cap-Handed :
    (c d : Core) (pid cap_slot : ℕ)
    → install_process_cap c pid cap_slot ≡ (true, d)
    → Handed c cap_slot pid d
unfolding install_process_cap install_at
install_process_cap-Handed c d pid cap_slot h = elim (Bool-cases (cap_slot == u64_max)) [
  | inl unwanted ↦ inl (==→eq cap_slot u64_max unwanted, sym (ap (λ x. x.1) (rw unwanted at h)))
  | inr wanted ↦ elim (Option-cases (process_at c.sched c.sched.current)) [
    | inl e ↦ let no : false ≡ true = ap (λ x. x.0) (rw e at (rw wanted at h)) in absurd (cc)
    | inr (q, e) ↦
        inserted-Handed c d q cap_slot pid (insert q.caps cap_slot (process_cap pid)) e refl
          (rw e at (rw wanted at h))
  ]
]

-- A spawn either fails, and then the process table and every capability in it are as they were,
-- or it returns the next PID, and then two things have happened to the table: the caller has a
-- handle to that PID in the slot it asked for, which was empty, if it asked for one, and no other
-- capability of a process that was there has changed; and at the end there is a new process,
-- ready, with that PID and with the capabilities that such a process starts with.
pub spawn-cases :
    (map_to : MapPage) (image : Option (List ℕ)) (stack_end : ℕ → ℕ) (k : Kernel) (cap_slot : ℕ)
    → (((spawn map_to image stack_end k cap_slot).0 ≡ none)
        × ((spawn map_to image stack_end k cap_slot).1.core ≡ k.core))
      ⊎ ((p : Process) × (d : Core) × ((spawn map_to image stack_end k cap_slot).0
            ≡ some k.core.sched.next_pid)
          × Handed k.core cap_slot k.core.sched.next_pid d
          × ((spawn map_to image stack_end k cap_slot).1.core ≡ admit d p)
          × Newborn k.core.sched.next_pid p)
spawn-cases map_to image stack_end k cap_slot =
    elim (spawn-Spawned map_to image stack_end k cap_slot) [
      | inl failed ↦ inl failed
      | inr (p, d, pid, handed, same, newborn) ↦ inr (
        p,
        d,
        pid,
        install_process_cap-Handed k.core d k.core.sched.next_pid cap_slot handed,
        same,
        newborn,
      )
    ]

-- A spawn keeps the process table well formed: PIDs are the places in the table and are handed
-- out in order, and the CPU runs in the address space and on the stacks of the current process.
pub spawn-IsValid :
    (map_to : MapPage) (image : Option (List ℕ)) (stack_end : ℕ → ℕ) (k : Kernel) (cap_slot : ℕ)
    → IsValid k.core
    → length k.core.sched.procs < u64_max
    → IsValid (spawn map_to image stack_end k cap_slot).1.core
spawn-IsValid map_to image stack_end k cap_slot v room =
    elim (spawn-Spawned map_to image stack_end k cap_slot) [
      | inl (_, same) ↦ subst IsValid (sym same) v
      | inr (p, d, _, handed, same, newborn) ↦
          let touches =
            subst (λ r. Touches k.core r.1) handed
              (install_process_cap-Touches k.core k.core.sched.next_pid cap_slot) in
          let w = Touches-IsValid k.core d touches v in
          let next = Touches-next_pid k.core d touches in
          subst IsValid (sym same)
            (admit-IsValid d p w (newborn.0 ∙ sym next) (omega (arith, next, v.counted, w.counted)))
    ]
