-- ===== src/Syscall/Confinement.antt =====
-- What the calls of Xernel/kernel/src/process.rs do to the capabilities that processes hold.
use xernel.Prelude.{
  modify-cases, ◌==◌, Bool-cases, Option-cases, map-cases, ℕ, ◌≡◌, refl, sym, ap, subst, ◌∙◌, ◌⊎◌,
  inl, inr, Option, none, some,
}
use xernel.Cap.{Result, ok, err, CapEntry}
use xernel.Cap.Node.{CNode, get, insert}
use xernel.Cap.Node.Laws.{get-insert}
use xernel.Process.{
  Core, Process, BlockReason, ready, blocked, is_blocked_on, process_at, on_sched, update,
  set_state,
}
use xernel.Process.Switch.{
  pick_next, activate, switch_context, switch_to, yield_now, block_on, wake_process, wake, finish,
}
use xernel.Process.Control.{
  find_pid, with_caps, place_cap, insert_at, install_at, grant_to, kill_at, kill, done_at,
  exit_code_for,
}

-- A process holds the capability in one of its slots.
abbrev pub Held : Core → CapEntry → Type 0
Held c cp =
    (i slot : ℕ) × (p : Process) × (process_at c.sched i ≡ some p) × (get p.caps slot ≡ ok cp)

-- Every process of the new table has the capabilities of the old one at its place.
pub KeepsCaps : Core → Core → Type 0
KeepsCaps c d =
    (i : ℕ) (q : Process)
    → process_at d.sched i ≡ some q
    → (p : Process) × (process_at c.sched i ≡ some p) × (q.caps ≡ p.caps)

same-KeepsCaps : (c : Core) → KeepsCaps c c
unfolding KeepsCaps
same-KeepsCaps c i q e = (q, e, refl)

KeepsCaps-trans : (b c d : Core) → KeepsCaps b c → KeepsCaps c d → KeepsCaps b d
unfolding KeepsCaps
KeepsCaps-trans b c d f g i r e =
    let (q, e', x) = g i r e in let (p, e'', y) = f i q e' in (p, e'', x ∙ y)

pub Held-KeepsCaps : (c d : Core) (cp : CapEntry) → KeepsCaps c d → Held d cp → Held c cp
unfolding KeepsCaps
Held-KeepsCaps c d cp f (i, slot, q, e, g) =
    let (p, e', same) = f i q e in (i, slot, p, e', subst (λ t. get t slot ≡ ok cp) same g)

update-KeepsCaps :
    (c : Core) (i : ℕ) (f : Process → Process)
    → ((p : Process) → (f p).caps ≡ p.caps)
    → KeepsCaps c (on_sched c (λ s. update s i f))
unfolding KeepsCaps
update-KeepsCaps c i f keeps j q e =
    let (p, g, changed) = modify-cases c.sched.procs i j f e in
    (
      p,
      g,
      elim changed [
        | inl (_, new) ↦ ap (λ x. x.caps) new ∙ keeps p
        | inr (_, old) ↦ ap (λ x. x.caps) old
      ],
    )

pub wake-KeepsCaps : (c : Core) (reason : BlockReason) → KeepsCaps c (wake c reason)
unfolding KeepsCaps wake
wake-KeepsCaps c reason i q e =
    let (p, g, new) = map-cases (wake_process reason) c.sched.procs i e in
    (p, g, ap (λ x. x.caps) new ∙ woken p)
  where
    woken : (p : Process) → (wake_process reason p).caps ≡ p.caps
    woken p = elim (Bool-cases (is_blocked_on reason p.state)) [
      | inl e ↦ rw e refl
      | inr e ↦ rw e refl
    ]

switch_to-KeepsCaps : (c : Core) (i : ℕ) → KeepsCaps c (switch_to c i)
unfolding KeepsCaps switch_to activate switch_context
switch_to-KeepsCaps c i = update-KeepsCaps c c.sched.current _ (λ p. refl)

pub yield_now-KeepsCaps : (c : Core) → KeepsCaps c (yield_now c)
unfolding yield_now
yield_now-KeepsCaps c = elim (Option-cases (pick_next c.sched)) [
  | inl e ↦ rw (e, yield_now) (same-KeepsCaps c)
  | inr (next, e) ↦ elim (Bool-cases (next == c.sched.current)) [
    | inl self ↦ rw (e, yield_now, self) (same-KeepsCaps c)
    | inr other ↦ rw (e, yield_now, other) (switch_to-KeepsCaps c next)
  ]
]

pub block_on-KeepsCaps : (c : Core) (reason : BlockReason) → KeepsCaps c (block_on c reason)
unfolding block_on
block_on-KeepsCaps c reason =
    let cur = c.sched.current in
    let parked = on_sched c (λ s. update s cur (set_state (blocked reason))) in
    let keeps = update-KeepsCaps c cur (set_state (blocked reason)) (λ p. refl) in
    elim (Option-cases (pick_next parked.sched)) [
      | inl e ↦
          rw (e, block_on)
            (KeepsCaps-trans c parked _ keeps
              (update-KeepsCaps parked cur (set_state ready) (λ p. refl)))
      | inr (next, e) ↦
          rw (e, block_on) (KeepsCaps-trans c parked _ keeps (switch_to-KeepsCaps parked next))
    ]

kill_at-KeepsCaps :
    (c : Core) (target signal : ℕ) (o : Option ℕ) → KeepsCaps c (kill_at c target signal o).1
kill_at-KeepsCaps c target signal none = same-KeepsCaps c
kill_at-KeepsCaps c target signal (some i) = elim (Bool-cases (done_at (process_at c.sched i))) [
  | inl e ↦ rw e (same-KeepsCaps c)
  | inr e ↦ rw e (update-KeepsCaps c i (finish (exit_code_for signal)) (λ p. refl))
]

pub kill-KeepsCaps : (c : Core) (target signal : ℕ) → KeepsCaps c (kill c target signal).1
unfolding kill
kill-KeepsCaps c target signal = elim (Bool-cases (target == 0)) [
  | inl e ↦ rw e (same-KeepsCaps c)
  | inr e ↦ rw e (kill_at-KeepsCaps c target signal (find_pid c.sched.procs target))
]

place_cap-Held :
    (c : Core) (i slot : ℕ) (p : Process) (cp new : CapEntry)
    → process_at c.sched i ≡ some p
    → (r : Result CNode) → insert p.caps slot new ≡ r
    → Held (place_cap c i r).1 cp
    → Held c cp ⊎ (cp ≡ new)
place_cap-Held c i slot p cp new e (err x) r h = inl h
place_cap-Held c i slot p cp new e (ok t) r (j, s, q, f, g) =
    let (p', e', changed) = modify-cases c.sched.procs i j (with_caps t) f in
    elim changed [
      | inr (_, old) ↦ inl (j, s, p', e', subst (λ x. get x.caps s ≡ ok cp) old g)
      | inl (same, changed_to) ↦
          let here : get t s ≡ ok cp = subst (λ x. get x.caps s ≡ ok cp) changed_to g in
          let (_, _, reads) = get-insert p.caps t slot s new r in
          elim (Bool-cases (slot == s)) [
            | inl installed ↦
                inr (let x : ok cp ≡ ok new = sym here ∙ reads ∙ rw installed refl in cc x)
            | inr other ↦
                inl (
                  i,
                  s,
                  p,
                  e,
                  let x : get t s ≡ get p.caps s = reads ∙ rw other refl in sym x ∙ here,
                )
          ]
    ]

-- After an installation a process holds what it held, or the capability installed.
pub install_at-Held :
    (c : Core) (i slot : ℕ) (cp new : CapEntry)
    → Held (install_at c i new slot).1 cp
    → Held c cp ⊎ (cp ≡ new)
unfolding install_at
install_at-Held c i slot cp new h = by_process (process_at c.sched i) refl h
  where
    by_process :
        (o : Option Process)
        → process_at c.sched i ≡ o
        → Held (insert_at c i o new slot).1 cp
        → Held c cp ⊎ (cp ≡ new)
    by_process none e h = inl h
    by_process (some p) e h = place_cap-Held c i slot p cp new e (insert p.caps slot new) refl h

pub grant_to-Held :
    (c : Core) (target slot : ℕ) (cp new : CapEntry)
    → Held (grant_to c target new slot).1 cp
    → Held c cp ⊎ (cp ≡ new)
unfolding grant_to
grant_to-Held c target slot cp new h = elim (Option-cases (find_pid c.sched.procs target)) [
  | inl e ↦ inl (rw (e, grant_to) at h)
  | inr (i, e) ↦ install_at-Held c i slot cp new (rw (e, grant_to) at h)
]
