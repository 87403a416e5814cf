-- ===== src/Process/Touches.antt =====
-- Calls of Xernel/kernel/src/process.rs that change one process, and the entry of a new one in the table.
use xernel.Prelude.{
  ◌==◌, Bool-cases, Option-cases, length, drop, length-append, get_elem?-lt, get_elem?-append_left,
  get_elem?-append_length, u64_max, ℕ, ◌<◌, min, ◌≡◌, refl, sym, ap, subst, ◌∙◌, ◌⊎◌, inl, inr,
  Bool, true, false, some, List, [], ◌∷◌, ◌++◌, arith, dec_lt,
}
use xernel.Process.{Process, Core, process_at, update, on_sched}
use xernel.Process.Terminal.{Ended, StaysEnded, StaysEnded-trans, update-StaysEnded}
use xernel.Process.Control.{
  find_pid, with_caps, place_cap, install_at, grant_to, with_log, log_write, log_read,
}
use xernel.Process.Isolation.{IsValid, SameIdentity, update-IsValid}
use xernel.Cap.{CapEntry, Result, ok, err, process_cap}
use xernel.Cap.Node.{CNode, insert}
use xernel.Syscall.{Kernel}
use xernel.Spawn.{install_process_cap, admit, enrolled, enrol}

-- A call that changes one process, its identity and its end left alone, or changes nothing.
pub data Touches (c d : Core) : Type 0 where
  nothing : d ≡ c → Touches c d
  one :
      (i : ℕ) (f : Process → Process)
      → ((p : Process) → SameIdentity p (f p) × Ended p (f p))
      → d ≡ on_sched c (λ s. update s i f)
      → Touches c d

pub place_cap-Touches : (c : Core) (i : ℕ) (r : Result CNode) → Touches c (place_cap c i r).1
place_cap-Touches c i (ok t) = one i (with_caps t) (λ p. ((refl, refl, refl), λ x. (x, refl))) refl
place_cap-Touches c i (err e) = nothing refl

pub install_at-Touches :
    (c : Core) (i : ℕ) (cp : CapEntry) (slot : ℕ) → Touches c (install_at c i cp slot).1
unfolding install_at
install_at-Touches c i cp slot = elim (Option-cases (process_at c.sched i)) [
  | inl e ↦ rw (e, install_at) (nothing refl)
  | inr (p, e) ↦ rw (e, install_at) (place_cap-Touches c i (insert p.caps slot cp))
]

pub grant_to-Touches :
    (c : Core) (target : ℕ) (cp : CapEntry) (slot : ℕ) → Touches c (grant_to c target cp slot).1
unfolding grant_to
grant_to-Touches c target cp slot = elim (Option-cases (find_pid c.sched.procs target)) [
  | inl e ↦ rw (e, grant_to) (nothing refl)
  | inr (i, e) ↦ rw (e, grant_to) (install_at-Touches c i cp slot)
]

pub log_write-Touches : (c : Core) (bytes : List ℕ) → Touches c (log_write c bytes)
unfolding log_write
log_write-Touches c bytes = one c.sched.current _ (λ p. ((refl, refl, refl), λ x. (x, refl))) refl

pub log_read-Touches : (c : Core) (target limit : ℕ) → Touches c (log_read c target limit).1
unfolding log_read
log_read-Touches c target limit = elim (Option-cases (find_pid c.sched.procs target)) [
  | inl e ↦ rw (e, log_read) (nothing refl)
  | inr (i, e) ↦ elim (Option-cases (process_at c.sched i)) [
    | inl g ↦ rw (e, log_read) (rw g (nothing refl))
    | inr (p, g) ↦
        rw (e, log_read)
          (rw g (
            one i (with_log (drop (min limit (length p.log_buf)) p.log_buf))
              (λ q. ((refl, refl, refl), λ x. (x, refl))) refl))
  ]
]

pub Touches-IsValid : (c d : Core) → Touches c d → IsValid c → IsValid d
Touches-IsValid c d (nothing e) v = subst IsValid (sym e) v
Touches-IsValid c d (one i f keeps e) v =
    subst IsValid (sym e) (update-IsValid c i f (λ p. (keeps p).0) v)

pub Touches-StaysEnded : (c d : Core) (i : ℕ) → Touches c d → StaysEnded c d i
Touches-StaysEnded c d i (nothing e) =
    subst (λ x. StaysEnded c x i) (sym e) (λ p g. (p, g, λ x. (x, refl)))
Touches-StaysEnded c d i (one k f keeps e) =
    subst (λ x. StaysEnded c x i) (sym e) (update-StaysEnded c k i f (λ p _ _. (keeps p).1))

pub install_process_cap-Touches :
    (c : Core) (pid cap_slot : ℕ) → Touches c (install_process_cap c pid cap_slot).1
unfolding install_process_cap
install_process_cap-Touches c pid cap_slot = elim (Bool-cases (cap_slot == u64_max)) [
  | inl unwanted ↦ rw unwanted (nothing refl)
  | inr wanted ↦ rw wanted (install_at-Touches c c.sched.current (process_cap pid) cap_slot)
]

pub Touches-next_pid : (c d : Core) → Touches c d → d.sched.next_pid ≡ c.sched.next_pid
Touches-next_pid c d (nothing e) = ap (λ x. x.sched.next_pid) e
Touches-next_pid c d (one i f keeps e) = ap (λ x. x.sched.next_pid) e

pub admit-IsValid :
    (c : Core) (p : Process)
    → IsValid c
    → p.pid ≡ c.sched.next_pid
    → length c.sched.procs < u64_max
    → IsValid (admit c p)
admit-IsValid c p v pid room = record {
  running =
      let (q, e, runs) = v.running in
      (
        q,
        get_elem?-append_left c.sched.procs (p ∷ []) c.sched.current (get_elem?-lt _ _ e) ∙ e,
        runs,
      );
  numbered = λ i q e. elim (dec_lt i (length c.sched.procs)) [
    | yes old ↦ v.numbered i q (sym (get_elem?-append_left c.sched.procs (p ∷ []) i old) ∙ e)
    | no new ↦
        let last : i ≡ length c.sched.procs = omega (
          arith,
          get_elem?-lt (c.sched.procs ++ p ∷ []) i e,
          length-append c.sched.procs (p ∷ []),
        ) in
        let same : some p ≡ some q = sym (get_elem?-append_length c.sched.procs p) ∙ rw last at e in
        ground (arith, pid, v.counted)
  ];
  counted = omega (arith, v.counted, length-append c.sched.procs (p ∷ []));
}

admit-StaysEnded : (c : Core) (p : Process) (i : ℕ) → StaysEnded c (admit c p) i
admit-StaysEnded c p i q e =
    (q, get_elem?-append_left c.sched.procs (p ∷ []) i (get_elem?-lt _ _ e) ∙ e, λ x. (x, refl))

enrolled-cases :
    (k : Kernel) (p : Process) (r : Bool × Core)
    → ((enrolled k p r).1.core ≡ k.core) ⊎ ((enrolled k p r).1.core ≡ admit r.1 p)
enrolled-cases k p (false, c) = inl refl
enrolled-cases k p (true, c) = inr refl

-- A spawn ends with nothing done, or with a handle for the caller and a new entry.
enrol-cases :
    (k : Kernel) (p : Process) (cap_slot : ℕ)
    → ((enrol k p cap_slot).1.core ≡ k.core)
      ⊎ ((enrol k p cap_slot).1.core ≡ admit (install_process_cap k.core p.pid cap_slot).1 p)
unfolding enrol
enrol-cases k p cap_slot = enrolled-cases k p (install_process_cap k.core p.pid cap_slot)

pub enrol-IsValid :
    (k : Kernel) (p : Process) (cap_slot : ℕ)
    → IsValid k.core
    → p.pid ≡ k.core.sched.next_pid
    → length k.core.sched.procs < u64_max
    → IsValid (enrol k p cap_slot).1.core
enrol-IsValid k p cap_slot v pid room = elim (enrol-cases k p cap_slot) [
  | inl e ↦ subst IsValid (sym e) v
  | inr e ↦
      let d = (install_process_cap k.core p.pid cap_slot).1 in
      let touches = install_process_cap-Touches k.core p.pid cap_slot in
      let w = Touches-IsValid k.core d touches v in
      let next = Touches-next_pid k.core d touches in
      subst IsValid (sym e)
        (admit-IsValid d p w (pid ∙ sym next) (omega (arith, next, v.counted, w.counted)))
]

pub enrol-StaysEnded :
    (k : Kernel) (p : Process) (cap_slot i : ℕ) → StaysEnded k.core (enrol k p cap_slot).1.core i
enrol-StaysEnded k p cap_slot i = elim (enrol-cases k p cap_slot) [
  | inl e ↦ subst (λ x. StaysEnded k.core x i) (sym e) (λ q g. (q, g, λ x. (x, refl)))
  | inr e ↦
      let d = (install_process_cap k.core p.pid cap_slot).1 in
      subst (λ x. StaysEnded k.core x i) (sym e)
        (StaysEnded-trans k.core d (admit d p) i
          (Touches-StaysEnded k.core d i (install_process_cap-Touches k.core p.pid cap_slot))
          (admit-StaysEnded d p i))
]
