-- ===== src/Syscall/Keeps.antt =====
-- What each system call of Xernel/kernel/src/syscall.rs leaves of the capabilities that are held or
-- on their way.
use xernel.Prelude.{
  ◌==◌, Bool-cases, Option-cases, u64_max, ℕ, ◌≡◌, refl, sym, ap, subst, ◌∙◌, ◌⊎◌, inl, inr, Bool,
  true, false, Option, none, some, List,
}
use xernel.Syscall.Ipc.{
  written, cap_in, running, current_cap_get, current_endpoint_id, current_notification_id,
  current_process_pid, with_core, granted, sent, send_to, sys_send, Round, answers, waits, take_in,
  took_in, received, sys_recv, signalled, sys_signal, polled, sys_wait, sys_kill, grant_status,
  grant_cap, sys_cap_grant,
}
use xernel.Syscall.{Kernel}
use xernel.Cap.{Result, ok, err, to_option, CapEntry}
use xernel.Cap.Node.{get}
use xernel.Ipc.Endpoint.{Endpoint, Message}
use xernel.Process.{Core, Process, on_endpoint, on_notification}
use xernel.Process.Switch.{block_on, wake}
use xernel.Process.Control.{kill, grant_to}
use xernel.Syscall.Confinement.{
  Held, KeepsCaps, Held-KeepsCaps, wake-KeepsCaps, block_on-KeepsCaps, kill-KeepsCaps,
  install_at-Held, grant_to-Held,
}
use xernel.Syscall.Messages.{InFlight, send-InFlight, try_recv-InFlight}
use xernel.Ipc.Endpoint
use xernel.Ipc.Notification

-- The capability is somewhere in the system.
abbrev pub Known : Kernel → CapEntry → Type 0
Known k cp = Held k.core cp ⊎ InFlight k.endpoints cp

current_cap_get-Held :
    (c : Core) (slot : ℕ) (cp : CapEntry) → current_cap_get c slot ≡ some cp → Held c cp
current_cap_get-Held c slot cp h = by_process (running c) refl h
  where
    by_result :
        (p : Process)
        → running c ≡ some p
        → (r : Result CapEntry) → get p.caps slot ≡ r
        → to_option r ≡ some cp
        → Held c cp
    by_result p e (ok x) g h = (c.sched.current, slot, p, e, g ∙ ap ok (cc h))
    by_result p e (err x) g h = absurd (cc h)

    by_process :
        (o : Option Process) → running c ≡ o → to_option (cap_in o slot) ≡ some cp → Held c cp
    by_process none e h = absurd (cc h)
    by_process (some p) e h = by_result p e (get p.caps slot) refl h

-- The state a round leaves.
abbrev pub state_after : Round → Kernel
state_after (answers status k) = k
state_after (waits k) = k

unfoldable pub Keeps : Kernel → Kernel → Type 0
Keeps k l = (cp : CapEntry) → Known l cp → Known k cp

same-Keeps : (k : Kernel) → Keeps k k
unfolding Keeps
same-Keeps k cp h = h

pub with_core-Keeps : (k : Kernel) (c : Core) → KeepsCaps k.core c → Keeps k (with_core k c)
unfolding Keeps
with_core-Keeps k c keeps cp (inl h) = inl (Held-KeepsCaps k.core c cp keeps h)
with_core-Keeps k c keeps cp (inr h) = inr h

sent-Keeps :
    (k : Kernel) (id word : ℕ) (cap : Option CapEntry)
    → ((cp : CapEntry) → cap ≡ some cp → Held k.core cp)
    → Keeps k (send_to k id word (some cap)).1
unfolding Keeps
sent-Keeps k id word cap own cp h =
    by_send (Endpoint.send k.endpoints id word cap) (send-InFlight k.endpoints id word cap cp) h
  where
    by_send :
        (r : Bool × List Endpoint)
        → (InFlight r.1 cp → InFlight k.endpoints cp ⊎ (cap ≡ some cp))
        → Known (sent k id r).1 cp
        → Known k cp
    by_send (true, eps) from (inl h) =
        inl (Held-KeepsCaps k.core (wake k.core (on_endpoint id)) cp (wake-KeepsCaps k.core _) h)
    by_send (true, eps) from (inr h) = elim (from h) [
      | inl old ↦ inr old
      | inr new ↦ inl (own cp new)
    ]
    by_send (false, eps) from h = h

pub sys_send-Keeps :
    (k : Kernel) (ep_slot word cap_slot : ℕ) → Keeps k (sys_send k ep_slot word cap_slot).1
unfolding sys_send
sys_send-Keeps k ep_slot word cap_slot = elim (Option-cases (current_endpoint_id k.core ep_slot)) [
  | inl e ↦ rw (e, sys_send) (same-Keeps k)
  | inr (id, e) ↦ rw (e, sys_send) (by_slot id)
]
  where
    by_slot : (id : ℕ) → Keeps k (send_to k id word (granted k.core cap_slot)).1
    by_slot id = elim (Bool-cases (cap_slot == u64_max)) [
      | inl nothing ↦ rw nothing (sent-Keeps k id word none (λ cp h. absurd (cc h)))
      | inr slot ↦ elim (Option-cases (current_cap_get k.core cap_slot)) [
        | inl e ↦ rw (slot, e) (same-Keeps k)
        | inr (cp, e) ↦
            rw (slot, e)
              (sent-Keeps k id word (some cp)
                (λ x h. current_cap_get-Held k.core cap_slot x (e ∙ h)))
      ]
    ]

written-Keeps :
    (k : Kernel) (out_ptr word : ℕ) (fits : Bool) → Keeps k (written k out_ptr word fits).1
unfolding Keeps
written-Keeps k out_ptr word true cp h = h
written-Keeps k out_ptr word false cp h = h

-- A capability taken in was in the message.
take_in-Held :
    (c : Core) (cap : Option CapEntry) (dst_slot : ℕ) (cp : CapEntry)
    → Held (take_in c cap dst_slot).1 cp
    → Held c cp ⊎ (cap ≡ some cp)
take_in-Held c none dst_slot cp h = inl h
take_in-Held c (some new) dst_slot cp h = elim (Bool-cases (dst_slot == u64_max)) [
  | inl e ↦ inl (rw e at h)
  | inr e ↦ elim (install_at-Held c c.sched.current dst_slot cp new (rw e at h)) [
    | inl old ↦ inl old
    | inr same ↦ inr (ap some (sym same))
  ]
]

took_in-Keeps :
    (k l : Kernel) (out_ptr word : ℕ) (cap : Option CapEntry) (r : Bool × Core)
    → ((cp : CapEntry) → InFlight l.endpoints cp → InFlight k.endpoints cp)
    → ((cp : CapEntry) → Held l.core cp → Held k.core cp)
    → ((cp : CapEntry) → Held r.1 cp → Held k.core cp ⊎ (cap ≡ some cp))
    → ((cp : CapEntry) → cap ≡ some cp → InFlight k.endpoints cp)
    → Keeps k (state_after (took_in l out_ptr word r))
unfolding Keeps
took_in-Keeps k l out_ptr word carried_cap (false, c) fewer own from carried cp (inl h) =
    inl (own cp h)
took_in-Keeps k l out_ptr word carried_cap (false, c) fewer own from carried cp (inr h) =
    inr (fewer cp h)
took_in-Keeps k l out_ptr word carried_cap (true, c) fewer own from carried cp h =
    elim (written-Keeps (with_core l c) out_ptr word _ cp h) [
      | inl held ↦ elim (from cp held) [ inl old ↦ inl old | inr new ↦ inr (carried cp new) ]
      | inr flies ↦ inr (fewer cp flies)
    ]

pub sys_recv-Keeps :
    (k : Kernel) (ep_slot out_ptr dst_slot : ℕ)
    → Keeps k (state_after (sys_recv k ep_slot out_ptr dst_slot))
unfolding sys_recv
sys_recv-Keeps k ep_slot out_ptr dst_slot =
    elim (Option-cases (current_endpoint_id k.core ep_slot)) [
      | inl e ↦ rw (e, sys_recv) (same-Keeps k)
      | inr (id, e) ↦ rw (e, sys_recv) (by_message id (Endpoint.try_recv k.endpoints id) refl)
    ]
  where
    by_message :
        (id : ℕ) (r : Option Message × List Endpoint)
        → Endpoint.try_recv k.endpoints id ≡ r
        → Keeps k (state_after (received k id out_ptr dst_slot r))
    by_message id (none, eps) e =
        with_core-Keeps k (block_on k.core (on_endpoint id)) (block_on-KeepsCaps k.core _)
    by_message id (some (word, sent_cap), eps) e =
        took_in-Keeps k (record k { endpoints = eps }) out_ptr word sent_cap
          (take_in k.core sent_cap dst_slot)
          (λ cp h. (try_recv-InFlight k.endpoints id cp).0 (subst (λ r. InFlight r.1 cp) (sym e) h))
          (λ cp h. h) (λ cp h. take_in-Held k.core sent_cap dst_slot cp h)
          (λ cp h.
            (try_recv-InFlight k.endpoints id cp).1 word
              (ap (λ r. r.0) e ∙ ap (λ x. some (word, x)) h))

signal-Keeps : (k : Kernel) (id : ℕ) (r : Bool × List ℕ) → Keeps k (signalled k id r).1
unfolding Keeps
signal-Keeps k id (true, words) cp (inl h) =
    inl (Held-KeepsCaps k.core (wake k.core (on_notification id)) cp (wake-KeepsCaps k.core _) h)
signal-Keeps k id (true, words) cp (inr h) = inr h
signal-Keeps k id (false, words) cp h = h

pub sys_signal-Keeps : (k : Kernel) (notif_slot bits : ℕ) → Keeps k (sys_signal k notif_slot bits).1
unfolding sys_signal
sys_signal-Keeps k notif_slot bits =
    elim (Option-cases (current_notification_id k.core notif_slot)) [
      | inl e ↦ rw (e, sys_signal) (same-Keeps k)
      | inr (id, e) ↦
          rw (e, sys_signal) (signal-Keeps k id (Notification.signal k.notifications id bits))
    ]

wait-Keeps : (k : Kernel) (id : ℕ) (r : Option ℕ × List ℕ) → Keeps k (state_after (polled k id r))
unfolding Keeps
wait-Keeps k id (none, words) cp h =
    with_core-Keeps k (block_on k.core (on_notification id)) (block_on-KeepsCaps k.core _) cp h
wait-Keeps k id (some bits, words) cp h = h

pub sys_wait-Keeps : (k : Kernel) (notif_slot : ℕ) → Keeps k (state_after (sys_wait k notif_slot))
unfolding sys_wait
sys_wait-Keeps k notif_slot = elim (Option-cases (current_notification_id k.core notif_slot)) [
  | inl e ↦ rw (e, sys_wait) (same-Keeps k)
  | inr (id, e) ↦ rw (e, sys_wait) (wait-Keeps k id (Notification.poll_take k.notifications id))
]

pub sys_kill-Keeps : (k : Kernel) (proc_slot signal : ℕ) → Keeps k (sys_kill k proc_slot signal).1
unfolding sys_kill
sys_kill-Keeps k proc_slot signal = elim (Option-cases (current_process_pid k.core proc_slot)) [
  | inl e ↦ rw (e, sys_kill) (same-Keeps k)
  | inr (pid, e) ↦
      rw (e, sys_kill)
        (with_core-Keeps k (kill k.core pid signal).1 (kill-KeepsCaps k.core pid signal))
]

grant-Keeps :
    (k : Kernel) (pid dst_slot : ℕ) (o : Option CapEntry)
    → ((cp : CapEntry) → o ≡ some cp → Held k.core cp)
    → Keeps k (grant_cap k pid dst_slot o).1
unfolding Keeps
grant-Keeps k pid dst_slot none own cp h = h
grant-Keeps k pid dst_slot (some new) own cp h =
    by_grant (grant_to k.core pid new dst_slot) (grant_to-Held k.core pid dst_slot cp new) h
  where
    by_grant :
        (r : Bool × Core)
        → (Held r.1 cp → Held k.core cp ⊎ (cp ≡ new))
        → Known (grant_status k r).1 cp
        → Known k cp
    by_grant (true, c) from (inl h) = elim (from h) [
      | inl old ↦ inl old
      | inr same ↦ inl (own cp (ap some (sym same)))
    ]
    by_grant (true, c) from (inr h) = inr h
    by_grant (false, c) from h = h

pub sys_cap_grant-Keeps :
    (k : Kernel) (proc_slot src_slot dst_slot : ℕ)
    → Keeps k (sys_cap_grant k proc_slot src_slot dst_slot).1
unfolding sys_cap_grant
sys_cap_grant-Keeps k proc_slot src_slot dst_slot =
    elim (Option-cases (current_process_pid k.core proc_slot)) [
      | inl e ↦ rw (e, sys_cap_grant) (same-Keeps k)
      | inr (pid, e) ↦
          rw (e, sys_cap_grant)
            (grant-Keeps k pid dst_slot (current_cap_get k.core src_slot)
              (λ cp h. current_cap_get-Held k.core src_slot cp h))
    ]
