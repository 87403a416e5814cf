-- ===== src/Process/Log.antt =====
-- The log buffer of a process in Xernel/kernel/src/process.rs keeps the latest bytes.
use xernel.Prelude.{
  leb, length, drop, length-append, length-drop, get_elem?-modify_self, ℕ, zero, suc, ◌-◌, ◌≤◌, ◌≡◌,
  refl, sym, ap, ◌∙◌, true, false, some, List, [], ◌∷◌, ◌++◌, append_assoc, append-nil, arith,
  dec_lt,
}
use xernel.Process.{Process, Core, process_at}
use xernel.Process.Control.{log_buf_cap, log_push, log_bytes, with_log, log_write}

drop-append_one :
    (buf : List ℕ) (b k : ℕ) → k ≤ length buf → drop k (buf ++ b ∷ []) ≡ drop k buf ++ b ∷ []
drop-append_one buf b zero h = refl
drop-append_one [] b (suc k) h = absurd (omega arith)
drop-append_one (x ∷ buf) b (suc k) h = drop-append_one buf b k (omega arith)

drop-suc : (k : ℕ) (xs : List ℕ) → drop 1 (drop k xs) ≡ drop (suc k) xs
drop-suc zero xs = refl
drop-suc (suc k) [] = refl
drop-suc (suc k) (x ∷ xs) = drop-suc k xs

-- The latest bytes of a history that the buffer has room for.
abbrev pub latest : List ℕ → List ℕ
latest xs = drop (length xs - log_buf_cap) xs

log_push-latest : (xs : List ℕ) (b : ℕ) → log_push (latest xs) b ≡ latest (xs ++ b ∷ [])
log_push-latest xs b = elim (dec_lt (length xs) log_buf_cap) [
  | yes room ↦
      let none_yet : length xs - log_buf_cap ≡ 0 = omega arith in
      let still : length (xs ++ b ∷ []) - log_buf_cap ≡ 0 =
        omega (arith, length-append xs (b ∷ [])) in
      rw (none_yet, still) (let t : leb log_buf_cap (length xs) ≡ false = ground arith in rw t refl)
  | no full ↦
      let more : length (xs ++ b ∷ []) - log_buf_cap ≡ suc (length xs - log_buf_cap) =
        omega (arith, length-append xs (b ∷ [])) in
      let t : leb log_buf_cap (length (latest xs)) ≡ true =
        ground (arith, length-drop (length xs - log_buf_cap) xs) in
      rw (more, t)
        (rw drop-suc (sym (drop-append_one xs b (suc (length xs - log_buf_cap)) (omega arith))))
]

log_bytes-latest : (xs bytes : List ℕ) → log_bytes (latest xs) bytes ≡ latest (xs ++ bytes)
unfolding log_bytes
log_bytes-latest xs [] = rw append-nil
log_bytes-latest xs (b ∷ bytes) =
    ap (λ buf. log_bytes buf bytes) (log_push-latest xs b)
    ∙ log_bytes-latest (xs ++ b ∷ []) bytes
    ∙ ap latest (append_assoc xs (b ∷ []) bytes)

-- However much a process writes, and over however many calls, its log buffer holds the latest
-- bytes of all that was written, in order, 65536 of them at most: a write to a buffer that holds
-- the latest bytes of a history leaves it holding the latest bytes of the longer history.
pub log_write-latest :
    (c : Core) (p : Process) (history bytes : List ℕ)
    → process_at c.sched c.sched.current ≡ some p
    → p.log_buf ≡ latest history
    → (q : Process) × (process_at (log_write c bytes).sched c.sched.current ≡ some q)
      × (q.log_buf ≡ latest (history ++ bytes))
      × (length q.log_buf ≤ log_buf_cap)
unfolding log_write
log_write-latest c p history bytes e h =
    let new : log_bytes p.log_buf bytes ≡ latest (history ++ bytes) =
      rw h (log_bytes-latest history bytes) in
    (
      with_log (log_bytes p.log_buf bytes) p,
      get_elem?-modify_self c.sched.procs c.sched.current
          (λ p. with_log (log_bytes p.log_buf bytes) p) e,
      new,
      rw new
          (omega (arith, length-drop (length (history ++ bytes) - log_buf_cap) (history ++ bytes))),
    )
