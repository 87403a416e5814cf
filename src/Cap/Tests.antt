-- ===== src/Cap/Tests.antt =====
-- The capability table at concrete inputs: a driver with a port window, a device window and a
-- budget, as Xernel/kernel/src/process.rs seeds the root task.
use xernel.Prelude.{
  ◌==◌, if◌then◌else◌, ℕ, ◌+◌, ◌^◌, ◌≤◌, ◌<◌, ◌≡◌, refl, ap, ◌↔◌, true, false, none, some, [], ◌∷◌,
  arith,
}
use xernel.Cap.Node.{
  CNode, new, len, get, insert, authorizes_port, authorizes_mmio, charge_untyped, refund_untyped,
}
use xernel.Cap.{
  CapType, null, untyped, cnode, frame, page_table, thread, vspace, endpoint, notification,
  irq_handler, io_port, io_mem, process, type_number, same_type, CapError, ok_code, invalid_cap,
  invalid_arg, no_mem, not_permitted, would_block, bad_op, faulted, Result, ok, err, ◌>>=◌, ok_or,
  to_option, is_ok, Result-cases, CapEntry, new_cap, io_port_cap, process_cap, io_mem_cap,
  untyped_cap, endpoint_cap, notification_cap, frame_cap, port_base, port_count, within_mmio,
  process_pid, frame_object, describe,
}
use xernel.Cap.Node.Laws.{get-insert}
use xernel.Cap.Node.Budget.{total_budget, refund-charge-total}
use xernel.Cap.Node.Authority.{authorizes_mmio-held}

abbrev driver : CNode
driver = record {
  slots =
      some (io_port_cap 0xc000 0x4000)
      ∷ some (io_mem_cap 0xc000_0000 0x4000_0000)
      ∷ some (untyped_cap 8192)
      ∷ none
      ∷ [];
}

abbrev driver_paid : CNode
driver_paid = record {
  slots =
      some (io_port_cap 0xc000 0x4000)
      ∷ some (io_mem_cap 0xc000_0000 0x4000_0000)
      ∷ some (untyped_cap 4096)
      ∷ none
      ∷ [];
}

abbrev driver_linked : CNode
driver_linked = record {
  slots =
      some (io_port_cap 0xc000 0x4000)
      ∷ some (io_mem_cap 0xc000_0000 0x4000_0000)
      ∷ some (untyped_cap 8192)
      ∷ some (endpoint_cap 1)
      ∷ [];
}

selftest_empty : get (new 8) 0 ≡ err invalid_cap
unfolding get new
selftest_empty = refl

charge_pays : charge_untyped driver 4096 ≡ (true, driver_paid)
unfolding charge_untyped
charge_pays = refl

charge_refuses : charge_untyped driver 8193 ≡ (false, driver)
unfolding charge_untyped
charge_refuses = refl

port_span : (authorizes_port driver 0xffff 1 ≡ true) × (authorizes_port driver 0xffff 2 ≡ false)
unfolding authorizes_port xernel.Cap.authorizes_port
port_span = (refl, refl)

driver_links : insert driver 3 (endpoint_cap 1) ≡ ok driver_linked
unfolding insert
driver_links = refl

get-insert_example :
    (get driver 3 ≡ err invalid_cap)
    × (len driver_linked ≡ len driver)
    × (get driver_linked 3 ≡ (if 3 == 3 then ok (endpoint_cap 1) else get driver 3))
get-insert_example = get-insert driver driver_linked 3 3 (endpoint_cap 1) driver_links

refund-charge-total_example :
    total_budget (refund_untyped (charge_untyped driver 4096).1 4096).slots
    ≡ total_budget driver.slots
refund-charge-total_example =
    refund-charge-total driver 4096 (omega arith) (ap (λ r. r.0) charge_pays)

authorizes_mmio-held_example : (authorizes_mmio driver 0xc000_1000 4096 ≡ true) ↔ (
    (i : ℕ) × (c : CapEntry) × (get driver i ≡ ok c)
    × (c.cap_type ≡ io_mem)
    × (c.object ≤ 0xc000_1000)
    × (0xc000_1000 + 4096 ≤ c.object + c.badge)
    × (c.object + c.badge < 2 ^ 64))
authorizes_mmio-held_example = authorizes_mmio-held driver 0xc000_1000 4096
