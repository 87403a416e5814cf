-- ===== src/Lib.antt =====
-- Verification library for the Xernel microkernel.
--
-- Xernel is a capability microkernel: a process reaches nothing that no entry of its capability
-- table names. The kernel keeps those tables, the physical memory, the processes and the one
-- processor they share, and the queues over which they talk; file system, network and shell live in
-- user space. The parts modelled here:
--
-- - Prelude: what all modules share. Numbers are native; a `u64` keeps its wrap-around written out
--   (`add64`, `sub64`, `mul64`), as in the release profile, where the debug profile would panic.
-- - Cap (Xernel/kernel/src/cap.rs): the capability types and the packed port range. Cap.Node is the
--   table `CNode` with its operations; an operation that changes the table returns the new one.
-- - Frame (Xernel/kernel/src/mm/frame.rs): the allocator of physical page frames, with a bump
--   cursor over the usable regions and a free list. The `Vec` of the free list has its head at the
--   end of the vector. `x & !4095` is written `x / 4096 * 4096`. The frame contents are not modelled.
-- - Process (Xernel/kernel/src/process.rs): the process table and its scheduler, from `run` on.
--   `Core` is the table together with the state of the processor that a switch changes: the
--   address space, the two kernel stack pointers and the saved stack pointers (`switch` of
--   arch/x86_64/context.rs, `switch` of arch/x86_64/vspace.rs, `set_kernel_stack` of
--   arch/x86_64/mod.rs and arch/x86_64/syscall.rs). The contents of the stacks are not modelled. An
--   index into the table that would panic is ruled out by the invariant `IsValid`. Process.Steps has the
--   calls on the table as steps, the moves of `sbrk` and the enrolments of `spawn` among them.
-- - Entry (Xernel/kernel/src/arch/x86_64/syscall.rs, apic.rs, idt.rs): the edge of the kernel. `Processor` has the
--   registers, the pair of GS bases and a memory of words, and `run` executes the instructions of
--   the two stubs, `syscall_entry` and `timer_isr`. What the kernel does between entry and return is
--   a parameter, of which Entry.Syscall and Entry.Timer name what the stubs rely on: the calling
--   convention, and that the words of a process on its own kernel stack are left alone. Entry.Bases
--   has `enter_user`, and the ways in and out of the kernel as steps that run the stubs, and
--   Entry.Faults the handlers of the exceptions.
-- - Ipc (Xernel/kernel/src/endpoint.rs, notification.rs, frame_ref.rs): the objects that
--   processes share, each table of mutexes as a list. A step under a lock is one step.
-- - Keyboard (Xernel/kernel/src/arch/x86_64/keyboard.rs): the ring buffer between the interrupt
--   handler and the readers, and the table of scancodes.
-- - Threads (Xernel/kernel/src/sched.rs, ipc.rs): the kernel threads, their round robin, and the
--   queue of a channel.
-- - Syscall (Xernel/kernel/src/syscall.rs): `Kernel` puts the parts together, with the physical
--   memory and the page tables. The tables are the translation that the x86_64 crate computes from
--   them, from an address space and a page to a frame and its rights; `user_range_ok` of
--   arch/x86_64/paging.rs and the user buffers rest on it. Syscall.Ipc has the calls that move
--   messages, capabilities and signals or control a process, with the accessors of process.rs that
--   they use; of a call that waits it is one round, which answers or blocks the process.
--   Syscall.Memory has those that give memory: sys_iomap, sys_dma_alloc, sys_frame_alloc and
--   sys_map_frame. There the mapping of one page is a parameter, since the x86_64 crate does it:
--   nothing is assumed of it. The cache attributes of a mapping are not modelled.
-- - Vspace (Xernel/kernel/src/arch/x86_64/vspace.rs): address spaces. Their tables take a frame and
--   share the upper half; the mapping of a page is the same parameter.
-- - Elf (Xernel/kernel/src/elf.rs): the loader. Elf has the header, Elf.Pages the first pass, whose
--   sorted map is an ascending list, and Elf.Load the two passes over memory.
-- - Spawn (Xernel/kernel/src/process.rs): the creation of processes with their capabilities,
--   Spawn.Env the environment that a parent hands on, Spawn.Heap the break, and Spawn.Runs the steps
--   on the process table that they are. The boot image and the
--   places of the kernel stacks are parameters.
-- - Calls (Xernel/kernel/src/syscall.rs): the other system calls, in Calls.Dispatch the choice
--   among all of them, and in Calls.Ports what they do to the devices. What the hardware answers is
--   the record `Platform`.
-- - Fs (Xernel/userland/init/src/main.rs): the file system of the service host, over a block device
--   that is the record `Disk`, which Virtio.Disk implements. Its laws, `Fs.Device.IsLawful`, are what a disk does: a write that
--   succeeds is what is read from that sector later, and no other sector changes.
-- - Net (Xernel/userland/init/src/main.rs): the checksum, the frames of TCP, ARP and DHCP, the
--   handshake, and in Net.Service the sockets and requests of the service host, over a network
--   device that is the record `Nic`. A panic is the result `none` of a `Run`; modelled are those of the
--   buffer of a frame in `net_tcp_send` and of the indexes and slices of `net_buffer_frame`. Other
--   indexes are read as within their buffers.
-- - Virtio (Xernel/userland/init/src/main.rs): the two virtio drivers, over the record `Bus`: the calls
--   of the kernel that reach the device, and the device itself, which works when a port is written
--   and while a driver polls. Memory is a function from addresses to bytes. Virtio.Block is the block
--   driver (`blk_init`, `blk_rw`), Virtio.Card the network driver (`net_init`, `net_rx_arm`,
--   `net_rx_wait`, `net_tx`). Virtio.Decode and Virtio.Packet say what a device finds in the queues;
--   `Virtio.Device.IsBlockDevice` is how a block device answers by the virtio standard, and
--   `IsHealthy` that it answers with success. Virtio.Disk makes the block driver with such a device
--   the `Disk` of Fs. The addresses of the driver and the physical addresses are related by the
--   parameter `seen`. The handle of a failed driver is dropped, as in the source.
--
-- Loops over a list are structural recursion. A loop that waits (`wait_pid`, `recv`, `read`) is
-- modelled by one round, which returns or hands the processor on; what it waits for is stated about
-- the rounds. A loop that moves an index has the rounds left as an argument, as many as the source
-- makes: the pages of a segment, the sectors of a file, the attempts of a receive. The bytes of a
-- segment are the bound for the rounds that copy it, since each copies a byte or more, and two rounds
-- fold the carries of a 32-bit sum. A loop that polls a device looks once more often than the source
-- lets it turn, since it gives up at the turn after the last.
--
-- Not modelled: devices and their registers (APIC, serial line, framebuffer, PCI), descriptor
-- tables, the model specific registers, the page tables of the x86_64 crate, the start of the
-- service host and the demonstrations of the initial user program, the architectures that are stubs,
-- and the build tool.
pub mod Prelude
pub mod Cap
pub mod Frame
pub mod Process
pub mod Calls
pub mod Elf
pub mod Entry
pub mod Fs
pub mod Ipc
pub mod Keyboard
pub mod Net
pub mod Spawn
pub mod Syscall
pub mod Threads
pub mod Virtio
pub mod Vspace
