-- ===== src/Lib.antt =====
-- Verification of the OpenAgentOS kernel (kernel/, include/).
--
-- The kernel runs up to twelve agents. They exchange messages through inboxes (kernel/ipc.c), are
-- scheduled on up to four harts (kernel/sched.c), call the kernel with user pointers that it checks
-- (kernel/uaccess.c, kernel/vm.c), and keep files in memory (kernel/ramfs.c), on which stand an agent's
-- home directory (kernel/namespace.c), its session log (kernel/session.c with the quota of
-- kernel/tenant.c) and its audit log (kernel/audit.c). kernel/persist.c stores the files on a block
-- device, and kernel/ota.c installs programs from update packages among them. Agents reach all this
-- through the tools of kernel/tool.c, which asks the quota, the policy (kernel/policy.c), the agent's
-- capabilities and the tool's own check, and logs the call. kernel/agent.c ties these together: a send
-- checks a capability and a quota (kernel/quota.c), copies the caller's string, pushes a message into
-- the target's inbox and makes the target runnable; the scheduler then picks it.
--
-- Files. A function of the C code keeps its name, less a prefix that its module says.
--   Prelude, Prelude/*   numbers, lists and their lemmas, C's signed values
--   Abi                  include/agentos.h: sizes, codes, `Msg` for `struct agent_msg`
--   Bytes, Decimal       C strings and byte buffers; the digit loops that print a number
--   Ring                 a ring of slots as the list that it holds
--   Ipc                  kernel/ipc.c: `Msgbox` and `msgbox_*`; Ipc/Summary the summary message;
--                        Ipc/Queue the two bounded queues that specify it; Ipc/Refine, Ipc/Compact,
--                        Ipc/Run the refinement; Ipc/Text, Ipc/Terminated the text and the bounds of
--                        the summary
--   Ramfs                kernel/ramfs.c: `File`, `Files` and `ramfs_*`; Ramfs/Content the map from
--                        paths to bytes that specifies it; Ramfs/Valid, Ramfs/Laws, Ramfs/UserFiles;
--                        Ramfs/Names, Ramfs/Distinct the names in the table
--   Paths                the parsers of agent paths; Paths/Numbers, Paths/Digits
--   Usage                the byte-by-byte measure of a file
--   Namespace, Tenant, Session, Audit
--                        the files of those names under kernel/, with their theorems below them
--   Words, Crc           words in memory, and the checksum of kernel/persist.c and kernel/ota.c
--   BlockDevice          the block device as a record of its operations, and what one that works does
--   Persist              kernel/persist.c: `persist_*`; Persist/Sectors, Persist/Stored,
--                        Persist/Synced what a sync leaves on the device, Persist/Restore, Persist/RoundTrip,
--                        Persist/Empty what a load makes of it
--   Ota                  kernel/ota.c: `ota_*`, Ota/Calls those with user pointers; Ota/Accept,
--                        Ota/Package, Ota/Wrap
--   Policy               kernel/policy.c: `policy_*`; Policy/Tools, Policy/Net, Policy/Load,
--                        Policy/Parse
--   Tool                 kernel/tool.c: `tool_dispatch` over a table and the audit line; Tool/Checks,
--                        Tool/Runs the functions of the table; Tool/Gate, Tool/Accounts, Tool/Log,
--                        Tool/Line, Tool/Access, Tool/Strings, Tool/Sum
--   Spinlock             kernel/spinlock.c; Spinlock/Exclusion
--   Mem                  kernel/mem.c: `Heap`, `kalloc` and `kalloc_page`; Mem/Blocks
--   Vm, Uaccess          `vm_user_check` of kernel/vm.c over a page table, and kernel/uaccess.c;
--                        Vm/Tables the tables of kernel/vm.c, Vm/Walk, Vm/Map, Vm/Shared;
--                        Uaccess/Text the strings of user programs
--   Kernel               the agent table, the run queues and the quota counters as one record
--   Sched                kernel/sched.c; Sched/Queue run queues, Sched/Pick and Sched/Progress the
--                        choice of the next agent
--   Quota, Agent         kernel/quota.c and kernel/agent.c; Agent/Post, Agent/Text, Agent/Send,
--                        Agent/Recv, Agent/Alloc what the calls do; Agent/Invariant, Agent/RecvInvariant the
--                        tables that they keep
--   */Tests, StorageTests  the theorems at concrete states
--
-- Conventions. State is passed explicitly, and a call is one step: calls of different harts are taken
-- one after the other, though `agent_send` and `agent_recv` hold a lock only within each part. An
-- `int` that may be negative is an integer of Prelude/Int; an error is the negative number that the
-- code returns. A user pointer is its address, 0 for NULL. A pointer to a buffer that the code writes
-- is a value that is returned. The kernel's own buffers are never null, and their null tests are left
-- out, as are console output, memory barriers and interrupts between harts.
--
-- Bounds. The loops are structural recursions over the list that they scan, but for these: the check
-- of a user range runs over `len / 4096 + 2` pages, which is as many as a range of `len` bytes
-- touches; the digit loop of a number `n` has `n` rounds to go, and needs at most that many; the
-- measure of a file has one round for each of its 8192 offsets; the last loop of `pick_next` has
-- twelve passes, as in the code. A file of `size` bytes has as many rounds as sectors on the device.
--
-- Parameters. The block device and SHA-256 are arguments: the device with the laws that a sector that
-- was written with success is read back, and that a write changes no other sector; SHA-256 with none.
-- What the kernel's memory holds behind a package's buffer is an argument too, and so is the address
-- of the pool of page tables, which has 64 tables of 4096 bytes.
--
-- Not modelled: devices, traps, the network stack and the TLS library under third_party/; of
-- kernel/vm.c the maps of kernel, stack and heap and copy-on-write; the creation of agents with their
-- stacks; `ramfs_write` for offsets of 2 ^ 63 and more, which make its sum wrap around and its
-- loop store outside of the array, and which no call in the kernel gives; kernel/elfload.c, catalog.c,
-- fleet.c, mesh.c and remote.c; of kernel/tool.c the tools for sessions, quotas, tenants, homes, audit
-- logs, updates, fleets, devices, the clock and the network; the kernel images kernel/kernel_*.c, the stubs kernel/*_stub.c and the programs under user/.
pub mod Prelude
pub mod Abi
pub mod Decimal
pub mod Bytes
pub mod Words
pub mod Crc
pub mod Paths
pub mod Mem
pub mod Vm
pub mod Uaccess
pub mod Ring
pub mod Ipc
pub mod Ramfs
pub mod Usage
pub mod BlockDevice
pub mod Persist
pub mod Tenant
pub mod Session
pub mod Audit
pub mod Policy
pub mod Ota
pub mod Spinlock
pub mod Kernel
pub mod Sched
pub mod Quota
pub mod Agent
pub mod Namespace
pub mod Tool
pub mod StorageTests
