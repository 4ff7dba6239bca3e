-- ===== src/Lib.antt =====
-- OShm: the operating-system extensions of this repository, and what they do.
--
-- The program is a set of patched files of Linux 5.15.178 (kvm/linux-5.15.178, called linux below), two
-- firmware programs (edk2) and a packet capture tool (tcpdump). The parts share little: copy_process
-- (linux/kernel/fork.c) gives each task its key-value store and its socket attributes, the limit of
-- those is checked where net/socket.c makes a socket, and the driver of linux/drivers/acpi shows the
-- table that the program of edk2/MyAddAcpiPkg installs. All the rest interacts through the kernel, whose
-- calls are parameters here.
--
-- Prelude: the names that all parts use. Numbers are natural numbers; `ℤ` is a C `int`, `long` or
-- `ssize_t`; words that wrap are written with their modulus.
--
-- KvStore: linux/kernel/kv_store.c. `write_kv` and `read_kv` are the system calls, as actions on the
-- `Store` of a process, in which a task that spins for ever is `none`. Trace is the specification, a map
-- from keys to values, and runs of calls; Fork is the part of copy_process; Threads are the
-- interleavings of the calls of several threads, split where a lock is held.
--
-- Task, SocketAttrs: the three fields of task_struct (linux/include/linux/sched.h), and
-- linux/kernel/set_thread_socket_attrs.c; references to tasks and RCU read locks are counted.
--
-- Socket: linux/net/socket.c. `sock_create_in` is __sock_create, `sock_release` __sock_release; Calls has
-- __sys_socket and do_accept, Pair __sys_socketpair, and
-- Descriptor the calls from __sys_bind to __sys_shutdown, over a log of what they ask and call. The state counts the inodes, protocol sockets,
-- module references and read locks that are held. The security hooks, the protocols and the file layer
-- are arguments.
--
-- Fork: linux/kernel/fork.c. Copy is copy_process, as a chain of stages over what is held; a failing stage
-- jumps to one of the functions of Labels, named as the labels are. The new task is what is copied or
-- shared of the caller; the assignments of fields that take nothing are left out. Args has the arguments of
-- fork, vfork, clone and clone3, Vfork is kernel_clone and the wait of a vfork as steps of the two tasks,
-- and Unshare is ksys_unshare over objects that are counted. Flags are tested bit by bit.
--
-- Sock: linux/net/core/sock.c. Life is the socket between sk_alloc and __sk_free, which sk_free and
-- sock_wfree reach; Memory is __sk_mem_schedule and __sk_mem_reclaim, with pages of 4096 bytes; Timeout
-- the two time limits, with 250 ticks in a second; Backlog the lock and __release_sock, as steps under
-- the spin lock. Options has what setsockopt changes: Timestamps, Set (sock_setsockopt, without the lock of
-- the socket; SO_INCOMING_CPU and SO_CNX_ADVICE, which other files carry out, change nothing here), Get
-- (sk_getsockopt), Priority (sock_init_data) and Clone (sk_clone_lock). The protocol, the memory group,
-- the filters and the capabilities answer by parameters.
--
-- Vdso: linux/arch/x86/entry/vdso/vma.c and vget_task_struct_info.c. Map is map_vdso and map_vdso_once
-- on a list of mappings, with the memory manager as a parameter; Address is vdso_addr; Fault has the three
-- fault handlers; TaskInfo is the user's function, which reads through the pages of Fault.
--
-- Ramfs: linux/fs/ramfs/inode.c and file-mmu.c. Vfs is the interface to the kernel's file layer, with
-- the laws that the code relies on, and Disk meets them. Parse and Bind are /proc/fs/ramfs/bind, ProcSync
-- is /proc/fs/ramfs/sync, Copy is copy_file_content, Flush is ramfs_file_flush, Write has ramfs_fsync and
-- ramfs_file_write_iter, Inodes the directory operations, Mount the mount option and the set-up.
--
-- Acpi: App is edk2/MyAddAcpiPkg/Application/MyAddAcpiApp/MyAddAcpiApp.c, Show is
-- linux/drivers/acpi/my_acpi_message.c, and Memory, Change and Print are edk2/MyAcpiPkg/MyAcpi.c, over a
-- memory of bytes.
--
-- Tcpdump: tcpdump/custom_tcpdump.c, with libpcap as a parameter.
--
-- Bounds and fuel: the copy loop takes fuel, and any above the length of the file is enough, since each
-- round that goes on copies a byte at least; the printing of ACPI tables takes the depth of its calls as
-- fuel, and two are enough where no FACP points to a FACP. Numbers are printed with 64 digits at most,
-- which a 64-bit word never needs. All other loops go over a list or a count.
--
-- Not modelled: the rest of the upstream code of these files, such as the file operations and the message
-- headers in linux/net/socket.c and the other options of sk_getsockopt and the waiting in
-- linux/net/core/sock.c; linux/fs/ramfs/file-nommu.c; log messages; the
-- release functions of a ramfs, which only free memory; tcpdump/main.c; and what is not C: fuse, nccl and
-- ovmf.
pub mod Prelude
pub mod KvStore
pub mod Task
pub mod SocketAttrs
pub mod Socket
pub mod Fork
pub mod Sock
pub mod Vdso
pub mod Ramfs
pub mod Tcpdump
pub mod Acpi
