-- ===== src/Lib.antt =====
-- The general purpose library: C utilities for Linux programs, each used on its own. This
-- development models its components one by one and proves what their callers rely on, or where the
-- code does something else.
--
-- The parts, with the files that model them:
--   linux/utils/src/crc32.c (Crc, Crc/Table, Crc/Serial, Crc/Routines): the tables and the three
--     routines that use them, against a register that takes one bit at a time.
--   linux/glb_hsm/glb_hsm.c, with level_state.c, level2_state.c, level3_state.c and common_level.c
--     (Hsm, Hsm/Init, Hsm/Transition, Hsm/Dispatch, Hsm/Levels; theorems in Hsm/Chains, Hsm/Entering,
--     Hsm/Near, Hsm/Meeting, Hsm/Far, Hsm/Tree, Hsm/Deep, Hsm/Events): a hierarchical state machine. A
--     chart gives the handlers and actions of the states; a machine is its two state pointers, and a
--     run collects the actions it calls.
--   algorithm/SundayMatch.c (Sunday, Sunday/Table, Sunday/Search): sunday_match.
--   linux/utils/src/packet_buffer.c (Packet, Packet/Receive, Packet/Storage): a buffer that receives
--     a header and a body in pieces; the blocks it owns are a map from addresses to sizes.
--   linux/utils/src/stats.c (Stats, Stats/Bounds, Stats/Counts): statistics gathered in batches.
--   linux/serial/basic_serial.c (Serial, Serial/Lines): the settings of a serial line.
--   ipc_competition/ (Ipc, Ipc/Mkdir, Ipc/Semsv, Ipc/Flock, Ipc/Mutex; theorems in Ipc/Leaks,
--     Ipc/Users, Ipc/Removed): locks between processes, and the directories they are named by.
--   linux/utils/src/image_split.c (Split, Split/Tiles): an image cut into tiles.
--   list/singly_linked_list.h and list/singly_linked_list.c (SinglyLinkedList; theorems in
--     SinglyLinkedList/Ends, SinglyLinkedList/Adding, SinglyLinkedList/Passing and
--     SinglyLinkedList/Removing): a list of nodes in a heap.
--   linux/utils/src/shm_mutex.c and linux/utils/src/shm_rw_lock.c (Shm, Shm/Users): locks in a
--     mapped file.
--   linux/utils/src/real_time_fifo.c (Fifo, Fifo/Refine), over the kernel list (KernelList): a queue,
--     against one that is a plain list.
--   linux/gpio/gpio_base.c and linux/gpio/gpio_ctrl.c (Gpio, Gpio/Ctrl; theorems in Gpio/Files and,
--     over a pin as Gpio/Pin has it, Gpio/Access and Gpio/Settings): pins by the files of sysfs.
--   linux/utils/src/file_utils.c (FileUtils, FileUtils/Process; theorems in FileUtils/Copy,
--     FileUtils/Buffer, FileUtils/Command, FileUtils/Running): whole files, and what commands print.
--   linux/utils/src/image_file.c (ImageFile, ImageFile/Places, ImageFile/Frames): the rows of a
--     frame in a file.
--   linux/utils/src/basic_task.c (Task, Task/Creating): threads with attributes.
--   linux/utils/src/i2c_ctrl.c (I2c, I2c/Registers): registers on a bus.
--   pthread/pthread_model.c (PthreadModel, PthreadModel/Stopping): a thread that repeats a routine, as
--     steps that interleave with its end.
--   socket/sniffer.c (Sniffer, Sniffer/Frames, Sniffer/Commands, Sniffer/Receive) and
--     socket/sniffer_framework.c (Sniffer/Framework, Sniffer/Framework/Filters): frames that are
--     recognised, and filters, over the kernel list and the thread of pthread_model.c.
--   algorithm/algo_hmac.c (Hmac, Hmac/Digits): a digest as hex digits.
--   linux/utils/src/net_utils.c (NetUtils, NetUtils/Sockets) and linux/utils/src/time_utils.c
--     (TimeUtils): a socket that listens, and a clock in other units.
--   linux/utils/src/mmap_file.c (MmapFile; theorems in MmapFile/Descriptors, MmapFile/Length): files
--     that are mapped.
--   socket/udp_client.c (Udp; theorems in Udp/Sends, Udp/Sockets): datagrams to one address.
--   cpu_usage.c (CpuUsage, CpuUsage/Scan; the text of /proc/stat in CpuUsage/Rows and CpuUsage/Stat,
--     theorem in CpuUsage/Refresh): the times of a processor.
--   file_library.c (FileLibrary): the length of a file.
-- Prelude holds what these share: the library's names, tests on numbers, lists with an index out of
-- range and parts of lists, signed integers and the laws of xor and masks on numbers. Decimal has
-- what "%d" prints and reads, Hex what "%02x" prints, and KernelList what the clients of the kernel
-- list call and rely on: a client takes the operations as an argument, and its theorems the laws.
-- The locks use the directories of file_mkdir.c, the sniffer the list and the thread; the other
-- components do not call each other.
--
-- Each C function is the definition of its name; a loop is a definition of its own that the function
-- calls. State is passed and returned. A value out of range, a write outside an array or another
-- step that C leaves undefined is the result `none`. Unsigned types wrap, with the modulus written
-- out; an `int` is an exact integer, since its overflow is undefined, and a wider value that is put
-- into an `int` or a `short` keeps its lowest bits. System and library calls are parameters,
-- gathered in records (Tty, System, Robust, Mutex, Rwlock, Sysfs, Stdio, Pthread, Bus, Net,
-- RawSocket, Sockets, Stream, Listening, Datagrams, Mapper, Files); what a theorem takes from their
-- documentation is a record of laws, and the tests give an instance of each that a result below
-- depends on.
--
-- Loops that count run on their number of rounds. Those that search run on rounds given by the
-- caller or by the length of the text, and their theorems say how many are enough: one more than
-- the chain of superstates for hsm_init, the length of the text and one for sunday_match, two for a
-- mutex whose owner died, two more than the whole blocks of a file, one more than the lines that a
-- command prints, 30 for the words of a frame, and one more than the bytes of /proc/stat. The loop of
-- main in sniffer.c has no end; its theorem is about any number of rounds.
--
-- Not modelled: messages and log lines; the mapping of shared memory in each process; threads that
-- run at the same time, but for the thread of pthread_model.c; the loops of cpu_usage.c that keep a
-- processor busy, which compute with doubles and wait for the clock; the copies of the Linux list;
-- tests. list/pool_list.c, linux/gpio/gpio_irq.c and linux/io_backend/ do not compile, nor does the
-- first routine of algorithm/SundayMatch.c as C.
pub mod CpuUsage
pub mod Crc
pub mod Decimal
pub mod Fifo
pub mod FileLibrary
pub mod FileUtils
pub mod Gpio
pub mod Hex
pub mod Hmac
pub mod Hsm
pub mod I2c
pub mod ImageFile
pub mod Ipc
pub mod KernelList
pub mod MmapFile
pub mod NetUtils
pub mod Packet
pub mod Prelude
pub mod PthreadModel
pub mod Serial
pub mod Shm
pub mod SinglyLinkedList
pub mod Sniffer
pub mod Split
pub mod Stats
pub mod Sunday
pub mod Task
pub mod TimeUtils
pub mod Udp
