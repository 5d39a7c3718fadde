-- ===== src/Lib.antt =====
-- ginit, the init system of a desktop machine: the first process, which mounts the file systems,
-- sets up the network, starts the graphical interface, serves its requests for devices, and shuts
-- the machine down.
--
-- The program makes its calls through `Machine`: a kernel is a function of the calls made so far,
-- with their replies, and the program's functions are state passing over that history. A run ends
-- with a result, or with the loop of the panic handler, an `exit` or `execve`, an access beyond an
-- object, or the end of the fuel. A C string is given by its bytes without the NUL.
--
-- Base: native numbers, signed integers as return values, lists, slices and bytes.
-- Machine: calls, replies, worlds, outcomes. Layout: the places of a structure's fields.
-- Linux: src/linux.rs. Consts has the constants; Calls has the wrapper of each system call, with
--   its number and its conversions; Console has Stdout, Stderr, writeln!, the Drop of Fd and the
--   panic handler of src/main.rs; Spawn has create_socket_pair, clone and the spawn functions. The
--   child of a clone runs where the parent waits, as under CLONE_VFORK.
-- Mounts: src/mounts.rs, read_mounts and its parser, with the fields state, cursor and out of
--   `Parser` for its variables. Feed reads the file byte by byte; Array, Chunk and File relate the
--   parser's loops to that; Lines and Cut have files of lines.
-- Shutdown: src/shutdown.rs. The loop of unmount_all has the fuel 256, and the array holds at most
--   127 paths. Phases has its calls in the order of graceful_shutdown, its Calls with arguments.
-- Seat: src/seat.rs, the server and its answers. Flags has the descriptor that is made for the
--   compositor, Requests one datagram, Session all that wait, Rights the control message.
-- Net: src/net.rs, the socket and the three loops over the interfaces. Encode has the requests as
--   bytes, and Requests reads them back; Messages and Acks have the loops of ack_error over the
--   kernel's datagrams; Memory has the places of the buffer that they read; Order has the requests
--   of the three loops with their numbers.
-- Ui: src/ui.rs. Sysctl: src/sysctl.rs.
-- Config: src/config.rs, with the functions that build.rs generates from a list of mounts.
-- Build: build.rs. Settings has its structures and the `Host`, which is all that it asks of its
--   surroundings; Str the functions on strings, which are lists of their UTF-8 bytes; Unquote,
--   Profile, Addr, Libc and Env its functions and the parts of main, of which Script is the rest;
--   Format the templates. Reader, Functions and Generated read the text that the templates give,
--   as the compiler does, and find the types of its variables; Compiled relates the program in it to
--   a Config.
-- Main: src/main.rs. `start` is _start; Loop has the loop of run_event_loop, of which `round` is one
--   pass; Reaping has its branch for the signals, and Rounds the passes behind each other.
-- Held: the descriptors that the first process holds, computed from its calls; its children go
--   through the functions of every part that open and close them. What a child does is no part of
--   it, since a child has a table of its own.
-- Ends: programs that end with a result where the machine takes their messages; Boot has the start,
--   Options the files of sysctl.rs, Spawn the spawned processes, KernelLog and ShuttingDown the
--   shutdown.
-- Ui.Privileges and Config.Mounting: the child's calls and those of the mounts, as the lists of
--   calls of Machine.Chain. Machine.Runs takes a run of two programs apart.
--
-- Loops whose end the outside decides take fuel: the reads of a file, the waits for a process, the
-- datagrams and the rounds of the event loop. The theorems give the fuel that is enough where the
-- kernel's replies end the loop.
--
-- Not modelled: the assembly, the stack of a clone and its alignment, the unaligned access of
-- ack_error, and the messages of the panics of build.rs; the parser of TOML and libc are parameters.
pub mod Base
pub mod Build
pub mod Machine
pub mod Layout
pub mod Linux
pub mod Mounts
pub mod Shutdown
pub mod Seat
pub mod Config
pub mod Net
pub mod Ui
pub mod Sysctl
pub mod Main
pub mod Held
pub mod Ends
pub mod Tests
