-- ===== src/Lib.antt =====
-- A model of the system call tracer of this repository and of the theorems that it keeps to.
--
-- The program (src/) attaches to a Xen guest through LibVMI, puts a breakpoint on the guest's system
-- call entry, and decodes each system call that the guest makes. It learns (a row for each call in
-- syscall-trace.csv), analyses (frames of names sent to server/server.py), watches some calls only
-- (sandbox mode) or just prints (educational mode).
--
-- Which file models which part:
--   Base, Text            shared names, C strings as lists of bytes, printf and sscanf conversions, and
--                         the decoding of UTF-8 in Python (Text/Utf8)
--   Options               main of src/vmi.c, over the list of what getopt returns
--   Program               main with the tracer that it calls: a process, from its options to its exit,
--                         and the server behind it: what is sent, judged and learned
--   SyscallTable          read_syscall_table and check_set_syscalls of src/syscall-trace.c
--   Window                append_syscall of src/client.h, and the frame as server/server.py reads it
--   Flags, Arguments      print_args of src/client.h and the functions that it calls
--   Process               process_syscall of src/syscall-trace.c
--   LibVmi                the calls of LibVMI, a record of operations and one of laws on memory
--   Breakpoint            set_lstar_breakpoint, breakpoint_cb and single_step_cb
--   Connection            connect_server of src/client.h, as the calls of the system that it makes
--   StartUp               the start-up that the four tracers share, and the connection around a run
--   Tracing               introspect_syscall_trace: the whole program, its event loop and its end;
--                         Tracing/Cycle has the events as a step relation, in any order, and
--                         Tracing/Calls the calls that a run gets to see
--   Detection             the server: the bags and windows of server/BoSC.py, its database, and what
--                         server/server.py does with a frame; Detection/Relay goes from the traced
--                         calls to the verdicts, Detection/Learning from the trace file to the
--                         database, with server/analyse_trace.py, and Detection/Clients has the threads
--                         of the server as a step relation on what they share
--   TaskList              print_task_struct of src/client.h
--   OffsetFinders         the kernel modules of tools/, over a layout that is a parameter
--   MemEvent              syscall-trace.c built with MEM_EVENT: its callbacks, loop and end
--   BpLearn, MemLearn     the tracers in files of their own (bp_learn.c, mem_learn.c, mem_analyze.c
--                         and the files of events beside them), which the Makefile does not build
--   Tests                 the theorems at concrete inputs
--
-- State is passed on explicitly. The world behind LibVMI is an abstract type: a call takes a world
-- and gives the next. `vmi_events_listen` calls back, so a run gets a list of rounds, each with
-- the events that the library delivers in it, its status and the clock; what the guest does
-- between two events is a function on worlds in the event. A run whose rounds are used up before
-- the loop ends is `running` (`listening`, `learning`); a theorem on runs that end leaves it out.
-- Values that C leaves undefined (locals that a failing call does not set, the value of a function
-- without a return) are parameters, and so are the answers of the system to the calls of a
-- connection (`Answers`) and of the library to those of the start-up (`Opening`).
--
-- Bounds: reading lines takes the length of the file for fuel, which is enough since a line takes
-- at least one byte; printing a number n takes n + 1 rounds; the walk over the guest's processes
-- takes one round for each, and runs out of fuel on a list that does not come back to its head.
-- Buffers are lists without a bound, and theorems say when the text fits the block that the code
-- allocates.
--
-- Files of the program are taken to have no NUL bytes, with which a line would end early.
--
-- Not modelled: the texts of the messages on stdout and stderr other than the line for a call and
-- those of print_task_struct, the contents of LibVMI (lib/libvmi is a project of its own), overflow
-- of `int` and `float` rounding (`to_float` is a parameter), failing fopen of the trace file and a
-- failing CREATE TABLE, the sigaction calls, the splitting of one frame over several calls of recv,
-- the function `get_args`, which no file holds (a parameter that may change the guest and the trace
-- file), the calls of pandas (`Pandas`, with its documented behaviour in `PandasLaws`), the test
-- programs and samples under tests/, which are guests to trace, and the web application.
pub mod Base
pub mod Text
pub mod Window
pub mod SyscallTable
pub mod Options
pub mod Program
pub mod Flags
pub mod LibVmi
pub mod Arguments
pub mod Process
pub mod Breakpoint
pub mod Tracing
pub mod Connection
pub mod Detection
pub mod StartUp
pub mod BpLearn
pub mod MemEvent
pub mod MemLearn
pub mod OffsetFinders
pub mod TaskList
pub mod Tests
