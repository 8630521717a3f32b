-- ===== src/Lib.antt =====
-- A simulator of an ARM processor, written in C: its memory and registers, the processor state, the
-- decoding and execution of instructions, and the exceptions. `arm_step` (arm_instruction.c) fetches
-- a word through arm_core.c, chooses a function by the bits of the word, and passes a result other
-- than 0 on to `arm_exception`. The functions of arm_data_processing.c, arm_load_store.c and
-- arm_branch_other.c read and write registers and memory through arm_core.c only, which chooses the
-- bank of registers by the mode in the status register. A debugger drives the simulator: the scanner
-- (scanner.l) finds the packets in its input, and gdb_protocol.c carries their requests out.
--
-- The files and the code that they are about:
--   Prelude      Boolean tests, the integers of C results, casts to unsigned widths
--   Bits         laws of the bitwise operations on numbers
--   Util         the macros of util.h
--   Machine      what C leaves open: byte order of the build, wide shifts, unassigned variables
--   Constants    arm_constants.h and the register numbers of registers.h
--   Memory       memory.c: `Memory` is `struct memory_data`, a function from indices to bytes
--   Registers    registers.c: the array `registre`, a function from indices to words
--   Core         arm_core.c but for `arm_create`: `Arm` is `struct arm_core_data`
--   Exception    arm_exception.c, and `arm_create` of arm_core.c
--   DataProcessing, LoadStore, Branch, Instruction
--                arm_data_processing.c, arm_load_store.c, arm_branch_other.c, arm_instruction.c
--   Valid        the well-formed states; Valid/Step has its steps
--   Libc         what the code uses of the C library: sscanf of numbers, atoi, strings, hex printing
--   Gdb          gdb_protocol.c: the connection and the table of breakpoints; Gdb/Replies what is sent,
--                Gdb/Handlers the requests, Gdb/Analysis the table of handlers and a whole packet
--   Scanner      scanner.l and scanner.c: the tokens in the input and what is done for each;
--                Scanner/Automaton the state tables of scanner.c, Scanner/Session and
--                Scanner/Requests whole exchanges of packets and replies
--   Debug        debug.c: the table of the files whose debug messages are shown
--   Trace        trace.c and the macros of trace_location.h
--   Simulator    arm_simulator.c: the start, the turns of the two threads, and Simulator/Options, the
--                options of the command line
--   Names        arm_constants.c, and the choice of an interrupt in send_irq.c
--   Encoder      command_creator.c
--   Tests        concrete states
--
-- A function of the code that changes the state takes an `Arm` and gives its `int` result with the
-- new `Arm`. One that may index memory past its end gives an `Option`, with `none` where the address
-- sanitizer, which Makefile.am turns on, stops the process. An argument passed by pointer is an
-- argument with its old content and a result with its new one. A variable that the code may read
-- before it is assigned is taken from the `Machine`, as is a shift by 32 places or more; the
-- theorems hold for every `Machine` unless they say otherwise. Numbers are natural numbers, and each
-- conversion to a C type of w bits is written out as a remainder modulo 2^w.
-- The loops over the bytes of a word and over the 15 registers count their rounds down, as do those
-- that move breakpoints; the binary search among n breakpoints has n + 1 units of fuel, one more than the
-- entries left to search at any time.
--
-- The switch of `arm_execute_instruction` has labels that stand twice, left by a merge; the model
-- reads each as a text that falls through to the next. Sign overflow of `1 << 31` is taken as two's
-- complement.
--
-- A connection with gdb is a record `Gdb`: the processor, the table of breakpoints, the last
-- packet, the texts that have been written to the socket, and whether it is shut. A handler takes
-- the array behind the letter of its request and gives the new connection, or `none` where the
-- process is stopped, by a NULL pointer, a failed `assert` or a write to a socket that is shut, or
-- where it has no defined outcome, by an access outside an array. The array of a handler ends
-- behind the NUL that the analysis writes behind the checksum; in C the buffer of the scanner goes
-- on there, and a request G or X that is too short for its content reads from it, where the model
-- gives `none`. `cont` has no bound in the code: `run_on` has fuel, one unit for each step, and
-- gives `none` where that runs out. The scanner has one round for each character of its input and
-- one more for its end, and a token takes a character at least. The input is the list of the bytes
-- that arrive before the stream ends.
-- A transition of the automaton follows two defaults at most and has three units of fuel.
--
-- The table of debugged files has the comparison `strcmp` of the C library; its search has one unit of
-- fuel more than names. The options are those that getopt_long of the C library finds, in their order;
-- whether a trace file can be opened is a parameter. What trace.c prints is kept as the pieces of its
-- formats, in the build without ARM_TRACE_FORMAT. Trace/Locations has the part of a run that trace.c
-- sees: the calls through the macros, one inside the other, and what arm_core.c prints in them.
--
-- Not modelled: the calls of the trace and of the debug messages in the other files, and the printf
-- calls, which write only and change no state of the simulation; the sockets and the usage texts of
-- arm_simulator.c and send_irq.c; the buffers that flex generates in scanner.c; csapp.c, a copy of
-- a library; and the freeing of memory.
pub mod Prelude
pub mod Bits
pub mod Util
pub mod Machine
pub mod Constants
pub mod Debug
pub mod Registers
pub mod Core
pub mod Exception
pub mod DataProcessing
pub mod LoadStore
pub mod Branch
pub mod Instruction
pub mod Valid
pub mod Libc
pub mod Gdb
pub mod Encoder
pub mod Memory
pub mod Scanner
pub mod Simulator
pub mod Names
pub mod Trace
pub mod Tests
