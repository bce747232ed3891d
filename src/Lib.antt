-- ===== src/Lib.antt =====
-- g88 is a debugger for the Motorola 88100, made from GDB, with a simulator of the processor in
-- it. The development models the parts of it that decide what the user is told about the program,
-- each as functions over its own state.
--
-- The parts and their files:
--   Base: numbers with their Boolean tests, lists, integers, and the laws of the bit operations.
--   Bitfield: the bit fields of values.c, unpack_field_as_long and modify_field, on a buffer of
--     bytes; the position and the size, which the type has, are arguments. Bitfield/Places and
--     Bitfield/Reread are proofs, by the bits of Base/Digits.
--   Break: breakpoint.c. Break/Chain has the chain of breakpoints and what changes it,
--     Break/Insert the insertion into the target and the removal, Break/Stop the decision at a
--     stop. A breakpoint is a record, a pointer to it is its field `self`, and the target is the
--     interface Break/Target: a state with a read and a write of words, and the law that a write
--     which returns 0 is what is read afterwards. Break/Marks, Break/Restore, Break/Program and
--     Break/Status are proofs.
--   Command: command.c and command.h. Command has the list and what changes it, Command/Lookup
--     the lookup of a line; the variables that hold lists of subcommands are a function from
--     their addresses, so a list may refer to itself. The depth of lookup_cmd_1 is bounded by
--     fuel, one more than the length of the line, which is enough since each level takes a word
--     (Command/Depth). Command/Search and Command/Names are proofs.
--   Decode: decode.c, decode.h and format.h: the table of instructions in its order, and the
--     search of it.
--   Environ: environ.c and environ.h: the vector of strings, and setting, reading and removing a
--     variable. Environ/Access has the proofs.
--   History: the history of values in values.c, in chunks of 60; History/Refine shows that
--     recording appends to a list, and History/Access what a number gives, over the chunks from
--     the oldest on. Values are a parameter.
--   Link: the compressed bytes, shorts and words that the debugger and the monitor send each
--     other: send_word, send_short, send_byte, their get_ functions and the checksum of remote.c
--     and remote.h, the table of compress.h (Link/Table), and get_byte of hmon/mon.c. The line is
--     a list of characters, without those that the driver of the host takes for itself; a call
--     for a byte returns it, waits where the line is empty, or ends in an error (Reply), and any
--     report of the target in the place of a byte is an error. Link/Codes has the laws of the
--     entries that are sent, Link/Stream what a side makes of a code, Link/Yields and Link/Values
--     the values that come of them, and Link/Roundtrip a whole message.
--   Locate: what an address or a line belongs to. Locate/Misc has find_pc_misc_function of
--     blockframe.c, Locate/Blocks block_for_pc, and Locate/Lines find_line_common, find_line_pc
--     and find_line_pc_range of symtab.c; symtab.h and symseg.h have the types. Locate/Sources
--     has find_pc_line of symtab.c, over the files that share a vector of blocks, with
--     find_pc_symtab and find_pc_psymtab; Items, Starts and Line below it are proofs. A vector
--     that is read beyond its end gives a parameter or zeros. Distance, Nearest, Innermost and
--     Closest are proofs. The bisections have as much fuel as the vector has entries, and one
--     more for the blocks, which their theorems show to be enough.
--   Remote: remmem.c: reads and writes of the memory of a target through the cache, over the
--     interface Monitor to the program on the target; a cache line is a function from its 128
--     offsets. Remote/Coherence and Remote/Stale are proofs.
--   Sim/Memory: sim/memory.c: the memory of the simulator as a table of pages, with the devices
--     behind it as the interface Sim/Bus. Sim/Memory/View gives its words and bytes.
--   Sim/Cmmu: sim/cmmu.c and sim/cmmu.h: l_to_p. Sim/Cmmu/Walk has the walk of the tables; it
--     loads and stores through Sim/Memory, as the code does. Sim/Cmmu/Tables describes the tables
--     as a function of the words.
--   Sim/Execute: sim/execute.c, with the registers and operands of sim/sim.h. Sim/Execute has the
--     registers of the simulated 88100 and what every instruction uses of them; Arith, Field,
--     Logic, Branch and Trap below it the instructions on registers, each label of `sim` a
--     function of the decoded instruction and the registers; Label is the dispatch to them;
--     Machine the state of `sim` around an instruction; Exception and Rte the entry of an
--     exception and the return; Flow the branches, the delayed branch and the jumps; Control the
--     instructions on control registers, with sim/misc.c. Whether code can be fetched is the
--     interface Machine.Code, which stands for l_to_d. The other modules below these are proofs.
--     Base/Words and Base/Digits have the words of 32 bits and their bits.
--   Sim/Instr: the table of sim/simdecode.c in its order, with sim/decode.h, the lists by the top
--     six bits that builddecodetable makes of it, and the search that moves what it finds to the
--     front. Sim/Instr/Entry has an entry, Alu, Branches and Memory the rows of the table;
--     Unique, Lists and Search are proofs.
--   Sim/Decoder: decode of sim/simdecode.c, from the instruction that was fetched on, and the
--     fixups: the operands of Sim/Execute for every format. Whether l_to_d finds the target of a
--     branch is a parameter. Sim/Decoder/Safe connects it with the registers.
--   Sim/Access: the loads, stores and exchanges of sim/execute.c through the software tlbs, with
--     l_mem_op, do_mem_op and set_dmt_regs of sim/misc.c and the flushes of sim/siminit.c. It has
--     l_mem_op, over Sim/Cmmu for the translation, Sim/Memory for the pages and the interface
--     Devices for io_operation; Host below it has the transfer between a page and the registers,
--     by the bytes of a host of either order, Tlb the tlbs as two levels of tables, Fault the
--     Data Memory registers, and Labels the labels of sim, each as what its macro is given.
--     Stores, Entered, Keeping, Bytes, Retrieve, Pairs and Reread are proofs, and Steps has the
--     steps of the tlbs as a relation.
--
-- State is passed explicitly: a function that changes a chain, a memory or the registers of a
-- CMMU returns the new one. Numbers are natural numbers; where the code computes on 32 bits the
-- modulus is written out. Loops over the chain, the table, the block ports and the command list
-- are structural recursion; the functions with fuel are lookup_cmd_1, the bisections, and the
-- rotation, which is given its 32 rounds. An exit of the program in err is `none`.
--
-- Not modelled: messages to the user, the freeing of memory, the watchpoints, the readers of
-- symbols and their lookup by name, the expressions and the arithmetic of values, the stack
-- frames, the control of the process, and the serial line with its buffers and commands, which
-- are larger parts of their own; the floating point, the interrupts, the traces and the devices
-- of the simulator, and the fetch of the instruction that decode starts with; and the copies of
-- other libraries (readline, regex, obstack, malloc, alloca). What the host gives for a shift by
-- a negative count, also in a bit field that passes the end of a long, for the distance of the
-- dummy register and for a pointer as a number are parameters of the functions that use them. The
-- order of bytes of the host is a parameter of the functions that store bytes, and what the heap
-- holds behind a string or a cache line is one where the code may read it.
pub mod Base
pub mod Bitfield
pub mod Break
pub mod Command
pub mod Decode
pub mod Environ
pub mod History
pub mod Link
pub mod Locate
pub mod Remote
pub mod Sim
