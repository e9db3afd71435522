-- ===== src/Lib.antt =====
-- QLForth is a Forth system for a J1 chip on an FPGA: it reads a source text, keeps the host's words and the
-- target's apart, compiles the target's definitions to a list of nodes (the SST), generates J1 instructions
-- from the list, and runs a definition on a simulator of the chip.
--
-- The parts, the files of the repository, and the modules:
--
--  * src/simulator.c, the chip: Chip has the registers, stacks and memory (`Chip`), the ALU and a round of the
--    loop (`alu`, `alu_step`, `step`); Chip.Run has the loop (`execute_loop`, `execute`) and the entry from the
--    host (`chip_execute` for `QLForth_chip_execute`).
--  * src/code.c, the code generator: Code has the two passes (`generate_node`, `resolve_node`, `pass`,
--    `code_generation` for `Code_generation`) and the instruction of each word (`alu_code_packet`).
--  * src/QLForth.h, the nodes: Sst. An index of the buffer stands for a pointer to a node.
--  * src/qlforth.c, the symbol table: Symbols (`symbol_add` for `QLForth_symbol_add`, `symbol_search` for
--    `QLForth_symbol_search`). The number of a symbol stands for its address. Functions names the C functions that
--    a symbol's `fun` points to.
--  * src/qlforth.c and src/compiler.c, the SST buffer, the dictionary and the words that append one node: Compile
--    (`sst_append` for `QLForth_sst_append`, `qlforth_alloc`, `extension_table`).
--  * src/forth.c, the control words in the compile and in the macro state: Control (`cfp_if` to `cfp_next`); the
--    defining words: Define; the integer primitives of the host: Host; the float words: Floats; the routines that
--    run macros: Macro, with `macro_execute` of src/qlforth.c.
--  * src/qlforth.c, the scanner (`qlforth_token` for `QLForth_token`): Scan; the numbers (`forth_number`): Number; the
--    commands: Actions, which has the whole program as one state (`Forth`); the interpreters of the four states and the
--    loop over a text: Interpreter; `QLForth_init` and `QLForth_interpreter`: Interpreter.Init; the line number
--    of a report: Report.
--  * src/compiler.c, the listing of the SST (`sst_list` for `QLForth_sst_list`): Listing. src/main.c: Console
--    (`display_stack`, `report`). What is printed is a list of the texts and conversions of the calls of `printf`
--    (`Piece` in Output).
--  * the tables of words in src/forth.c, src/compiler.c and src/qlforth.c, and what fills the vocabularies from
--    them: Tables.
--
-- A text goes through the scanner word by word; the interpreter of the state looks the word up and runs its
-- function, appends a node, writes a cell of the dictionary, or takes it as a number. At the end of a file the
-- nodes go through the code generator into the memory of the chip, and a line of the console can run a definition
-- there.
--
-- The specifications are Machine, an abstract Forth machine on lists (`meaning`), its programs (Machine.Programs),
-- the assembler of straight-line code (`assemble` in Code.Straight), the layout of structured code (`layout` in
-- Control.Structure), its meaning (`flow_meaning` in Machine.Flow) and its code with every jump at its address
-- (`flow_code` in Code.Flow), and the words of a macro one after another (`run_words` in Macro.Returns), and the
-- effect of the host's words on a list of numbers (`effect` in Host.Lists.Effects). Opcodes is the table of the
-- words that are one instruction. A text becomes words (Scan.Words) and numbers (Number.Numerals, and on the
-- console Console.Numbers), words between `:` and `;` become nodes (Define.Definition, on Control.Correct), the
-- nodes of a straight-line body become instructions (Code.Straight), and the instructions run as the words mean
-- (Code.Definition, on Chip.Refines, Chip.ReturnStack and Chip.Literal). Code.Flow does the same for definitions
-- with branches and loops, on Chip.Jump: Code.Flow.Generation has the two passes over their nodes,
-- Code.Flow.Correct and Code.Flow.Definition their run. Pipeline puts these together: from `:` to the chip's
-- memory, and Pipeline.Run from the console's word to the host's stack; Pipeline.Flow and Pipeline.Flow.Run are
-- the same for branches and loops. Pipeline.Valid is about every run of the chip, and Interpreter.Fits,
-- Interpreter.Words and Interpreter.Loop are about the loop over a text. Prelude has the shared helpers.
--
-- C data: an `unsigned short` is a number cut to 16 bits where it is assigned, an `int` its 32-bit pattern, a
-- `float` its pattern too; an array is a function of the index. What C leaves undefined, such as a place out of an
-- array, is `fault`; a report by `QLForth_error` is `error`, without the state that the `longjmp` leaves behind.
-- `strtoul` is written out after its documentation, for an `unsigned long` of 32 bits, and a cell, which holds a
-- pointer, has 8 bytes. The arithmetic of floats, the C library's functions of them, and `strtod` are arguments of
-- the definitions that use them; nothing is supposed of them.
--
-- Fuel: a loop's rounds are bounded by a number in `flow_meaning`, and the theorems are for every bound. The run
-- of the chip and of a macro take fuel, one unit for a round; Code.Definition and Macro.Returns say how much a
-- straight-line definition and a macro of primitives take. A pass of the generator takes one unit for a node and
-- is given as many as the buffer has. The loops of the scanner and of the interpreter take one unit for a round
-- and are given one more than the text has bytes, which Scan.Bounds and Interpreter.Loop show to be enough.
--
-- Not modelled: the calls of the system that read files and lines, whose results are arguments; the handler of
-- signals; `main`; what `QLForth_error` prints, and what goes on after it, as the generation of code in
-- `QLForth_init` and the next line of the console do; `ql4thvm_force_break`, which nothing sets while a macro
-- runs; a host stack and return addresses that meet in `data_stack`: the model keeps the return addresses apart,
-- with a fault where they meet inside a macro, and a push of more than 255 numbers outside a macro overwrites the
-- cell of a return address in C only.
pub mod Prelude
pub mod Sst
pub mod Symbols
pub mod Opcodes
pub mod Machine
pub mod Chip
pub mod Code
pub mod Host
pub mod Compile
pub mod Control
pub mod Define
pub mod Scan
pub mod Number
pub mod Functions
pub mod Floats
pub mod Macro
pub mod Tables
pub mod Actions
pub mod Interpreter
pub mod Pipeline
pub mod Report
pub mod Output
pub mod Listing
pub mod Console
