-- ===== src/Lib.antt =====
-- Verification of the example programs of the Transtech TTM50 SCSI TRAM and its file system.
--
-- The repository holds C programs for a transputer module with a SCSI interface. They call a SCSI
-- library (TTM50/LIBS/SCSI.H) that the repository has in binary form only: it is a parameter of
-- the model (Scsi/Library.antt), with what the programs rely on as named hypotheses of theorems.
--
-- Parts, and the files that model them:
--
-- - Prelude: names of the libraries passed on; Tests, Lists and Text for C's tests, arrays and
--   texts over the native numbers; Decimal for printed numbers; Word for 32-bit integers as bit
--   patterns; Run for programs over a state that may end by exit; Scan for the conversions of
--   sscanf.
-- - Scsi: TTM50/LIBS/SCSI.H. Scsi/Inquiry.antt has the inquiry structure and its bytes: bit fields
--   are laid out from the least significant bit on.
-- - Target: TTM50/EXAMPLES/TARGET.C, the example target driver. `target_command` and
--   `target_callback` take the driver's state and the target structure, and return both with the
--   action. What other processes do to the state while the driver has the SCSI system unlocked is
--   an argument. Target/Session.antt adds the caller as TTM50/MAN/MAN3/TARGET describes it: after
--   each action the call that belongs to it. Its fuel counts calls: three for each buffer, which the
--   transfer, the disconnect and the reselection take, and one more. Target/Session/Sequence.antt has
--   commands one after the other, Target/Ownership.antt the calls that come in meanwhile.
-- - Disktest: TTM50/EXAMPLES/DISKTEST.C, the disk test: `parse` for the arguments, `plan` for the
--   geometry, `fill`, `dump` and `fill_test`, `trials` for the loop of `main`. The buffer is the
--   bytes from its start on, with what lies behind it. In continuous mode `main` need not end: its
--   fuel counts trials. Otherwise there is one trial. Disktest/FillTest.antt has the fill test,
--   Disktest/Program.antt how the program ends, Disktest/Working.antt its run on a disk that works.
-- - Flash: TTM50/EXAMPLES/FLASH.C, the flash EPROM utility, with the functions of the source by
--   their names. The EPROM is memory that other hardware answers: its reads, writes and waits are
--   functions on a state, as a record. The loops are recursive on the rounds that are left; the hex
--   file is the list of lines that fgets gives, the same at both readings. Flash/Hex.antt has the
--   lines, Flash/Print.antt the lines that a file of given words has, Flash/Check.antt the final
--   checks, Flash/Attempts.antt the attempts for a word, Flash/Exit.antt where the parts end the
--   program and Flash/Program.antt the whole run. Flash/Chip.antt has what the chip does on each
--   write and read, as far as the utility relies on it (erasing needs no zeros in front of it, and
--   time plays no part); Flash/Erasing.antt and Flash/Working.antt have the run on an EPROM that
--   does the same, Flash/Target.antt the words that it is programmed with.
-- - Probe: TTM50/EXAMPLES/PROBE.C, the bus probe: `probe_unit` gives the text it prints; `main`
--   the text below the header. The library's variable scsi_id is a function of the bus's state.
-- - Ready: TTM50/EXAMPLES/TEST.C, one TEST UNIT READY command.
--
-- - Tfs: TFS/LIBS/TFS.H, the interface of the file system library, which the repository has in
--   binary form only: a parameter too (Tfs/Library.antt). Tfs/Entry.antt has the bytes of a
--   directory entry, Tfs/Dead.antt a library for the examples to build on.
-- - Find: TFS/EXAMPLES/TFSH/FIND.C. `find_path` is the C function `_find`. Its fuel counts the calls
--   and rounds under way. Find/Listing.antt has trees of files, their listing and their size, which
--   is as much fuel as the walk takes, and what it means that a file system holds a tree;
--   Find/Passed.antt which files and entries count, Find/Walk.antt the walk over one,
--   Find/Arguments.antt the documented command lines.
-- - Bench: TFS/EXAMPLES/TFSH/BENCH.C, in parts that the jumps of the source lead to. Bench/Ledger.antt
--   puts a ledger of files and memory under it, Bench/Working.antt a file system that keeps the file.
-- - Shell: TFS/EXAMPLES/TFSH/TFS_UTIL.C and RTFSH.C: the session commands in Shell.antt, `tfsh`, the
--   main programs and `listen` in Shell/Start.antt, the tables of commands in Shell/Commands.antt.
--   Shell/Prompt.antt has the sessions that commands reach one after the other, Shell/Begin.antt how
--   `tfsh` comes to its commands, Shell/Program.antt where `listen` writes.
-- - Fulltest: TFS/EXAMPLES/TFS/FULLTEST.C: the overwriting and the fstat test in Fulltest.antt, the
--   tests at random positions in Fulltest/Files.antt, those of directories, links and permissions in
--   Fulltest/Names.antt, the bandwidth test and `main` in Fulltest/Suite.antt. Fulltest/Store.antt is
--   a file system that keeps a file as TFS/MAN/MAN3 says, Fulltest/Buffers.antt has the parts of the
--   buffers, Fulltest/Overwrite.antt, Fulltest/Sequential.antt and Fulltest/Attributes.antt what
--   three of the tests show. Fulltest/Lookup.antt and Fulltest/Scattered.antt have the blocks that
--   are written at random positions, Fulltest/Filling.antt the gaps between them and
--   Fulltest/RandomWrite.antt that whole test. Fulltest/Halting.antt, with a file for the tests of
--   Files and one for those of Names, has where each test can stop, Fulltest/Ending.antt how `main`
--   ends. The fuel is for the search of a free name in `test_rmdir`, which the source does not
--   bound: 23 rounds are enough where no name is longer than TFS_NAME_MAX. Fulltest/Tree.antt is what
--   TFS/MAN/MAN3 says of names, links, permissions and directories, Fulltest/Directory.antt,
--   Fulltest/Umask.antt and Fulltest/Links.antt have the tests of them, Fulltest/Naming.antt these
--   tests one after the other, and Fulltest/Naming/Disk.antt a file system that does what it says.
-- - Fulltest/Remote: TFS/EXAMPLES/RTFS/FULLTEST.C, the same test program over a connection. Most of
--   its tests are copies of the local program's and are defined by them. Fulltest/Remote/Ending.antt
--   has the connection and how the program ends, Fulltest/Remote/Memory.antt the comparison of two
--   structures as bytes, gaps included: what stands in the gaps is a parameter.
-- - Mkfs: TFS/EXAMPLES/TFS/MKFS.C, the file system maker and the process for error messages.
-- - User: TFS/EXAMPLES/IOROUTER/USER.C, which writes a file over the router and reads it back. The
--   file functions of the C library are a record. User/Transfer.antt has what a file system is that
--   keeps its files, and the run over one.
--
-- Numbers: an int is its 32-bit pattern where the code computes with it, and an integer where it
-- only passes it on. Messages that the programs print are left out, as are structure fields that
-- no program reads. Uninitialised fields that the library sets start as 0.
--
-- Not modelled: the command reader of the two shells, and the commands in their tables that have
-- no source here; clocks and the rates that are printed, which are floating point; the
-- libraries, which are there in binary form only, and the structures of their interfaces that no
-- program uses.
pub mod Prelude
pub mod Scsi
pub mod Target
pub mod Disktest
pub mod Flash
pub mod Fulltest
pub mod Mkfs
pub mod Probe
pub mod Ready
pub mod Tfs
pub mod User
pub mod Find
pub mod Bench
pub mod Shell
