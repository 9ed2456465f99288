-- ===== src/Lib.antt =====
-- A verification library for REDscope, a plugin that records what a game was doing and, when it
-- crashes or hangs, writes a report that names the likely culprit.
--
-- How the parts interact. While the game runs, src/hooks/ScriptStack.cpp keeps a stack of scripted
-- calls for each thread and a table of heartbeats that all threads share, and a worker renews the
-- snapshot of src/snapshot/Snapshot.h: the loaded modules, the installed mods, what the engine says. On
-- an exception the handler decodes the instruction that faulted (src/rtti/FaultInstruction.cpp), looks
-- for game objects in the registers and on the stack (src/rtti/ObjectsInFlight.cpp), decides whether
-- script code ran (src/report/CrashClass.cpp), computes an id for the crash
-- (src/report/Fingerprint.cpp) and a verdict (src/report/CulpritHeuristic.cpp), reads the tails of log
-- files (src/logs/LogTailer.cpp) and appends all of it to a buffer that was allocated beforehand
-- (src/util/PreallocatedBuffer.cpp). A watchdog (src/handler/HangWatchdog.cpp) reads the heartbeats and
-- reports a game that has stopped, and src/snapshot/SessionHistory.cpp compares the mods with those of
-- the session before.
--
-- Which file models what. A file A.antt has its proofs and tests in the folder A.
--   Base: the shared names, lists and texts over the native numbers, signed integers, sorting.
--   Format: what printf and snprintf leave of numbers and texts.
--   Buffer: src/util/PreallocatedBuffer.cpp, the four ways to append, Reserve and Reset; what a series of
--     writes leaves is in Buffer/Writes.antt.
--   Text: src/util/StringUtils.h and src/util/FixedStr.h.
--   ScriptStack: src/hooks/ScriptStack.cpp. `push` and `pop` act on one thread's stack. The heartbeats
--     are a world of threads and one table; a step is one atomic action of one thread, and a run
--     is any order of steps.
--   Modules: FindModuleByPC of src/snapshot/Snapshot.h. Snapshot: the fields of the snapshot that are
--     read here.
--   Fnv: the hash, the mixer and the ids of src/report/Fingerprint.cpp. Fingerprint: the rest of that
--     file, with ComputeFingerprint in Fingerprint/Compute.antt.
--   LogTailer: src/logs/LogTailer.cpp, GlobMatch in LogTailer/Glob.antt and the lines of a log in
--     LogTailer/Lines.antt.
--   CrashClass: src/report/CrashClass.cpp. Culprit: src/report/CulpritHeuristic.cpp, with
--     ComputeVerdict in Culprit/Verdict.antt, one function for each part of its switches.
--   InFlight: src/rtti/ObjectsInFlight.cpp. FaultInstruction: src/rtti/FaultInstruction.cpp, with the
--     decoder in FaultInstruction/Decode.antt.
--   SymbolDb: src/symbols/SymbolDb.cpp. A table is a successful load.
--   Hang: src/handler/HangWatchdog.cpp. Session: src/snapshot/SessionHistory.cpp,
--     with the file of a session in Session/File.antt.
--   Config: src/Config.cpp, and WriteAutoDownloadIni of src/breadcrumbs/BreadcrumbApi.cpp in
--     Config/AutoDownload.antt. Stream: the library's lines, prefixes and separators that these share.
--   Json: the texts and numbers of JSON that src/report/JsonSidecar.cpp writes by hand, a reader of JSON
--     in Json/Accept.antt and a decoder of texts in Json/Unescape.antt. Sidecar: that file, with
--     BuildJsonSidecar in Sidecar/Report.antt and Sidecar/Report/Sections.antt, and the modules that the
--     stack points into in Sidecar/StackModules.antt. Both documents are texts first; Sidecar/Written.antt
--     is what the buffer takes of them, with WriteJsonSidecarFile of src/report/Sections.cpp and
--     ReadDiagnosticJson of src/breadcrumbs/BreadcrumbApi.cpp.
--   Inventory: the types of src/snapshot/InstalledMods.h. Setup: src/snapshot/SetupIntegrity.cpp.
--     GameState: src/snapshot/GameStateLive.cpp. Conflicts: EvaluateConflicts of
--     src/snapshot/CuratedConflicts.cpp, and FinalizeConflictDB in Conflicts/Finalize.antt.
--   Sections: six sections of the report, of src/report/Sections.cpp and src/report/SetupSections.cpp, with
--     EmitLoadedModules in Sections/Modules.antt.
--   CrashArchive: src/breadcrumbs/CrashArchive.cpp.
--   Smbios: ParseSmbiosAndFillRam of src/snapshot/HardwareSpecs.cpp.
--   Handler: src/handler/SehHandler.cpp. A world is the flag and what each thread does; a step is one
--     exception, one report or the end of the process, and a run is any order of steps.
--   CleanSlate: cleanslate/CleanCore.cpp, with PlanFullClean in CleanSlate/Plan.antt and ToJson in
--     CleanSlate/Document.antt.
--   WrapChain: src/snapshot/WrapChain.cpp, the scan of a script in WrapChain/Scan.antt, and the chains of
--     methods that the layers make.
--
-- How state and results are written. Operations take the state and return the next. A text is a list of
-- bytes, and a pointer to one is an optional list. A fixed array is the list of what it holds, and an
-- index out of its range is a result of none (or fault), so that a theorem that a function has a result
-- says that no such read happens. Counters and hashes keep their width: `% 2 ^ 32` and
-- `% 2 ^ 64` are written out. Sizes and positions within objects in memory stay far below 2^63 and are
-- plain numbers.
--
-- Fuel. The glob matcher runs on `rounds`, (name + 1) * (pattern + name + 1) rounds: each step back
-- moves the mark on in the name, and between two steps back the loop consumes the texts. The module
-- search runs on the number of modules and one more, since each round makes the interval smaller. The
-- merge of two mod lists runs on the sum of their lengths and one more. The loops over the table of the
-- firmware run on the bytes that are left and one more. Each is shown to be enough by a
-- theorem about results. All other loops are structural.
--
-- Not modelled: what the operating system, the game's SDK, DbgHelp and simdjson do. Where the code uses
-- them (the objects behind an address, the readable slots of a stack, the format of `printf` for a
-- finished text) they are arguments. Opening and walking files, threads other than the
-- heartbeats' and the exception handler's, and the other sections of the report are not modelled. Into
-- which calls the code divides the text of a JSON document is an argument, of which only that they
-- together are the text is known.
pub mod Base
pub mod Buffer
pub mod CleanSlate
pub mod Config
pub mod Conflicts
pub mod CrashArchive
pub mod CrashClass
pub mod Culprit
pub mod FaultInstruction
pub mod Fingerprint
pub mod Fnv
pub mod Format
pub mod GameState
pub mod Handler
pub mod Hang
pub mod InFlight
pub mod Inventory
pub mod Json
pub mod LogTailer
pub mod Modules
pub mod ScriptStack
pub mod Sections
pub mod Session
pub mod Setup
pub mod Sidecar
pub mod Smbios
pub mod Snapshot
pub mod Stream
pub mod SymbolDb
pub mod Text
pub mod WrapChain
