-- ===== src/Lib.antt =====
-- Verification of the tracing agent of a JVM: collecting the stack traces of all threads by signals,
-- the queues and channels between its threads, its memory checker and malloc hook, the agent that the
-- JVM loads, the reader of performance data files, and the tools that look up and call functions in
-- another process.
--
-- The parts, and the code that they model:
--
--   StackTrace   src/ts/signal_handler.cc. A collection sends a signal with a pointer to a form to
--                every thread, waits for one ack from each or for a timer, and groups the forms.
--     Form       ThreadStack, StackTraceForm (add_address is AddAddress, submit is Submit).
--     Handler    InternalHandler, which fills a form; libunwind is the record Unwind.
--     Order      StackComparator. Group: the std::map under it, and the results.
--     Signals    SignalThread, STLSetDifference and the loop that signals. Acks: the loop that waits.
--     Collect    StackTraceCollector::Collect, composed of these; the system calls are the record Os.
--     Protocol   the collector and the handlers as a step relation, with the life of the forms.
--     Concurrent the same at each turn of the loops of the handlers, with what the forms hold:
--                Concurrent.Refinement relates it to Protocol, Concurrent.Laws to Collect,
--                Concurrent.Termination and Concurrent.Liveness are about how its runs end.
--                A round of the wait that brings nothing is the step `retry`, which changes no state;
--                Protocol leaves it out.
--     Pretty     ToPrettyString. Server: ExternalHandler, ExternalStackTraceSignalHandler and
--                RequestProcessor, as the list of the effects of the service thread; Server.Collected
--                composes them with Collect. Server.Requests: signals and service thread over their
--                pipe. Server.Install: the start of the thread and the installation of the handlers.
--     Listed     ListThreads (Sysutil) and Collect together.
--   Channel      src/ts/common/unbuffered_channel.h: the members are the record Zone; the parts of
--                Write, Read and Close between two waits are functions on it; Channel.System is the
--                step relation of any number of writers and readers. Channel.Spec is the contract in
--                src/ts/common/channel.h, Channel.Refinement relates the two. Channel.Wakeups is the
--                waits on the condition variables and who notifies whom.
--   ZQueue       src/zqueue.h, with what is pushed during each wait as an argument.
--   MemChecker   src/mem_checker.cpp; MemChecker.Lock is trace_lock as a step relation.
--   Hook         src/hook.cpp, on top of MemChecker. ZallocHook: src/__hook.cpp__.
--   MemFuller    src/trace_util.h, mem_fuller as a step relation; MemFuller.Instance is instance.
--   Backtrace    src/trace_backtrace.h. MmapHook: src/mm.cpp.
--   TraceAgent   src/trace_agent.h and src/main.cpp: loading and registration. TraceAgent.Trace is
--                stack_trace, TraceAgent.Workers the agent threads, which read from ZQueue,
--                TraceAgent.Callbacks the other callbacks, TraceAgent.Loading Agent_OnLoad with the
--                signal handlers (StackTrace.Server.Install) and Agent_OnUnload, TraceAgent.Ids
--                get_tid and get_jtid (src/jvm_inner.h).
--   PerfData     src/hsperfdata_parser.h, over the bytes of the file. PerfData.Layout describes a file
--                independently of the parser, as the items that an encoder writes.
--   Sysutil      src/ts/common/sysutil.cc, over what `readdir_r` returns.
--   ScopedLambda src/ts/common/defer.h, as functions on the state of the program.
--   GcAgent      agent.cpp: Agent_OnLoad. GcAgent.Print: the callbacks.
--   Tracer       src/tt.cpp, over a function that gives the word at an address of the traced process.
--     Memory     ptrace_read and ptrace_readstr. Dynamic: get_sym_info and get_dyn_info.
--     Symbols    find_symbol_in_linkmap and find_sym_in_rel.
--     LinkMaps   get_linkmap and find_symbol, which walk lists in the memory of the process.
--     Push       ptrace_write, ptrace_push and the first part of ptrace_call.
--     Control    ptrace_attach, ptrace_cont, ptrace_call, ptrace_detach, call_dl_open.
--     Main       main, composed of these.
--   Injector     src/trace.h, over a function that reads bytes of the process.
--     Inject     inject_code: set_up is its part before the call, put_back the part behind it.
--     Elf        get_linkmap and handle_one_lmap. Run: how a function ends.
--     Search     find_symbol_in_linkmap, find_symbol and find_sym_in_rel. Search.Ends: what ends the
--                search in one library.
--   EarlierAgent src/__trace_agent.h. Monitor: worker and gc_start, as a step relation. Allocs:
--                sighandler, vm_object_alloc and stack_trace, as a run of events. Callbacks: the other
--                callbacks. Register: init, add_cap and reg_event.
--   Types        src/ts/common/types.h; Types.Forms is about the addresses in a form,
--                which are declared with these types.
--   Text         numbers as text, for the report.
--   Common       names, integers and lemmas that all share.
--
-- Each Laws module holds what is proved of its part (so do the modules Refinement, Termination,
-- Liveness and Invariant, MemChecker.Lock, TraceAgent.Trace.Done, the modules of Types and the small
-- ones of StackTrace), each Tests module runs it on examples.
--
-- Numbers are the native natural numbers; int, int64_t and uint64_t keep their bounds written out
-- (to_int32, to_int64, % 2^64). The loops are structural recursions over what the calls return, so a
-- loop that a call could block is a list of rounds, and the end of the list is a state of its own
-- (blocked, waiting, running). Text.render has fuel: 20 digits, enough for every 64-bit number in base
-- 10 and in base 16. In Tracer a copy of `len` bytes has `len` rounds of four bytes, a string of at
-- most 64 bytes has 17. In Tracer and Injector the walks through lists in the memory of the process
-- need not end, so their fuel is an argument: as many rounds as the list has entries are enough, and
-- a walk that needs more is `running`.
--
-- Not modelled: messages that nobody reads back, and code that is not compiled (the main of
-- src/main.cpp, the statements of src/trace.h outside of any function). Libraries and system calls (libunwind, the JVM tool interface, glibc, Symbolize) are
-- arguments: what each call returns.
pub mod Common
pub mod Text
pub mod Types
pub mod StackTrace
pub mod ZQueue
pub mod Backtrace
pub mod MmapHook
pub mod MemFuller
pub mod Channel
pub mod MemChecker
pub mod PerfData
pub mod Hook
pub mod TraceAgent
pub mod Sysutil
pub mod ScopedLambda
pub mod GcAgent
pub mod Tracer
pub mod Injector
pub mod EarlierAgent
pub mod ZallocHook
