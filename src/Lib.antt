-- ===== src/Lib.antt =====
-- The rules of sandbox2: how sandboxed_api/sandbox2 puts a seccomp policy together, and what the filter
-- that it installs decides.
--
-- A program makes a `PolicyBuilder`, calls its methods, and builds a `Policy` once. `Policy::GetPolicy`
-- makes of it the BPF program that the kernel runs on every system call of the sandboxee. The builder
-- also collects the mounts of the sandboxee's file system and the hosts that it may connect to. The
-- monitor sends the filter to the sandboxee over a `Comms`, a channel on a socket, and the sandboxee
-- hands it to the kernel.
-- The model is of the x86-64 Linux build; the parts for other architectures and Android are left out
-- as the preprocessor leaves them out.
--
-- Files:
--   Bpf: `sock_filter` and the macros of sandbox2/util/bpf_helper.h. Bpf/Labels: the macros JUMP and
--     LABEL, `seccomp_bpf_label` and `bpf_resolve_jumps` of bpf_helper.c; Bpf/Labels/Lands and Targets
--     prove where jumps lead. Bpf/Exec is an independent description of what a program does, and
--     Bpf/Machine the kernel's filter machine, a parameter given by one law for each kind of
--     instruction; Bpf/Verdict relates the two, and says what a fragment of a filter is.
--   PolicyBuilder/State: the fields of `PolicyBuilder` and the methods that set one. A method is a
--     function from builders to an optional builder: none is a failed CHECK or an exit. Verify: the
--     checks of `AddPolicyOnSyscalls`. Dispatch: the jumps that it puts in front of a policy, with 8-bit
--     and 32-bit truncation written out. Rules: the methods that append to the policies. Groups: the
--     methods that allow groups of calls (Files, Process, Memory, Startup, Network). FileMounts:
--     AddFileAt and its like. Calls: the public methods as one data type, and lists of calls.
--     Build: `TryBuild`. Settings: the fields that
--     only their own methods set, and Settings/Asked what the calls asked for. The
--     modules below these (Sound, Fragment, Keeps, First, Once, Refused) hold proofs.
--   Policy: sandbox2/policy.cc. Policy/Default is an independent description of what the default
--     policy decides; Default/Code and Default/Pieces prove it of the code. Policy/Final is about
--     the whole filter, Policy/Tracking about the one that the flags ask for, and Policy/Safety about
--     the filters of policies that a builder has built.
--   Mounts: sandbox2/mounts.{h,cc}, the tree of mounts and `Insert`; Mounts/Resolve: `ResolvePath`;
--     Mounts/Removal: `Remove`, `AddTmpfs` and the listing. FilePath: util/path.cc. Their children hold
--     proofs.
--   Comms: sandbox2/comms.{h,cc}. Comms/Kernel: the fields of `Comms`, and the system calls as a
--     parameter; a member function goes from an object in a world to an object in a world, with a
--     result, or none where it returns false. Connection: opening and closing. Transfer: `Send` and
--     `Recv`, whose loops recur on what is left. Tlv: messages of tag, length and value. Messages: the
--     typed calls. Descriptors: `SendFD` and `RecvFD`. Comms/Stream says what a stream socket does, by
--     the manual, and Wire, RoundTrip, Fifo, Truncated and Refusals are about the calls on one; Effects,
--     Operations and Reach are about the calls on any kernel; Scan and Address about two functions.
--   Client: `Policy::SendPolicy`, and the parts of sandbox2/client.cc that receive the filter and make
--     the kernel's program of it; Client/Installed relates them.
--   Monitor: sandbox2/monitor_ptrace.cc, the handlers of a call that the filter traces; Monitor/Stops: the
--     other stops and the switch over them; Monitor/Runs: the loop, over a list of what it finds.
--     A handler is a function of the monitor, which keeps what it has asked of the kernel. Outcomes lists
--     the ways in which a handler can end, Judged and Ending are about runs of the loop.
--   Unotify: sandbox2/monitor_unotify.cc, its loop and what follows it; Unotify/Reports is about its runs.
--   NetworkProxy/Filtering: sandbox2/network_proxy/filtering.cc. Bits, Prefix, Masks and
--     Dotted are about its masks, bit by bit, and Networks and Allow about the hosts that it allows.
--   Linux: numbers of system calls and constants of the headers. Text and Status: strings as lists of
--     bytes, and absl::Status by its code. Prelude: shared names and lemmas.
--   Tests: concrete runs, and an interpreter that satisfies the laws of the machine.
--
-- Conditions. A user's policy is plain if its list of calls is not empty and, with the jump over a long
-- policy, not longer than 256, if it is not about ptrace or bpf, and if its instructions are of the kinds
-- that the macros write. A longer list needs the code's helper jump, which Dispatch/Helper is about.
-- Two definitions run on fuel: the loop of `RecvFD` over the control messages, which need not end and
-- which Comms/Scan is about, and the decimal digits of a size, where 20 are enough for 64 bits. Every
-- other loop is over a list or a number. The bytes of numbers are in little-endian order, as on the
-- machines that the library supports. The `int error` of the methods that block calls is a number from 0
-- on. A write or read that fails with EINTR is repeated inside the
-- kernel's parameter, as TEMP_FAILURE_RETRY does.
--
-- Parameters: the kernel's machine, the calls on sockets, the serializer of protocol buffers, stat(2) and statvfs(2), inet_pton(3) and absl::SimpleAtoi, what
-- std::move leaves in an object, what the kernel gives the monitors, the answers of `Notify`,
-- and whether a sanitizer is built in.
--
-- Not modelled: logging and messages of errors; AddLibrariesForBinary, with the parsing of ELF files; the
-- calls of mount(2); the fork server, which mostly waits for the kernel;
-- how the monitors set up and attach to the sandboxee, and the stack traces that they collect;
-- the wait of the ptrace monitor after its loop, which lets the processes that exit go on; the locks of
-- `Comms`, which keep one message of a direction whole, as each call here is; what its refused calls
-- leave in the variables of their callers. The private TrapPtrace is defined, and is no call of the
-- public methods.
pub mod Prelude
pub mod Text
pub mod Status
pub mod FilePath
pub mod Mounts
pub mod NetworkProxy
pub mod Linux
pub mod Bpf
pub mod PolicyBuilder
pub mod Policy
pub mod Comms
pub mod Client
pub mod Monitor
pub mod Unotify
pub mod Tests
