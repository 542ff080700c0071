-- ===== src/Lib.antt =====
-- CreoBench, a distributed open-loop load-testing tool: an orchestrator distributes a load profile
-- over load generators, and collects the reports of each interval from them.
--
-- The parts, and the files that model them:
--
--   Net/Bytes, Net/Utf8   the byte buffers of the crate `bytes` as an interface with its documented
--                         laws (Buffer), big-endian numbers, and the check of UTF-8
--   Net/Value             serde's data model: Value is what a `Serialize` sends, Shape what a
--                         `Deserialize` asks for
--   Net/Ser, Net/De       BytesSerializer (src/net/ser.rs) and BytesDeserializer (src/net/de.rs)
--   Net/Encoding          the wire format as a specification; Net/Serialized and Net/Deserialized
--                         relate the code to it
--   Net/ZeroWidth         sequences whose elements have no bytes
--   Net/Protocol          the message and its header (src/net/protocol.rs)
--   Net/Framer            the codec over the stream of bytes (src/net/framer.rs): MessageFramer's
--                         encode is encode_frame, its decode is decode; Net/Framer/RoundTrip,
--                         Partial and Stream are about whole messages, cut ones, and chunks
--   Math                  f64, Duration and the random generator as an interface (Numbers), and
--                         sample_exponential (src/math/exponential/core.rs)
--   Load/Time             instants and measurements (src/load/time)
--   Load/Schedule         the steps and the Poisson arrivals (src/load/schedule.rs); Process says
--                         what arrivals are possible, Windows where they fall, Total when none panics
--   Transaction           a transaction and how it ends (src/transaction)
--   Tracker               the counters of a load generator and the interval reports (src/tracker.rs)
--   Orchestrator/Distribute   the shares of the load generators (src/orchestrator/distribute.rs)
--   Orchestrator/Phases   the phase of a report (src/orchestrator/persist/mod.rs) and the summary of
--                         dropped transactions (src/orchestrator/summary.rs)
--   Orchestrator/Csv      the fields and rows of CSV files (src/orchestrator/persist/csv.rs); Reading has
--                         a reader of such files
--   Orchestrator/Rows     the rows of interval.csv and transactions.csv
--                         (src/orchestrator/persist/interval.rs and transactions.rs)
--   Orchestrator/Persist  the persisters and writer_loop (src/orchestrator/persist); Files and Contents
--                         are about what stands in the files
--   Orchestrator/Collect  a round of reports (src/orchestrator/phases/collect.rs): Reporters, Rounds and
--                         Merged are about its loop and its end, Outcomes about the whole
--   Script                the Lua scripts (src/script): Lua is the runtime of the crate mlua as an
--                         interface (LuaApi), Parser the parser of request specs with Spec and Method,
--                         Func the loader and the calls of functions, Names the index of names,
--                         Runner the ScriptRunner and its cursors; Calls says how one call of a
--                         function ends, Jumps and Circles are about chains of jumps, Static about
--                         scripts without functions, Indexed, Valid and Setup about the cursors and
--                         the index of names
--   VirtualUser/Http      the executor of requests and its cookies (src/virtual_user/http), with the
--                         HTTP client and the URLs as an interface (HttpApi)
--   VirtualUser/User      a virtual user (src/virtual_user/user.rs); Outcome is about one request,
--                         Cycle about many
--   Cli/GeneratorAddr     the addresses of load generators (src/cli/generator_addr.rs), with Cli/Decimal
--                         for the numbers of ports
--   VirtualUser/Pool      the pool of virtual users (src/virtual_user/pool.rs); Steps has its calls
--                         interleaved, Calls each by itself
--   Dispatch              taking a virtual user on schedule (src/dispatch.rs); OnTime says when
--   LoadGenerator/Phases  warmup and load test of a load generator (src/load_generator/phases/ready.rs);
--                         Reports is about the results that are reported, Finish about the end
--   Config/Profile        the load profile of a configuration (src/config/profile.rs); Increasing is
--                         about those that are accepted
--   Vectors               `Vec::swap_remove` of the standard library
--   Tests                 the theorems at concrete inputs, with concrete buffers and numbers
--
-- How they interact: the orchestrator distributes profile and warmup over the load generators; each
-- generator draws its arrivals from its share, opens a transaction at each arrival, and logs how it
-- ended in its tracker; the interval reports of the trackers travel as framed messages to the
-- orchestrator, which collects them and sums up the transactions that were dropped.
--
-- Conventions. Integers are natural numbers with their wrap-around written out; arithmetic that
-- panics on overflow in a debug build wraps, as in a release build. Durations and instants are
-- nanoseconds. A panic of the code is `none` in Math, Load/Schedule, Orchestrator and
-- VirtualUser/Pool; in Script/Runner and LoadGenerator/Phases it is the value `panic`.
-- Where the code reads the clock, the instant is an argument. `usize` has 64 bits.
--
-- Bounds and fuel: `arrivals n` is at most n calls of `next`, and `next` itself is structural
-- recursion over the remaining steps. The reader of Net/Framer/Stream calls `decode` at most as often
-- as its buffer has bytes, and once more: each message takes at least twelve of them. The loop of
-- collect_reports has the number of handles as fuel: each round moves one handle on or removes it.
-- The fuel of Script/Runner stands for the stack, which the jumps of a script use up: Jumps says what
-- is enough, Circles when nothing is. That of setup_user also bounds the requests of the setup. The loops of
-- LoadGenerator/Phases run over a list of what happens in each turn; where it is too short, the wait
-- for the transactions in flight ends with the value `waiting`, and Finish says when it is long enough.
--
-- Not modelled: reading sockets, files and the clock, what a Lua script computes (the crate mlua runs
-- it), sending HTTP requests (the crate reqwest), the wording of messages, logging, and the interleaving of the tracker's atomic
-- accesses within one call.
pub mod Prelude
pub mod Vectors
pub mod Math
pub mod Load
pub mod Net
pub mod Transaction
pub mod Tracker
pub mod Script
pub mod VirtualUser
pub mod Dispatch
pub mod LoadGenerator
pub mod Orchestrator
pub mod Config
pub mod Cli
pub mod Tests
