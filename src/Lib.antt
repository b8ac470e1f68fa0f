-- ===== src/Lib.antt =====
-- A model of the parts of rcdesk that decide: who may join whom, how often, and what is dropped.
-- rcdesk is a remote desktop in the browser. A signaling server (server/) introduces a client to
-- a host (host/), which then streams its screen over WebRTC and adapts to the link.
--
-- - Registry and the files below it: server/src/registry.rs. `Inner` is the server's state, with
--   association lists for its hash maps (Assoc). A method of `Registry` is a function of the same
--   name from a state to its answer and the next state. The parts are Registry/Draws and Pins (PINs
--   and ids), Hosts (`register_host` and what follows a host), Sessions, Join (`join_by_host_id`,
--   `join`) and Routers (`wake_attempt_allowed` and the routers). The proofs are in
--   Registry/Invariant and its children, Run, Registration, Admission, Refusals, Relay, Departure,
--   FreshPins and Wakes.
-- - Ws: server/src/ws.rs, the handlers of messages on PINs and sessions, which call Registry and
--   IpLimit. Host has the loop of `run_host` and its end, Client the arms of `run_client`, Budget
--   `MessageBudget`. Sends and calls of the database are a list of effects; what other connections
--   do meanwhile is a function on the registry. What `ensure_owner_quiet` answers is an argument.
-- - Slot: host/src/signaling/mod.rs, what a host keeps of its session and of a client's login
--   (`SessionSlot`), host/src/dtls_bind.rs (DtlsBind) and host/src/access.rs (Access). Login has the
--   login and the start of a session, Signals `handle_signal_message` and `handle_agent_command`,
--   Events `handle_session_event` and the loops. A handler gives the slot after it and a list of
--   effects; what the world answers meanwhile, the clock included, is a World.
-- - Accounts: server/src/accounts.rs, `normalize_email`, `password_is_valid` and, in Codes,
--   `EmailCodes`; `trim` and `to_lowercase` are parameters, and the digits of a code are drawn.
-- - LogThrottle: host/src/log_throttle.rs, `CallsiteThrottle::allow` and `Throttle::check`.
-- - IpLimit: server/src/ip_limit.rs, the buckets of `IpLimiter` and `GlobalLimiter`.
-- - Adapt: host/src/adapt/mod.rs, `Controller` with `feedback`, `set_preset` and `tick`.
-- - Wake: server/src/wake.rs, `select_wakers`, in Cards `normalize_mac` and `validate_ifaces`, in
--   Networks `owner_networks`; the texts of IPv4 addresses and `trim` are parameters.
-- - Outbound: server/src/registry.rs, `Tx::send` and the kill switch. tokio's channel is a
--   parameter with the laws of ChannelLaws.
-- - Input: host/src/input and proto/src/input.rs. Keymap has the tables of keymap.rs, Pixels
--   `to_pixel`, Router the calls that `apply` and `router_loop` make of an injector, Limits
--   `TokenBucket` and `InputRouter::push`.
-- - Files: host/src/files/mod.rs, `Receiver` and `Downloader`. Names has `sanitize_file_name` and
--   `split_dir`, Disk the file system, Receiver the state and how a file begins, Handlers the
--   messages, Downloader the offers to the client, Sender `send_one` for a regular file, Sweep
--   `sweep_stale_parts`.
-- - Common, Assoc: shared names and laws. Tests: the theorems at concrete inputs.
--
-- A `Tx` is the identity of its channel. Time is a number of nanoseconds and an argument, as is
-- what the random generator draws: a list of indices for each text that is made. The loops that
-- draw until a PIN or an id is free go through that list, and are `starved` where it ends; a list
-- of more distinct PINs than there are in use is enough. A failed `expect` is the outcome
-- `panicked`. A lock that is poisoned is not modelled. `join` takes the lock three times; the
-- sections are functions of their own, so that a history can have other calls between them, and
-- Registry/Run has such histories. `on_join` of Ws/Client does the tests of the limits, `join` and
-- the spending of tokens in one step and at one time, so joins of one address that overlap are not
-- modelled: there several may pass the tests before the first of them spends. The
-- float tokens of server/src/ip_limit.rs are exact, counted in nanoseconds of refill. The float
-- tokens of host/src/input/mod.rs are exact too. Its `f64` coordinates, the file system and the
-- properties of characters that Unicode gives are parameters (Reals, Disk, Chars), and so are an
-- open file (OpenFile, with its law) and the folder that is swept (Swept); what the theorems need
-- of disks and characters is DiskLaws and CharsLaws. A disk's state is what the session's own
-- operations leave; other programs and the thread that retries a removal do not change it. The
-- folder that is swept does change between any two calls (`meanwhile`). A
-- `HashSet` of held keys is a list, drained in its order. `router_loop` has fuel, more than there
-- are messages, and `send_chunks` has more than there are bytes; a round's rectangle is an
-- argument. Its wait for the channel has no bound in the source: `await_room` looks as often as its
-- `patience` says, which is an argument, and that some look within it ends the wait is a hypothesis
-- where a theorem needs it. The tables of LogThrottle are cleared where they are full; what their
-- theorems say holds as long as that does not happen. The 10,000 names that are tried for a file are the source's own bound. The floats of
-- host/src/adapt/mod.rs are a parameter; the theorems on the limits and on what follows a loss need
-- the laws of rounding that Adapt/Floats states, and the latter those of order in Adapt/Laws/Falling.
--
-- In Slot the parts of opaque_ke, hmac and base64, the letters of std and the parser of the access
-- file are parameters (Libraries). Its counters wrap as release builds do; the bound on guesses asks
-- for fewer than 2 ^ 32 happenings, so that the count of starts does not.
--
-- Not modelled: the server's handlers of accounts, passkeys, devices and HTTP, its database,
-- the capture, encoding, transport and platform code of the host and its connection to the server,
-- the web client, the installers, and the vendored crates under vendor/.
pub mod Common
pub mod Assoc
pub mod Registry
pub mod LogThrottle
pub mod IpLimit
pub mod Adapt
pub mod Wake
pub mod Outbound
pub mod Input
pub mod Files
mod Tests
pub mod Ws
pub mod Slot
pub mod Accounts
