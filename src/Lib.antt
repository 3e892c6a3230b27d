-- ===== src/Lib.antt =====
-- A verification library for the Go code of deepwork-browser, a browser that an agent drives and a
-- person can watch and take over. It models, in Go's own terms, the parts that decide who may act on
-- the page and what everyone sees of it.
--
-- The parts and how they interact. A page is shown to connections by a live view; one of them can take
-- the page over. The input gateway holds that takeover: a lease with an owner, a token and an expiry, a
-- timer for idleness and one for a broken connection, and the keys and buttons that are down. It turns
-- accepted input into commands for the browser, tells the session authority by a callback when the
-- holder changes, and hands events to the recorder. The session authority keeps the state of the
-- session and sends each change to its subscribers; the frame hub does the same with pictures. An older
-- takeover controller does with one flag what the gateway does with a lease. Before an agent acts, the
-- safety policy decides by the act and the origin of the page; a scenario chooses the policy. The pool
-- of browsers runs one Chrome per identity, hands out its tabs, closes those that are idle or, when it
-- is full, the oldest one, and keeps an index of all; what a session is for, and the ids it goes by, are
-- put into a normal form first. A session keeps which picture of its page the agent has seen, which
-- grants nothing once the page, the target or the authority has changed. An attachment to a running browser chooses one of its pages. The target tracker follows the pages of a browser by its events and by the commands of callers:
-- it keeps the one that is in front, decides which new pages come to the front by themselves, and tells
-- the live view and the input gateway where to go. A document is fetched through a guard that lets a page
-- reach public addresses only, within a budget. Where two sessions share a browser, a ledger of the switches of the front tells when they
-- disturb each other.
--
-- Files and code.
--   Prelude (Tests, Lists, Maps, Entries, Texts): Boolean tests, lists measured by native numbers, maps
--     as association lists, and what the code uses of Go's `strings` and `net`.
--   Input.Event, Input.Gateway, Input.Handle, Input.Dispatch: browser/input_gateway.go and the events of
--     browser/core.go. Gateway is `InputGateway`; request_takeover, release_takeover, on_disconnect,
--     on_reconnect, release_all_locked, clear_takeover_state_locked, reset_idle_timer_locked and
--     track_input_state_locked are the methods of these names; handle_input is `HandleInput`, of which
--     refusal, still_authorized and renew are the three sections under the mutex. Input.Dispatch maps
--     events to DevTools commands. Input.Release is the goroutine that `releaseAllLocked` starts.
--   Input.Timers: `time.AfterFunc` and `Stop`, which may come after the timer has run out.
--   Input.Step: the steps under any interleaving. Input.Invariant, Input.Ownership, Input.Admission,
--     Input.Pressed, Input.Races, Input.Dispatch.Release: what is proved of them.
--   Record (Order, Typing): browser/record_buffer.go.
--   Takeover (Dispatching, Races): browser/takeover_controller.go.
--   Live.Hub: browser/frame_broadcast_hub.go. Live.Authority and Live.Session:
--     browser/browser_session.go; update_mode and its kin are the methods `Update...`, each split into
--     the change under the mutex and the broadcast after it. Live.Entries, Live.Wired, Live.Publish,
--     Live.Run, Live.Updates, Live.Drift: what is proved of them.
--   Policy (Defs, Scenario, Laws): browser/policy.go, browser/action_definitions.go and
--     browser/scenario.go.
--   Tabs (Index, Order, Laws): browser/tab_index.go.
--   Session (Kinds, Ids, Profiles): browser/session_contract.go, with the modes of browser/pool.go and
--     `NormalizeProfileID` of browser/profile_manager.go. Session.Info: browser/session_observation.go on
--     the part of `SessionInfo` of browser/session_manager.go that it reads. Session.Trimmed, Slugs, Safe,
--     Observation, Authority: what is proved of them.
--   Pool (State, Acquire, Close): browser/pool.go and browser/identity_registry.go. State is
--     `BrowserPool` with its entries and tabs, the registry and the configuration; Acquire is
--     `AcquireTab`, of which acquire_known, acquire_within, acquire_for, open_tab and add_tab are what is
--     left to do after each of its guards; Close has evictOldestLocked, closeTabEntryLocked,
--     resetEntryLocked, reapIdleTabs, SwitchProfile, GracefulShutdown, ReleaseTab and GetCore. An entry
--     is known by its key where the code has a pointer to it. Pool.Invariant, Evict, Remove, Reads, Kept,
--     Opened, Run, Outcome, Reap, Shut, Returned: what is proved of them. Pool.Views is what callers see.
--   Targets (Select, Choice): browser/runtime_policy.go.
--   Track (State, Attribution, Events, Commands): browser/target_tracker.go. State is `TargetTracker` and
--     its methods under the mutex, Attribution the hints and claims that tell whose a new page is, Events
--     the handlers HandleTargetCreated, HandleTargetDestroyed and HandleTargetInfoChanged with what they
--     do outside as a list of effects, Commands the methods RefreshTargets, SwitchToTarget, CloseTarget,
--     CreateTab, UpdateTabInfo and ListTargets. Track.Order, Queues, Invariant, Claims, Kept, Obeyed, Run,
--     Listing, Attention, Close, Pending, Waiting, Stale: what is proved of them.
--   Network (Address, Dial, Budget): browser/public_network.go. Address is `IsPublicIP` and its tables,
--     Dial `ValidatePublicURL` and `dialScheme`, Budget `fail`, `chargePayload`, `ServeHTTP` and `connect`
--     as far as they change the guard. Network.Spellings, Reach, Answers, Limits, Failures: what is
--     proved of them.
--   Compare (Diff, Laws, Lines): browser/testing/diff.go, the comparison of two observations of a page.
--   Front (Ledger, Warning): the ledger of browser/browser_input_lock.go.
--   The module Tests of each folder has the theorems at concrete inputs, and runs.
--
-- State and time. An operation under a mutex is a function from the state to the state and what it sets
-- going outside; the interleavings are lists of such steps. Time is an argument in nanoseconds. Pointers
-- that the code compares, timers and channels, are numbers that are given out once; a Go panic is none.
-- Numbers in an event or a state that are only passed on are 64-bit words.
--
-- Bounds. Every loop of the modelled code runs over a list, so the definitions are structural and need
-- no fuel. The sequence number of a state wraps at 64 bits.
--
-- Outside. The answers of the browser, of chromedp on a context, of the lock on its input, of the random source and of
-- `net.ParseIP`, `net/url` and `net/netip` as readers of texts are arguments, and so are what the start of Chrome and the warm-up of a target answer and the key that
-- an identity gets. Not modelled: the engines that drive and read a page (action, snapshot,
-- live view), whose results are the browser's; processes, windows, files, sockets and
-- DNS; the session files, the directories of profiles and the viewports that the pool sets; telemetry, documents, cookies, personas, the
-- Safari bridge, the command line and the servers. Log lines, random pauses and the texts of errors are
-- left out. Publications that overlap with each other are not interleaved inside the loop of the hub.
pub mod Compare
pub mod Front
pub mod Input
pub mod Live
pub mod Network
pub mod Policy
pub mod Pool
pub mod Prelude
pub mod Record
pub mod Session
pub mod Tabs
pub mod Takeover
pub mod Targets
pub mod Track
