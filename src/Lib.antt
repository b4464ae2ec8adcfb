-- ===== src/Lib.antt =====
-- A verification library for polymarket-signal-autopilot, a program that watches prediction markets,
-- derives signals from them, and places orders on them under limits.
--
-- How the parts interact. The stream of a market reaches the autopilot as updates; each is kept as a raw
-- event, and the strategy may answer with a signal. A signal is classified by its severity, counted,
-- alerted and notified of under cooldowns, and, if orders are placed automatically, becomes an order,
-- whose price is chosen and clamped and which takes a nonce; the live router accepts or refuses it, an
-- accepted one is posted to the exchange, and its status is polled until it is terminal, by the autopilot
-- at once and by its sweeps. Telegram tries a notification again while it is told to. A simpler worker only
-- records the raw events. Beside that stand the paper router, the selection of markets, and the research
-- side: gaps in the raw events, lead-lag directions, features, and the gates of a configuration.
--
-- The autopilot (Runtime.AutoPilot) holds the states of the router, the strategy, the telemetry and the alert
-- manager, and its operations call theirs. An operation of it is a step: from a state to a new one, with the
-- list of its actions and its error. Walk is the principle of induction for such steps: what holds of
-- the few ways in which the state changes holds of every run of the loop; Routing, Notices and Audit are
-- uses of it, and Routing carries the properties of the router over to the requests that are sent.
--
-- Which file models which part (paths from the repository's root):
--   Execution.LiveRouter, .KillSwitch   internal/execution/live_router.go, kill_switch.go
--   Execution.PaperRouter               internal/execution/paper_router.go
--   Strategy.RankShift                  internal/strategy/rank_shift.go
--   Runtime.Anomaly                     internal/runtime/anomaly.go
--   Runtime.AutoPilot                   internal/runtime/autopilot.go
--   Runtime.Reconcile                   internal/runtime/autopilot.go: reconcileOrder and what it calls
--   Runtime.StreamWorker                internal/runtime/worker.go
--   Runtime.Telemetry                   internal/runtime/telemetry.go without its rendering
--   Market                              internal/connectors/polymarket/ws_market_client.go
--   Orders                              internal/connectors/polymarket/dynamic_order_builder.go
--   Worker                              cmd/worker/main.go; AllocateRuntimeNonce of
--                                       internal/persistence/store.go
--   Telegram                            internal/notify/telegram.go
--   Pricing                             cmd/worker/pricing.go
--   Selector                            internal/assetpicker/selector.go
--   Ingestion.RawWriter                 internal/ingestion/raw_writer.go
--   Ingestion.Gaps                      internal/ingestion/gap_detector.go, backfill.go
--   Linking                             internal/linking/lead_lag.go, first_seen_aggregator.go
--   Features                            internal/features
--   Config                              internal/config/contract.go
--   Risk                                internal/risk/filters.go
--
-- A struct is a record with the fields of the struct; a method takes the state and gives the new state
-- beside its results. A mutex that is held for a whole method makes the method one step; `Emit` of the alert
-- manager, which holds it twice, is taken for callers that come one after another, as the worker is. Sequences
-- of calls are lists. Functions have the names of the source in snake case; a piece of a function that stands alone
-- here has the comment that says which. A map is an association list (Base/Maps), a set the list of its
-- keys, an error its text.
--
-- Parameters. `float64` is the interface `Double` (Double/Order): the operations that are called, with the
-- order of IEEE 754 and the rounding of small fractions as the laws that some proofs rely on; the tables of
-- `unicode` are the interface `Runes` (Text/Case); `strconv`, `encoding/json`, `fmt` for numbers,
-- `url.QueryEscape` and the bytes of a text are the records `Decoder` (Values), `Printer`
-- (Runtime/AutoPilot/Texts), `FrameDecoder` (Market/Decode) and `Strconv` (Worker/Env); go-ethereum and
-- go-order-utils are the record `Crypto` and an argument (Orders). What the exchange, the store, the
-- notifier and the clock answer are the records `World`, `SignalPorts`, `UpdatePorts`, `SweepPorts`, `Round`
-- and `DynamicPorts`: functions of what they are given, or of the number of the reading. The clock is an
-- argument elsewhere. Double/Fixed and Text/Ascii are concrete instances that meet the laws; the tests run
-- on them.
--
-- The one statement of SQL that is modelled, `allocateNonceQuery`, is read as Postgres documents it: the types
-- of its sums, and the order in which its row is computed (Worker/Nonce).
--
-- Bounds and fuel. Integers of 64 bits are the signed integers of Base/Ints, with `wrap64` where the source
-- can overflow: the loop counter of the backfill, the doubling of a delay, the backoff, the counters. Only
-- the backfill runs on fuel, since it need not end; a property states how much is enough. The attempts of
-- Telegram are counted down. `show_int` writes up to 20 digits, which is what 64 bits need.
--
-- Not modelled: HTTP clients and servers, the socket of the stream and its pings, the statements
-- that hand records to Postgres, the rendering of telemetry, the flags of the commands, which are input and
-- output; and, not yet, the permutation tests, the signal rules, the news router, the linking by keyword,
-- the replay, and the command that picks assets.
pub mod Base
pub mod Double
pub mod Telegram
pub mod Text
pub mod Execution
pub mod Config
pub mod Features
pub mod Ingestion
pub mod Linking
pub mod Market
pub mod Orders
pub mod Pricing
pub mod Selector
pub mod Risk
pub mod Runtime
pub mod Strategy
pub mod Values
pub mod Worker
pub mod Tests
