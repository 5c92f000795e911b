-- ===== src/Lib.antt =====
-- The Go SDK of Unity Gaming Services for game servers (game-server-hosting/server).
--
-- A game server starts with `Server.Start`: it loads `server.json`, answers queries about itself
-- over UDP in the SQP or the A2S protocol, follows changes of its configuration, and listens to the
-- machine's local proxy for allocations; its user reads allocations, deallocations, configurations
-- and errors from channels, and calls the proxy to hold, reserve or report the server ready.
--
-- The parts, with the code they are about (paths are under game-server-hosting/server, but for
-- matchmaker/server):
--   * Proto.Challenge: proto/base.go, the challenges handed to query clients. `Race` interleaves the
--     goroutines of `purgeStaleChallenges` with the map operations as a step relation; `Tokens` has
--     a specification of it.
--   * Proto.Wire: proto/query.go. `WireWrite` works by reflection; a struct is a list of fields here.
--   * Sqp, Sqp.Info: proto/sqp, `Respond` and what it encodes. `Layout`, `Decode` describe the format.
--   * A2s: proto/a2s, `Respond` and `parseInfoRequest`. `Decode` describes the format.
--   * Proto.Errors: the texts of sqp/errors.go and a2s/errors.go that hold a value.
--   * Proto.Responder: the explicit passing of the `QueryBase` that both responders change.
--   * Server: server.go, option.go, error.go. `Players`, `Metrics`, `Actions` have the user's methods,
--     `Channels` the channels that they read, `Settings` the configuration file (config.go), `Queries`
--     the query loop and its binding (query.go, bind.go; `Clients` has clients of it), `Binding` the
--     accesses of the loop and of `Close` to the binding (bind.go), interleaved as a step relation,
--     with the loop's data in `Binding.Loop`, and restarts of the endpoint over a heap of bindings in
--     `Binding.Restart`;
--     `Watcher` config_watcher.go, `Events` event_watcher.go and the client's `OnPublish`,
--     `Lifecycle` the methods `Start` and `Stop` (`Joining` interleaves Stop's wait with goroutines
--     that do their Add late), `Running` all of these as actions on one server (`Interleaved` takes
--     the query loop an access at a time among them), `Texts` the texts of errors.
--   * LocalProxy: internal/localproxy and model: the events, and the calls over HTTP; `Subscription`
--     has Start, Stop and the handlers of client.go.
--   * Matchmaker: matchmaker/server, a tick of the loop that keeps the backfill ticket of a game server
--     alive (backfill_internal.go, backfill.go); `Ticks` has the loop itself, `Service` its server.go,
--     `Running` the ticks among the actions of the game server.
--   * MockProxy: internal/localproxytest of the repository, the mock that the tests of the SDK use, and
--     the calls of LocalProxy against it.
--   * Prelude: lists and numbers, slices, bytes, and `Outcome`, the result of Go code: a value, an
--     error, or a panic.
--   * Tests: runs on sample data.
--
-- Numbers: every number is a natural; a fixed-size integer keeps its wrap-around written out, and
-- an int32 or a float32 is its bit pattern. A string is its bytes. A method under a lock is one
-- step. What is not in the repository (net, os, encoding/json, net/http, crypto/rand, the clock,
-- fsnotify, centrifuge) is a parameter or an argument with what it answered.
--
-- Fuel: `decimal` prints a number n in n + 1 rounds, each of which divides by ten. `scan` is given as
-- many rounds as the packet has bytes, and each moves one byte on. Other loops of the code run over the
-- list of what they are given, one round for each.
--
-- Not modelled: the centrifuge client and broker themselves, the values of deadlines, two restarts of
-- the query endpoint at once, Stop during a restart, the waiting for a signal, and the
-- formats of times.
pub mod Prelude
pub mod Proto
pub mod Sqp
pub mod A2s
pub mod Server
pub mod LocalProxy
pub mod Matchmaker
pub mod MockProxy
pub mod Tests
