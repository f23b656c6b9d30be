-- ===== src/Lib.antt =====
-- gocloak: WireGuard-tunnelled access to named services. A server terminates tunnels, knows each peer by
-- its tunnel address, and proxies a connection to the backend that the peer list grants it.
--
-- The parts and the files that model them:
--   wire.go, the hello frames                  Wire (Names, Requests, Responses), over Conn
--   policy.go, who may reach what              Policy (Build, Grants)
--   secret.go, references to key material      Secret (References, Resolution)
--   config.go, server.yaml and peers.yaml      Config, Config/Server, Config/Peers, Config/Yaml
--   config.go, diffPeers and peerWatcher       Config/Diff (Equal, Exact), Config/Reload
--   config.go, peerWatcher.Run                 Config/Watch (CaughtUp, Served)
--   device.go, peers as configuration text     Device
--   device.go, newTunnelDevice                 Device/Open
--   device.go and client.go, Close             Device/Close
--   server.go, peerLimiter                     Limiter (Bounds, Rate)
--   server.go, NewServer                       Server/Start
--   server.go, Run and its deferred calls      Server/Run
--   server.go, refreshPeers                    Server (Refresh, Holders)
--   server.go, handleConn and reloads          Server/Handler, Server/System
--   server.go, applyDiff and the secret cache  Server/Apply (Table, Routes)
--   server.go, handleReload                    Server/Reload
--   server.go, pipeConns                       Server/Pipe (Flows, Faithful)
--   server.go, closeLiveConns                  Server/System/Shutdown
--   server.go, scrubRef                        Server/Scrub
--   server.go, remoteTunnelIP                  Server/Remote
--   client.go, configuration and hello         Client
--   client.go, newClient                       Client/Open
--   client.go, dialControl, refreshEndpoint    Client/Dialing
--   client.go, hello and its watchdog          Client/Exchange
--   internal/msg/msg.go                        Msg (Reads, Acks, Listener)
--   awssecrets/awssecrets.go                   Aws
--   cmd/gocloak/main.go                        Command/Keygen, Command/Serve
--   cmd/gocloak-send/main.go                   Command/Send
--   cmd/gocloak-sink/main.go                   Command/Sink
-- Base holds what they share, Net the addresses of net/netip, and Tests runs on concrete inputs.
--
-- Definitions keep the source's names, in snake case: validatePeer is validate_peer. A Go string or byte
-- slice is the list of its bytes, a map an association list whose first entry of a key is in force, an
-- error return a Result whose error names the cause; messages of errors are not modelled, except where
-- decodeStrict redacts them. A net.Conn is the bytes still to arrive, the error behind them and the bytes
-- written, so a deadline is a connection that ends in a timeout. A pointer to a limiter is a number into
-- a heap.
--
-- Server/System is a step relation: one connection's handler is cut where other goroutines may run, at the
-- waits and between the locked sections, and a reload into the swap of the configuration, refreshPeers
-- under its lock, one closeLive at a time, and one close at a time. Steps of all connections and of the
-- watcher come in any order.
--
-- The shutdown, in Server/System/Shutdown, puts the limiters in force in front of the clean-up, and goes on with
-- the steps of the handlers and of the clean-up; Run has waited for the watcher before.
--
-- Server/Pipe has the events of the two goroutines of pipeConns in any order: a round of io.Copy, which may write
-- less than it read, the end of a read, one Close, and the end of the context.
--
-- Config/Watch has the loop of the watcher as a function of what happens, each with the time that it comes after
-- the round before. The file is a function of time, so that a Stat and a read may see different files.
--
-- Client/Exchange has one exchange with the moment at which its budget is over, and the later one at which the
-- watchdog's Close takes effect.
--
-- Server/Reload is the watcher's goroutine alone: a reload is the swap of the configuration, refreshPeers
-- with its closes, applyDiff and pruneSecretCache, one after the other, and Run's start in front of them.
--
-- Client/Dialing is a function of the events of many dials: each event lets one dial go from one wait of
-- dialControl or refreshEndpoint to its next. Between the semaphore's taking and its release a dial has
-- three steps: the lookup, SetPeerEndpoint, and the record of the new address.
--
-- Server/Run, Device/Open and Client/Open return what they open and close as a list of actions. Command/
-- Keygen has the files as a map from paths to contents, and each call on them may fail.
--
-- Parameters: the parsers of net/netip and encoding/base64 and the texts of addresses (Parsers, Texts,
-- Names), what the YAML decoder returns (Documents), files, environment and the caller's SecretResolver
-- (Host, SecretResolver), netstack and the making of a device (Stack), the answers of AWS (Resolver), the
-- system as keygen finds it (Machine), the outcome of flag.Parse (Parsed), and wireguard-go's IpcSet
-- (Wireguard), whose documented behaviour on the blocks of device.go is the record Uapi in
-- Server/Apply/Table with, for the routes, Cryptokey in Server/Apply/Routes and, for a new device, Bare in
-- Client/Open/Pinned. What a file's size and time tell of its content is ShowsChanges in Config/Watch/CaughtUp.
--
-- Msg/Listener has Serve and its goroutines as a function of what happens: Accept returns a connection or
-- fails, a goroutine does one round of ServeConn, the context ends, or wg.Wait is tried.
--
-- Bounds: ServeConn runs on fuel, and each round reads at least one byte, so one more than the bytes to
-- come is enough. The digits of an acknowledged length have fuel 20, and an int has at most 19. The limiter
-- counts tokens in units of 10^-9 and times in nanoseconds, exactly, where the source has a float64: its
-- rounding is not modelled. Other loops are structural.
--
-- Not modelled: logging and the texts of errors and usages; the server's accept loop, of which Server/Run has
-- the end only; the deadlines that the server sets, which are connections that end in a timeout, and the
-- errors of setting and clearing them; how long drainConnections waits, of which Server/Run has only whether
-- a handler outlasts it; and handshakeBound, which is the text of an error.
-- The rounding of sizes and times to an int is not modelled either.
pub mod Base
pub mod Net
pub mod Conn
pub mod Msg
pub mod Wire
pub mod Policy
pub mod Limiter
pub mod Secret
pub mod Aws
pub mod Command
pub mod Config
pub mod Device
pub mod Server
pub mod Client
pub mod Tests
