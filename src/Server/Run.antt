-- ===== src/Server/Run.antt =====
-- server.go, `Run`: the start, the accept loop by how it ends, and the shutdown that the deferred calls make.
pub mod Ordered
use gocloak.Base.{
  ℕ, Bool, true, false, Bytes, List, [], ◌∷◌, ◌++◌, Option, none, some, Result, ok, err,
  if◌then◌else◌,
}
use gocloak.Config.Peers.{LoadError, PeersConfig}
use gocloak.Config.Reload.{FileId, Watcher, new_watcher}
use gocloak.Config.{Parsers}
use gocloak.Device.Open.{Stack, OpenError, Deed, new_tunnel_device}
use gocloak.Device.{Texts, Wireguard}
use gocloak.Limiter.{Limiter}
use gocloak.Secret.{SecretError, SecretResolver, Host}
use gocloak.Server.Apply.{Cache, ApplyError, resolve_secret}
use gocloak.Server.Reload.{Running, launch}
use gocloak.Server.Start.{ServerConfig}

pub data RunError : Type 0 where
  already_called : RunError
  no_private_key : SecretError → RunError
  no_watcher : LoadError → RunError
  no_device : OpenError → RunError
  peer_not_applied : ApplyError → RunError
  not_listening : RunError
  accept_failed : RunError
  watch_failed : RunError

-- What `Run` does to what it holds, in order. The wait for the handlers ends with `handlers_return`, or at
-- its time-out with `gives_up`.
pub data Action : Type 0 where
  opens_watcher closes_watcher : Action
  opens_device closes_device : Action
  applies_peers refreshes_peers : Action
  listens : Action
  closes_listener closes_live_conns handlers_return gives_up : Action
  starts_watching cancels waits_for_watcher : Action
  accepts : Action

abbrev pub Course : Type 0
Course = Option RunError × List Action

abbrev pub does : Action → Course → Course
does a (e, actions) = (e, a ∷ actions)

-- `defer`
abbrev pub deferred : Action → Course → Course
deferred a (e, actions) = (e, actions ++ (a ∷ []))

abbrev pub deferred_all : List Action → Course → Course
deferred_all later (e, actions) = (e, actions ++ later)

-- How the network, the watch and the handlers behave: whether the listener fails, whether `Accept` fails while
-- the context is live, whether the watcher's `Run` returns an error, and whether some handler is still running
-- when `shutdownDrainTimeout` is over.
pub record Session : Type 0 where
  pub listen_fails : Bool
  pub accept_fails : Bool
  pub watch_fails : Bool
  pub drain_overruns : Bool

-- The error of the accept loop, and that of the watch in its place if there is none.
abbrev ended : Session → Option RunError
ended s =
    if s.accept_fails then some accept_failed else if s.watch_fails then some watch_failed else none

-- From the watcher's goroutine on.
unfoldable pub serve : Session → Course
serve s =
    deferred waits_for_watcher
      (deferred cancels (does starts_watching (does accepts (ended s, []))))

-- `drainConnections`
unfoldable pub drain_connections : Session → List Action
drain_connections s =
    closes_listener
    ∷ closes_live_conns
    ∷ (if s.drain_overruns then gives_up else handlers_return)
    ∷ []

-- From the listener on.
unfoldable pub listen : Session → Course
listen s =
    if s.listen_fails
    then (some not_listening, [])
    else does listens (deferred_all (drain_connections s) (serve s))

module _ {W : Type 0} (lib : Parsers) (texts : Texts) (dev : Wireguard W) (stack : Stack W)
    (h : Host) (external : Option SecretResolver) (heap : ℕ → Limiter) (cfg : ServerConfig) where
  -- From the result of the peers' installation on.
  unfoldable pub with_peers : Session → Result ApplyError (Running W) → Course
  with_peers s (err e) = (some (peer_not_applied e), [])
  with_peers s (ok running) = does refreshes_peers (listen s)

  -- From the new device on.
  unfoldable pub with_device :
      Session → ℕ → Watcher → Cache → Result OpenError W × List Deed → Course
  with_device s now watcher cache (err e, deeds) = (some (no_device e), [])
  with_device s now watcher cache (ok w, deeds) = does opens_device (
      deferred closes_device (
        does applies_peers (
          with_peers s (launch lib texts dev h external cfg.private_key now heap watcher cache w))))

  -- From the new watcher on.
  unfoldable pub with_watcher : Session → ℕ → Bytes → Cache → Result LoadError Watcher → Course
  with_watcher s now key cache (err e) = (some (no_watcher e), [])
  with_watcher s now key cache (ok watcher) = does opens_watcher (
      deferred closes_watcher (
        with_device s now watcher cache (
          new_tunnel_device texts dev stack (record {
            tunnel_ip = cfg.tunnel_ip;
            mtu = cfg.mtu;
            private_key = key;
            listen_port = cfg.listen_port;
          }))))

  -- From the private key on; `loaded` is what the watcher's first load gives.
  unfoldable pub with_key :
      Session
      → ℕ
      → FileId
      → Result LoadError PeersConfig
      → Cache × Result SecretError Bytes
      → Course
  with_key s now id loaded (cache, err e) = (some (no_private_key e), [])
  with_key s now id loaded (cache, ok key) = with_watcher s now key cache (new_watcher id loaded)

  -- `Run`; the flag is `started`.
  unfoldable pub run : Bool → Session → ℕ → FileId → Result LoadError PeersConfig → Course
  run started s now id loaded =
      if started
      then (some already_called, [])
      else with_key s now id loaded (resolve_secret h external cfg.private_key [])
