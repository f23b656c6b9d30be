-- ===== src/Server/Run/Ordered.antt =====
-- server.go, `Run`: the order of the shutdown.
use gocloak.Base.{
  ◌≡◌, Bool, true, false, not, ◌&&◌, ◌||◌, List, [], ◌∷◌, Option, none, some, if◌then◌else◌,
}
use gocloak.Limiter.{Limiter}
use gocloak.Server.Run.{
  Action, opens_watcher, closes_watcher, opens_device, closes_device, applies_peers,
  refreshes_peers, listens, closes_listener, closes_live_conns, handlers_return, gives_up,
  starts_watching, cancels, waits_for_watcher, accepts, Course, Session, listen,
}

-- What is held, as an observer of the actions sees it. `handlers`: handlers may be running; `proxied`: some of
-- them may be parked on a live connection; `overruns`: a handler is still running at the time-out of the drain.
pub record Held : Type 0 where
  watcher : Bool
  device : Bool
  listener : Bool
  watching : Bool
  cancelled : Bool
  handlers : Bool
  proxied : Bool
  gave_up : Bool
  overruns : Bool

abbrev pub nothing : Bool → Held
nothing overruns = record {
  watcher = false;
  device = false;
  listener = false;
  watching = false;
  cancelled = false;
  handlers = false;
  proxied = false;
  gave_up = false;
  overruns = overruns;
}

-- An action that is allowed, and what is held after it: nothing is opened twice or closed twice; peers are
-- applied, connections accepted and the watch run on an open device; the wait for the watch comes after the
-- cancellation, or it would never end; the live connections are closed once no more are accepted, and the
-- wait for the handlers comes after that; giving up is for a handler that overruns; the device is closed
-- after the watch has ended and after every handler has returned or the drain has given up; and the watcher
-- after the device.
abbrev allowed : Action → Held → Option Held
allowed opens_watcher s = if s.watcher then none else some (record s { watcher = true })
allowed opens_device s = if s.device then none else some (record s { device = true })
allowed applies_peers s = if s.device then some s else none
allowed refreshes_peers s = some s
allowed listens s = if s.device && not s.listener then some (record s { listener = true }) else none
allowed starts_watching s =
    if s.watcher && s.device then some (record s { watching = true }) else none
allowed accepts s =
    if s.listener && s.device then some (record s { handlers = true; proxied = true }) else none
allowed cancels s = some (record s { cancelled = true })
allowed waits_for_watcher s = if s.cancelled then some (record s { watching = false }) else none
allowed closes_listener s = if s.listener then some (record s { listener = false }) else none
allowed closes_live_conns s = if s.listener then none else some (record s { proxied = false })
allowed handlers_return s =
    if s.listener || s.proxied || s.overruns then none else some (record s { handlers = false })
allowed gives_up s =
    if not s.listener && not s.proxied && s.overruns
    then some (record s { gave_up = true })
    else none
allowed closes_device s =
    if s.device && not s.listener && not s.watching && (not s.handlers || s.gave_up)
    then some (record s { device = false })
    else none
allowed closes_watcher s =
    if s.watcher && not s.device then some (record s { watcher = false }) else none

-- Every action is allowed, and in the end nothing is held, but for a handler that overruns.
unfoldable pub in_order : Held → List Action → Bool
in_order s [] =
    not (s.watcher)
    && not s.device
    && not s.listener
    && not s.watching
    && (not s.handlers || s.overruns)
in_order s (a ∷ actions) = elim (allowed a s) [ none ↦ false | some s' ↦ in_order s' actions ]

-- What a part of `Run` may be: in order on what is held when it begins.
abbrev InOrder : Held → Course → Type 0
InOrder held (e, actions) = in_order held actions ≡ true

abbrev with_watch : Bool → Held
with_watch overruns = record (nothing overruns) { watcher = true }

abbrev with_both : Bool → Held
with_both overruns = record (with_watch overruns) { device = true }

abbrev session : Bool → Bool → Bool → Bool → Session
session listen accept watch drain = record {
  listen_fails = listen;
  accept_fails = accept;
  watch_fails = watch;
  drain_overruns = drain;
}
