-- ===== src/Client/Dialing.antt =====
-- client.go, `dialControl` and `refreshEndpoint`: the dials of one client at a time of their own choosing. A
-- dial goes from phase to phase; between two phases another dial may run. What the network, the clock and
-- the scheduler decide comes as an event.
pub mod Changes
pub mod Settled
use gocloak.Base.{
  ℕ, suc, Bool, true, false, not, ◌||◌, Bytes, List, [], ◌∷◌, Option, none, some, Result, ok, err,
  nat_beq, if◌then◌else◌,
}
use gocloak.Client.{Names, ClientError, resolve_endpoint}
use gocloak.Config.{Parsers}
use gocloak.Device.{Texts, Wireguard, DeviceError, set_peer_endpoint}
use gocloak.Net.{AddrPort, addr_port_beq}
use gocloak.Server.{update}
use gocloak.Wire.{valid_service_name}

-- The fields of `Client` and of its `clientEndpoint` that a dial reads and never writes.
pub record Fixed : Type 0 where
  pub server_pub_key : Bytes
  pub host : Bytes
  pub port : ℕ
  pub literal : Bool

-- What a dial returns instead of a connection.
pub data TunnelError : Type 0 where
  invalid_service_name : TunnelError
  client_closed : TunnelError
  cancelled : TunnelError
  handshake_timeout : TunnelError
  refresh_failed : ClientError → TunnelError
  move_failed : DeviceError → TunnelError

-- Where a dial is. The number is the generation it recorded before its first attempt.
pub data Phase : Type 0 where
  idle : Phase
  attempting : ℕ → Bool → Phase
  waiting : ℕ → Phase
  inside : ℕ → Phase
  found : ℕ → AddrPort → Phase
  moved : ℕ → AddrPort → Phase
  connected : Phase
  failed : TunnelError → Phase

-- What happens to a dial next: `Dial` is called; an attempt connects, or fails when the budget is over (the
-- flag tells a cancellation), or fails and the retry interval passes; the semaphore is taken, or the budget
-- is over first; the dial that has the semaphore goes on, and would find these names; or somebody calls `Close`.
pub data Event : Type 0 where
  called : Bytes → Event
  attempt_made : Event
  budget_over : Bool → Event
  retried : Event
  semaphore_taken : Event
  semaphore_given_up : Event
  resumed : Names → Event
  shut : Event

-- The state that the dials share: `closed`, the `clientEndpoint` that `mu` guards, the semaphore, and the
-- device. The last three are records of the run: the address that the device was last given, the dials
-- that looked the name up, and the generations that the dials had recorded that completed a refresh.
pub record Client (W : Type 0) : Type 0 where
  pub closed : Bool
  pub addr : AddrPort
  pub generation : ℕ
  pub refreshing : Bool
  pub tunnel : W
  pub dials : ℕ → Phase
  pub given : AddrPort
  pub lookups : List ℕ
  pub refreshed : List ℕ

-- What `newClient` returns.
abbrev pub new_client : {W : Type 0} → AddrPort → W → Client W
new_client addr tunnel = record {
  closed = false;
  addr = addr;
  generation = 0;
  refreshing = false;
  tunnel = tunnel;
  dials = λ i. idle;
  given = addr;
  lookups = [];
  refreshed = [];
}

module _ {W : Type 0} where
  abbrev pub at : ℕ → Phase → Client W → Client W
  at i p c = record c { dials = update c.dials i p }

  -- The deferred receive from the semaphore.
  abbrev pub leave : ℕ → Phase → Client W → Client W
  leave i p c = at i p (record c { refreshing = false })

  -- `Dial` up to the first attempt.
  unfoldable pub begin_dial : Bytes → Client W → Phase
  begin_dial service c =
      if not (valid_service_name service)
      then failed invalid_service_name
      else if c.closed
      then failed client_closed
      else attempting c.generation false

  -- `refreshEndpoint` behind the name lookup, which fails or gives an address.
  unfoldable pub after_lookup : ℕ → ℕ → Result ClientError (AddrPort × Bool) → Client W → Client W
  after_lookup i g (err e) c =
      leave i (failed (refresh_failed e)) (record c { lookups = i ∷ c.lookups })
  after_lookup i g (ok (addr, literal)) c =
      at i (found g addr) (record c { lookups = i ∷ c.lookups })

  -- Behind the call of `SetPeerEndpoint`.
  unfoldable pub after_move : ℕ → ℕ → AddrPort → W × Option DeviceError → Client W → Client W
  after_move i g addr (w, some e) c = leave i (failed (move_failed e)) (record c { tunnel = w })
  after_move i g addr (w, none) c = at i (moved g addr) (record c { tunnel = w; given = addr })

module _ {W : Type 0} (lib : Parsers) (texts : Texts) (dev : Wireguard W) (fixed : Fixed) where
  -- One step of a dial in this phase. An event that the phase does not wait for changes nothing, and
  -- neither does the semaphore while another dial has it.
  unfoldable pub advance : ℕ → Event → Phase → Client W → Client W
  advance i shut p c = record c { closed = true }
  advance i (called service) idle c = at i (begin_dial service c) c
  advance i attempt_made (attempting g refreshed) c = at i connected c
  advance i (budget_over cancels) (attempting g refreshed) c =
      at i (failed (if cancels then cancelled else handshake_timeout)) c
  advance i retried (attempting g false) c =
      at i (if fixed.literal then attempting g true else waiting g) c
  advance i semaphore_taken (waiting g) c =
      if c.refreshing then c else at i (inside g) (record c { refreshing = true })
  advance i semaphore_given_up (waiting g) c = at i (attempting g true) c
  advance i (resumed names) (inside g) c =
      if not (nat_beq c.generation g)
      then leave i (attempting g true) c
      else after_lookup i g (resolve_endpoint lib names fixed.host fixed.port) c
  advance i (resumed names) (found g addr) c =
      if not (addr_port_beq addr c.addr)
      then after_move i g addr (set_peer_endpoint texts dev fixed.server_pub_key addr c.tunnel) c
      else at i (moved g addr) c
  advance i (resumed names) (moved g addr) c =
      leave i (attempting g true)
        (record c { addr = addr; generation = suc c.generation; refreshed = g ∷ c.refreshed })
  advance i _ _ c = c

  unfoldable pub run_dials : List (ℕ × Event) → Client W → Client W
  run_dials [] c = c
  run_dials ((i, e) ∷ es) c = run_dials es (advance i e (c.dials i) c)
