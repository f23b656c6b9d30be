-- ===== src/Server/System.antt =====
-- server.go: the handlers of many connections and the reloads of the watcher, interleaved. Each step is
-- what one goroutine does under one lock or between two waits.
pub mod Sets
pub mod Invariant
pub mod Steps
pub mod Preserved
pub mod Listed
pub mod Revocation
pub mod Shutdown
use gocloak.Base.{ℕ, Bool, true, false, Bytes, List, [], ◌∷◌, ◌++◌, Option, none, some, ◌≡◌, Result}
use gocloak.Config.Peers.{PeerConfig, PeersConfig}
use gocloak.Conn.{Conn}
use gocloak.Net.{Addr, AddrPort}
use gocloak.Server.Handler.{
  Ending, silent, answered, Admission, turned_away, admitted, admit, Decision, refuse, dial, decide,
  register, still_in_force, leave, leave_unregistered,
}
use gocloak.Server.{Server, update, refresh_peers, close_live}
use gocloak.Wire.{status_backend_unavailable, read_hello_request}

-- Where `handleConn` stands for one connection. A phase that holds a slot names the peer's address and
-- the limiter that the slot is of.
pub data Phase : Type 0 where
  unborn : Phase
  reading : Addr → ℕ → Phase
  dialling : Addr → ℕ → Bytes → AddrPort → Phase
  dialled : Addr → ℕ → Bytes → AddrPort → Phase
  tracked : Addr → ℕ → Bytes → AddrPort → Phase
  proxying : Addr → ℕ → Bytes → AddrPort → Phase
  ended : Ending → Phase
  piped : Phase

-- `config` is what the watcher's atomic pointer holds and `listed` the list that `refreshPeers` was last
-- called with. `pending` are limiters whose `closeLive` is still to run, `closing` the connections that
-- a `closeLive` took out of its set and has not closed yet, and `closed` tells for each connection
-- whether both its sides are closed.
pub record System : Type 0 where
  pub server : Server
  pub config : PeersConfig
  pub listed : List PeerConfig
  pub phase : ℕ → Phase
  pub closed : ℕ → Bool
  pub pending : List ℕ
  pub closing : List ℕ

abbrev pub at_phase : ℕ → Phase → System → System
at_phase c p m = record m { phase = update m.phase c p }

-- The deferred closes of a handler that returns.
abbrev pub shut : ℕ → Phase → Server → System → System
shut c p s m = record m { server = s; phase = update m.phase c p; closed = update m.closed c true }

unfoldable pub after_admit : ℕ → Server × Admission → System → System
after_admit c (s, turned_away e) m = shut c (ended e) s m
after_admit c (s, admitted ip l) m = record (at_phase c (reading ip l) m) { server = s }

unfoldable pub after_decide : ℕ → Addr → ℕ → Decision → System → System
after_decide c ip l (refuse e) m = shut c (ended e) (leave_unregistered l m.server) m
after_decide c ip l (dial service backend) m = at_phase c (dialling ip l service backend) m

unfoldable pub after_check : ℕ → Addr → ℕ → Bytes → AddrPort → Bool → System → System
after_check c ip l service backend true m = at_phase c (proxying ip l service backend) m
after_check c ip l service backend false m = shut c (ended silent) (leave c l m.server) m

unfoldable pub after_refresh : Server × List ℕ → System → System
after_refresh (s, gone) m = record m {
  server = s;
  listed = m.config.peers;
  pending = m.pending ++ gone;
}

unfoldable pub after_drain : List ℕ → Server × List ℕ → System → System
after_drain rest (s, conns) m = record m {
  server = s;
  pending = rest;
  closing = m.closing ++ conns;
}

pub data Step (m : System) : System → Type 0 where
  accepts :
      (c now : ℕ) (remote : Option Addr)
      → m.phase c ≡ unborn
      → Step m (after_admit c (admit now remote m.server) m)
  hellos :
      (c : ℕ) (ip : Addr) (l : ℕ) (conn : Conn)
      → m.phase c ≡ reading ip l
      → Step m (after_decide c ip l (decide m.config.policy ip (read_hello_request conn)) m)
  dial_fails :
      (c : ℕ) (ip : Addr) (l : ℕ) (service : Bytes) (backend : AddrPort)
      → m.phase c ≡ dialling ip l service backend
      → Step m
          (shut c (ended (answered status_backend_unavailable)) (leave_unregistered l m.server) m)
  dials :
      (c : ℕ) (ip : Addr) (l : ℕ) (service : Bytes) (backend : AddrPort)
      → m.phase c ≡ dialling ip l service backend
      → Step m (at_phase c (dialled ip l service backend) m)
  tracks :
      (c : ℕ) (ip : Addr) (l : ℕ) (service : Bytes) (backend : AddrPort)
      → m.phase c ≡ dialled ip l service backend
      → Step m
          (record (at_phase c (tracked ip l service backend) m) { server = register c l m.server })
  checks :
      (c : ℕ) (ip : Addr) (l : ℕ) (service : Bytes) (backend : AddrPort)
      → m.phase c ≡ tracked ip l service backend
      → Step m (after_check c ip l service backend (still_in_force ip l m.server) m)
  finishes :
      (c : ℕ) (ip : Addr) (l : ℕ) (service : Bytes) (backend : AddrPort)
      → m.phase c ≡ proxying ip l service backend
      → Step m (shut c piped (leave c l m.server) m)
  swaps : (config : PeersConfig) → Step m (record m { config = config })
  refreshes : (now : ℕ) → Step m (after_refresh (refresh_peers now m.config.peers m.server) m)
  drains :
      (l : ℕ) (rest : List ℕ)
      → m.pending ≡ l ∷ rest
      → Step m (after_drain rest (close_live l m.server) m)
  closes :
      (c : ℕ) (rest : List ℕ)
      → m.closing ≡ c ∷ rest
      → Step m (record m { closing = rest; closed = update m.closed c true })

-- What a run of the server reaches from one state.
pub data Reach (m : System) : System → Type 0 where
  here : Reach m m
  next : {n o : System} → Reach m n → Step n o → Reach m o
