-- ===== src/Server/System/Preserved.antt =====
-- server.go: every step keeps the invariant, whatever the order of the steps.
use gocloak.Base.{
  ℕ, ◌<◌, ◌≡◌, ◌⊎◌, inl, inr, refl, subst, Bool, true, false, Bytes, List, ◌∷◌, Option, none, some,
  arith, contains, nat_eq, Option-cases,
}
use gocloak.Limiter.{track, drain_live}
use gocloak.Net.{Addr, AddrPort, unmap}
use gocloak.Config.Peers.{PeersConfig}
use gocloak.Server.Handler.{
  silent, Admission, turned_away, admitted, admit, Decision, refuse, dial, register, still_in_force,
  leave,
}
use gocloak.Server.Refresh.{
  IsServer, refresh_peers-IsServer, refresh_peers-Kept, refresh_peers_reaps,
}
use gocloak.Server.System.Invariant.{PhaseOk, Inv, Spares, Spares-PhaseOk}
use gocloak.Server.System.Sets.{contains-append, contains-track}
use gocloak.Server.System.{
  Phase, unborn, reading, dialling, dialled, tracked, proxying, ended, piped, System, at_phase,
  shut, after_admit, after_decide, after_check, after_refresh, after_drain, Step,
}
use gocloak.Server.System
use gocloak.Server.{Server, update, limiter_for, refresh_peers, close_live}
use gocloak.Server.System.Steps.{
  Only, Only-refl, admit-Only, register-Only, leave-Only, leave_unregistered-Only, moves, shut-Inv,
}

admit-made :
    (now : ℕ) (remote : Option Addr) (s s' : Server) (ip : Addr) (l : ℕ)
    → IsServer s
    → admit now remote s ≡ (s', admitted ip l)
    → l < s'.fresh
unfolding admit
admit-made now none s s' ip l is h = absurd (ground arith)
admit-made now (some ip') s s' ip l is h = elim (Option-cases (limiter_for s ip')) [
  | inl e ↦ absurd (ground arith)
  | inr (k, e) ↦ unfold limiter_for in ground (arith, is.made (unmap ip') k)
]

accepts-Inv :
    (m : System) (c now : ℕ) (remote : Option Addr)
    → Inv m
    → Inv (after_admit c (admit now remote m.server) m)
unfolding after_admit
accepts-Inv m c now remote i = split (admit now remote m.server) refl
  where
    split : (r : Server × Admission) → admit now remote m.server ≡ r → Inv (after_admit c r m)
    split (s, turned_away e) q = shut-Inv m c e s i (
        subst (λ (r : Server × Admission). Only c m.server r.0) q
          (admit-Only c now remote m.server))
    split (s, admitted ip l) q =
        moves m _ c (reading ip l) i
          (subst (λ (r : Server × Admission). Only c m.server r.0) q
            (admit-Only c now remote m.server))
          refl refl refl (λ d h. refl) (admit-made now remote m.server s ip l i.server_ok q)

hellos-Inv :
    (m : System) (c : ℕ) (ip : Addr) (l : ℕ) (d : Decision)
    → Inv m
    → m.phase c ≡ reading ip l
    → Inv (after_decide c ip l d m)
unfolding after_decide
hellos-Inv m c ip l (refuse e) i at = shut-Inv m c e _ i (leave_unregistered-Only c l m.server)
hellos-Inv m c ip l (dial service backend) i at =
    moves m _ c (dialling ip l service backend) i (Only-refl c m.server) refl refl refl
      (λ d h. refl) (rw at at (i.phases c))

register-InSet : (c l : ℕ) (s : Server) → contains ((register c l s).heap l).live c ≡ true
unfolding register track
register-InSet c l s = ground (arith, contains-track c c (s.heap l).live)

still_in_force-limiter_for :
    (ip : Addr) (l : ℕ) (s : Server) → still_in_force ip l s ≡ true → limiter_for s ip ≡ some l
unfolding still_in_force
still_in_force-limiter_for ip l s h = ground arith

check_passes :
    {A B C : Type 0} (ip : Addr) (l : ℕ) (s : Server)
    → still_in_force ip l s ≡ true
    → A ⊎ B
    → A ⊎ (B × ((limiter_for s ip ≡ some l) ⊎ C))
check_passes ip l s h (inl a) = inl a
check_passes ip l s h (inr b) = inr (b, inl (still_in_force-limiter_for ip l s h))

module _ (m : System) (c : ℕ) (ip : Addr) (l : ℕ) (service : Bytes) (backend : AddrPort)
    (i : Inv m) where
  tracks-Inv :
      m.phase c ≡ dialled ip l service backend
      → Inv
          (record (at_phase c (tracked ip l service backend) m) { server = register c l m.server })
  unfolding register
  tracks-Inv at =
      moves m _ c (tracked ip l service backend) i (register-Only c l m.server) refl refl refl
        (λ d h. refl) (rw at at (i.phases c), inr (register-InSet c l m.server))

  checks-Inv :
      m.phase c ≡ tracked ip l service backend
      → Inv (after_check c ip l service backend (still_in_force ip l m.server) m)
  unfolding after_check
  checks-Inv at = split (still_in_force ip l m.server) refl
    where
      split :
          (b : Bool)
          → still_in_force ip l m.server ≡ b
          → Inv (after_check c ip l service backend b m)
      split false q = shut-Inv m c silent _ i (leave-Only c l m.server)
      split true q =
          let ok : PhaseOk m c (tracked ip l service backend) = rw at at (i.phases c) in
          moves m _ c (proxying ip l service backend) i (Only-refl c m.server) refl refl refl
            (λ d h. refl) (ok.0, check_passes ip l m.server q ok.1)

  finishes-Inv :
      m.phase c ≡ proxying ip l service backend → Inv (shut c piped (leave c l m.server) m)
  finishes-Inv at =
      moves m _ c piped i (leave-Only c l m.server) refl refl refl (λ d h. ground arith) tt

-- A step of a reload moves no handler.
stays :
    (m n : System)
    → Inv m
    → n.phase ≡ m.phase
    → IsServer n.server
    → ((d : ℕ) → Spares m n d)
    → Inv n
stays m n i phase is spares = record {
  server_ok = is;
  phases = λ d. rw phase (Spares-PhaseOk m n d (m.phase d) (spares d) (i.phases d));
}

swaps-Inv : (m : System) (config : PeersConfig) → Inv m → Inv (record m { config = config })
swaps-Inv m config i =
    stays m (record m { config = config }) i refl i.server_ok
      λ d. record { grows = omega arith; set = λ l b q. q; watched = λ ip l b q. q }

refreshes-Inv :
    (m : System) (now : ℕ)
    → Inv m
    → Inv (after_refresh (refresh_peers now m.config.peers m.server) m)
unfolding after_refresh
refreshes-Inv m now i =
    let ps = m.config.peers in
    let kept = refresh_peers-Kept now ps m.server i.server_ok in
    stays m (after_refresh (refresh_peers now ps m.server) m) i refl
      (refresh_peers-IsServer now ps m.server i.server_ok)
      λ d. record {
        grows = kept.grows;
        set = λ l b q. ground (arith, kept.live l b);
        watched = λ ip l b q. ground (
          arith,
          kept.live l b,
          refresh_peers_reaps now ps m.server ip l i.server_ok,
          contains-append m.pending (refresh_peers now ps m.server).1 l,
        );
      }

drains-Inv :
    (m : System) (l : ℕ) (rest : List ℕ)
    → Inv m
    → m.pending ≡ l ∷ rest
    → Inv (after_drain rest (close_live l m.server) m)
unfolding after_drain close_live drain_live contains limiter_for
drains-Inv m l rest i e =
    stays m (after_drain rest (close_live l m.server) m) i refl
      (record { made = i.server_ok.made; one_address = i.server_ok.one_address })
      λ d. record {
        grows = omega arith;
        set = λ k b q. ground (arith, contains-append m.closing (m.server.heap l).live d);
        watched = λ ip k b q. ground (arith, contains-append m.closing (m.server.heap l).live d);
      }

closes-Inv :
    (m : System) (c : ℕ) (rest : List ℕ)
    → Inv m
    → m.closing ≡ c ∷ rest
    → Inv (record m { closing = rest; closed = update m.closed c true })
unfolding contains
closes-Inv m c rest i e =
    stays m (record m { closing = rest; closed = update m.closed c true }) i refl i.server_ok
      λ d. record {
        grows = omega arith;
        set = λ k b q. ground arith;
        watched = λ ip k b q. ground arith;
      }

pub Step-Inv : {m n : System} → Step m n → Inv m → Inv n
Step-Inv {m} (System.accepts c now remote at) i = accepts-Inv m c now remote i
Step-Inv {m} (System.hellos c ip l conn at) i = hellos-Inv m c ip l _ i at
Step-Inv {m} (System.dial_fails c ip l service backend at) i =
    shut-Inv m c _ _ i (leave_unregistered-Only c l m.server)
Step-Inv {m} (System.dials c ip l service backend at) i =
    moves m _ c (dialled ip l service backend) i (Only-refl c m.server) refl refl refl (λ d h. refl)
      (rw at at (i.phases c))
Step-Inv {m} (System.tracks c ip l service backend at) i = tracks-Inv m c ip l service backend i at
Step-Inv {m} (System.checks c ip l service backend at) i = checks-Inv m c ip l service backend i at
Step-Inv {m} (System.finishes c ip l service backend at) i =
    finishes-Inv m c ip l service backend i at
Step-Inv {m} (System.swaps config) i = swaps-Inv m config i
Step-Inv {m} (System.refreshes now) i = refreshes-Inv m now i
Step-Inv {m} (System.drains l rest e) i = drains-Inv m l rest i e
Step-Inv {m} (System.closes c rest e) i = closes-Inv m c rest i e
