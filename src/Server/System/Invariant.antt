-- ===== src/Server/System/Invariant.antt =====
-- server.go: a registered connection is in the set of its limiter, or has been taken out to be closed.
use gocloak.Base.{
  ℕ, ◌≤◌, ◌<◌, ◌≡◌, ◌≢◌, ◌⊎◌, refl, Bool, true, false, some, arith, contains, nat_eq, nat_beq,
  if◌then◌else◌,
}
use gocloak.Net.{Addr}
use gocloak.Server.Refresh.{IsServer}
use gocloak.Server.System.{
  Phase, unborn, reading, dialling, dialled, tracked, proxying, ended, piped, System,
}
use gocloak.Server.{update, limiter_for}

-- Closed, or taken out of the set to be closed.
abbrev pub IsReaped : System → ℕ → Type 0
IsReaped m c = (m.closed c ≡ true) ⊎ (contains m.closing c ≡ true)

abbrev pub InSet : System → ℕ → ℕ → Type 0
InSet m c l = contains (m.server.heap l).live c ≡ true

-- In force for the address, or gone with its `closeLive` still to run.
abbrev pub IsWatched : System → Addr → ℕ → Type 0
IsWatched m ip l = (limiter_for m.server ip ≡ some l) ⊎ (contains m.pending l ≡ true)

abbrev pub PhaseOk : System → ℕ → Phase → Type 0
PhaseOk m c (reading ip l) = l < m.server.fresh
PhaseOk m c (dialling ip l service backend) = l < m.server.fresh
PhaseOk m c (dialled ip l service backend) = l < m.server.fresh
PhaseOk m c (tracked ip l service backend) = (l < m.server.fresh) × (IsReaped m c ⊎ InSet m c l)
PhaseOk m c (proxying ip l service backend) =
    (l < m.server.fresh) × (IsReaped m c ⊎ (InSet m c l × IsWatched m ip l))
PhaseOk m c _ = Unit

pub record Inv (m : System) : Type 0 where
  pub server_ok : IsServer m.server
  pub phases : (c : ℕ) → PhaseOk m c (m.phase c)

-- What a step of something else does to what is known of a connection.
pub record Spares (m n : System) (c : ℕ) : Type 0 where
  pub grows : m.server.fresh ≤ n.server.fresh
  pub set : (l : ℕ) → l < m.server.fresh → IsReaped m c ⊎ InSet m c l → IsReaped n c ⊎ InSet n c l
  pub watched :
      (ip : Addr) (l : ℕ)
      → l < m.server.fresh
      → IsReaped m c ⊎ (InSet m c l × IsWatched m ip l)
      → IsReaped n c ⊎ (InSet n c l × IsWatched n ip l)

pub Spares-PhaseOk :
    (m n : System) (c : ℕ) (p : Phase) → Spares m n c → PhaseOk m c p → PhaseOk n c p
Spares-PhaseOk m n c unborn s h = tt
Spares-PhaseOk m n c (reading ip l) s h = omega (arith, s.grows)
Spares-PhaseOk m n c (dialling ip l service backend) s h = omega (arith, s.grows)
Spares-PhaseOk m n c (dialled ip l service backend) s h = omega (arith, s.grows)
Spares-PhaseOk m n c (tracked ip l service backend) s h = (omega (arith, s.grows), s.set l h.0 h.1)
Spares-PhaseOk m n c (proxying ip l service backend) s h =
    (omega (arith, s.grows), s.watched ip l h.0 h.1)
Spares-PhaseOk m n c (ended e) s h = tt
Spares-PhaseOk m n c piped s h = tt

-- A step that changes the phase of one connection.
pub phases_after :
    (m n : System) (c : ℕ) (p : Phase)
    → n.phase ≡ update m.phase c p
    → ((d : ℕ) → PhaseOk m d (m.phase d))
    → PhaseOk n c p
    → ((d : ℕ) → c ≢ d → Spares m n d)
    → (d : ℕ) → PhaseOk n d (n.phase d)
phases_after m n c p e h here others d = rw e (split (nat_beq c d) refl)
  where
    split : (b : Bool) → nat_beq c d ≡ b → PhaseOk n d (if b then p else m.phase d)
    split true t = let same : c ≡ d = ground arith in rw (← same) here
    split false t = Spares-PhaseOk m n d (m.phase d) (others d (λ q. ground arith)) (h d)
