-- ===== src/Client/Dialing/Settled.antt =====
-- client.go, `dialControl` and `refreshEndpoint`: however the dials of a client run, one at most moves the
-- endpoint, and the device ends up where the client says it is.
use gocloak.Base.{
  ℕ, suc, ◌≡◌, ◌⊎◌, inl, inr, refl, Bool, true, false, not, List, [], ◌∷◌, Option, none, some,
  arith, Result, ok, err, nat_beq, nat_eq, nat_beq_iff, if◌then◌else◌, if-intro, contains,
  Bool-cases,
}
use gocloak.Client.Dialing.{
  Fixed, Phase, idle, attempting, waiting, inside, found, moved, connected, failed, Event, called,
  attempt_made, budget_over, retried, semaphore_taken, semaphore_given_up, resumed, shut, Client,
  new_client, at, leave, refresh_failed, move_failed, cancelled, handshake_timeout, begin_dial,
  after_lookup, after_move, advance, run_dials,
}
use gocloak.Client.{ClientError, resolve_endpoint}
use gocloak.Config.{Parsers}
use gocloak.Device.{Texts, Wireguard, DeviceError, set_peer_endpoint}
use gocloak.Net.{AddrPort, addr_port_beq, addr_port_beq_iff}
use gocloak.Client.Dialing.Changes.{
  in_section, before_lookup, NoRepeat, below, PhaseOk, IsClient, at-IsClient, hold-IsClient,
  take-IsClient, shut-IsClient,
}

-- The dial neither has the semaphore nor waits for it.
abbrev is_loose : Phase → Bool
is_loose (waiting _) = false
is_loose p = not (in_section p)

module _ {W : Type 0} (lib : Parsers) (texts : Texts) (dev : Wireguard W) (fixed : Fixed) where
  loose-PhaseOk : (c : Client W) (p : Phase) → is_loose p ≡ true → PhaseOk fixed c p
  loose-PhaseOk c idle h = tt
  loose-PhaseOk c (attempting _ _) h = tt
  loose-PhaseOk c (waiting _) h = absurd (ground arith)
  loose-PhaseOk c (inside _) h = absurd (ground arith)
  loose-PhaseOk c (found _ _) h = absurd (ground arith)
  loose-PhaseOk c (moved _ _) h = absurd (ground arith)
  loose-PhaseOk c connected h = tt
  loose-PhaseOk c (failed _) h = tt

  loose-outside : (p : Phase) → is_loose p ≡ true → in_section p ≡ false
  loose-outside idle h = refl
  loose-outside (attempting _ _) h = refl
  loose-outside (waiting _) h = refl
  loose-outside (inside _) h = absurd (ground arith)
  loose-outside (found _ _) h = absurd (ground arith)
  loose-outside (moved _ _) h = absurd (ground arith)
  loose-outside connected h = refl
  loose-outside (failed _) h = refl

  -- A dial goes on outside.
  loose-IsClient :
      (i : ℕ) (p : Phase) (c : Client W)
      → is_loose p ≡ true
      → in_section (c.dials i) ≡ false
      → (before_lookup p ≡ true → before_lookup (c.dials i) ≡ true)
      → IsClient fixed c
      → IsClient fixed (at i p c)
  loose-IsClient i p c loose outside before is =
      at-IsClient fixed i p c (loose-PhaseOk c p loose) (ground (arith, loose-outside p loose))
        before is

  -- A dial leaves the section.
  leave-IsClient :
      (i : ℕ) (p : Phase) (c c' : Client W)
      → in_section (c.dials i) ≡ true
      → is_loose p ≡ true
      → before_lookup p ≡ false
      → c'.dials ≡ c.dials
      → c'.given ≡ c'.addr
      → c'.refreshed ≡ below c'.generation
      → (c'.lookups ≡ c.lookups)
        ⊎ ((c'.lookups ≡ i ∷ c.lookups) × (before_lookup (c.dials i) ≡ true))
      → IsClient fixed c
      → IsClient fixed (leave i p c')
  leave-IsClient i p c c' holds loose done same given refreshed lookups is =
      hold-IsClient fixed i p c (record c' { refreshing = false }) holds done same
        (loose-PhaseOk (record c' { refreshing = false }) p loose) (inr refl) (λ e. given) refreshed
        lookups is

  after_lookup-IsClient :
      (i g : ℕ) (r : Result ClientError (AddrPort × Bool)) (c : Client W)
      → c.dials i ≡ inside g
      → c.generation ≡ g
      → IsClient fixed c
      → IsClient fixed (after_lookup i g r c)
  unfolding after_lookup
  after_lookup-IsClient i g (err x) c e same is =
      let ok = rw e at (is.phases i) in
      leave-IsClient i (failed (refresh_failed x)) c (record c { lookups = i ∷ c.lookups })
        (rw e refl) refl refl refl ok.2 is.refreshed (inr (refl, rw e refl)) is
  after_lookup-IsClient i g (ok (addr, literal)) c e same is =
      let ok = rw e at (is.phases i) in
      hold-IsClient fixed i (found g addr) c (record c { lookups = i ∷ c.lookups }) (rw e refl) refl
        refl (ok.0, ok.1, ok.2, same) (inl refl) is.free is.refreshed (inr (refl, rw e refl)) is

  after_move-IsClient :
      (i g : ℕ) (addr : AddrPort) (r : W × Option DeviceError) (c : Client W)
      → c.dials i ≡ found g addr
      → IsClient fixed c
      → IsClient fixed (after_move i g addr r c)
  unfolding after_move
  after_move-IsClient i g addr (w, some x) c e is =
      let ok = rw e at (is.phases i) in
      leave-IsClient i (failed (move_failed x)) c (record c { tunnel = w }) (rw e refl) refl refl
        refl ok.2 is.refreshed (inl refl) is
  after_move-IsClient i g addr (w, none) c e is =
      let ok = rw e at (is.phases i) in
      hold-IsClient fixed i (moved g addr) c (record c { tunnel = w; given = addr }) (rw e refl)
        refl refl (ok.0, ok.1, refl, ok.3) (inl refl) (λ free. absurd (ground arith)) is.refreshed
        (inl refl) is

  advance-IsClient :
      (i : ℕ) (event : Event) (p : Phase) (c : Client W)
      → c.dials i ≡ p
      → IsClient fixed c
      → IsClient fixed (advance lib texts dev fixed i event p c)
  unfolding advance begin_dial
  advance-IsClient i shut p c e is = shut-IsClient fixed c is
  advance-IsClient i (called service) idle c e is =
      loose-IsClient i (begin_dial service c) c (ground arith) (rw e refl) (λ h. rw e refl) is
  advance-IsClient i attempt_made (attempting g r) c e is =
      loose-IsClient i connected c refl (rw e refl) (λ h. absurd (ground arith)) is
  advance-IsClient i (budget_over cancels) (attempting g r) c e is =
      loose-IsClient i (failed (if cancels then cancelled else handshake_timeout)) c refl
        (rw e refl) (λ h. absurd (ground arith)) is
  advance-IsClient i retried (attempting g false) c e is =
      if-intro (λ p. IsClient fixed (at i p c)) fixed.literal
        (λ literal.
          loose-IsClient i (attempting g true) c refl (rw e refl) (λ h. absurd (ground arith)) is)
        (λ name. at-IsClient fixed i (waiting g) c name (rw e refl) (λ h. rw e refl) is)
  advance-IsClient i semaphore_taken (waiting g) c e is =
      if-intro (IsClient fixed) c.refreshing (λ busy. is)
        (λ free. take-IsClient fixed i g c e free is)
  advance-IsClient i semaphore_given_up (waiting g) c e is =
      loose-IsClient i (attempting g true) c refl (rw e refl) (λ h. absurd (ground arith)) is
  advance-IsClient i (resumed names) (inside g) c e is =
      let ok = rw e at (is.phases i) in
      if-intro (IsClient fixed) (not (nat_beq c.generation g))
        (λ other.
          leave-IsClient i (attempting g true) c c (rw e refl) refl refl refl ok.2 is.refreshed
            (inl refl) is)
        (λ same.
          after_lookup-IsClient i g (resolve_endpoint lib names fixed.host fixed.port) c e
            (ground (arith, nat_beq_iff c.generation g)) is)
  advance-IsClient i (resumed names) (found g addr) c e is =
      let ok = rw e at (is.phases i) in
      if-intro (IsClient fixed) (not (addr_port_beq addr c.addr))
        (λ other.
          after_move-IsClient i g addr
            (set_peer_endpoint texts dev fixed.server_pub_key addr c.tunnel) c e is)
        (λ same.
          hold-IsClient fixed i (moved g addr) c c (rw e refl) refl refl
            (ok.0, ok.1, ground (arith, addr_port_beq_iff addr c.addr), ok.3) (inl refl) is.free
            is.refreshed (inl refl) is)
  advance-IsClient i (resumed names) (moved g addr) c e is =
      let ok = rw e at (is.phases i) in
      leave-IsClient i (attempting g true) c
        (record c { addr = addr; generation = suc c.generation; refreshed = g ∷ c.refreshed })
        (rw e refl) refl refl refl ok.2 (ground (arith, is.refreshed)) (inl refl) is
  advance-IsClient i _ _ c e is = is

  run_dials-kept :
      (es : List (ℕ × Event)) (c : Client W)
      → IsClient fixed c
      → IsClient fixed (run_dials lib texts dev fixed es c)
  unfolding run_dials
  run_dials-kept [] c is = is
  run_dials-kept ((i, event) ∷ es) c is =
      run_dials-kept es (advance lib texts dev fixed i event (c.dials i) c)
        (advance-IsClient i event (c.dials i) c refl is)

  new_client-IsClient : (addr : AddrPort) (w : W) → IsClient fixed (new_client addr w)
  unfolding contains
  new_client-IsClient addr w = record {
    phases = λ i. tt;
    one = λ i j h. absurd (ground arith);
    owner = λ h. absurd (ground arith);
    free = λ h. refl;
    refreshed = refl;
    once = tt;
    fresh = λ i h. refl;
    literal = λ h. refl;
  }

  -- A new client whose device was given the endpoint's address, and any interleaving of the steps of any
  -- number of dials and of `Close`. At every moment at most one dial is behind the semaphore; while none
  -- is, the semaphore is free and the address in force is the one the device was last given. The refreshes
  -- that were completed had recorded the generations from 0 up, one each, so no two dials that recorded
  -- the same one both completed theirs. No dial looked the name up twice, and none did if the endpoint is
  -- a literal address.
  pub run_dials-settles :
      (addr : AddrPort) (w : W) (es : List (ℕ × Event))
      → let c = run_dials lib texts dev fixed es (new_client addr w) in
        ((i j : ℕ) → in_section (c.dials i) ≡ true → in_section (c.dials j) ≡ true → i ≡ j)
        × (((i : ℕ) → in_section (c.dials i) ≡ false) → (c.refreshing ≡ false) × (c.given ≡ c.addr))
        × (c.refreshed ≡ below c.generation)
        × NoRepeat c.lookups
        × (fixed.literal ≡ true → c.lookups ≡ [])
  run_dials-settles addr w es =
      let c = run_dials lib texts dev fixed es (new_client addr w) in
      let is = run_dials-kept es (new_client addr w) (new_client-IsClient addr w) in
      (
        is.one,
        (λ outside.
            let free : c.refreshing ≡ false = elim (Bool-cases c.refreshing) [
              | inl busy ↦ let (i, h) = is.owner busy in absurd (ground (arith, outside i))
              | inr free ↦ free
            ] in
            (free, is.free free)),
        is.refreshed,
        is.once,
        is.literal,
      )
