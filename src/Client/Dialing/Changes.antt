-- ===== src/Client/Dialing/Changes.antt =====
-- client.go, `refreshEndpoint`: what holds of a client between the steps of its dials, and the changes that
-- keep it.
use gocloak.Base.{
  ℕ, zero, suc, ◌≡◌, ◌⊎◌, inl, inr, refl, Bool, true, false, not, List, [], ◌∷◌, arith, nat_beq,
  nat_eq, nat_beq_iff, contains, Bool-cases,
}
use gocloak.Client.Dialing.{
  Fixed, Phase, idle, attempting, waiting, inside, found, moved, connected, failed, Client, at,
}
use gocloak.Server.{update}

-- The dial has the semaphore.
abbrev pub in_section : Phase → Bool
in_section (inside _) = true
in_section (found _ _) = true
in_section (moved _ _) = true
in_section _ = false

-- The dial has not looked the name up.
abbrev pub before_lookup : Phase → Bool
before_lookup idle = true
before_lookup (attempting _ refreshed) = not refreshed
before_lookup (waiting _) = true
before_lookup (inside _) = true
before_lookup _ = false

abbrev pub NoRepeat : List ℕ → Type 0
NoRepeat [] = Unit
NoRepeat (x ∷ xs) = (contains xs x ≡ false) × NoRepeat xs

-- The numbers below this one, the greatest first.
abbrev pub below : ℕ → List ℕ
below zero = []
below (suc n) = n ∷ below n

module _ {W : Type 0} (fixed : Fixed) where
  -- What holds of a dial that has the semaphore, by its phase.
  abbrev pub PhaseOk : Client W → Phase → Type 0
  PhaseOk c (waiting g) = fixed.literal ≡ false
  PhaseOk c (inside g) = (fixed.literal ≡ false) × (c.refreshing ≡ true) × (c.given ≡ c.addr)
  PhaseOk c (found g addr) =
      (fixed.literal ≡ false) × (c.refreshing ≡ true) × (c.given ≡ c.addr) × (c.generation ≡ g)
  PhaseOk c (moved g addr) =
      (fixed.literal ≡ false) × (c.refreshing ≡ true) × (c.given ≡ addr) × (c.generation ≡ g)
  PhaseOk c _ = Unit

  pub record IsClient (c : Client W) : Type 0 where
    pub phases : (i : ℕ) → PhaseOk c (c.dials i)
    pub one : (i j : ℕ) → in_section (c.dials i) ≡ true → in_section (c.dials j) ≡ true → i ≡ j
    pub owner : c.refreshing ≡ true → (i : ℕ) × (in_section (c.dials i) ≡ true)
    pub free : c.refreshing ≡ false → c.given ≡ c.addr
    pub refreshed : c.refreshed ≡ below c.generation
    pub once : NoRepeat c.lookups
    pub fresh : (i : ℕ) → before_lookup (c.dials i) ≡ true → contains c.lookups i ≡ false
    pub literal : fixed.literal ≡ true → c.lookups ≡ []

  -- A dial outside relies on nothing that changes.
  PhaseOk-outside :
      (c c' : Client W) (p : Phase) → in_section p ≡ false → PhaseOk c p → PhaseOk c' p
  PhaseOk-outside c c' idle o h = tt
  PhaseOk-outside c c' (attempting _ _) o h = tt
  PhaseOk-outside c c' (waiting _) o h = h
  PhaseOk-outside c c' (inside _) o h = absurd (ground arith)
  PhaseOk-outside c c' (found _ _) o h = absurd (ground arith)
  PhaseOk-outside c c' (moved _ _) o h = absurd (ground arith)
  PhaseOk-outside c c' connected o h = tt
  PhaseOk-outside c c' (failed _) o h = tt

  PhaseOk-held :
      (c : Client W) (p : Phase) → in_section p ≡ true → PhaseOk c p → c.refreshing ≡ true
  PhaseOk-held c (inside _) o h = h.1
  PhaseOk-held c (found _ _) o h = h.1
  PhaseOk-held c (moved _ _) o h = h.1
  PhaseOk-held c idle o h = absurd (ground arith)
  PhaseOk-held c (attempting _ _) o h = absurd (ground arith)
  PhaseOk-held c (waiting _) o h = absurd (ground arith)
  PhaseOk-held c connected o h = absurd (ground arith)
  PhaseOk-held c (failed _) o h = absurd (ground arith)

  pub PhaseOk-name :
      (c : Client W) (p : Phase) → in_section p ≡ true → PhaseOk c p → fixed.literal ≡ false
  PhaseOk-name c (inside _) o h = h.0
  PhaseOk-name c (found _ _) o h = h.0
  PhaseOk-name c (moved _ _) o h = h.0
  PhaseOk-name c idle o h = absurd (ground arith)
  PhaseOk-name c (attempting _ _) o h = absurd (ground arith)
  PhaseOk-name c (waiting _) o h = absurd (ground arith)
  PhaseOk-name c connected o h = absurd (ground arith)
  PhaseOk-name c (failed _) o h = absurd (ground arith)

  -- A dial changes its phase, and nothing that is shared.
  pub at-IsClient :
      (i : ℕ) (p : Phase) (c : Client W)
      → PhaseOk c p
      → in_section p ≡ in_section (c.dials i)
      → (before_lookup p ≡ true → before_lookup (c.dials i) ≡ true)
      → IsClient c
      → IsClient (at i p c)
  at-IsClient i p c h section before is = record {
    phases = λ j. phase j (Bool-cases (nat_beq i j));
    one = λ j k a b.
        ground (arith, is.one j k, is.one i k, is.one j i, nat_beq_iff i j, nat_beq_iff i k);
    owner = λ e. let (j, h) = is.owner e in (j, owns j h (Bool-cases (nat_beq i j)));
    free = is.free;
    refreshed = is.refreshed;
    once = is.once;
    fresh = λ j e. ground (arith, is.fresh j, is.fresh i, nat_beq_iff i j);
    literal = is.literal;
  }
    where
      owns :
          (j : ℕ)
          → in_section (c.dials j) ≡ true
          → (nat_beq i j ≡ true) ⊎ (nat_beq i j ≡ false)
          → in_section (update c.dials i p j) ≡ true
      owns j h (inl same) = ground (arith, nat_beq_iff i j)
      owns j h (inr other) = rw other h

      phase :
          (j : ℕ)
          → (nat_beq i j ≡ true) ⊎ (nat_beq i j ≡ false)
          → PhaseOk (at i p c) (update c.dials i p j)
      phase j (inl same) = rw same h
      phase j (inr other) = rw other (is.phases j)

  -- The dial that has the semaphore changes what is shared.
  pub hold-IsClient :
      (i : ℕ) (p : Phase) (c c' : Client W)
      → in_section (c.dials i) ≡ true
      → before_lookup p ≡ false
      → c'.dials ≡ c.dials
      → PhaseOk c' p
      → (in_section p ≡ true) ⊎ (c'.refreshing ≡ false)
      → (c'.refreshing ≡ false → c'.given ≡ c'.addr)
      → c'.refreshed ≡ below c'.generation
      → (c'.lookups ≡ c.lookups)
        ⊎ ((c'.lookups ≡ i ∷ c.lookups) × (before_lookup (c.dials i) ≡ true))
      → IsClient c
      → IsClient (at i p c')
  unfolding contains
  hold-IsClient i p c c' holds done same h stays_or_frees free refreshed lookups is = record {
    phases = λ j. phase j (Bool-cases (nat_beq i j));
    one = λ j k a b.
        ground (arith, is.one i j holds, is.one i k holds, nat_beq_iff i j, nat_beq_iff i k, same);
    owner = λ e. (i, ground (arith, stays_or_frees, nat_beq_iff i i));
    free = free;
    refreshed = refreshed;
    once = once lookups;
    fresh = λ j e. ground (arith, is.fresh j, is.fresh i, nat_beq_iff i j, same);
    literal = λ e. absurd (ground (arith, PhaseOk-name c (c.dials i) holds (is.phases i)));
  }
    where
      once :
          (c'.lookups ≡ c.lookups)
            ⊎ ((c'.lookups ≡ i ∷ c.lookups) × (before_lookup (c.dials i) ≡ true))
          → NoRepeat c'.lookups
      once (inl e) = rw e is.once
      once (inr (e, first)) = rw e (is.fresh i first, is.once)

      phase :
          (j : ℕ)
          → (nat_beq i j ≡ true) ⊎ (nat_beq i j ≡ false)
          → PhaseOk (at i p c') (update c'.dials i p j)
      phase j (inl e) = rw e h
      phase j (inr e) =
          rw (e, same)
            (PhaseOk-outside c c' (c.dials j) (outside (Bool-cases (in_section (c.dials j))))
              (is.phases j))
        where
          outside :
              (in_section (c.dials j) ≡ true) ⊎ (in_section (c.dials j) ≡ false)
              → in_section (c.dials j) ≡ false
          outside (inl enters) = absurd (ground (arith, is.one i j holds enters, nat_beq_iff i j))
          outside (inr stays) = stays

  -- A dial takes the semaphore while it is free.
  pub take-IsClient :
      (i g : ℕ) (c : Client W)
      → c.dials i ≡ waiting g
      → c.refreshing ≡ false
      → IsClient c
      → IsClient (at i (inside g) (record c { refreshing = true }))
  take-IsClient i g c waits is_free is = record {
    phases = λ j. phase j (Bool-cases (nat_beq i j));
    one = λ j k a b. ground (arith, nobody j, nobody k, nat_beq_iff i j, nat_beq_iff i k);
    owner = λ e. (i, ground (arith, nat_beq_iff i i));
    free = λ e. absurd (ground arith);
    refreshed = is.refreshed;
    once = is.once;
    fresh = λ j e. ground (arith, is.fresh j, is.fresh i, nat_beq_iff i j);
    literal = is.literal;
  }
    where
      nobody : (j : ℕ) → in_section (c.dials j) ≡ false
      nobody j = elim (Bool-cases (in_section (c.dials j))) [
        | inl enters ↦ absurd (ground (arith, PhaseOk-held c (c.dials j) enters (is.phases j)))
        | inr stays ↦ stays
      ]

      phase :
          (j : ℕ)
          → (nat_beq i j ≡ true) ⊎ (nat_beq i j ≡ false)
          → PhaseOk
              (at i (inside g) (record c { refreshing = true }))
              (update c.dials i (inside g) j)
      phase j (inl e) =
          let name : fixed.literal ≡ false = rw waits at (is.phases i) in
          rw e (name, refl, is.free is_free)
      phase j (inr e) =
          rw e (
            PhaseOk-outside c (record c { refreshing = true }) (c.dials j) (nobody j) (is.phases j))

  PhaseOk-shut : (c : Client W) (p : Phase) → PhaseOk c p → PhaseOk (record c { closed = true }) p
  PhaseOk-shut c idle h = tt
  PhaseOk-shut c (attempting _ _) h = tt
  PhaseOk-shut c (waiting _) h = h
  PhaseOk-shut c (inside _) h = h
  PhaseOk-shut c (found _ _) h = h
  PhaseOk-shut c (moved _ _) h = h
  PhaseOk-shut c connected h = tt
  PhaseOk-shut c (failed _) h = tt

  -- `Close` leaves what the dials rely on.
  pub shut-IsClient : (c : Client W) → IsClient c → IsClient (record c { closed = true })
  shut-IsClient c is = record {
    phases = λ i. PhaseOk-shut c (c.dials i) (is.phases i);
    one = is.one;
    owner = is.owner;
    free = is.free;
    refreshed = is.refreshed;
    once = is.once;
    fresh = is.fresh;
    literal = is.literal;
  }
