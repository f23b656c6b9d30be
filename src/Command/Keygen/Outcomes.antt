-- ===== src/Command/Keygen/Outcomes.antt =====
-- cmd/gocloak/main.go, `runKeygen`: what its exit code says of the files.
use gocloak.Base.{
  ℕ, ◌≡◌, ◌≢◌, false, Bytes, bytes_eq, [], some, Result, ok, err, arith, lookup, Result-cases,
  Option-cases, inl, inr,
}
use gocloak.Command.Keygen.Written.{write_pair-kept, write_pair-err, write_pair-ok}
use gocloak.Command.Keygen.{
  Files, Machine, Minted, KeygenError, generate_keypair, mint, printed, write_pair, write_minted,
  run_keygen,
}
use gocloak.Command.{Outcome, Parsed, help, bad_flags, parsed}

-- A keygen never overwrites and never removes a file that was there: whatever fails on the way, the
-- removals of the clean-up included, every file that was there reads as before.
pub run_keygen_keeps :
    (m : Machine) (args : Parsed (Bytes × Bytes)) (files : Files) (path old : Bytes)
    → lookup path files ≡ some old
    → lookup path (run_keygen m args files).0 ≡ some old
unfolding run_keygen write_minted
run_keygen_keeps m help files path old h = h
run_keygen_keeps m bad_flags files path old h = h
run_keygen_keeps m (parsed values) files path old h = elim (Result-cases (mint m values)) [
  | inr (code, e) ↦ ground arith
  | inl (k, e) ↦
      let kept =
        write_pair-kept m.key_faults m.psk_faults m.remove_fails k.key_path (m.base64 k.private_key)
          k.psk_path (m.base64 k.psk) files path old h in
      elim (Result-cases
        (write_pair m.key_faults m.psk_faults m.remove_fails (k.key_path, m.base64 k.private_key)
          (k.psk_path, m.base64 k.psk) files).1) [
            | inr (x, w) ↦ ground arith
            | inl (u, w) ↦ ground arith
          ]
]

mint-code : (m : Machine) (values : Bytes × Bytes) (code : ℕ) → mint m values ≡ err code → code ≢ 0
unfolding mint
mint-code m (name, dir) code e z = elim (Option-cases (generate_keypair m)) [
  | inl p ↦ elim (Option-cases m.working_dir) [ inl w ↦ ground arith | inr (d, w) ↦ ground arith ]
  | inr (keys, p) ↦ elim (Option-cases m.random_psk) [
    | inl q ↦ elim (Option-cases m.working_dir) [ inl w ↦ ground arith | inr (d, w) ↦ ground arith ]
    | inr (psk, q) ↦ elim (Option-cases m.working_dir) [
      | inl w ↦ ground arith
      | inr (d, w) ↦ ground arith
    ]
  ]
]

module _ (m : Machine) (values : Bytes × Bytes) (files : Files) where
  abbrev pub after : Files
  after = (run_keygen m (parsed values) files).0

  abbrev pub outcome : Outcome
  outcome = (run_keygen m (parsed values) files).1

  -- The keys are minted, printed, and in their files, and no other file is touched.
  abbrev pub Leaves : Minted → Type 0
  Leaves k =
      (mint m values ≡ ok k)
      × (outcome.stdout ≡ printed m k)
      × (lookup k.key_path after ≡ some (m.base64 k.private_key))
      × (lookup k.psk_path after ≡ some (m.base64 k.psk))
      × ((path : Bytes)
          → k.key_path ≢ path
          → k.psk_path ≢ path
          → lookup path after ≡ lookup path files)

  -- Nothing is printed, and no file is touched.
  abbrev pub LeavesNothing : Type 0
  LeavesNothing = (outcome.stdout ≡ []) × ((path : Bytes) → lookup path after ≡ lookup path files)

  abbrev wrote : Minted → Files × Result KeygenError (Unit {0})
  wrote k =
      write_pair m.key_faults m.psk_faults m.remove_fails (k.key_path, m.base64 k.private_key)
        (k.psk_path, m.base64 k.psk) files

  -- A keygen that exits with 0 has minted the keys, has printed what `printed` gives of them and has left
  -- the private key and the PSK, encoded, in their two files, and every other file as it was. One that
  -- exits with another code has printed nothing, and has left every file as it was if the removals of its
  -- clean-up work.
  pub run_keygen_outcomes :
      (outcome.exit ≡ 0 → (k : Minted) × Leaves k)
      × (outcome.exit ≢ 0
          → m.key_faults.remove_fails ≡ false
          → m.psk_faults.remove_fails ≡ false
          → m.remove_fails ≡ false
          → LeavesNothing)
  unfolding run_keygen write_minted
  run_keygen_outcomes = (succeeds, fails)
    where
      succeeds : outcome.exit ≡ 0 → (k : Minted) × Leaves k
      succeeds h = elim (Result-cases (mint m values)) [
        | inr (code, e) ↦ absurd (mint-code m values code e (ground arith))
        | inl (k, e) ↦ elim (Result-cases (wrote k).1) [
          | inr (x, w) ↦ absurd (ground arith)
          | inl (u, w) ↦
              let ok_at = λ (path : Bytes).
                write_pair-ok m.key_faults m.psk_faults m.remove_fails k.key_path
                  (m.base64 k.private_key) k.psk_path (m.base64 k.psk) files path (ground arith) in
              (
                k,
                (
                  e,
                  ground arith,
                  ground (arith, (ok_at []).0),
                  ground (arith, (ok_at []).1),
                  λ path p q. ground (arith, (ok_at path).2 p q),
                ),
              )
        ]
      ]

      fails :
          outcome.exit ≢ 0
          → m.key_faults.remove_fails ≡ false
          → m.psk_faults.remove_fails ≡ false
          → m.remove_fails ≡ false
          → LeavesNothing
      fails h a b c = elim (Result-cases (mint m values)) [
        | inr (code, e) ↦ (ground arith, λ path. ground arith)
        | inl (k, e) ↦ elim (Result-cases (wrote k).1) [
          | inl (u, w) ↦ absurd (ground arith)
          | inr (x, w) ↦ (
            ground arith,
            λ path. ground (
              arith,
              write_pair-err m.key_faults m.psk_faults m.remove_fails k.key_path
                  (m.base64 k.private_key) k.psk_path (m.base64 k.psk) files path a b c,
            ),
          )
        ]
      ]
