-- ===== src/Command/Keygen/Written.antt =====
-- cmd/gocloak/main.go, `writeSecretFile` and `runKeygen`: which files a keygen leaves.
use gocloak.Base.{
  ◌≡◌, ◌≢◌, inl, inr, refl, ap, ◌∙◌, Bool, true, false, Bytes, bytes_eq, bytes_beq, bytes_beq_iff,
  [], ◌∷◌, none, some, Result, ok, err, arith, lookup, insert, lookup-insert, Option-cases,
  Result-cases, if◌then◌else◌,
}
use gocloak.Command.Keygen.{
  Files, Faults, KeygenError, remove, os_remove, write_opened, write_secret_file, write_pair,
  after_key, after_psk,
}

lookup-remove :
    (path other : Bytes) (files : Files)
    → lookup other (remove path files) ≡ (if bytes_beq path other then none else lookup other files)
unfolding lookup remove
lookup-remove path other [] = ground arith
lookup-remove path other ((p, content) ∷ files) = ground (
  arith,
  lookup-remove path other files,
  bytes_beq_iff p path,
  bytes_beq_iff p other,
  bytes_beq_iff path other,
)

abbrev pub is_err : {E A : Type 0} → Result E A → Bool
is_err (err _) = true
is_err (ok _) = false

abbrev AtRemoval : Bytes → Bytes → Bytes → Files → Type 0
AtRemoval path content other files =
    (lookup other (insert path content files)
      ≡ (if bytes_beq path other then some content else lookup other files))
    × (lookup other (remove path (insert path content files))
        ≡ (if bytes_beq path other then none else lookup other (insert path content files)))

removal : (path content other : Bytes) (files : Files) → AtRemoval path content other files
removal path content other files =
    (lookup-insert path other content files, lookup-remove path other (insert path content files))

-- One write leaves the files of the other paths, and a file that was there.
write_secret_file-kept :
    (f : Faults) (path content other old : Bytes) (files : Files)
    → lookup other files ≡ some old
    → lookup other (write_secret_file f path content files).0 ≡ some old
unfolding write_secret_file write_opened
write_secret_file-kept f path content other old files h = elim (Option-cases (lookup path files)) [
  | inr (c, e) ↦ ground arith
  | inl e ↦
      let differs : bytes_beq path other ≡ false = ground (arith, bytes_beq_iff path other) in
      ground (arith, removal path content other files, removal path f.partial other files)
]

-- One write that fails, and whose half-written file is removed, leaves every file.
write_secret_file-err :
    (f : Faults) (path content other : Bytes) (files : Files)
    → f.remove_fails ≡ false
    → is_err (write_secret_file f path content files).1 ≡ true
    → lookup other (write_secret_file f path content files).0 ≡ lookup other files
unfolding write_secret_file write_opened
write_secret_file-err f path content other files works h = elim (Option-cases (lookup path files)) [
  | inr (c, e) ↦ ground arith
  | inl e ↦ ground (
    arith,
    removal path content other files,
    removal path f.partial other files,
    bytes_beq_iff path other,
  )
]

-- One write that succeeds makes a new file with this content.
write_secret_file-ok :
    (f : Faults) (path content other : Bytes) (files : Files)
    → is_err (write_secret_file f path content files).1 ≡ false
    → (lookup path files ≡ none)
      × (lookup other (write_secret_file f path content files).0
          ≡ (if bytes_beq path other then some content else lookup other files))
unfolding write_secret_file write_opened
write_secret_file-ok f path content other files h = elim (Option-cases (lookup path files)) [
  | inr (c, e) ↦ absurd (ground arith)
  | inl e ↦ (e, ground (arith, removal path content other files))
]

module _ (g : Faults) (remove_fails : Bool) (key_path psk_path psk : Bytes) where
  after_key-err :
      (r : Files × Result KeygenError (Unit {0})) (e : KeygenError)
      → r.1 ≡ err e
      → after_key g remove_fails key_path (psk_path, psk) r ≡ (r.0, err e)
  unfolding after_key
  after_key-err (files, err x) e h = ap (λ y. (files, y)) h
  after_key-err (files, ok _) e h = absurd (ground arith)

  after_key-ok :
      (r : Files × Result KeygenError (Unit {0}))
      → r.1 ≡ ok tt
      → after_key g remove_fails key_path (psk_path, psk) r
        ≡ after_psk remove_fails key_path (write_secret_file g psk_path psk r.0)
  unfolding after_key
  after_key-ok (files, err x) h = absurd (ground arith)
  after_key-ok (files, ok _) h = refl

module _ (remove_fails : Bool) (key_path : Bytes) where
  after_psk-err :
      (r : Files × Result KeygenError (Unit {0})) (e : KeygenError)
      → r.1 ≡ err e
      → after_psk remove_fails key_path r ≡ (os_remove remove_fails key_path r.0, err e)
  unfolding after_psk
  after_psk-err (files, err x) e h = ap (λ y. (os_remove remove_fails key_path files, y)) h
  after_psk-err (files, ok _) e h = absurd (ground arith)

  after_psk-ok :
      (r : Files × Result KeygenError (Unit {0}))
      → r.1 ≡ ok tt
      → after_psk remove_fails key_path r ≡ (r.0, ok tt)
  unfolding after_psk
  after_psk-ok (files, err x) h = absurd (ground arith)
  after_psk-ok (files, ok _) h = refl

module _ (f g : Faults) (remove_fails : Bool) (key_path key psk_path psk : Bytes)
    (files : Files) where
  abbrev pair : Files × Result KeygenError (Unit {0})
  pair = write_pair f g remove_fails (key_path, key) (psk_path, psk) files

  abbrev first : Files × Result KeygenError (Unit {0})
  first = write_secret_file f key_path key files

  abbrev second : Files × Result KeygenError (Unit {0})
  second = write_secret_file g psk_path psk first.0

  -- The three ways of the two writes.
  pair-first : (e : KeygenError) → first.1 ≡ err e → pair ≡ (first.0, err e)
  unfolding write_pair
  pair-first e = after_key-err g remove_fails key_path psk_path psk first e

  pair-second :
      (e : KeygenError)
      → first.1 ≡ ok tt
      → second.1 ≡ err e
      → pair ≡ (os_remove remove_fails key_path second.0, err e)
  unfolding write_pair
  pair-second e h h2 =
      after_key-ok g remove_fails key_path psk_path psk first h
      ∙ after_psk-err remove_fails key_path second e h2

  pair-both : first.1 ≡ ok tt → second.1 ≡ ok tt → pair ≡ (second.0, ok tt)
  unfolding write_pair
  pair-both h h2 =
      after_key-ok g remove_fails key_path psk_path psk first h
      ∙ after_psk-ok remove_fails key_path second h2

  pub write_pair-kept :
      (other old : Bytes) → lookup other files ≡ some old → lookup other pair.0 ≡ some old
  write_pair-kept other old h =
      let kept : lookup other first.0 ≡ some old =
        write_secret_file-kept f key_path key other old files h in
      let kept2 : lookup other second.0 ≡ some old =
        write_secret_file-kept g psk_path psk other old first.0 kept in
      elim (Result-cases first.1) [
        | inr (e, x) ↦ ground (arith, pair-first e x)
        | inl (_, x) ↦
            let (new, _) = write_secret_file-ok f key_path key other files (ground arith) in
            elim (Result-cases second.1) [
              | inr (e, y) ↦ ground (
                arith,
                pair-second e x y,
                lookup-remove key_path other second.0,
                bytes_beq_iff key_path other,
              )
              | inl (_, y) ↦ ground (arith, pair-both x y)
            ]
      ]

  pub write_pair-err :
      (other : Bytes)
      → f.remove_fails ≡ false
      → g.remove_fails ≡ false
      → remove_fails ≡ false
      → is_err pair.1 ≡ true
      → lookup other pair.0 ≡ lookup other files
  write_pair-err other a b c h = elim (Result-cases first.1) [
    | inr (e, x) ↦
        ground (arith, pair-first e x, write_secret_file-err f key_path key other files a)
    | inl (_, x) ↦
        let (new, at_first) = write_secret_file-ok f key_path key other files (ground arith) in
        elim (Result-cases second.1) [
          | inr (e, y) ↦ ground (
            arith,
            pair-second e x y,
            lookup-remove key_path other second.0,
            bytes_beq_iff key_path other,
            write_secret_file-err g psk_path psk other first.0 b,
          )
          | inl (_, y) ↦ absurd (ground (arith, pair-both x y))
        ]
  ]

  pub write_pair-ok :
      (other : Bytes)
      → is_err pair.1 ≡ false
      → (lookup key_path pair.0 ≡ some key)
        × (lookup psk_path pair.0 ≡ some psk)
        × (key_path ≢ other → psk_path ≢ other → lookup other pair.0 ≡ lookup other files)
  write_pair-ok other h = elim (Result-cases first.1) [
    | inr (e, x) ↦ absurd (ground (arith, pair-first e x))
    | inl (_, x) ↦ elim (Result-cases second.1) [
      | inr (e, y) ↦ absurd (ground (arith, pair-second e x y))
      | inl (_, y) ↦
          let both = pair-both x y in
          let at_first =
            λ (path : Bytes). write_secret_file-ok f key_path key path files (ground arith) in
          let at_second =
            λ (path : Bytes). write_secret_file-ok g psk_path psk path first.0 (ground arith) in
          let here = bytes_beq_iff psk_path key_path in
          (
            ground (
              arith,
              both,
              here,
              at_first key_path,
              at_first psk_path,
              at_second key_path,
              bytes_beq_iff key_path key_path,
            ),
            ground (arith, both, at_second psk_path, bytes_beq_iff psk_path psk_path),
            λ p q. ground (
              arith,
              both,
              at_first other,
              at_second other,
              bytes_beq_iff key_path other,
              bytes_beq_iff psk_path other,
            ),
          )
    ]
  ]
