-- ===== src/Command/Keygen.antt =====
-- cmd/gocloak/main.go, `keygen`. The file system is the files by their paths, as far as the command can see
-- them. What the operating system and the random source answer comes from outside.

pub mod Written
pub mod Outcomes
use gocloak.Base.{
  ℕ, suc, ◌+◌, ◌*◌, ◌/◌, ◌%◌, Bool, true, false, not, ◌||◌, Bytes, bytes_eq, List, [], ◌∷◌, ◌++◌,
  Option, none, some, Result, ok, err, ◌>>=◌, ◌>>◌, fail_if, lookup, insert, has_key, bytes_beq,
  codes, ltb, if◌then◌else◌, Eq, ◌==◌,
}
use gocloak.Command.{Parsed, help, bad_flags, parsed, Outcome, or_exit}
use gocloak.Secret.{is_empty}
use gocloak.Wire.{valid_service_name}

abbrev pub Files : Type 0
Files = List (Bytes × Bytes)

-- What happens to one `writeSecretFile`: which of its calls fail, and what a failed one leaves in the file.
pub record Faults : Type 0 where
  pub open_fails : Bool
  pub write_fails : Bool
  pub sync_fails : Bool
  pub close_fails : Bool
  pub remove_fails : Bool
  pub partial : Bytes

pub data KeygenError : Type 0 where
  already_exists : Bytes → KeygenError
  not_opened : Bytes → KeygenError
  not_written : Bytes → KeygenError
  not_synced : Bytes → KeygenError
  not_closed : Bytes → KeygenError

-- The file of a path is gone.
unfoldable pub remove : Bytes → Files → Files
remove path [] = []
remove path ((p, content) ∷ files) =
    let rest = remove path files in if bytes_beq p path then rest else (p, content) ∷ rest

-- `os.Remove`
abbrev pub os_remove : Bool → Bytes → Files → Files
os_remove fails path files = if fails then files else remove path files

-- `writeSecretFile` once the file is open: it holds what was written of the content.
unfoldable pub write_opened : Faults → Bytes → Bytes → Files → Files × Result KeygenError (Unit {0})
write_opened f path content files =
    if f.write_fails
    then (os_remove f.remove_fails path (insert path f.partial files), err (not_written path))
    else if f.sync_fails
    then (os_remove f.remove_fails path (insert path content files), err (not_synced path))
    else if f.close_fails
    then (os_remove f.remove_fails path (insert path content files), err (not_closed path))
    else (insert path content files, ok tt)

-- `writeSecretFile`
unfoldable pub write_secret_file :
    Faults → Bytes → Bytes → Files → Files × Result KeygenError (Unit {0})
write_secret_file f path content files =
    if has_key path files
    then (files, err (already_exists path))
    else if f.open_fails
    then (files, err (not_opened path))
    else write_opened f path content files

-- The end of the second write of `runKeygen`: when it fails, the first file is removed.
unfoldable pub after_psk :
    Bool → Bytes → Files × Result KeygenError (Unit {0}) → Files × Result KeygenError (Unit {0})
after_psk remove_fails key_path (files, err e) = (os_remove remove_fails key_path files, err e)
after_psk remove_fails key_path (files, ok _) = (files, ok tt)

-- The end of the first write, and the second.
unfoldable pub after_key :
    Faults
    → Bool
    → Bytes
    → Bytes × Bytes
    → Files × Result KeygenError (Unit {0})
    → Files × Result KeygenError (Unit {0})
after_key g remove_fails key_path (psk_path, psk) (files, err e) = (files, err e)
after_key g remove_fails key_path (psk_path, psk) (files, ok _) =
    after_psk remove_fails key_path (write_secret_file g psk_path psk files)

-- The two writes of `runKeygen`.
unfoldable pub write_pair :
    Faults
    → Faults
    → Bool
    → Bytes × Bytes
    → Bytes × Bytes
    → Files
    → Files × Result KeygenError (Unit {0})
write_pair f g remove_fails (key_path, key) to_psk files =
    after_key g remove_fails key_path to_psk (write_secret_file f key_path key files)

-- What the command finds around it: `os.Getwd`, the two reads of 32 bytes from `crypto/rand`, the base64
-- encoding, `curve25519.X25519` with the base point, and `filepath.Join`.
pub record Machine : Type 0 where
  pub working_dir : Option Bytes
  pub random_key : Option Bytes
  pub random_psk : Option Bytes
  pub base64 : Bytes → Bytes
  pub x25519 : Bytes → Option Bytes
  pub join_path : Bytes → Bytes → Bytes
  pub key_faults : Faults
  pub psk_faults : Faults
  pub remove_fails : Bool

abbrev pub modify : ℕ → (ℕ → ℕ) → Bytes → Bytes
modify i f [] = []
modify Prim.Native.Nat.zero f (b ∷ bs) = f b ∷ bs
modify (suc i) f (b ∷ bs) = b ∷ modify i f bs

-- `b & 248`, and `(b & 127) | 64`, of a byte
abbrev pub clear_low : ℕ → ℕ
clear_low b = b / 8 * 8

abbrev pub set_high : ℕ → ℕ
set_high b = let rest = b % 128 in if ltb rest 64 then rest + 64 else rest

-- `clampPrivateKey`
unfoldable pub clamp_private_key : Bytes → Bytes
clamp_private_key priv = modify 31 set_high (modify 0 clear_low priv)

-- What `runKeygen` has in hand when it begins to write.
pub record Minted : Type 0 where
  pub name : Bytes
  pub private_key : Bytes
  pub public_key : Bytes
  pub psk : Bytes
  pub key_path : Bytes
  pub psk_path : Bytes

-- `generateKeypair`: the clamped private key and its public key.
unfoldable pub generate_keypair : Machine → Option (Bytes × Bytes)
generate_keypair m = elim m.random_key [
  | none ↦ none
  | some priv ↦ elim (m.x25519 (clamp_private_key priv)) [
    | none ↦ none
    | some public_key ↦ some (clamp_private_key priv, public_key)
  ]
]

-- `runKeygen` up to the first write, on the values of `--name` and `--dir`.
unfoldable pub mint : Machine → Bytes × Bytes → Result ℕ Minted
mint m (name, dir) = do
  fail_if (is_empty name) 2
  fail_if (not (valid_service_name name)) 2
  target ← or_exit 1 (if is_empty dir then m.working_dir else some dir)
  (private_key, public_key) ← or_exit 1 (generate_keypair m)
  psk ← or_exit 1 m.random_psk
  ok (record {
    name = name;
    private_key = private_key;
    public_key = public_key;
    psk = psk;
    key_path = m.join_path target (name ++ codes ".key");
    psk_path = m.join_path target (name ++ codes ".psk");
  })

-- What the command prints when both files are written.
unfoldable pub printed : Machine → Minted → List Bytes
printed m k =
    (codes "peer: " ++ k.name)
    ∷ (codes "public_key: " ++ m.base64 k.public_key)
    ∷ (codes "psk: " ++ m.base64 k.psk)
    ∷ (codes "private key written to: " ++ k.key_path)
    ∷ (codes "psk written to: " ++ k.psk_path)
    ∷ []

unfoldable pub write_minted : Machine → Result ℕ Minted → Files → Files × Outcome
write_minted m (err code) files = (files, record { exit = code; stdout = [] })
write_minted m (ok k) files =
    let (files', written) =
      write_pair m.key_faults m.psk_faults m.remove_fails (k.key_path, m.base64 k.private_key)
        (k.psk_path, m.base64 k.psk) files in
    elim written [
      | err _ ↦ (files', record { exit = 1; stdout = [] })
      | ok _ ↦ (files', record { exit = 0; stdout = printed m k })
    ]

-- `runKeygen`
unfoldable pub run_keygen : Machine → Parsed (Bytes × Bytes) → Files → Files × Outcome
run_keygen m help files = (files, record { exit = 0; stdout = [] })
run_keygen m bad_flags files = (files, record { exit = 2; stdout = [] })
run_keygen m (parsed values) files = write_minted m (mint m values) files
