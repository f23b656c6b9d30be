-- ===== src/Wire/Names.antt =====
-- wire.go, `ValidServiceName`: what a name that passes looks like.
use gocloak.Base.{ℕ, ◌≤◌, ◌≡◌, ◌↔◌, ◌⊎◌, refl, true, Bytes, [], ◌∷◌, arith, length, all, All}
use gocloak.Wire.{valid_service_name, is_name_byte}

-- A lower-case letter or a digit, and in a later position a dash too.
abbrev pub IsAlnum : ℕ → Type 0
IsAlnum c = ((b'a' ≤ c) × (c ≤ b'z')) ⊎ ((b'0' ≤ c) × (c ≤ b'9'))

abbrev pub IsNameByte : ℕ → Type 0
IsNameByte c = IsAlnum c ⊎ (c ≡ b'-')

abbrev pub IsServiceName : Bytes → Type 0
IsServiceName [] = ⊥
IsServiceName (c ∷ cs) = IsAlnum c × All IsNameByte cs × (length (c ∷ cs) ≤ 63)

all-is_name_byte : (cs : Bytes) → (all is_name_byte cs ≡ true) ↔ All IsNameByte cs
all-is_name_byte [] = ((λ _. tt), λ _. refl)
all-is_name_byte (c ∷ cs) =
    let ih = all-is_name_byte cs in ((λ h. ground (arith, ih.0)), λ h. ground (arith, ih.1))

-- `ValidServiceName` accepts exactly the names of 1 to 63 bytes that start with a lower-case letter or
-- a digit and go on with lower-case letters, digits and dashes.
pub valid_service_name_iff : (name : Bytes) → (valid_service_name name ≡ true) ↔ IsServiceName name
unfolding valid_service_name
valid_service_name_iff [] = ((λ h. cc), λ h. absurd h)
valid_service_name_iff (c ∷ cs) =
    let tail = all-is_name_byte cs in ((λ h. ground (arith, tail.0)), λ h. ground (arith, tail.1))

pub length_valid :
    (name : Bytes) → valid_service_name name ≡ true → (1 ≤ length name) × (length name ≤ 63)
unfolding valid_service_name
length_valid [] h = cc
length_valid (c ∷ cs) h = ground arith
