-- ===== src/Config/Yaml/Redacted.antt =====
-- config.go, `sanitizeYAMLMessage`: what an error says of a duplicate key in the peers file.
use gocloak.Base.{
  ℕ, ◌+◌, ◌≤◌, ◌≡◌, ◌≢◌, ◌⊎◌, ◌<◌, refl, ap, sym, ◌∙◌, true, false, Bytes, [], ◌∷◌, ◌++◌,
  append_assoc, none, some, arith, codes, length, drop, take-append, drop-append, All, has_prefix,
  index, last_index, length-append, inl, inr,
}
use gocloak.Config.Yaml.{
  dup_key_prefix, dup_key_suffix, redacted, line_prefix, sanitize_rest, sanitize_yaml_message,
}

has_prefix-append : (p s : Bytes) → has_prefix (p ++ s) p ≡ true
unfolding has_prefix
has_prefix-append [] s = refl
has_prefix-append (x ∷ p) s = ground (arith, has_prefix-append p s)

index-after :
    (n : Bytes) (s p : Bytes) (i : ℕ)
    → All (λ c. c ≢ b':') n
    → index s (b':' ∷ p) ≡ some i
    → index (n ++ s) (b':' ∷ p) ≡ some (length n + i)
unfolding index has_prefix
index-after [] s p i h e = ground arith
index-after (c ∷ n) s p i h e = ground (arith, index-after n s p i h.1 e)

last_index-after :
    (k s p : Bytes) (i : ℕ) → last_index s p ≡ some i → last_index (k ++ s) p ≡ some (length k + i)
unfolding last_index
last_index-after [] s p i e = ground arith
last_index-after (c ∷ k) s p i e = ground (arith, last_index-after k s p i e)

-- The bytes of a line number are none that the marker holds.
abbrev pub IsDigit : ℕ → Type 0
IsDigit c = (b'0' ≤ c) × (c ≤ b'9')

has_prefix-digits :
    (m : Bytes) (b : ℕ) (p : Bytes)
    → All IsDigit m
    → b < b'0' ⊎ b'9' < b
    → has_prefix m (b ∷ p) ≡ false
unfolding has_prefix
has_prefix-digits [] b p v h = refl
has_prefix-digits (c ∷ m) b p v h = ground arith

last_index-digits : (m p : Bytes) → All IsDigit m → last_index m (b' ' ∷ p) ≡ none
unfolding last_index has_prefix
last_index-digits [] p v = refl
last_index-digits (c ∷ m) p v =
    rw (last_index-digits m p v.1, has_prefix-digits (c ∷ m) (b' ') p v (inl (omega arith))) refl

last_index-dup_key_suffix :
    (m : Bytes) → All IsDigit m → last_index (dup_key_suffix ++ m) dup_key_suffix ≡ some 0
unfolding last_index has_prefix
last_index-dup_key_suffix m v =
    rw
      (
        last_index-digits m (drop 1 dup_key_suffix) v,
        has_prefix-digits m (b'a') (drop 2 dup_key_suffix) v (inr (omega arith)),
      )
      refl

AllDigit-no_colon : (n : Bytes) → All IsDigit n → All (λ c. c ≢ b':') n
AllDigit-no_colon [] v = tt
AllDigit-no_colon (c ∷ n) v = ((λ e. omega arith), AllDigit-no_colon n v.1)

abbrev front : Bytes → Bytes
front line = codes "line " ++ line

index-colon :
    (line rest : Bytes)
    → All IsDigit line
    → index (front line ++ (codes ": " ++ rest)) (codes ": ") ≡ some (length (front line))
unfolding index has_prefix
index-colon line rest v =
    let here : index (codes ": " ++ rest) (codes ": ") ≡ some 0 = refl in
    ground
      (arith, index-after line (codes ": " ++ rest) (codes " ") 0 (AllDigit-no_colon line v) here)

line_prefix-lem :
    (line rest : Bytes)
    → All IsDigit line
    → line_prefix (front line ++ (codes ": " ++ rest)) ≡ front line ++ codes ": "
unfolding line_prefix has_prefix
line_prefix-lem line rest v =
    rw (index-colon line rest v, ← append_assoc (front line) (codes ": ") rest)
      (take-append (length (front line) + 2) (front line ++ codes ": ") rest
        (omega (arith, length-append (front line) (codes ": "))))

sanitize_rest-lem :
    (m prefix key first : Bytes)
    → All IsDigit first
    → sanitize_rest m prefix (dup_key_prefix ++ (key ++ (dup_key_suffix ++ first)))
      ≡ prefix ++ (dup_key_prefix ++ (redacted ++ (dup_key_suffix ++ first)))
unfolding sanitize_rest has_prefix
sanitize_rest-lem m prefix key first v =
    rw
      (
        last_index-after (dup_key_prefix ++ key) (dup_key_suffix ++ first) dup_key_suffix 0
            (last_index-dup_key_suffix first v),
        drop-append (length (dup_key_prefix ++ key) + 0) (dup_key_prefix ++ key)
            (dup_key_suffix ++ first) (omega arith),
      )
      refl

-- A message of yaml.v3 on a duplicate mapping key, with the line in front, whatever the key is: what is
-- printed of it is the same for every key, with a placeholder for the key. The two line numbers have no
-- byte that is not a digit.
pub sanitize_yaml_message_duplicate :
    (line first key : Bytes)
    → All IsDigit line
    → All IsDigit first
    → let message = λ (key : Bytes).
      codes "line " ++ (line ++ (codes ": mapping key " ++ (key ++ (dup_key_suffix ++ first)))) in
      sanitize_yaml_message (message key) ≡ message redacted
unfolding sanitize_yaml_message line_prefix sanitize_rest
sanitize_yaml_message_duplicate line first key v w =
    let rest : Bytes = dup_key_prefix ++ (key ++ (dup_key_suffix ++ first)) in
    let shown : Bytes = dup_key_prefix ++ (redacted ++ (dup_key_suffix ++ first)) in
    let m : Bytes = front line ++ (codes ": " ++ rest) in
    let prefix : Bytes = front line ++ codes ": " in
    let behind : drop (length prefix) m ≡ rest =
      ap (drop (length prefix)) (sym (append_assoc (front line) (codes ": ") rest))
      ∙ drop-append (length prefix) prefix rest refl in
    ap (λ q. sanitize_rest m q (drop (length q) m)) (line_prefix-lem line rest v)
    ∙ (ap (sanitize_rest m prefix) behind
        ∙ (sanitize_rest-lem m prefix key first w ∙ append_assoc (front line) (codes ": ") shown))
