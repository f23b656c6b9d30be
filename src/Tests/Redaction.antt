-- ===== src/Tests/Redaction.antt =====
-- config.go and server.go on texts that hold what is not to be shown.
use gocloak.Base.{
  ℕ, true, not, all, ◌≡◌, ◌≢◌, refl, Bytes, [], ◌∷◌, ◌++◌, none, some, codes, arith, index, All,
  nat_beq, has_prefix,
}
use gocloak.Config.Yaml.Redacted.{IsDigit, sanitize_yaml_message_duplicate}
use gocloak.Config.Yaml.{sanitize_yaml_message, dup_key_suffix, redacted}
use gocloak.Server.Scrub.Hidden.{scrub_ref_hides}
use gocloak.Server.Scrub.{placeholder, scrub_ref, scrub_suffixes, replace_all, replace_run}

abbrev message : Bytes → Bytes
message key =
    codes "line "
    ++ (codes "7" ++ (codes ": mapping key " ++ (key ++ (dup_key_suffix ++ codes "3"))))

seven : All IsDigit (codes "7")
seven = (ground arith, tt)

three : All IsDigit (codes "3")
three = (ground arith, tt)

sanitize_yaml_message_duplicate_example :
    sanitize_yaml_message (message (codes "s3cret: already defined at line 9")) ≡ message redacted
sanitize_yaml_message_duplicate_example =
    sanitize_yaml_message_duplicate (codes "7") (codes "3")
      (codes "s3cret: already defined at line 9") seven three

abbrev error_text : Bytes
error_text = codes "get aws:sm:k/1: no k/1"

abbrev scrubbed : Bytes
scrubbed = codes "get [REDACTED REF]: no [REDACTED REF]"

abbrev plain : Bytes → Bytes
plain s = s

scrubs :
    scrub_ref plain (codes "aws:sm" ++ (b':' ∷ b'k' ∷ codes "/1")) (some error_text) ≡ some scrubbed
unfolding scrub_ref scrub_suffixes replace_all replace_run has_prefix
scrubs = refl

lacks : (c : ℕ) (s : Bytes) → all (λ d. not (nat_beq d c)) s ≡ true → All (λ d. d ≢ c) s
lacks c [] h = tt
lacks c (d ∷ s) h = ground (arith, lacks c s)

scrub_ref_hides_example : index scrubbed (codes "sm:" ++ (b'k' ∷ codes "/1")) ≡ none
scrub_ref_hides_example =
    scrub_ref_hides plain (codes "aws:sm") (codes "/1") b'k' error_text scrubbed (codes "sm:")
      (lacks b':' (codes "k/1") refl) (lacks b'[' (codes "k/1") refl) (lacks b'k' placeholder refl)
      scrubs
