-- ===== src/Tests/Apply.antt =====
-- server.go, `applyDiff`, on a device that reads its configuration text.
use gocloak.Base.{
  ◌≡◌, refl, Bool, false, not, ◌&&◌, ◌||◌, Bytes, List, [], ◌∷◌, ◌++◌, none, codes, bytes_eq, arith,
  ap, ◌∙◌, append_assoc, lookup, insert, contains, All, bytes_beq, nat_beq, has_prefix,
  if◌then◌else◌,
}
use gocloak.Config.Diff.{PeerDiff, diff_peers, by_key, diff_next, diff_prev}
use gocloak.Config.Peers.{PeerConfig}
use gocloak.Device.{
  Texts, Wireguard, hex, key_to_hex, settings, public_key_line, update_only_line, set_block,
  remove_peer,
}
use gocloak.Net.{Addr, v4}
use gocloak.Server.Apply.Simulated.{IsSpelt}
use gocloak.Server.Apply.Table.{Uapi, names_key}
use gocloak.Server.Apply.{Cache, apply_diff, revoke, revoke_all, apply_all}
use gocloak.Tests.Data.{zeros, laptop_peer, parsers}
use gocloak.Tests.Secret.{host}

-- The value on the first line, and the text behind it.
unfoldable pub split_line : Bytes → Bytes × Bytes
split_line [] = ([], [])
split_line (c ∷ cs) =
    let (value, rest) = split_line cs in if nat_beq c b'\n' then ([], cs) else (c ∷ value, rest)

abbrev pub skip_key : Bytes → Bytes
skip_key (_ ∷ _ ∷ _ ∷ _ ∷ _ ∷ _ ∷ _ ∷ _ ∷ _ ∷ _ ∷ _ ∷ text) = text
skip_key _ = []

-- A device holds the keys of its peers.
abbrev pub Peers : Type 0
Peers = Bytes → Bool

unfoldable pub apply_block : Bytes × Bytes → Peers → Peers
apply_block (key, rest) w k =
    if has_prefix rest (codes "remove=")
    then w k && not (bytes_beq key k)
    else if has_prefix rest (codes "update_only=")
    then w k
    else w k || bytes_beq key k

abbrev pub simulator : Wireguard Peers
simulator = record {
  ipc_set = λ text w. (
    if has_prefix text (codes "public_key=") then apply_block (split_line (skip_key text)) w else w,
    false,
  );
}

-- An address stands behind a byte that no other text has.
abbrev pub address : Addr → Bytes
address (v4 n) = 1 ∷ n ∷ []
address _ = []

abbrev pub texts : Texts
texts = record {
  trim_space = λ s. s;
  decode_base64 = parsers.decode_base64;
  addr_text = address;
  addr_port_text = λ a. [];
}

split_line-hex : (raw rest : Bytes) → split_line (hex raw ++ (b'\n' ∷ rest)) ≡ (hex raw, rest)
unfolding split_line hex
split_line-hex [] rest = refl
split_line-hex (b ∷ raw) rest = ground (arith, split_line-hex raw rest)

pub split_line-block :
    (raw rest : Bytes) → split_line (skip_key (public_key_line (hex raw) ++ rest)) ≡ (hex raw, rest)
split_line-block raw rest =
    ap split_line (append_assoc (hex raw) (b'\n' ∷ []) rest) ∙ split_line-hex raw rest

module _ (raw rest : Bytes) (w : Peers) (k : Bytes) where
  pub applied :
      apply_block (split_line (skip_key (public_key_line (hex raw) ++ rest))) w k
      ≡ apply_block (hex raw, rest) w k
  applied = ap (λ (s : Bytes × Bytes). apply_block s w k) (split_line-block raw rest)

unfoldable pub interface : Uapi texts simulator
unfolding apply_block settings has_prefix
interface = record {
  has_peer = λ w k. w k;
  removes = λ raw w k h. applied raw (codes "remove=true" ++ (b'\n' ∷ [])) w k;
  creates = λ raw psk p w k h. applied raw (settings texts (hex psk) p) w k;
  updates = λ raw psk p w k h. applied raw (update_only_line ++ settings texts (hex psk) p) w k;
}

abbrev pub key : Bytes
key = hex (zeros 32)

abbrev before : Peers
before = λ k. bytes_beq (hex (zeros 32)) k

abbrev prev : List PeerConfig
prev = laptop_peer ∷ []

abbrev diff : PeerDiff
diff = diff_peers prev []

applies : (apply_diff texts simulator host none diff [] before).errors ≡ []
unfolding apply_diff revoke_all apply_all revoke remove_peer set_block key_to_hex diff_peers by_key
    diff_next diff_prev lookup insert contains bytes_beq
applies = refl

spelt : All (IsSpelt texts key (codes "AAAA")) prev
spelt = ((λ h. refl), tt)

matches : interface.has_peer before key ≡ names_key texts key prev
unfolding interface key_to_hex bytes_beq hex
matches = refl

abbrev cache : Cache
cache = (codes "env:PSK", codes "value") ∷ []
