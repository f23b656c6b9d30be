-- ===== src/Tests/Routing.antt =====
-- A device with routes that reads its configuration text.
use gocloak.Base.{
  ◌≡◌, refl, append_assoc, ap, ◌∙◌, Bool, true, false, not, ◌&&◌, Bytes, [], ◌∷◌, ◌++◌, codes,
  arith, nat_beq, bytes_beq, has_prefix, if◌then◌else◌,
}
use gocloak.Config.{prefix_contains, tunnel_subnet}
use gocloak.Device.{
  Wireguard, DevicePeer, hex, line, keepalive_interval, settings, public_key_line, update_only_line,
}
use gocloak.Net.{Addr, v4, v6, invalid, addr_port_beq}
use gocloak.Server.Apply.Routes.{Cryptokey, assigned}
use gocloak.Server.Apply.Table.{Uapi}
use gocloak.Tests.Apply.{key, split_line, skip_key, apply_block, texts, address, split_line-block}

pub record Tunnel : Type 0 where
  pub peers : Bytes → Bool
  pub table : Addr → Bytes → Bool

abbrev first : Bytes → Addr
first [] = invalid
first (n ∷ _) = v4 n

-- The number behind the mark of an address.
unfoldable pub marked : Bytes → Addr
marked [] = invalid
marked (c ∷ cs) = if nat_beq c 1 then first cs else marked cs

abbrev reassigned : Bytes → Addr → (Addr → Bytes → Bool) → Addr → Bytes → Bool
reassigned key a table ip k = assigned key a k ip (table ip k)

unfoldable pub route_block : Bytes × Bytes → Tunnel → Addr → Bytes → Bool
route_block (key, rest) w ip k =
    if has_prefix rest (codes "remove=")
    then w.table ip k && not (bytes_beq key k)
    else if has_prefix rest (codes "update_only=")
    then (if w.peers key then reassigned key (marked rest) w.table ip k else w.table ip k)
    else reassigned key (marked rest) w.table ip k

abbrev set_text : Bytes × Bytes → Tunnel → Tunnel
set_text block w = record { peers = apply_block block w.peers; table = route_block block w }

abbrev pub router : Wireguard Tunnel
router = record {
  ipc_set = λ text w. (
    if has_prefix text (codes "public_key=") then set_text (split_line (skip_key text)) w else w,
    false,
  );
}

module _ (raw rest : Bytes) (w : Tunnel) where
  pub read_peers :
      (k : Bytes)
      → apply_block (split_line (skip_key (public_key_line (hex raw) ++ rest))) w.peers k
        ≡ apply_block (hex raw, rest) w.peers k
  read_peers k = ap (λ (s : Bytes × Bytes). apply_block s w.peers k) (split_line-block raw rest)

  pub read_routes :
      (ip : Addr) (k : Bytes)
      → route_block (split_line (skip_key (public_key_line (hex raw) ++ rest))) w ip k
        ≡ route_block (hex raw, rest) w ip k
  read_routes ip k = ap (λ (s : Bytes × Bytes). route_block s w ip k) (split_line-block raw rest)

unfoldable pub interface : Uapi texts router
unfolding apply_block settings has_prefix
interface = record {
  has_peer = λ w k. w.peers k;
  removes = λ raw w k h. read_peers raw (codes "remove=true" ++ (b'\n' ∷ [])) w k;
  creates = λ raw psk p w k h. read_peers raw (settings texts (hex psk) p) w k;
  updates = λ raw psk p w k h. read_peers raw (update_only_line ++ settings texts (hex psk) p) w k;
}

marked-hex : (raw rest : Bytes) → marked (hex raw ++ rest) ≡ marked rest
unfolding marked hex
marked-hex [] rest = refl
marked-hex (b ∷ raw) rest = ground (arith, marked-hex raw rest)

-- The text behind the line of the preshared key, with or without an endpoint.
abbrev behind_key : Bool → Addr → Bytes
behind_key dials a =
    (if dials then line (codes "endpoint=") [] else [])
    ++ (line (codes "replace_allowed_ips=true") []
        ++ (line (codes "allowed_ip=") (address a ++ codes "/32")
            ++ (if dials
                then line (codes "persistent_keepalive_interval=") keepalive_interval
                else [])))

marked-behind_key :
    (dials : Bool) (a : Addr)
    → prefix_contains tunnel_subnet a ≡ true
    → marked (behind_key dials a) ≡ a
unfolding marked prefix_contains
marked-behind_key true (v4 n) h = refl
marked-behind_key false (v4 n) h = refl
marked-behind_key _ (v6 n z) h = cc
marked-behind_key _ invalid h = cc

pub marked-settings :
    (psk : Bytes) (p : DevicePeer)
    → prefix_contains tunnel_subnet p.allowed_ip ≡ true
    → marked (settings texts (hex psk) p) ≡ p.allowed_ip
unfolding marked settings
marked-settings psk p h =
    let dials = not (addr_port_beq p.endpoint (record { addr = invalid; port = 0 })) in
    ap marked (append_assoc (hex psk) (b'\n' ∷ []) (behind_key dials p.allowed_ip))
    ∙ marked-hex psk ((b'\n' ∷ []) ++ behind_key dials p.allowed_ip)
    ∙ marked-behind_key dials p.allowed_ip h

pub marked-update :
    (psk : Bytes) (p : DevicePeer)
    → prefix_contains tunnel_subnet p.allowed_ip ≡ true
    → marked (update_only_line ++ settings texts (hex psk) p) ≡ p.allowed_ip
unfolding marked
marked-update psk p h = marked-settings psk p h

unfoldable pub cryptokey : Cryptokey texts router interface
unfolding route_block settings has_prefix interface
cryptokey = record {
  routed = λ w ip k. w.table ip k;
  removes = λ raw w ip k h. read_routes raw (codes "remove=true" ++ (b'\n' ∷ [])) w ip k;
  creates = λ raw psk p w ip k v h.
      read_routes raw (settings texts (hex psk) p) w ip k
      ∙ ap (λ (a : Addr). assigned (hex raw) a k ip (w.table ip k)) (marked-settings psk p v);
  updates = λ raw psk p w ip k v h.
      read_routes raw (update_only_line ++ settings texts (hex psk) p) w ip k
      ∙ ap
          (λ (a : Addr).
            if w.peers (hex raw) then assigned (hex raw) a k ip (w.table ip k) else w.table ip k)
          (marked-update psk p v);
}
