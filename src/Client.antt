-- ===== src/Client.antt =====
-- client.go: the checks on a client's configuration, and the hello exchange of a dial.
pub mod Hello
pub mod TunnelIp
pub mod Dialing
pub mod Open
pub mod Exchange
use gocloak.Base.{
  ℕ, Bool, true, false, not, ◌||◌, ◌&&◌, Bytes, List, [], ◌∷◌, Option, none, some, Result, ok, err,
  ◌>>=◌, ◌>>◌, fail_if, map_err, ℤ, pos, is_negative, pos_part, nat_beq, ltb, if◌then◌else◌,
}
use gocloak.Config.Server.{outside}
use gocloak.Config.{
  Parsers, ValueError, tunnel_subnet, server_tunnel_ip, prefix_contains, masked, subnet_broadcast,
  min_mtu, max_mtu, valid_public_key, valid_secret_ref,
}
use gocloak.Conn.{Conn}
use gocloak.Net.{Addr, AddrPort, v4, unmap, is_valid, addr_beq}
use gocloak.Secret.{SecretRef, is_empty}
use gocloak.Wire.{
  Status, FrameError, status_ok, status_denied, status_backend_unavailable, status_rate_limited,
  status_malformed, valid_service_name, write_hello_request, read_hello_response,
}

-- The sentinel errors of a dial, and the rest of what the exchange can return.
pub data DialError : Type 0 where
  invalid_service_name : DialError
  exchange_failed : FrameError → DialError
  denied : DialError
  backend_unavailable : DialError
  rate_limited : DialError
  malformed_request : DialError
  unexpected_status : Status → DialError

-- `statusError`; the service name that the message carries is left out.
unfoldable pub status_error : Status → Result DialError (Unit {0})
status_error status =
    if nat_beq status status_ok
    then ok tt
    else if nat_beq status status_denied
    then err denied
    else if nat_beq status status_backend_unavailable
    then err backend_unavailable
    else if nat_beq status status_rate_limited
    then err rate_limited
    else if nat_beq status status_malformed
    then err malformed_request
    else err (unexpected_status status)

-- `Client.hello` on a connection whose context stays live: the connection that the application gets.
unfoldable pub hello : Bytes → Conn → Result DialError Conn
hello service conn = do
  conn1 ← map_err exchange_failed (write_hello_request service conn)
  (status, conn2) ← map_err exchange_failed (read_hello_response conn1)
  status_error status
  ok conn2

-- What `splitEndpoint` and `resolveEndpoint` call: `net.SplitHostPort`, `strconv.ParseUint(p, 10, 16)`
-- and the name lookup; `none` is an error.
pub record Names : Type 0 where
  pub split_host_port : Bytes → Option (Bytes × Bytes)
  pub parse_port : Bytes → Option ℕ
  pub lookup_ip : Bytes → Option (List Addr)

pub data ClientError : Type 0 where
  endpoint_required : ClientError
  endpoint_shape : ClientError
  endpoint_without_host : ClientError
  endpoint_port : ClientError
  lookup_failed : ClientError
  no_addresses : ClientError
  bad_server_key : ValueError → ClientError
  bad_private_key : ValueError → ClientError
  bad_preshared_key : ValueError → ClientError
  tunnel_ip_required : ClientError
  tunnel_ip_outside : ClientError
  tunnel_ip_of_server : ClientError
  tunnel_ip_no_host : ClientError
  bad_mtu : ℤ → ClientError
  negative_timeout : ClientError

abbrev pub or_error : {A : Type 0} → Option A → ClientError → Result ClientError A
or_error none e = err e
or_error (some a) e = ok a

-- `splitEndpoint`
unfoldable pub split_endpoint : Names → Bytes → Result ClientError (Bytes × ℕ)
split_endpoint names endpoint = do
  fail_if (is_empty endpoint) endpoint_required
  (host, text) ← or_error (names.split_host_port endpoint) endpoint_shape
  fail_if (is_empty host) endpoint_without_host
  port ← or_error (names.parse_port text) endpoint_port
  fail_if (nat_beq port 0) endpoint_port
  ok (host, port)

-- `serviceFromAddr`, the service of `DialContext`.
unfoldable pub service_from_addr : Names → Bytes → Bytes
service_from_addr names addr = elim (names.split_host_port addr) [
  | none ↦ addr
  | some (host, _) ↦ host
]

abbrev first_address : ℕ → List Addr → Result ClientError (AddrPort × Bool)
first_address port [] = err no_addresses
first_address port (ip ∷ _) = ok (record { addr = unmap ip; port = port }, false)

-- `resolveEndpoint`: the address, and whether the host was a literal.
unfoldable pub resolve_endpoint : Parsers → Names → Bytes → ℕ → Result ClientError (AddrPort × Bool)
resolve_endpoint lib names host port = elim (lib.parse_addr host) [
  | some ip ↦ ok (record { addr = unmap ip; port = port }, true)
  | none ↦ or_error (names.lookup_ip host) lookup_failed >>= first_address port
]

-- `clientTunnelIP`
unfoldable pub client_tunnel_ip : Addr → Result ClientError Addr
client_tunnel_ip addr = do
  fail_if (not (is_valid addr)) tunnel_ip_required
  fail_if (not (prefix_contains tunnel_subnet (unmap addr))) tunnel_ip_outside
  fail_if (addr_beq (unmap addr) server_tunnel_ip) tunnel_ip_of_server
  fail_if
      (addr_beq (unmap addr) (v4 (masked tunnel_subnet))
        || addr_beq (unmap addr) (subnet_broadcast tunnel_subnet))
      tunnel_ip_no_host
  ok (unmap addr)

-- `ClientConfig`, less the resolver of secrets; the timeout is in nanoseconds.
pub record ClientConfig : Type 0 where
  pub endpoint : Bytes
  pub server_pub_key : Bytes
  pub private_key : SecretRef
  pub preshared_key : SecretRef
  pub tunnel_ip : Addr
  pub mtu : ℤ
  pub dial_timeout : ℤ

-- What `newClient` takes from a valid configuration.
pub record ClientPlan : Type 0 where
  pub addr : AddrPort
  pub literal : Bool
  pub tunnel_ip : Addr
  pub dial_timeout : ℕ

abbrev pub default_dial_timeout : ℕ
default_dial_timeout = 10_000_000_000

-- `newClient` up to the resolution of the secrets.
unfoldable pub plan_client : Parsers → Names → ClientConfig → Result ClientError ClientPlan
plan_client lib names cfg = do
  (host, port) ← split_endpoint names cfg.endpoint
  map_err bad_server_key (valid_public_key lib cfg.server_pub_key)
  map_err bad_private_key (valid_secret_ref cfg.private_key)
  map_err bad_preshared_key (valid_secret_ref cfg.preshared_key)
  tunnel_ip ← client_tunnel_ip cfg.tunnel_ip
  fail_if
      (not (not (is_negative cfg.mtu) && nat_beq (pos_part cfg.mtu) 0)
        && outside min_mtu max_mtu cfg.mtu)
      (bad_mtu cfg.mtu)
  fail_if (is_negative cfg.dial_timeout) negative_timeout
  (addr, literal) ← resolve_endpoint lib names host port
  ok (record {
    addr = addr;
    literal = literal;
    tunnel_ip = tunnel_ip;
    dial_timeout =
        if nat_beq (pos_part cfg.dial_timeout) 0
        then default_dial_timeout
        else pos_part cfg.dial_timeout;
  })
