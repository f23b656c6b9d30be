-- ===== src/Device/Close.antt =====
-- device.go, `tunnelDevice.Close`, and client.go, `Client.Close`: each closes what it holds once.
use gocloak.Base.{
  ℕ, zero, suc, ◌≡◌, refl, ap, Bool, true, List, [], ◌∷◌, ◌++◌, arith, if◌then◌else◌,
}

-- What a call of `Close` closes.
pub data Release : Type 0 where
  releases_device releases_tun : Release

-- `tunnelDevice`: which of its parts exist, whether `closeOnce` has run, and `closeErr`.
pub record TunnelHandle : Type 0 where
  pub has_device : Bool
  pub has_tun : Bool
  pub once : Bool
  pub failed : Bool

-- The body of `closeOnce.Do`. The device closes the TUN that it was given; `tun_fails` is what closing a TUN
-- with no device on it returns.
abbrev pub close_parts : Bool → TunnelHandle → TunnelHandle × List Release
close_parts tun_fails h =
    if h.has_device
    then (record h { once = true }, releases_device ∷ [])
    else if h.has_tun
    then (record h { once = true; failed = tun_fails }, releases_tun ∷ [])
    else (record h { once = true }, [])

-- `tunnelDevice.Close`; the error that it returns is the handle's `failed`.
unfoldable pub close_handle : Bool → TunnelHandle → TunnelHandle × List Release
close_handle tun_fails h = if h.once then (h, []) else close_parts tun_fails h

-- `Client`, as `Close` sees it: its `closed` flag, `closeOnce`, `closeErr`, and the device.
pub record ClientHandle : Type 0 where
  pub closed : Bool
  pub once : Bool
  pub failed : Bool
  pub tunnel : TunnelHandle

-- `Client.Close`; the error that it returns is the client's `failed`.
unfoldable pub close_client : Bool → ClientHandle → ClientHandle × List Release
unfolding close_handle
close_client tun_fails c =
    let (tunnel, released) = close_handle tun_fails c.tunnel in
    if c.once
    then (record c { closed = true }, [])
    else (record { closed = true; once = true; failed = tunnel.failed; tunnel = tunnel }, released)

-- `Close`, so many times.
unfoldable pub close_times : Bool → ℕ → ClientHandle → ClientHandle × List Release
close_times tun_fails zero c = (c, [])
close_times tun_fails (suc n) c =
    let (c1, released) = close_client tun_fails c in
    let (c2, more) = close_times tun_fails n c1 in (c2, released ++ more)

close_times_over :
    (tun_fails : Bool) (n : ℕ) (c : ClientHandle)
    → c.once ≡ true
    → c.closed ≡ true
    → close_times tun_fails n c ≡ (c, [])
unfolding close_times close_client
close_times_over tun_fails zero c once closed = refl
close_times_over tun_fails (suc n) c once closed =
    ground (arith, close_times_over tun_fails n c once closed)

-- A client that is closed any number of times is left as after the first, with the same error, and nothing is
-- released twice.
close_times-close_client :
    (tun_fails : Bool) (n : ℕ) (c : ClientHandle)
    → close_times tun_fails (suc n) c
      ≡ (let (c1, released) = close_client tun_fails c in (c1, released ++ []))
unfolding close_times close_client
close_times-close_client tun_fails n c =
    ap (λ (later : ClientHandle × List Release). (later.0, (close_client tun_fails c).1 ++ later.1))
      (close_times_over tun_fails n (close_client tun_fails c).0 (ground arith) (ground arith))
