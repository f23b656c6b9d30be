-- ===== src/Server/System/Shutdown.antt =====
-- server.go, `closeLiveConns`: the shutdown closes what is proxied, while the handlers go on.
pub mod Closed
use gocloak.Base.{ℕ, ◌≡◌, Bool, true, false, ◌++◌, map}
use gocloak.Net.{Addr}
use gocloak.Server.System.{System, Step}
use gocloak.Server.System

-- `closeLiveConns`: the limiters in force are copied under the lock, and `closeLive` runs on each of them.
unfoldable pub close_live_conns : System → System
close_live_conns m = record m {
  pending = m.pending ++ map (λ (e : Addr × ℕ). e.1) m.server.limiters;
}

-- The watcher's goroutine has ended when `Run` comes to the shutdown: the steps of a reload that are left are
-- those of its clean-up.
abbrev pub is_reload : {m n : System} → Step m n → Bool
is_reload (System.swaps config) = true
is_reload (System.refreshes now) = true
is_reload _ = false

pub data WindsDown (m : System) : System → Type 0 where
  shuts : WindsDown m m
  then_step : {n o : System} → WindsDown m n → (s : Step n o) → is_reload s ≡ false → WindsDown m o
