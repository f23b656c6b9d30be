-- ===== src/Msg/Listener/Returned.antt =====
-- internal/msg/msg.go, `Serve`: what has happened when it returns.
use gocloak.Base.{
  ◌≡◌, ◌↔◌, refl, sym, subst, ℕ, zero, suc, Bool, true, false, ◌||◌, List, [], ◌∷◌, ◌++◌, arith,
  append-nil, append_assoc, if◌then◌else◌,
}
use gocloak.Conn.{Conn}
use gocloak.Msg.Listener.Rounds.{Follows, Serves, serve_round-Follows, started-Follows}
use gocloak.Msg.Listener.{
  ServeEnd, ending_of, Handler, running, returned, Loop, accepting, waiting, ended, Serving,
  listening, ServeEvent, accepts, accept_fails, takes_turn, cancels, wakes, turn_of, all_returned,
  happen, serve,
}
use gocloak.Msg.{Served}

-- The connections that `Accept` returns before it fails.
abbrev pub conns_of : List ServeEvent → List Conn
conns_of [] = []
conns_of (accepts conn ∷ hs) = conn ∷ conns_of hs
conns_of (accept_fails ∷ hs) = []
conns_of (takes_turn n ∷ hs) = conns_of hs
conns_of (cancels ∷ hs) = conns_of hs
conns_of (wakes ∷ hs) = conns_of hs

-- The context is done by then.
abbrev pub cancelled_in : List ServeEvent → Bool
cancelled_in [] = false
cancelled_in (cancels ∷ hs) = true
cancelled_in (accepts conn ∷ hs) = cancelled_in hs
cancelled_in (accept_fails ∷ hs) = cancelled_in hs
cancelled_in (takes_turn n ∷ hs) = cancelled_in hs
cancelled_in (wakes ∷ hs) = cancelled_in hs

-- One goroutine for each connection, and each on its way through `ServeConn`.
abbrev AllFollow : List Conn → List Handler → Type 0
AllFollow [] [] = Unit
AllFollow (c ∷ cs) (h ∷ hs) = Follows c h × AllFollow cs hs
AllFollow _ _ = ⊥

-- One goroutine for each connection, and each has returned, with what `ServeConn` does on the connection.
abbrev pub AllServed : List Conn → List Handler → Type 0
AllServed [] [] = Unit
AllServed (c ∷ cs) (h ∷ hs) = ((s : Served) × (h ≡ returned s) × Serves c s) × AllServed cs hs
AllServed _ _ = ⊥

AllFollow-turn :
    (n : ℕ) (cs : List Conn) (hs : List Handler) → AllFollow cs hs → AllFollow cs (turn_of n hs)
unfolding turn_of
AllFollow-turn n [] [] f = f
AllFollow-turn n [] (h ∷ hs) f = absurd f
AllFollow-turn n (c ∷ cs) [] f = absurd f
AllFollow-turn zero (c ∷ cs) (h ∷ hs) f = (serve_round-Follows c h f.0, f.1)
AllFollow-turn (suc n) (c ∷ cs) (h ∷ hs) f = (f.0, AllFollow-turn n cs hs f.1)

AllFollow-listening :
    (conn : Conn) (cs : List Conn) (hs : List Handler)
    → AllFollow cs hs
    → AllFollow (cs ++ (conn ∷ [])) (hs ++ (running conn [] ∷ []))
AllFollow-listening conn [] [] f = (started-Follows conn, tt)
AllFollow-listening conn [] (h ∷ hs) f = absurd f
AllFollow-listening conn (c ∷ cs) [] f = absurd f
AllFollow-listening conn (c ∷ cs) (h ∷ hs) f = (f.0, AllFollow-listening conn cs hs f.1)

-- The connections still to come.
abbrev to_come : Loop → List ServeEvent → List Conn
to_come accepting hs = conns_of hs
to_come _ hs = []

then_append :
    (conn : Conn) (cs rest : List Conn) (hs : List Handler)
    → AllFollow ((cs ++ (conn ∷ [])) ++ rest) hs
    → AllFollow (cs ++ (conn ∷ rest)) hs
then_append conn cs rest hs =
    subst (λ (l : List Conn). AllFollow l hs) (append_assoc cs (conn ∷ []) rest)

-- With no connection to come.
no_more : (cs : List Conn) (hs : List Handler) → AllFollow cs hs → AllFollow (cs ++ []) hs
no_more cs hs = subst (λ (l : List Conn). AllFollow l hs) (sym (append-nil cs))

serve-AllFollow :
    (es : List ServeEvent) (cs : List Conn) (l : Loop) (hs : List Handler) (done : Bool)
    → AllFollow cs hs
    → AllFollow
        (cs ++ to_come l es)
        (serve es (record { loop = l; handlers = hs; done = done })).handlers
unfolding serve happen
serve-AllFollow [] cs accepting hs done f = no_more cs hs f
serve-AllFollow [] cs waiting hs done f = no_more cs hs f
serve-AllFollow [] cs (ended e) hs done f = no_more cs hs f
serve-AllFollow (accepts conn ∷ es) cs accepting hs done f = then_append conn cs (conns_of es) _ (
    serve-AllFollow es (cs ++ (conn ∷ [])) accepting (hs ++ (running conn [] ∷ [])) done
      (AllFollow-listening conn cs hs f))
serve-AllFollow (accepts conn ∷ es) cs waiting hs done f = serve-AllFollow es cs waiting hs done f
serve-AllFollow (accepts conn ∷ es) cs (ended e) hs done f =
    serve-AllFollow es cs (ended e) hs done f
serve-AllFollow (accept_fails ∷ es) cs accepting hs done f = serve-AllFollow es cs waiting hs done f
serve-AllFollow (accept_fails ∷ es) cs waiting hs done f = serve-AllFollow es cs waiting hs done f
serve-AllFollow (accept_fails ∷ es) cs (ended e) hs done f =
    serve-AllFollow es cs (ended e) hs done f
serve-AllFollow (takes_turn n ∷ es) cs accepting hs done f =
    serve-AllFollow es cs accepting (turn_of n hs) done (AllFollow-turn n cs hs f)
serve-AllFollow (takes_turn n ∷ es) cs waiting hs done f =
    serve-AllFollow es cs waiting (turn_of n hs) done (AllFollow-turn n cs hs f)
serve-AllFollow (takes_turn n ∷ es) cs (ended e) hs done f =
    serve-AllFollow es cs (ended e) (turn_of n hs) done (AllFollow-turn n cs hs f)
serve-AllFollow (cancels ∷ es) cs accepting hs done f = serve-AllFollow es cs accepting hs true f
serve-AllFollow (cancels ∷ es) cs waiting hs done f = serve-AllFollow es cs waiting hs true f
serve-AllFollow (cancels ∷ es) cs (ended e) hs done f = serve-AllFollow es cs (ended e) hs true f
serve-AllFollow (wakes ∷ es) cs accepting hs done f = serve-AllFollow es cs accepting hs done f
serve-AllFollow (wakes ∷ es) cs waiting hs done f =
    elim (all_returned hs)
      as (λ b.
        AllFollow (cs ++ [])
          (serve es (record {
            loop = if b then ended (ending_of done) else waiting;
            handlers = hs;
            done = done;
          })).handlers) [
            | true ↦ serve-AllFollow es cs (ended (ending_of done)) hs done f
            | false ↦ serve-AllFollow es cs waiting hs done f
          ]
serve-AllFollow (wakes ∷ es) cs (ended e) hs done f = serve-AllFollow es cs (ended e) hs done f

serve-done : (es : List ServeEvent) (m : Serving) → (serve es m).done ≡ (m.done || cancelled_in es)
unfolding serve happen
serve-done [] m = ground arith
serve-done (accepts conn ∷ es) m = ground (arith, serve-done es (happen (accepts conn) m))
serve-done (accept_fails ∷ es) m = ground (arith, serve-done es (happen accept_fails m))
serve-done (takes_turn n ∷ es) m = ground (arith, serve-done es (happen (takes_turn n) m))
serve-done (cancels ∷ es) m = ground (arith, serve-done es (happen cancels m))
serve-done (wakes ∷ es) m = ground (arith, serve-done es (happen wakes m))

served_iff :
    (cs : List Conn) (hs : List Handler)
    → AllFollow cs hs
    → (all_returned hs ≡ true) ↔ AllServed cs hs
unfolding all_returned
served_iff [] [] f = ((λ e. tt), λ s. refl)
served_iff [] (h ∷ hs) f = absurd f
served_iff (c ∷ cs) [] f = absurd f
served_iff (c ∷ cs) (running conn handled ∷ hs) f =
    ((λ e. absurd (cc e)), λ s. absurd (ground (arith, s.0.1)))
served_iff (c ∷ cs) (returned s ∷ hs) f =
    let later = served_iff cs hs f.1 in ((λ e. ((s, refl, f.0), later.0 e)), λ t. later.1 t.1)

-- Connections arrive, goroutines take their turns, `Accept` fails and the context ends in any order.
-- Once `Accept` has failed, `Serve` returns exactly when each connection that was accepted has a goroutine
-- that has come to the end of `ServeConn` on it, and then with the error of the context if this is done by
-- then, or else with that of `Accept`.
pub serve-returns :
    (es : List ServeEvent) (e : ServeEnd)
    → (serve es listening).loop ≡ waiting
    → ((happen wakes (serve es listening)).loop ≡ ended e)
      ↔ (AllServed (conns_of es) (serve es listening).handlers × (e ≡ ending_of (cancelled_in es)))
unfolding happen
serve-returns es e waits =
    let all =
      served_iff (conns_of es) (serve es listening).handlers
        (serve-AllFollow es [] accepting [] false tt) in
    let done = serve-done es listening in
    (
      (λ r. (all.0 (ground (arith, waits)), ground (arith, waits, done))),
      λ (served, is). let back = all.1 served in ground (arith, waits, done, back),
    )
