-- ===== src/Client/Exchange/HandedOver.antt =====
-- client.go, `Dial`, `hello` and `finishHello`: a connection that is handed over is the application's alone.
use gocloak.Base.{
  ℕ, ◌+◌, ◌≡◌, ◌≤◌, refl, true, false, Bytes, some, Result, ok, err, arith, Result-cases, inl, inr,
}
use gocloak.Client.Exchange.{
  Surroundings, ExchangeError, frame_failed, is_over, is_closed, stops, finish_hello, guarded_hello,
  dial_connected, dialled, hello_deadline, hello_read_deadline, writes,
}
use gocloak.Client.{hello, status_error}
use gocloak.Conn.{Conn}
use gocloak.Wire.{FrameError, write_hello_request, read_hello_response}

-- Each step of the exchange waits for the documented time at most, and not beyond the budget.
hello_deadline_lem :
    (now deadline : ℕ)
    → (hello_deadline now (some deadline) ≤ now + hello_read_deadline)
      × (hello_deadline now (some deadline) ≤ deadline)
unfolding hello_deadline
hello_deadline_lem now deadline = ground arith

-- A watchdog that has closed the connection had started.
is_closed-is_over :
    (s : Surroundings) (moment : ℕ) → is_over s stops ≡ false → is_closed s moment ≡ false
is_closed-is_over s moment h = ground arith

module _ (s : Surroundings) (service : Bytes) (c : Conn) where
  guarded_hello-ok :
      (c' : Conn)
      → guarded_hello s service c ≡ ok c'
      → (is_over s stops ≡ false) × (hello service c ≡ ok c')
  unfolding guarded_hello finish_hello hello
  guarded_hello-ok c' h = elim (Result-cases (write_hello_request service c)) [
    | inr (x, e) ↦ absurd (ground (arith, e))
    | inl (c1, e) ↦ elim (Result-cases (read_hello_response c1)) [
      | inr (x, f) ↦ absurd (ground (arith, e, f))
      | inl ((status, c2), f) ↦ elim (Result-cases (status_error status)) [
        | inr (x, g) ↦ absurd (ground (arith, e, f, g))
        | inl (u, g) ↦ ground (arith, e, f, g)
      ]
    ]
  ]

  guarded_hello-in_time :
      (c' : Conn)
      → is_over s stops ≡ false
      → s.write_deadline_fails ≡ false
      → s.read_deadline_fails ≡ false
      → s.clear_fails ≡ false
      → hello service c ≡ ok c'
      → guarded_hello s service c ≡ ok c'
  unfolding guarded_hello finish_hello hello
  guarded_hello-in_time c' time w r cl h = elim (Result-cases (write_hello_request service c)) [
    | inr (x, e) ↦ absurd (ground (arith, e))
    | inl (c1, e) ↦ elim (Result-cases (read_hello_response c1)) [
      | inr (x, f) ↦ absurd (ground (arith, e, f))
      | inl ((status, c2), f) ↦ elim (Result-cases (status_error status)) [
        | inr (x, g) ↦ absurd (ground (arith, e, f, g))
        | inl (u, g) ↦ ground (arith, e, f, g)
      ]
    ]
  ]

  guarded_hello-frame_failed :
      (f : FrameError) → guarded_hello s service c ≡ err (frame_failed f) → is_over s writes ≡ false
  unfolding guarded_hello finish_hello
  guarded_hello-frame_failed f h = elim (Result-cases (write_hello_request service c)) [
    | inr (x, e) ↦ ground (arith, e)
    | inl (c1, e) ↦ elim (Result-cases (read_hello_response c1)) [
      | inr (x, g) ↦ ground (arith, e, g)
      | inl ((status, c2), g) ↦ elim (Result-cases (status_error status)) [
        | inr (x, k) ↦ absurd (ground (arith, e, g, k))
        | inl (u, k) ↦ absurd (ground (arith, e, g, k))
      ]
    ]
  ]

  -- Whenever the budget ends and the watchdog closes the connection, and whichever calls fail: a connection
  -- that `Dial` returns is one on which the exchange succeeded, and the watchdog never closes it; if `Dial`
  -- returns an error, the connection is closed. If the budget lasts and the deadlines can be set, `Dial`
  -- returns what the exchange gives. And a failure of a frame is reported as such only if the budget was not
  -- over when the request was written.
  pub dial_connected-hands_over :
      let d = dial_connected s service c in
      ((c' : Conn) → d.result ≡ ok c' → (d.closed ≡ false) × (hello service c ≡ ok c'))
      × ((e : ExchangeError) → d.result ≡ err e → d.closed ≡ true)
      × ((c' : Conn)
          → is_over s stops ≡ false
          → s.write_deadline_fails ≡ false
          → s.read_deadline_fails ≡ false
          → s.clear_fails ≡ false
          → hello service c ≡ ok c'
          → d.result ≡ ok c')
      × ((f : FrameError) → d.result ≡ err (frame_failed f) → is_over s writes ≡ false)
  unfolding dial_connected
  dial_connected-hands_over = (
    λ c' h. by_result (guarded_hello s service c) c' h (guarded_hello-ok c'),
    λ e h. by_error (guarded_hello s service c) e h,
    λ c' time w r cl h. rw (guarded_hello-in_time c' time w r cl h) refl,
    λ f h. guarded_hello-frame_failed f (same_error (guarded_hello s service c) (frame_failed f) h),
  )
    where
      by_result :
          (r : Result ExchangeError Conn) (c' : Conn)
          → (dialled s r).result ≡ ok c'
          → (r ≡ ok c' → (is_over s stops ≡ false) × (hello service c ≡ ok c'))
          → ((dialled s r).closed ≡ false) × (hello service c ≡ ok c')
      by_result (ok c1) c' h from = from h
      by_result (err e) c' h from = absurd (ground arith)

      by_error :
          (r : Result ExchangeError Conn) (e : ExchangeError)
          → (dialled s r).result ≡ err e
          → (dialled s r).closed ≡ true
      by_error (ok c1) e h = absurd (ground arith)
      by_error (err x) e h = refl

      same_error :
          (r : Result ExchangeError Conn) (e : ExchangeError)
          → (dialled s r).result ≡ err e
          → r ≡ err e
      same_error (ok c1) e h = absurd (ground arith)
      same_error (err x) e h = h
