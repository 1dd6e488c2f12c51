-- ===== src/Ssh/Reconnect/Policy.antt =====
-- crates/polyterm-ssh/src/lib.rs: when `run` connects again, and how long it waits before.
use poly_term.Prelude.{
  ℕ, zero, suc, ◌*◌, ◌^◌, ◌≤◌, min, ◌≡◌, refl, ap, ◌∙◌, inl, inr, Bool, true, false, Option, none,
  some, List, [], ◌∷◌, arith, if◌then◌else◌, All, Bool-cases, replicate,
}
use poly_term.Core.Transport.{
  DisconnectReason, local, remote, device_removed, timeout, failed, connecting, authenticated,
  disconnected,
}
use poly_term.Ssh.Reconnect.{
  initial_backoff, max_backoff, BackoffOutcome, elapsed, reconnect_now, stop, Wake, slept,
  wait_backoff, Turn, Effect, sends, waits, reconnects, after_wait, turn, run_loop, run,
}

-- A wait is at least the first one and at most the cap.
abbrev pub WithinBackoff : Effect → Type 0
WithinBackoff (sends e) = Unit
WithinBackoff (waits delay) = (initial_backoff ≤ delay) × (delay ≤ max_backoff)

after_wait-All :
    (o : Option BackoffOutcome) (next : List Effect)
    → All WithinBackoff next
    → All WithinBackoff (after_wait o next)
after_wait-All none next h = tt
after_wait-All (some elapsed) next h = h
after_wait-All (some reconnect_now) next h = h
after_wait-All (some stop) next h = tt

run_loop-WithinBackoff :
    (turns : List Turn) (backoff : ℕ) (connected_before : Bool)
    → initial_backoff ≤ backoff
    → backoff ≤ max_backoff
    → All WithinBackoff (run_loop turns backoff connected_before)
unfolding run_loop
run_loop-WithinBackoff [] backoff before lo hi = tt
run_loop-WithinBackoff (t ∷ turns) backoff before lo hi =
    let again : (b : ℕ)
        → initial_backoff ≤ b
        → All WithinBackoff
            (after_wait (wait_backoff t.wakes) (run_loop turns (min (b * 2) max_backoff) true)) =
      λ b h.
        after_wait-All (wait_backoff t.wakes) _ (
          run_loop-WithinBackoff turns (min (b * 2) max_backoff) true (omega arith)
            (omega arith)) in
    (tt, by_session t.session before lo hi (again backoff lo) (again initial_backoff (omega arith)))
  where
    by_session :
        (s : Option DisconnectReason) (before : Bool)
        → initial_backoff ≤ backoff
        → backoff ≤ max_backoff
        → All WithinBackoff (
            after_wait (wait_backoff t.wakes) (run_loop turns (min (backoff * 2) max_backoff) true))
        → All WithinBackoff (
            after_wait
              (wait_backoff t.wakes)
              (run_loop turns (min (initial_backoff * 2) max_backoff) true))
        → All WithinBackoff (elim s [
          | none ↦
              if before
              then waits backoff
                ∷ after_wait
                    (wait_backoff t.wakes)
                    (run_loop turns (min (backoff * 2) max_backoff) true)
              else []
          | some reason ↦
              sends authenticated
              ∷ sends (disconnected reason)
              ∷ (if reconnects reason
                  then waits initial_backoff
                    ∷ after_wait
                        (wait_backoff t.wakes)
                        (run_loop turns (min (initial_backoff * 2) max_backoff) true)
                  else [])
        ])
    by_session none true lo hi h h' = ((lo, hi), h)
    by_session none false lo hi h h' = tt
    by_session (some reason) before lo hi h h' = (
      tt,
      (
        tt,
        elim (Bool-cases (reconnects reason)) [
          | inl e ↦ rw e ((omega arith, omega arith), h')
          | inr e ↦ rw e tt
        ],
      ),
    )

-- Every wait between connections is between one and thirty seconds.
pub run-WithinBackoff : (turns : List Turn) → All WithinBackoff (run turns)
unfolding run
run-WithinBackoff turns =
    run_loop-WithinBackoff turns initial_backoff false (omega arith) (omega arith)

-- After a session that ended for good, nothing.
abbrev FinalAt : Effect → List Effect → Type 0
FinalAt (waits delay) rest = Unit
FinalAt (sends (disconnected local)) rest = rest ≡ []
FinalAt (sends (disconnected remote)) rest = rest ≡ []
FinalAt (sends (disconnected device_removed)) rest = rest ≡ []
FinalAt (sends (disconnected timeout)) rest = Unit
FinalAt (sends (disconnected (failed message))) rest = Unit
FinalAt (sends e) rest = Unit

abbrev pub EndsForGood : List Effect → Type 0
EndsForGood [] = Unit
EndsForGood (e ∷ rest) = FinalAt e rest × EndsForGood rest

after_wait-EndsForGood :
    (o : Option BackoffOutcome) (next : List Effect)
    → EndsForGood next
    → EndsForGood (after_wait o next)
after_wait-EndsForGood none next h = tt
after_wait-EndsForGood (some elapsed) next h = h
after_wait-EndsForGood (some reconnect_now) next h = h
after_wait-EndsForGood (some stop) next h = tt

ended-EndsForGood :
    (reason : DisconnectReason) (wakes : List Wake) (next : ℕ → Bool → List Effect)
    → ((b : ℕ) (c : Bool) → EndsForGood (next b c))
    → EndsForGood (
        sends (disconnected reason)
        ∷ (if reconnects reason
            then waits initial_backoff
              ∷ after_wait (wait_backoff wakes) (next (min (initial_backoff * 2) max_backoff) true)
            else []))
unfolding reconnects
ended-EndsForGood local wakes next h = (refl, tt)
ended-EndsForGood remote wakes next h = (refl, tt)
ended-EndsForGood device_removed wakes next h = (refl, tt)
ended-EndsForGood timeout wakes next h =
    (tt, (tt, after_wait-EndsForGood (wait_backoff wakes) _ (h _ true)))
ended-EndsForGood (failed message) wakes next h =
    (tt, (tt, after_wait-EndsForGood (wait_backoff wakes) _ (h _ true)))

turn-EndsForGood :
    (session : Option DisconnectReason) (wakes : List Wake) (backoff : ℕ) (before : Bool)
    (next : ℕ → Bool → List Effect)
    → ((b : ℕ) (c : Bool) → EndsForGood (next b c))
    → EndsForGood (turn (record { session = session; wakes = wakes }) backoff before next)
turn-EndsForGood none wakes backoff true next h =
    (tt, (tt, after_wait-EndsForGood (wait_backoff wakes) _ (h _ true)))
turn-EndsForGood none wakes backoff false next h = (tt, tt)
turn-EndsForGood (some reason) wakes backoff before next h =
    (tt, (tt, ended-EndsForGood reason wakes next h))

run_loop-EndsForGood :
    (turns : List Turn) (backoff : ℕ) (before : Bool) → EndsForGood (run_loop turns backoff before)
unfolding run_loop
run_loop-EndsForGood [] backoff before = tt
run_loop-EndsForGood (t ∷ turns) backoff before =
    turn-EndsForGood t.session t.wakes backoff before (λ b c. run_loop turns b c)
      (λ b c. run_loop-EndsForGood turns b c)

-- A session that the user ended, that logged out or whose device went away is the last thing that happens:
-- nothing connects or waits after it.
pub run-EndsForGood : (turns : List Turn) → EndsForGood (run turns)
unfolding run
run-EndsForGood turns = run_loop-EndsForGood turns initial_backoff false

-- Each attempt to connect but the first comes after a wait, and each wait after a first session. The flags say
-- whether a session was authenticated, and whether an attempt is due.
abbrev pub WaitsAfterSession : Bool → Bool → List Effect → Type 0
WaitsAfterSession before due [] = Unit
WaitsAfterSession before due (waits delay ∷ rest) =
    (before ≡ true) × WaitsAfterSession before true rest
WaitsAfterSession before due (sends connecting ∷ rest) =
    (due ≡ true) × WaitsAfterSession before false rest
WaitsAfterSession before due (sends authenticated ∷ rest) = WaitsAfterSession true due rest
WaitsAfterSession before due (sends e ∷ rest) = WaitsAfterSession before due rest

after_wait-WaitsAfterSession :
    (o : Option BackoffOutcome) (next : List Effect)
    → WaitsAfterSession true true next
    → WaitsAfterSession true true (after_wait o next)
after_wait-WaitsAfterSession none next h = tt
after_wait-WaitsAfterSession (some elapsed) next h = h
after_wait-WaitsAfterSession (some reconnect_now) next h = h
after_wait-WaitsAfterSession (some stop) next h = tt

turn-WaitsAfterSession :
    (session : Option DisconnectReason) (wakes : List Wake) (backoff : ℕ) (before : Bool)
    (next : ℕ → Bool → List Effect)
    → ((b : ℕ) → WaitsAfterSession true true (next b true))
    → WaitsAfterSession before true
        (turn (record { session = session; wakes = wakes }) backoff before next)
turn-WaitsAfterSession none wakes backoff true next h =
    (refl, (refl, after_wait-WaitsAfterSession (wait_backoff wakes) _ (h _)))
turn-WaitsAfterSession none wakes backoff false next h = (refl, tt)
turn-WaitsAfterSession (some reason) wakes backoff before next h = (
  refl,
  elim (Bool-cases (reconnects reason)) [
    | inl e ↦ rw e (refl, after_wait-WaitsAfterSession (wait_backoff wakes) _ (h _))
    | inr e ↦ rw e tt
  ],
)

run_loop-WaitsAfterSession :
    (turns : List Turn) (backoff : ℕ) (before : Bool)
    → WaitsAfterSession before true (run_loop turns backoff before)
unfolding run_loop
run_loop-WaitsAfterSession [] backoff before = tt
run_loop-WaitsAfterSession (t ∷ turns) backoff before =
    turn-WaitsAfterSession t.session t.wakes backoff before (λ b c. run_loop turns b c)
      (λ b. run_loop-WaitsAfterSession turns b true)

-- A session that was never established is not retried: after the first attempt to connect, another one comes only
-- after a wait of its own, and a wait only after a session was authenticated.
pub run-WaitsAfterSession : (turns : List Turn) → WaitsAfterSession false true (run turns)
unfolding run
run-WaitsAfterSession turns = run_loop-WaitsAfterSession turns initial_backoff false

abbrev pub unreachable : Turn
unreachable = record { session = none; wakes = slept ∷ [] }

-- `attempts k n`: the effects of n failed attempts, the first of them after k others.
abbrev pub attempts : ℕ → ℕ → List Effect
attempts k zero = []
attempts k (suc n) = sends connecting ∷ waits (min (2 ^ k) max_backoff) ∷ attempts (suc k) n

run_loop-unreachable :
    (k n : ℕ) → run_loop (replicate n unreachable) (min (2 ^ k) max_backoff) true ≡ attempts k n
unfolding run_loop wait_backoff
run_loop-unreachable k zero = refl
run_loop-unreachable k (suc n) =
    ap (λ rest. sends connecting ∷ waits (min (2 ^ k) max_backoff) ∷ rest)
      (ap (λ b. run_loop (replicate n unreachable) b true) (doubled k)
        ∙ run_loop-unreachable (suc k) n)
  where
    doubled : (k : ℕ) → min (min (2 ^ k) 30 * 2) 30 ≡ min (2 ^ suc k) 30
    doubled k = omega arith

-- After a link that was up is lost, n attempts that fail wait 2, 4, 8 seconds and so on, up to thirty, and the
-- attempts go on however many fail.
pub run-unreachable :
    (n : ℕ)
    → run (record { session = some timeout; wakes = slept ∷ [] } ∷ replicate n unreachable)
      ≡ sends connecting
        ∷ sends authenticated
        ∷ sends (disconnected timeout)
        ∷ waits 1
        ∷ attempts 1 n
unfolding run run_loop wait_backoff reconnects
run-unreachable n =
    ap
      (λ rest.
        sends connecting ∷ sends authenticated ∷ sends (disconnected timeout) ∷ waits 1 ∷ rest)
      (run_loop-unreachable 1 n)
