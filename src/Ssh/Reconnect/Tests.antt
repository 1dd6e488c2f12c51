-- ===== src/Ssh/Reconnect/Tests.antt =====
-- A session that drops once, comes back, and is then closed by the user.
use poly_term.Prelude.{◌≡◌, true, false, some, List, [], ◌∷◌, All, replicate}
use poly_term.Core.Transport.{local, timeout, connecting, authenticated, disconnected}
use poly_term.Ssh.Reconnect.{Turn, slept, sends, waits, run}
use poly_term.Ssh.Reconnect.Policy.{
  WithinBackoff, EndsForGood, WaitsAfterSession, unreachable, attempts, run-WithinBackoff,
  run-EndsForGood, run-WaitsAfterSession, run-unreachable,
}

abbrev dropped : Turn
dropped = record { session = some timeout; wakes = slept ∷ [] }

abbrev closed_by_user : Turn
closed_by_user = record { session = some local; wakes = [] }

abbrev story : List Turn
story = dropped ∷ unreachable ∷ closed_by_user ∷ []

run-WithinBackoff_example : All WithinBackoff (run story)
run-WithinBackoff_example = run-WithinBackoff story

run-EndsForGood_example : EndsForGood (run story)
run-EndsForGood_example = run-EndsForGood story

run-WaitsAfterSession_example : WaitsAfterSession false true (run story)
run-WaitsAfterSession_example = run-WaitsAfterSession story

run-unreachable_example :
    run (dropped ∷ replicate 6 unreachable)
    ≡ sends connecting ∷ sends authenticated ∷ sends (disconnected timeout) ∷ waits 1 ∷ attempts 1 6
run-unreachable_example = run-unreachable 6
