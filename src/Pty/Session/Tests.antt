-- ===== src/Pty/Session/Tests.antt =====
-- A resize, an ignored break, and a request to disconnect.
use poly_term.Prelude.{◌≡◌, refl, true, false, List, [], ◌∷◌}
use poly_term.Core.Transport.{resize, break, disconnect, local, connected, disconnected}
use poly_term.Pty.Session.{
  Ready, received, sends, resizes, kills, reaps, chunk, interrupted, end_of_file, spawn_reader,
  spawn_controller,
}
use poly_term.Pty.Session.Lifecycle.{cause, Ends, spawn_controller-Ends}

abbrev arrivals : List Ready
arrivals = received (resize 80 24) ∷ received break ∷ received disconnect ∷ []

effects :
    spawn_controller false arrivals
    ≡ sends connected ∷ resizes 80 24 ∷ kills ∷ reaps ∷ sends (disconnected local) ∷ []
unfolding spawn_controller
effects = refl

reads_past_interrupts :
    spawn_reader (
      (chunk (65 ∷ []), true)
      ∷ (interrupted, true)
      ∷ (chunk (66 ∷ []), true)
      ∷ (end_of_file, true)
      ∷ [])
    ≡ (65 ∷ []) ∷ (66 ∷ []) ∷ []
unfolding spawn_reader
reads_past_interrupts = refl

spawn_controller-Ends_example : Ends (cause arrivals) false (spawn_controller false arrivals)
spawn_controller-Ends_example = spawn_controller-Ends false arrivals
