-- ===== src/Ui/InputQueue/Tests.antt =====
-- A channel with room for two, and a pane that types three inputs into it.
use poly_term.Prelude.{ℕ, zero, suc, ◌≤◌, ◌≡◌, refl, false, List, [], ◌∷◌, ◌++◌, length, arith, ◌⊎◌}
use poly_term.Ui.InputQueue.{
  Bytes, SendResult, sent, full, closed, Channel, input_pending_cap, InputState, send_input,
  drain_input,
}
use poly_term.Ui.InputQueue.Order.{
  stream, Accounted, Run, opened, typed, drained, stream-send_input, run-bound,
}

-- What was taken, and how many of it are not yet read.
abbrev Room : Type 0
Room = List Bytes × ℕ

abbrev offer : Room → Bytes → SendResult × Room
offer (got, zero) b = (sent, (got ++ b ∷ [], 1))
offer (got, suc zero) b = (sent, (got ++ b ∷ [], 2))
offer (got, suc (suc n)) b = (full, (got, suc (suc n)))

offer-sent : (c : Room) (b : Bytes) → (offer c b).0 ≡ sent → (offer c b).1.0 ≡ c.0 ++ b ∷ []
offer-sent (got, zero) b e = refl
offer-sent (got, suc zero) b e = refl
offer-sent (got, suc (suc n)) b e = cc

offer-full : (c : Room) (b : Bytes) → (offer c b).0 ≡ full → (offer c b).1.0 ≡ c.0
offer-full (got, zero) b e = cc
offer-full (got, suc zero) b e = cc
offer-full (got, suc (suc n)) b e = refl

offer-closed : (c : Room) (b : Bytes) → (offer c b).0 ≡ closed → (offer c b).1.0 ≡ c.0
offer-closed (got, zero) b e = cc
offer-closed (got, suc zero) b e = cc
offer-closed (got, suc (suc n)) b e = refl

abbrev room : Channel
room = record {
  Chan = Room;
  try_send = offer;
  taken = λ c. c.0;
  taken_sent = offer-sent;
  taken_full = offer-full;
  taken_closed = offer-closed;
}

abbrev fresh : InputState room
fresh = record { input = ([], 0); pending_input = []; dropping_input = false }

abbrev third_waits : InputState room
third_waits =
    send_input room (99 ∷ []) (send_input room (98 ∷ []) (send_input room (97 ∷ []) fresh))

what_waits : third_waits.pending_input ≡ (99 ∷ []) ∷ []
unfolding send_input
what_waits = refl

abbrev typing :
    Run room fresh ((97 ∷ []) ∷ (98 ∷ []) ∷ (99 ∷ []) ∷ []) (drain_input room third_waits)
typing = drained (typed (99 ∷ []) (typed (98 ∷ []) (typed (97 ∷ []) opened)))

stream-send_input_example :
    Accounted room (100 ∷ []) third_waits (send_input room (100 ∷ []) third_waits)
    ⊎ (stream room (send_input room (100 ∷ []) third_waits) ≡ stream room third_waits)
      × ((room.try_send third_waits.input (100 ∷ [])).0 ≡ closed)
stream-send_input_example = stream-send_input room (100 ∷ []) third_waits refl

run-bound_example : length (drain_input room third_waits).pending_input ≤ input_pending_cap
run-bound_example = run-bound room fresh (omega arith) typing
