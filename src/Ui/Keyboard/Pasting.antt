-- ===== src/Ui/Keyboard/Pasting.antt =====
-- A paste with a line break waits for its confirmation.
use poly_term.Prelude.{
  ℕ, Bool, false, ◌≡◌, refl, inl, inr, Option, none, some, List, [], ◌∷◌, any, eqb, find,
  Bool-cases, All, All-append,
}
use poly_term.Prelude.Text.{Text}
use poly_term.Core.Session.{SessionId}
use poly_term.Ui.Keyboard.{
  Event, Routed, Send, input, pasted, PendingPaste, route_events, send_each, send_typed,
  deliver_paste, route_pastes, typed_or_none, route_keyboard,
}

abbrev pub has_newline : Text → Bool
has_newline t = any (eqb 10) t

-- No paste of it has a line break.
abbrev pub Unbroken : Send → Type 0
Unbroken (input s bytes) = Unit
Unbroken (pasted s t) = has_newline t ≡ false

-- The first paste with a line break is what waits, for all recipients; without one nothing waits.
abbrev pub Held : List Text → List SessionId → Option PendingPaste → Type 0
Held pastes recipients none = find has_newline pastes ≡ none
Held pastes recipients (some p) =
    (find has_newline pastes ≡ some p.text) × (p.recipients ≡ recipients)

module _ (is_live : SessionId → Bool) where
  send_each-All :
      (P : Send → Type 0) (send : SessionId → Send) (recipients : List SessionId)
      → ((s : SessionId) → P (send s))
      → All P (send_each is_live send recipients)
  unfolding send_each
  send_each-All P send [] h = tt
  send_each-All P send (s ∷ recipients) h = elim (Bool-cases (is_live s)) [
    | inl e ↦ rw e (h s, send_each-All P send recipients h)
    | inr e ↦ rw e (send_each-All P send recipients h)
  ]

  typed-Unbroken :
      (out : List ℕ) (recipients : List SessionId)
      → All Unbroken (typed_or_none is_live out recipients)
  unfolding typed_or_none send_typed
  typed-Unbroken [] recipients = tt
  typed-Unbroken (b ∷ out) recipients = send_each-All Unbroken _ recipients (λ s. tt)

  later-Held :
      (t : Text) (pastes : List Text) (recipients : List SessionId) (o : Option PendingPaste)
      → has_newline t ≡ false
      → Held pastes recipients o
      → Held (t ∷ pastes) recipients o
  later-Held t pastes recipients none e h = rw e h
  later-Held t pastes recipients (some p) e h = (rw e h.0, h.1)

  route_pastes-Held :
      (pastes : List Text) (recipients : List SessionId)
      → All Unbroken (route_pastes is_live pastes recipients).0
        × Held pastes recipients (route_pastes is_live pastes recipients).1
  unfolding route_pastes deliver_paste
  route_pastes-Held [] recipients = (tt, refl)
  route_pastes-Held (t ∷ pastes) recipients =
      let rest = route_pastes-Held pastes recipients in
      elim (Bool-cases (has_newline t)) [
        | inl e ↦ rw e (tt, (rw e refl, refl))
        | inr e ↦ rw e (
          All-append Unbroken (send_each is_live (λ s. pasted s t) recipients)
              (route_pastes is_live pastes recipients).0
              (send_each-All Unbroken (λ s. pasted s t) recipients (λ s. e)) rest.0,
          later-Held t pastes recipients (route_pastes is_live pastes recipients).1 e rest.1,
        )
      ]

  -- Whatever is typed and pasted in a frame, no paste with a line break is sent. The first such paste waits for its
  -- confirmation, with the recipients it would go to, and if there is none nothing waits.
  pub newline_paste_waits :
      (events : List Event) (start : Routed) (recipients : List SessionId)
      → All Unbroken (route_keyboard is_live events start recipients).0
        × Held
            (route_events events start).pastes
            recipients
            (route_keyboard is_live events start recipients).1
  unfolding route_keyboard
  newline_paste_waits events start recipients =
      let r = route_events events start in
      let pastes = route_pastes-Held r.pastes recipients in
      (
        All-append Unbroken (typed_or_none is_live r.out recipients)
            (route_pastes is_live r.pastes recipients).0 (typed-Unbroken r.out recipients) pastes.0,
        pastes.1,
      )
