-- ===== src/Ui/LineTimestamper.antt =====
-- crates/polyterm-ui/src/session_log.rs: the writer that puts a timestamp before every line. The sink
-- and the clock are parameters, as in the code.
pub mod Lines
mod Tests
use poly_term.Prelude.{
  ℕ, suc, ◌+◌, ◌≡◌, Bool, true, false, ◌||◌, List, [], ◌∷◌, ◌++◌, eqb, if◌then◌else◌,
}
use poly_term.Prelude.Text.{Text}

-- `write_all` on the sink: whether it succeeded, and the sink after it. A sink that succeeded holds
-- what was written at its end.
pub record Sink : Type 1 where
  pub Out : Type 0
  pub write_all : Out → List ℕ → Bool × Out
  pub content : Out → List ℕ
  pub content_write :
      (o : Out) (bytes : List ℕ)
      → (write_all o bytes).0 ≡ true
      → content (write_all o bytes).1 ≡ content o ++ bytes

-- The state of the clock is how often it was asked.
pub record LineTimestamper (S : Sink) : Type 0 where
  pub sink : S.Out
  pub asked : ℕ
  pub at_line_start : Bool

module _ (S : Sink) (clock : ℕ → Text) where
  -- `?` on one write: go on only where it succeeded.
  abbrev pub on_success :
      (S.Out → Bool × LineTimestamper S)
      → LineTimestamper S
      → Bool × S.Out
      → Bool × LineTimestamper S
  on_success go t (true, o) = go o
  on_success go t (false, o) = (false, record t { sink = o })

  abbrev stamp : LineTimestamper S → Bool × LineTimestamper S
  stamp t =
      if t.at_line_start
      then on_success (λ o. (true, record { sink = o; asked = suc t.asked; at_line_start = false }))
          (record t { asked = suc t.asked }) (S.write_all t.sink (clock t.asked))
      else (true, t)

  abbrev put : ℕ → LineTimestamper S → Bool × LineTimestamper S
  put byte t =
      on_success
        (λ o. (true, record t { sink = o; at_line_start = eqb byte 10 || t.at_line_start })) t
        (S.write_all t.sink (byte ∷ []))

  abbrev and_then :
      (LineTimestamper S → Bool × LineTimestamper S)
      → Bool × LineTimestamper S
      → Bool × LineTimestamper S
  and_then go (true, t) = go t
  and_then go (false, t) = (false, t)

  abbrev write_byte : ℕ → LineTimestamper S → Bool × LineTimestamper S
  write_byte byte t = and_then (put byte) (stamp t)

  pub write_bytes : List ℕ → LineTimestamper S → Bool × LineTimestamper S
  write_bytes [] t = (true, t)
  write_bytes (byte ∷ bytes) t = and_then (write_bytes bytes) (write_byte byte t)
