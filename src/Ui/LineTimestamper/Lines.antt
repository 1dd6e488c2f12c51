-- ===== src/Ui/LineTimestamper/Lines.antt =====
-- crates/polyterm-ui/src/session_log.rs: how the stream is cut into chunks does not matter, and there is
-- one timestamp per line.
use poly_term.Prelude.{
  ℕ, suc, ◌+◌, ◌≡◌, refl, sym, ap, ◌∙◌, Bool, true, false, ◌||◌, List, [], ◌∷◌, ◌++◌, append_assoc,
  append-nil, arith, eqb, if◌then◌else◌,
}
use poly_term.Prelude.Text.{Text}
use poly_term.Ui.LineTimestamper.{
  Sink, LineTimestamper, on_success, stamp, put, and_then, write_byte, write_bytes,
}

-- The stamped text of some bytes, by lines.
stamped : (ℕ → Text) → ℕ → Bool → List ℕ → List ℕ
stamped clock n true [] = []
stamped clock n false [] = []
stamped clock n true (byte ∷ bytes) = clock n ++ byte ∷ stamped clock (suc n) (eqb byte 10) bytes
stamped clock n false (byte ∷ bytes) = byte ∷ stamped clock n (eqb byte 10) bytes

abbrev newlines : List ℕ → ℕ
newlines [] = 0
newlines (byte ∷ bytes) = (if eqb byte 10 then 1 else 0) + newlines bytes

abbrev one_if : Bool → ℕ
one_if b = if b then 1 else 0

module _ (S : Sink) (clock : ℕ → Text) where
  and_then-and_then :
      (f g h : LineTimestamper S → Bool × LineTimestamper S)
      → ((t : LineTimestamper S) → h t ≡ and_then S clock g (f t))
      → (r : Bool × LineTimestamper S)
      → and_then S clock h r ≡ and_then S clock g (and_then S clock f r)
  and_then-and_then f g h e (true, t) = e t
  and_then-and_then f g h e (false, t) = refl

  -- Output that arrives in two chunks is logged as if it had arrived in one: the same bytes, the same
  -- clock readings, and the same error if the sink fails.
  pub write_bytes-append :
      (xs ys : List ℕ) (t : LineTimestamper S)
      → write_bytes S clock (xs ++ ys) t
        ≡ and_then S clock (write_bytes S clock ys) (write_bytes S clock xs t)
  unfolding write_bytes
  write_bytes-append [] ys t = refl
  write_bytes-append (x ∷ xs) ys t =
      and_then-and_then (write_bytes S clock xs) (write_bytes S clock ys)
        (write_bytes S clock (xs ++ ys)) (λ t'. write_bytes-append xs ys t')
        (write_byte S clock x t)

  Wrote : S.Out → List ℕ → Bool × S.Out → Type 0
  Wrote o bytes (true, o') = S.content o' ≡ S.content o ++ bytes
  Wrote o bytes (false, o') = Unit

  write_all-Wrote : (o : S.Out) (bytes : List ℕ) → Wrote o bytes (S.write_all o bytes)
  unfolding Wrote
  write_all-Wrote o bytes = go (S.write_all o bytes) (S.content_write o bytes)
    where
      go :
          (r : Bool × S.Out) → (r.0 ≡ true → S.content r.1 ≡ S.content o ++ bytes) → Wrote o bytes r
      go (true, o') h = h refl
      go (false, o') h = tt

  abbrev opening : Bool → LineTimestamper S → Text
  opening b t = if b then clock t.asked else []

  -- A call that succeeded: what it added to the sink, and the clock and the line start after it.
  Left : List ℕ → ℕ → Bool → LineTimestamper S → Bool × LineTimestamper S → Type 0
  Left out asked start t (true, t') =
      (S.content t'.sink ≡ S.content t.sink ++ out)
      × (t'.asked ≡ asked)
      × (t'.at_line_start ≡ start)
  Left out asked start t (false, t') = Unit

  stamp-Left :
      (t : LineTimestamper S)
      → Left
          (opening t.at_line_start t)
          (t.asked + one_if t.at_line_start)
          false
          t
          (stamp S clock t)
  unfolding Left Wrote
  stamp-Left t = by_start t.at_line_start refl
    where
      after :
          (r : Bool × S.Out)
          → Wrote t.sink (clock t.asked) r
          → Left (opening true t) (t.asked + one_if true) false t (
              on_success S clock
                (λ o. (true, record { sink = o; asked = suc t.asked; at_line_start = false }))
                (record t { asked = suc t.asked })
                r)
      after (true, o) w = (w, omega arith, refl)
      after (false, o) w = tt

      by_start :
          (b : Bool)
          → t.at_line_start ≡ b
          → Left (opening b t) (t.asked + one_if b) false t (
              if b
              then on_success S clock
                  (λ o. (true, record { sink = o; asked = suc t.asked; at_line_start = false }))
                  (record t { asked = suc t.asked })
                  (S.write_all t.sink (clock t.asked))
              else (true, t))
      by_start true e =
          after (S.write_all t.sink (clock t.asked)) (write_all-Wrote t.sink (clock t.asked))
      by_start false e = (sym (append-nil _), omega arith, e)

  put-Left :
      (byte : ℕ) (t : LineTimestamper S)
      → t.at_line_start ≡ false
      → Left (byte ∷ []) t.asked (eqb byte 10) t (put S clock byte t)
  unfolding Left Wrote
  put-Left byte t e = after (S.write_all t.sink (byte ∷ [])) (write_all-Wrote t.sink (byte ∷ []))
    where
      after :
          (r : Bool × S.Out)
          → Wrote t.sink (byte ∷ []) r
          → Left (byte ∷ []) t.asked (eqb byte 10) t (
              on_success S clock
                (λ o. (true, record t { sink = o; at_line_start = eqb byte 10 || t.at_line_start }))
                t
                r)
      after (true, o) w = (w, refl, ground (arith, e))
      after (false, o) w = tt

  write_byte-Left :
      (byte : ℕ) (t : LineTimestamper S)
      → Left
          (opening t.at_line_start t ++ byte ∷ [])
          (t.asked + one_if t.at_line_start)
          (eqb byte 10)
          t
          (write_byte S clock byte t)
  unfolding Left
  write_byte-Left byte t = after (stamp S clock t) (stamp-Left t)
    where
      joined :
          (t' : LineTimestamper S)
          → Left (opening t.at_line_start t) (t.asked + one_if t.at_line_start) false t (true, t')
          → (r : Bool × LineTimestamper S) → Left (byte ∷ []) t'.asked (eqb byte 10) t' r
          → Left
              (opening t.at_line_start t ++ byte ∷ [])
              (t.asked + one_if t.at_line_start)
              (eqb byte 10)
              t
              r
      joined t' (text, asked, started) (true, t'') (text', asked', started') = (
        text' ∙ ap (λ c. c ++ byte ∷ []) text ∙ append_assoc (S.content t.sink) _ (byte ∷ []),
        asked' ∙ asked,
        started',
      )
      joined t' s (false, t'') h = tt

      after :
          (r : Bool × LineTimestamper S)
          → Left (opening t.at_line_start t) (t.asked + one_if t.at_line_start) false t r
          → Left
              (opening t.at_line_start t ++ byte ∷ [])
              (t.asked + one_if t.at_line_start)
              (eqb byte 10)
              t
              (and_then S clock (put S clock byte) r)
      after (true, t') s = joined t' s (put S clock byte t') (put-Left byte t' s.2)
      after (false, t') s = tt

  stamped-step :
      (t : LineTimestamper S) (byte : ℕ) (bytes : List ℕ) (b : Bool)
      → stamped clock t.asked b (byte ∷ bytes)
        ≡ (opening b t ++ byte ∷ []) ++ stamped clock (t.asked + one_if b) (eqb byte 10) bytes
  unfolding stamped
  stamped-step t byte bytes true =
      sym (append_assoc (clock t.asked) (byte ∷ []) _)
      ∙ ap (λ n. (clock t.asked ++ byte ∷ []) ++ stamped clock n (eqb byte 10) bytes) (omega arith)
  stamped-step t byte bytes false =
      ap (λ n. byte ∷ stamped clock n (eqb byte 10) bytes) (omega arith)

  -- The outcome of a call on a stream of bytes, where the sink took everything.
  pub Logged : List ℕ → LineTimestamper S → Bool × LineTimestamper S → Type 0
  Logged bytes t (true, t') =
      (S.content t'.sink ≡ S.content t.sink ++ stamped clock t.asked t.at_line_start bytes)
      × (t'.asked + one_if t'.at_line_start ≡ t.asked + one_if t.at_line_start + newlines bytes)
  Logged bytes t (false, t') = Unit

  -- Where the sink took everything, it got the bytes with a timestamp at the start of every line that has a
  -- byte, and the clock was asked once per line: its readings grow by the line breaks written, counting a
  -- line that is yet to begin on both sides.
  pub write_bytes-Logged :
      (bytes : List ℕ) (t : LineTimestamper S) → Logged bytes t (write_bytes S clock bytes t)
  unfolding Logged Left stamped write_bytes
  write_bytes-Logged [] t = go t.at_line_start
    where
      go :
          (b : Bool)
          → (S.content t.sink ≡ S.content t.sink ++ stamped clock t.asked b [])
            × (t.asked + one_if t.at_line_start ≡ t.asked + one_if t.at_line_start + 0)
      go true = (sym (append-nil _), omega arith)
      go false = (sym (append-nil _), omega arith)
  write_bytes-Logged (byte ∷ bytes) t =
      after (write_byte S clock byte t) (write_byte-Left byte t) (λ t'. write_bytes-Logged bytes t')
    where
      joined :
          (t' : LineTimestamper S)
          → Left
              (opening t.at_line_start t ++ byte ∷ [])
              (t.asked + one_if t.at_line_start)
              (eqb byte 10)
              t
              (true, t')
          → (r : Bool × LineTimestamper S) → Logged bytes t' r
          → Logged (byte ∷ bytes) t r
      joined t' (text, asked, started) (true, t'') (text', asked') = (
        text'
            ∙ ap (λ c. c ++ stamped clock t'.asked t'.at_line_start bytes) text
            ∙ append_assoc (S.content t.sink) (opening t.at_line_start t ++ byte ∷ []) _
            ∙ ap (λ c. S.content t.sink ++ c)
                (ap
                    (λ n.
                      (opening t.at_line_start t ++ byte ∷ [])
                      ++ stamped clock n t'.at_line_start bytes)
                    asked
                  ∙ ap
                      (λ b.
                        (opening t.at_line_start t ++ byte ∷ [])
                        ++ stamped clock (t.asked + one_if t.at_line_start) b bytes)
                      started
                  ∙ sym (stamped-step t byte bytes t.at_line_start)),
        omega (arith, asked', asked, ap one_if started),
      )
      joined t' l (false, t'') h = tt

      after :
          (r : Bool × LineTimestamper S)
          → Left
              (opening t.at_line_start t ++ byte ∷ [])
              (t.asked + one_if t.at_line_start)
              (eqb byte 10)
              t
              r
          → ((t' : LineTimestamper S) → Logged bytes t' (write_bytes S clock bytes t'))
          → Logged (byte ∷ bytes) t (and_then S clock (write_bytes S clock bytes) r)
      after (true, t') l rest = joined t' l (write_bytes S clock bytes t') (rest t')
      after (false, t') l rest = tt
