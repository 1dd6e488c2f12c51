-- ===== src/Ui/LineTimestamper/Tests.antt =====
-- A sink in memory with room for ten writes, and a clock that shows a count of bars.
use poly_term.Prelude.{ℕ, zero, suc, ◌≡◌, refl, Bool, true, false, List, [], ◌∷◌, ◌++◌, replicate}
use poly_term.Ui.LineTimestamper.{Sink, LineTimestamper, and_then, write_bytes}
use poly_term.Ui.LineTimestamper.Lines.{Logged, write_bytes-append, write_bytes-Logged}

-- What was written, and how many more writes succeed.
abbrev Memory : Type 0
Memory = List ℕ × ℕ

abbrev store : Memory → List ℕ → Bool × Memory
store (held, zero) bytes = (false, (held, 0))
store (held, suc room) bytes = (true, (held ++ bytes, room))

store-content :
    (m : Memory) (bytes : List ℕ) → (store m bytes).0 ≡ true → (store m bytes).1.0 ≡ m.0 ++ bytes
store-content (held, zero) bytes e = cc
store-content (held, suc room) bytes e = refl

abbrev memory : Sink
memory = record {
  Out = Memory;
  write_all = store;
  content = λ m. m.0;
  content_write = store-content;
}

abbrev bars : ℕ → List ℕ
bars n = replicate n 124

abbrev fresh : LineTimestamper memory
fresh = record { sink = ([], 10); asked = 1; at_line_start = true }

two_lines :
    (write_bytes memory bars (97 ∷ 10 ∷ 98 ∷ []) fresh).1.sink.0
    ≡ 124 ∷ 97 ∷ 10 ∷ 124 ∷ 124 ∷ 98 ∷ []
unfolding write_bytes
two_lines = refl

write_bytes-append_example :
    write_bytes memory bars ((97 ∷ 10 ∷ []) ++ 98 ∷ []) fresh
    ≡ and_then memory bars
        (write_bytes memory bars (98 ∷ []))
        (write_bytes memory bars (97 ∷ 10 ∷ []) fresh)
write_bytes-append_example = write_bytes-append memory bars (97 ∷ 10 ∷ []) (98 ∷ []) fresh

write_bytes-Logged_example :
    Logged memory bars (97 ∷ 10 ∷ 98 ∷ []) fresh (write_bytes memory bars (97 ∷ 10 ∷ 98 ∷ []) fresh)
write_bytes-Logged_example = write_bytes-Logged memory bars (97 ∷ 10 ∷ 98 ∷ []) fresh
