-- ===== src/Ssh/Socks/Handshake.antt =====
-- crates/polyterm-ssh/src/forward.rs: what a client that speaks SOCKS5 gets.
use poly_term.Prelude.{
  ℕ, ◌≡◌, ◌≢◌, ◌⊎◌, inl, inr, refl, Bool, true, false, not, ◌||◌, List, [], ◌∷◌, ◌++◌, arith, eqb,
  ltb, length, length-append, take-append_length, drop-append_length,
}
use poly_term.Prelude.Text.{codes}
use poly_term.Ssh.Socks.{invalid_data, done, fails, Printers, read_exact, greeting, socks_handshake}

read_exact-prefix :
    (bytes rest outgoing : List ℕ) (broken : Bool)
    → read_exact
        (length bytes)
        (record { incoming = bytes ++ rest; outgoing = outgoing; broken = broken })
      ≡ (done bytes, record { incoming = rest; outgoing = outgoing; broken = broken })
read_exact-prefix bytes rest outgoing broken =
    let there : ltb (length (bytes ++ rest)) (length bytes) ≡ false =
      ground (arith, length-append bytes rest) in
    rw (there, take-append_length bytes rest, drop-append_length bytes rest) refl

module _ (P : Printers) where
  greeting-open :
      (methods rest outgoing : List ℕ)
      → greeting P (record {
        incoming = length methods ∷ (methods ++ rest);
        outgoing = outgoing;
        broken = false;
      })
        ≡ (done tt, record { incoming = rest; outgoing = outgoing ++ 5 ∷ 0 ∷ []; broken = false })
  greeting-open methods rest outgoing = rw (read_exact-prefix methods rest outgoing false) refl

  unsupported :
      (version command : ℕ)
      → (version ≢ 5) ⊎ (command ≢ 1)
      → (not (eqb version 5) || not (eqb command 1)) ≡ true
  unsupported version command (inl e) = ground (arith, e)
  unsupported version command (inr e) = ground (arith, e)

  -- A request whose version is not 5 or whose command is not CONNECT is refused: after the greeting's answer the client
  -- gets the reply 05 07 00 01 and six zeros, which says that the command is not supported, whatever the address type,
  -- and nothing after the header of its request is read.
  pub socks_handshake-refuse :
      (methods rest outgoing : List ℕ) (version command reserved atyp : ℕ)
      → (version ≢ 5) ⊎ (command ≢ 1)
      → socks_handshake P (record {
        incoming = 5 ∷ length methods ∷ (methods ++ version ∷ command ∷ reserved ∷ atyp ∷ rest);
        outgoing = outgoing;
        broken = false;
      })
        ≡ (
          fails (invalid_data (codes "unsupported SOCKS command")),
          record {
            incoming = rest;
            outgoing = (outgoing ++ 5 ∷ 0 ∷ []) ++ 5 ∷ 7 ∷ 0 ∷ 1 ∷ 0 ∷ 0 ∷ 0 ∷ 0 ∷ 0 ∷ 0 ∷ [];
            broken = false;
          },
        )
  unfolding socks_handshake
  socks_handshake-refuse methods rest outgoing version command reserved atyp e =
      let guard : (not (eqb version 5) || not (eqb command 1)) ≡ true =
        unsupported version command e in
      rw (greeting-open methods (version ∷ command ∷ reserved ∷ atyp ∷ rest) outgoing)
        (rw guard refl)
