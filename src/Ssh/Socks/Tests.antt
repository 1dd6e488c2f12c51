-- ===== src/Ssh/Socks/Tests.antt =====
-- A client that offers two methods and asks for port 443 of a host, and one that asks to bind.
use poly_term.Prelude.{ℕ, ◌≡◌, inr, false, List, [], ◌∷◌, ◌++◌, arith, length}
use poly_term.Prelude.Text.{codes}
use poly_term.Ssh.Socks.{invalid_data, fails, Printers, socks_handshake}
use poly_term.Ssh.Socks.Handshake.{socks_handshake-refuse}

abbrev plain : Printers
plain = record { ipv4 = λ b. b; ipv6 = λ b. b; utf8_lossy = λ b. b }

abbrev two_methods : List ℕ
two_methods = 0 ∷ 2 ∷ []

abbrev one_method : List ℕ
one_method = 0 ∷ []

abbrev host : List ℕ
host = 104 ∷ 46 ∷ 99 ∷ []

socks_handshake-refuse_example :
    socks_handshake plain (record {
      incoming = 5 ∷ length one_method ∷ (one_method ++ 5 ∷ 2 ∷ 0 ∷ 1 ∷ 9 ∷ []);
      outgoing = [];
      broken = false;
    })
    ≡ (
      fails (invalid_data (codes "unsupported SOCKS command")),
      record {
        incoming = 9 ∷ [];
        outgoing = ([] ++ 5 ∷ 0 ∷ []) ++ 5 ∷ 7 ∷ 0 ∷ 1 ∷ 0 ∷ 0 ∷ 0 ∷ 0 ∷ 0 ∷ 0 ∷ [];
        broken = false;
      },
    )
socks_handshake-refuse_example =
    socks_handshake-refuse plain one_method (9 ∷ []) [] 5 2 0 1 (inr (λ same. omega (arith, same)))
