-- ===== src/Ssh/Socks.antt =====
-- crates/polyterm-ssh/src/forward.rs: the SOCKS5 handshake of a dynamic forward. A socket is what the client
-- has sent and is not yet read, what was written to it, and whether writing fails; how the standard library
-- prints an address is a parameter.
pub mod Handshake
mod Tests
use poly_term.Prelude.{
  ℕ, zero, suc, ◌+◌, ◌*◌, Bool, true, false, not, ◌&&◌, ◌||◌, List, [], ◌∷◌, ◌++◌, eqb, ltb, length,
  take, drop, replicate, if◌then◌else◌,
}
use poly_term.Prelude.Text.{Text, codes}

pub data IoError : Type 0 where
  unexpected_eof broken_pipe : IoError
  invalid_data : Text → IoError

pub data IoResult (A : Type 0) : Type 0 where
  done : A → IoResult A
  fails : IoError → IoResult A

pub record Sock : Type 0 where
  pub incoming : List ℕ
  pub outgoing : List ℕ
  pub broken : Bool

-- `Ipv4Addr::to_string`, `Ipv6Addr::to_string` and `String::from_utf8_lossy`
pub record Printers : Type 0 where
  pub ipv4 : List ℕ → Text
  pub ipv6 : List ℕ → Text
  pub utf8_lossy : List ℕ → Text

-- `?`
abbrev pub and_then :
    {A B : Type 0} → (A → Sock → IoResult B × Sock) → IoResult A × Sock → IoResult B × Sock
and_then f (done a, s) = f a s
and_then f (fails e, s) = (fails e, s)

abbrev pub fail : {A : Type 0} → Text → Sock → IoResult A × Sock
fail message s = (fails (invalid_data message), s)

abbrev pub read_exact : ℕ → Sock → IoResult (List ℕ) × Sock
read_exact n s =
    if ltb (length s.incoming) n
    then (fails unexpected_eof, record s { incoming = [] })
    else (done (take n s.incoming), record s { incoming = drop n s.incoming })

abbrev first : List ℕ → Sock → IoResult ℕ × Sock
first [] s = (fails unexpected_eof, s)
first (b ∷ incoming) s = (done b, record s { incoming = incoming })

abbrev read_u8 : Sock → IoResult ℕ × Sock
read_u8 s = first s.incoming s

-- Network order.
abbrev read_u16 : Sock → IoResult ℕ × Sock
read_u16 s =
    and_then (λ high s. and_then (λ low s. (done (high * 256 + low), s)) (read_u8 s)) (read_u8 s)

abbrev pub write_all : List ℕ → Sock → IoResult (Unit {0}) × Sock
write_all bytes s =
    if s.broken
    then (fails broken_pipe, s)
    else (done tt, record s { outgoing = s.outgoing ++ bytes })

module _ (P : Printers) where
  abbrev read_host : ℕ → Sock → IoResult Text × Sock
  read_host atyp s =
      if eqb atyp 1
      then and_then (λ b s. (done (P.ipv4 b), s)) (read_exact 4 s)
      else if eqb atyp 3
      then and_then (λ len s. and_then (λ b s. (done (P.utf8_lossy b), s)) (read_exact len s))
          (read_u8 s)
      else if eqb atyp 4
      then and_then (λ b s. (done (P.ipv6 b), s)) (read_exact 16 s)
      else fail (codes "unknown SOCKS address type") s

  pub read_target : ℕ → Sock → IoResult (Text × ℕ) × Sock
  read_target atyp s =
      and_then (λ host s. and_then (λ port s. (done (host, port), s)) (read_u16 s))
        (read_host atyp s)

  abbrev pub command_not_supported : List ℕ
  command_not_supported = 5 ∷ 7 ∷ 0 ∷ 1 ∷ 0 ∷ 0 ∷ 0 ∷ 0 ∷ 0 ∷ 0 ∷ []

  abbrev pub succeeded : List ℕ
  succeeded = 5 ∷ 0 ∷ 0 ∷ 1 ∷ 0 ∷ 0 ∷ 0 ∷ 0 ∷ 0 ∷ 0 ∷ []

  abbrev answer_request : ℕ → ℕ → ℕ → Sock → IoResult (Text × ℕ) × Sock
  answer_request version command atyp s =
      if not (eqb version 5) || not (eqb command 1)
      then fail (codes "unsupported SOCKS command") (write_all command_not_supported s).1
      else and_then (λ target s. and_then (λ _ s. (done target, s)) (write_all succeeded s))
          (read_target atyp s)

  abbrev pub request : Sock → IoResult (Text × ℕ) × Sock
  request s =
      and_then
        (λ version s.
          and_then
            (λ command s.
              and_then
                (λ reserved s.
                  and_then (λ atyp s. answer_request version command atyp s) (read_u8 s))
                (read_u8 s))
            (read_u8 s))
        (read_u8 s)

  abbrev pub greeting : Sock → IoResult (Unit {0}) × Sock
  greeting s =
      and_then
        (λ nmethods s. and_then (λ methods s. write_all (5 ∷ 0 ∷ []) s) (read_exact nmethods s))
        (read_u8 s)

  pub socks_handshake : Sock → IoResult (Text × ℕ) × Sock
  unfolding read_target
  socks_handshake s =
      and_then
        (λ version s.
          if not (eqb version 5)
          then fail (codes "not a SOCKS5 client") s
          else and_then (λ _ s. request s) (greeting s))
        (read_u8 s)
