-- ===== src/Ssh/Establish.antt =====
-- crates/polyterm-ssh/src/lib.rs: `establish`, which connects through the jump hosts to the target, and the check of
-- each server's key. The map of remote forwards, empty at first, is shared with the rest and not part of it.
pub mod Reports
pub mod Accepted
pub mod Verified
mod Tests
use poly_term.Prelude.{
  ℕ, Bool, true, false, Option, none, some, List, [], ◌∷◌, ◌++◌, ◌⊎◌, inl, inr, map,
}
use poly_term.Prelude.Text.{Text, codes}
use poly_term.Prelude.Decimal.{to_string}
use poly_term.Core.Session.{SshAuth, SshJump, SshConfig}
use poly_term.Core.Prompt.{
  Reply, TrustDecision, reject, accept_once, accept_and_remember, HostKeyPrompt,
}
use poly_term.Core.Transport.{TransportEvent, host_key, disconnected, failed}
use poly_term.Ssh.Io.{
  Act, sends, hears, meets, Out, Io, pure, call, logged, noted, ◌>>=◌, OfferedKey, plain_key,
  certificate, ServerKey, Outside,
}
use poly_term.Ssh.Auth.{emit, authenticate_with}

-- One hop toward the target: a jump host, or the target itself.
pub record Hop : Type 0 where
  pub host : Text
  pub port : ℕ
  pub user : Text
  pub auth : SshAuth

abbrev pub hop_of_jump : SshJump → Hop
hop_of_jump j = record { host = j.host; port = j.port; user = j.username; auth = j.auth }

abbrev pub target_hop : SshConfig → Hop
target_hop cfg = record { host = cfg.host; port = cfg.port; user = cfg.username; auth = cfg.auth }

abbrev pub hops : SshConfig → List Hop
hops cfg = map hop_of_jump cfg.jumps ++ target_hop cfg ∷ []

abbrev pub is_accepted : Option TrustDecision → Bool
is_accepted (some accept_once) = true
is_accepted (some accept_and_remember) = true
is_accepted (some reject) = false
is_accepted none = false

-- "host:port"
abbrev pub address : Hop → Text
address hop = hop.host ++ codes ":" ++ to_string hop.port

abbrev pub key_prompt : Text → ℕ → ServerKey → Reply → HostKeyPrompt
key_prompt host port key reply = record {
  host = host;
  port = port;
  key_type = key.key_type;
  fingerprint = key.fingerprint;
  public_key = key.public_key;
  reply = reply;
}

-- `unwrap_or_default`
abbrev pub or_empty : Option (List ℕ) → List ℕ
or_empty none = []
or_empty (some bytes) = bytes

abbrev pub describe_key : OfferedKey → ServerKey
describe_key (plain_key k) = record {
  key_type = k.algorithm;
  fingerprint = k.sha256;
  public_key = or_empty k.bytes;
}
describe_key (certificate algorithm k bytes) = record {
  key_type = algorithm;
  fingerprint = k.sha256;
  public_key = or_empty bytes;
}

module _ {S H K : Type 0} (outside : Outside S H K) where
  heard : Reply → Bool → Io S Bool
  heard reply true = logged (hears reply) (outside.trust_answer reply) >>= λ d. pure (is_accepted d)
  heard reply false = pure false

  presented : Text → ℕ → ServerKey → Reply → Io S Bool
  unfolding heard
  presented host port key reply =
      emit outside (host_key (key_prompt host port key reply)) >>= heard reply

  unfoldable pub check_server_key : Text → ℕ → OfferedKey → Io S Bool
  unfolding presented
  check_server_key host port key = call outside.channel >>= presented host port (describe_key key)

  concluded : Bool → Io S (Text ⊎ H)
  concluded verdict = call (outside.finish verdict)

  shaken : Text → ℕ → Text ⊎ OfferedKey → Io S (Text ⊎ H)
  unfolding concluded
  shaken host port (inl e) = pure (inl e)
  shaken host port (inr key) = noted (meets key) (check_server_key host port key >>= concluded)

  -- `client::connect` and `client::connect_stream`, with the handler of the hop.
  unfoldable pub connect : Option H → Text → ℕ → Io S (Text ⊎ H)
  unfolding shaken
  connect through host port = call (outside.handshake through host port) >>= shaken host port

  unfoldable pub fail : Text → Io S Bool
  fail message = emit outside (disconnected (failed message))

  give_up : {A : Type 0} → Text → Io S (Option A)
  give_up message = fail message >>= λ sent. pure none

  or_give_up : Text → Text ⊎ H → Io S (Option H)
  unfolding give_up
  or_give_up message (inl e) = give_up (message ++ e)
  or_give_up message (inr session) = pure (some session)

  tunnelled : H → Hop → Text ⊎ Unit {0} → Io S (Option H)
  unfolding give_up or_give_up
  tunnelled prev hop (inl e) =
      give_up (codes "could not tunnel to " ++ address hop ++ codes ": " ++ e)
  tunnelled prev hop (inr channel) =
      connect (some prev) hop.host hop.port
      >>= or_give_up (codes "connection to " ++ address hop ++ codes " via jump host failed: ")

  -- The first hop is a direct connection; each other one tunnels through the one before.
  reach : Option H → Hop → Io S (Option H)
  unfolding tunnelled or_give_up
  reach (some prev) hop =
      call (outside.open_direct_tcpip prev hop.host hop.port) >>= tunnelled prev hop
  reach none hop =
      connect none hop.host hop.port
      >>= or_give_up (codes "connection to " ++ address hop ++ codes " failed: ")

  authenticated_or_fail : Hop → H → Text ⊎ Bool → Io S (Option H)
  unfolding give_up
  authenticated_or_fail hop next (inr true) = pure (some next)
  authenticated_or_fail hop next (inr false) =
      give_up (codes "authentication to " ++ hop.host ++ codes " failed")
  authenticated_or_fail hop next (inl e) =
      give_up (codes "authentication error at " ++ hop.host ++ codes ": " ++ e)

  and_authenticate : Hop → Option H → Io S (Option H)
  unfolding authenticated_or_fail
  and_authenticate hop none = pure none
  and_authenticate hop (some next) =
      authenticate_with outside next hop.user hop.host hop.auth >>= authenticated_or_fail hop next

  -- One turn of the loop: the hop's session, or nothing with the failure reported.
  unfoldable pub one_hop : Option H → Hop → Io S (Option H)
  unfolding reach and_authenticate
  one_hop prev hop = reach prev hop >>= and_authenticate hop

  put : H → Option (List H) → Option (List H)
  put session none = none
  put session (some chain) = some (session ∷ chain)

  put_first : H → Option (List H) → Io S (Option (List H))
  unfolding put
  put_first session chain = pure (put session chain)

  and_then : (H → Io S (Option (List H))) → Option H → Io S (Option (List H))
  unfolding put_first
  and_then rest none = pure none
  and_then rest (some session) = rest session >>= put_first session

  -- The sessions from here to the target.
  unfoldable pub chain_of : Option H → List Hop → Io S (Option (List H))
  unfolding and_then
  chain_of prev [] = pure (some [])
  chain_of prev (hop ∷ hops) =
      one_hop prev hop >>= and_then (λ session. chain_of (some session) hops)

  unfoldable pub establish : SshConfig → Io S (Option (List H))
  establish cfg = chain_of none (hops cfg)
