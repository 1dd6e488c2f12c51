-- ===== src/Ssh/Establish/Tests.antt =====
-- A target behind one jump host: the user accepts both keys, and the agent's key lets in; then the user refuses.
use poly_term.Prelude.{
  ℕ, suc, ◌≡◌, refl, true, false, ◌⊎◌, inl, inr, none, some, List, [], ◌∷◌, ◌++◌, length, All,
}
use poly_term.Prelude.Text.{Text, codes}
use poly_term.Core.Session.{SshAuth, SshConfig}
use poly_term.Core.Prompt.{TrustDecision, reject, accept_once, responses}
use poly_term.Core.Transport.{disconnected, failed}
use poly_term.Ssh.Io.{sends, plain_key, success, info_request, Outside}
use poly_term.Ssh.Io.Yields.{disconnects}
use poly_term.Ssh.Auth.{authenticate_with, agent_auth, keyboard_interactive, emit, ask_credential}
use poly_term.Ssh.Establish.{hops, establish, chain_of, one_hop, connect, check_server_key, fail}
use poly_term.Ssh.Establish.Reports.{establish_reports}
use poly_term.Ssh.Establish.Accepted.{AcceptedIn}
use poly_term.Ssh.Establish.Verified.{establish_verified}

-- The state counts the prompts.
abbrev world : TrustDecision → Outside ℕ ℕ ℕ
world d = record {
  channel = λ n. (n, suc n);
  send = λ event n. (true, n);
  trust_answer = λ reply n. (some d, n);
  credential_answer = λ reply n. (some (responses (codes "42" ∷ [])), n);
  open_direct_tcpip = λ h host port n. (inr tt, n);
  handshake = λ through host port n. (
    inr (plain_key (record { algorithm = codes "ed25519"; sha256 = []; bytes = some (7 ∷ []) })),
    n,
  );
  finish = λ verdict n. (elim verdict [ true ↦ inr n | false ↦ inl (codes "unknown key") ], n);
  authenticate_password = λ h user pass n. (inr false, n);
  best_supported_rsa_hash = λ h n. (inr none, n);
  authenticate_publickey = λ h user key hash n. (inr false, n);
  load_secret_key = λ path pass n. (inl [], n);
  connect_agent = λ n. (inr tt, n);
  request_identities = λ n. (inr ((record { public_key = []; is_rsa = false }) ∷ []), n);
  authenticate_identity = λ h user i hash n. (inr true, n);
  interactive_start = λ h user n. (info_request (codes "otp") [] [] (λ answers. success), n);
}

abbrev cfg : SshConfig
cfg = record {
  host = codes "inner";
  port = 22;
  username = codes "me";
  auth = SshAuth.keyboard_interactive;
  jumps =
      (record { host = codes "jump"; port = 2222; username = codes "me"; auth = SshAuth.agent })
      ∷ [];
  keepalive = none;
}

two_sessions : (establish (world accept_once) cfg 0).value ≡ some (1 ∷ 2 ∷ [])
unfolding establish chain_of one_hop connect check_server_key authenticate_with agent_auth
    keyboard_interactive emit ask_credential
two_sessions = refl

refused : (establish (world reject) cfg 0).value ≡ none
unfolding establish chain_of one_hop connect check_server_key fail emit
refused = refl

establish_reports_example :
    let r = establish (world reject) cfg 0 in
    ((chain : List ℕ) × (r.value ≡ some chain)
      × (length chain ≡ suc (length cfg.jumps))
      × (disconnects r.acts ≡ 0))
    ⊎ ((r.value ≡ none)
        × (before : List _) × (message : Text) × (r.acts
            ≡ before ++ sends (disconnected (failed message)) ∷ [])
        × (disconnects before ≡ 0))
establish_reports_example = establish_reports (world reject) cfg 0

establish_verified_example :
    All (λ hop. AcceptedIn hop.host hop.port (establish (world accept_once) cfg 0).acts) (hops cfg)
establish_verified_example =
    establish_verified (world accept_once) (λ s. (codes "unknown key", refl)) cfg 0 (1 ∷ 2 ∷ [])
      two_sessions
