-- ===== src/Ssh/Establish/Accepted.antt =====
-- What it is for a hop's key to be accepted.
use poly_term.Prelude.{
  ℕ, Bool, true, false, ◌≡◌, refl, sym, Option, none, some, List, [], ◌∷◌, ◌++◌, ◌⊎◌, inl, inr,
  append_assoc,
}
use poly_term.Prelude.Text.{Text}
use poly_term.Core.Prompt.{
  Reply, TrustDecision, reject, accept_once, accept_and_remember, HostKeyPrompt,
}
use poly_term.Core.Transport.{host_key}
use poly_term.Ssh.Io.{Act, sends, hears, meets, OfferedKey, plain_key, certificate}
use poly_term.Ssh.Establish.{is_accepted, or_empty, describe_key, key_prompt}

-- The answer accepts the key.
abbrev pub Accepts : Option TrustDecision → Type 0
Accepts d = (d ≡ some accept_once) ⊎ (d ≡ some accept_and_remember)

abbrev pub bytes_or_none : Option (List ℕ) → List ℕ
bytes_or_none (some bytes) = bytes
bytes_or_none none = []

-- The prompt shows the key that the server presented: its algorithm, its fingerprint and its bytes.
abbrev pub ShownBy : HostKeyPrompt → OfferedKey → Type 0
ShownBy p (plain_key k) =
    (p.key_type ≡ k.algorithm) × (p.fingerprint ≡ k.sha256) × (p.public_key ≡ bytes_or_none k.bytes)
ShownBy p (certificate algorithm k bytes) =
    (p.key_type ≡ algorithm) × (p.fingerprint ≡ k.sha256) × (p.public_key ≡ bytes_or_none bytes)

-- The prompt is for that host, port and key.
abbrev pub AsksOf : Text → ℕ → OfferedKey → HostKeyPrompt → Type 0
AsksOf host port key p = (p.host ≡ host) × (p.port ≡ port) × ShownBy p key

-- The prompt was sent, and what was heard accepts it.
abbrev pub AskedIn : Text → ℕ → OfferedKey → List Act → Type 0
AskedIn host port key acts =
    (p : HostKeyPrompt) × (d : Option TrustDecision) × (acts
      ≡ sends (host_key p) ∷ hears p.reply d ∷ [])
    × Accepts d
    × AsksOf host port key p

-- A server presented its key, the next thing sent was a prompt for that host and port which shows that key, and the next
-- thing heard accepts it.
abbrev pub AcceptedIn : Text → ℕ → List Act → Type 0
AcceptedIn host port acts =
    (before after : List Act) × (key : OfferedKey) × (p : HostKeyPrompt) × (d : Option
      TrustDecision)
    × (acts ≡ before ++ meets key ∷ sends (host_key p) ∷ hears p.reply d ∷ after)
    × Accepts d
    × AsksOf host port key p

pub AcceptedIn-left :
    (host : Text) (port : ℕ) (before acts : List Act)
    → AcceptedIn host port acts
    → AcceptedIn host port (before ++ acts)
AcceptedIn-left host port before acts (pre, post, key, p, d, e, agreed, rest) = (
  before ++ pre,
  post,
  key,
  p,
  d,
  rw e (sym (append_assoc before pre (meets key ∷ sends (host_key p) ∷ hears p.reply d ∷ post))),
  agreed,
  rest,
)

pub AcceptedIn-right :
    (host : Text) (port : ℕ) (acts after : List Act)
    → AcceptedIn host port acts
    → AcceptedIn host port (acts ++ after)
AcceptedIn-right host port acts after (pre, post, key, p, d, e, agreed, rest) = (
  pre,
  post ++ after,
  key,
  p,
  d,
  rw e (append_assoc pre (meets key ∷ sends (host_key p) ∷ hears p.reply d ∷ post) after),
  agreed,
  rest,
)

abbrev pub IfSome : {A : Type 0} → (List Act → Type 0) → Option A → List Act → Type 0
IfSome P none acts = Unit
IfSome P (some a) acts = P acts

abbrev pub IfTrue : (List Act → Type 0) → Bool → List Act → Type 0
IfTrue P true acts = P acts
IfTrue P false acts = Unit

abbrev pub IfInr : {A : Type 0} → (List Act → Type 0) → Text ⊎ A → List Act → Type 0
IfInr P (inl e) acts = Unit
IfInr P (inr a) acts = P acts

is_accepted-Accepts : (d : Option TrustDecision) → is_accepted d ≡ true → Accepts d
is_accepted-Accepts (some accept_once) e = inl refl
is_accepted-Accepts (some accept_and_remember) e = inr refl
is_accepted-Accepts (some reject) e = cc
is_accepted-Accepts none e = cc

bytes-or_empty : (o : Option (List ℕ)) → or_empty o ≡ bytes_or_none o
bytes-or_empty (some bytes) = refl
bytes-or_empty none = refl

pub prompt-ShownBy :
    (host : Text) (port : ℕ) (key : OfferedKey) (reply : Reply)
    → ShownBy (key_prompt host port (describe_key key) reply) key
prompt-ShownBy host port (plain_key k) reply = (refl, refl, bytes-or_empty k.bytes)
prompt-ShownBy host port (certificate algorithm k bytes) reply = (refl, refl, bytes-or_empty bytes)

pub if_accepted :
    (host : Text) (port : ℕ) (key : OfferedKey) (p : HostKeyPrompt) (d : Option TrustDecision)
    (b : Bool)
    → is_accepted d ≡ b
    → AsksOf host port key p
    → IfTrue (AskedIn host port key) b (sends (host_key p) ∷ hears p.reply d ∷ [])
if_accepted host port key p d true e asks = (p, d, refl, is_accepted-Accepts d e, asks)
if_accepted host port key p d false e asks = tt
