-- ===== src/Ssh/Io/Yields.antt =====
-- Statements on an operation's value and what it did, whatever the outside does.
use poly_term.Prelude.{ℕ, ◌+◌, ◌≡◌, refl, List, [], ◌∷◌, ◌++◌, arith, ◌⊎◌, inl, inr}
use poly_term.Prelude.Text.{Text}
use poly_term.Core.Transport.{
  TransportEvent, connecting, host_key, credential, authenticated, connected, modem_status,
  disconnected, error, forward_status,
}
use poly_term.Ssh.Io.{Act, sends, hears, meets, Io, ◌>>=◌, ◌>>=?◌, or_error}

module _ {S : Type 0} where
  abbrev pub Yields : {A : Type 0} → (A → List Act → Type 0) → Io S A → Type 0
  Yields P m = (s : S) → P (m s).value (m s).acts

  pub >>=-Yields :
      {A B : Type 0} (P : A → List Act → Type 0) (Q : B → List Act → Type 0) (m : Io S A)
      (f : A → Io S B)
      → Yields P m
      → ((a : A) (acts : List Act) → P a acts → (s : S) → Q (f a s).value (acts ++ (f a s).acts))
      → Yields Q (m >>= f)
  >>=-Yields P Q m f hm hf s = hf (m s).value (m s).acts (hm s) (m s).state

-- How often the end of the connection was reported.
abbrev ends_by : TransportEvent → ℕ
ends_by (disconnected reason) = 1
ends_by connecting = 0
ends_by (host_key prompt) = 0
ends_by (credential prompt) = 0
ends_by authenticated = 0
ends_by connected = 0
ends_by (modem_status lines) = 0
ends_by (error message) = 0
ends_by (forward_status status) = 0

abbrev ends : Act → ℕ
ends (sends event) = ends_by event
ends (hears reply d) = 0
ends (meets key) = 0

abbrev pub disconnects : List Act → ℕ
disconnects [] = 0
disconnects (a ∷ acts) = ends a + disconnects acts

pub disconnects-append :
    (acts acts' : List Act) → disconnects (acts ++ acts') ≡ disconnects acts + disconnects acts'
disconnects-append [] acts' = omega arith
disconnects-append (a ∷ acts) acts' = omega (arith, disconnects-append acts acts')

-- It does not report an end.
abbrev pub Quiet : {S A : Type 0} → Io S A → Type 0
Quiet m = Yields (λ a acts. disconnects acts ≡ 0) m

module _ {S : Type 0} where
  pub >>=-Quiet :
      {A B : Type 0} (m : Io S A) (f : A → Io S B)
      → Quiet m
      → ((a : A) → Quiet (f a))
      → Quiet (m >>= f)
  >>=-Quiet m f hm hf s = omega (
    arith,
    disconnects-append (m s).acts (f (m s).value (m s).state).acts,
    hm s,
    hf (m s).value (m s).state,
  )

  or_error-Quiet :
      {A B : Type 0} (f : A → Io S (Text ⊎ B))
      → ((a : A) → Quiet (f a))
      → (r : Text ⊎ A) → Quiet (or_error f r)
  or_error-Quiet f hf (inl e) s = refl
  or_error-Quiet f hf (inr a) s = hf a s

  pub >>=?-Quiet :
      {A B : Type 0} (m : Io S (Text ⊎ A)) (f : A → Io S (Text ⊎ B))
      → Quiet m
      → ((a : A) → Quiet (f a))
      → Quiet (m >>=? f)
  >>=?-Quiet m f hm hf = >>=-Quiet m (or_error f) hm (or_error-Quiet f hf)
