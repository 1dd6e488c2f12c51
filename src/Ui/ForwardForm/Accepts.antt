-- ===== src/Ui/ForwardForm/Accepts.antt =====
-- What the form of a port forward lets through.
use poly_term.Prelude.{
  ℕ, ◌<◌, ◌^◌, ◌≡◌, ◌≢◌, refl, ◌∙◌, sym, subst, zero, suc, ◌⊎◌, inl, inr, Option, none, some, [],
  arith, eqb, false,
}
use poly_term.Prelude.Text.{Text, codes, trim}
use poly_term.Prelude.Decimal.{parse}
use poly_term.Prelude.Decimal.Parse.{parse_lt}
use poly_term.Core.Forward.{ForwardKind, local, remote, dynamic, ForwardSpec}
use poly_term.Ui.Form.{ok, ◌>>=◌, ok_or, non_empty, ok_injective, >>=-ok, ok_or-ok}
use poly_term.Ui.ForwardForm.{ForwardForm, nonzero, parse_port, to_target, to_spec}

-- A TCP port.
abbrev pub IsPort : ℕ → Type 0
IsPort p = (0 < p) × (p < 2 ^ 16)

nonzero-IsPort :
    (field : Text) (o : Option ℕ) (p : ℕ)
    → ((n : ℕ) → o ≡ some n → n < 2 ^ 16)
    → nonzero field o ≡ ok p
    → IsPort p
unfolding nonzero
nonzero-IsPort field none p lt h = cc
nonzero-IsPort field (some zero) p lt h = cc
nonzero-IsPort field (some (suc n)) p lt h =
    let positive : eqb (suc n) 0 ≡ false = ground arith in
    let passes : nonzero field (some (suc n)) ≡ ok (suc n) = rw positive refl in
    subst IsPort (ok_injective (suc n) p (sym passes ∙ h)) (omega arith, lt (suc n) refl)

parse_port-IsPort : (s field : Text) (p : ℕ) → parse_port s field ≡ ok p → IsPort p
unfolding parse_port
parse_port-IsPort s field p h =
    nonzero-IsPort field (parse (2 ^ 16) (trim s)) p (λ n e. parse_lt (2 ^ 16) n (trim s) e) h

abbrev IsTarget : Text → ForwardKind → Text × ℕ → Type 0
IsTarget host kind t =
    ((kind ≡ dynamic) × (t.0 ≡ []) × (t.1 ≡ 0))
    ⊎ ((kind ≢ dynamic) × (some t.0 ≡ non_empty host) × IsPort t.1)

given_target :
    (host port : Text) (t : Text × ℕ)
    → (ok_or (non_empty host) (codes "Target host is required.") >>= λ h.
        parse_port port (codes "Target port") >>= λ p. ok (h, p))
      ≡ ok t
    → (some t.0 ≡ non_empty host) × IsPort t.1
given_target host port t h =
    let (a, e, rest) =
      >>=-ok (ok_or (non_empty host) (codes "Target host is required."))
        (λ a. parse_port port (codes "Target port") >>= λ p. ok (a, p)) t h in
    let (p, e', rest') = >>=-ok (parse_port port (codes "Target port")) (λ p. ok (a, p)) t rest in
    subst (λ (t : Text × ℕ). (some t.0 ≡ non_empty host) × IsPort t.1) (ok_injective (a, p) t rest')
      (ok_or-ok (non_empty host) _ a e, parse_port-IsPort port _ p e')

to_target-IsTarget :
    (host port : Text) (kind : ForwardKind) (t : Text × ℕ)
    → to_target host port kind ≡ ok t
    → IsTarget host kind t
unfolding to_target
to_target-IsTarget host port dynamic t h =
    subst (IsTarget host dynamic) (ok_injective ([], 0) t h) (inl (refl, refl, refl))
to_target-IsTarget host port local t h =
    let given = given_target host port t h in inr (λ e. cc, given.0, given.1)
to_target-IsTarget host port remote t h =
    let given = given_target host port t h in inr (λ e. cc, given.0, given.1)

-- A form that is accepted gives a forward of its kind that listens on a port from 1 to 65535 and, unless it is a
-- SOCKS forward, which has no target of its own, names a host that is not blank and a port in that range.
pub to_spec-accepts :
    (form : ForwardForm) (spec : ForwardSpec)
    → to_spec form ≡ ok spec
    → (spec.kind ≡ form.kind)
      × IsPort spec.bind_port
      × (((form.kind ≡ dynamic) × (spec.target_host ≡ []) × (spec.target_port ≡ 0))
          ⊎ ((form.kind ≢ dynamic)
              × (some spec.target_host ≡ non_empty form.target_host)
              × IsPort spec.target_port))
unfolding to_spec
to_spec-accepts form spec h =
    let (p, e, rest) = >>=-ok (parse_port form.bind_port (codes "Listen port")) _ spec h in
    let (t, e', rest') =
      >>=-ok (to_target form.target_host form.target_port form.kind) _ spec rest in
    let same = ok_injective _ spec rest' in
    subst
      (λ (s : ForwardSpec).
        (s.kind ≡ form.kind)
        × IsPort s.bind_port
        × IsTarget form.target_host form.kind (s.target_host, s.target_port))
      same
      (
        refl,
        parse_port-IsPort form.bind_port _ p e,
        to_target-IsTarget form.target_host form.target_port form.kind t e',
      )
