-- ===== src/K8s/Ports.antt =====
-- Ports written and read (frontend/public/module/k8s/probe.js).
use web_ui.Base.{
  ℕ, ◌≡◌, refl, ap, ◌∙◌, true, false, none, some, [], ◌∷◌, null, if◌then◌else◌, ◌==◌, arith, All,
}
use web_ui.Base.Text.{Text, is_space}
use web_ui.Base.Decimal.{is_digit, IsDigit, show, value, value-show, All-show, null-show}
use web_ui.Selector.Scan.{skip_run}
use web_ui.K8s.Probe.{number, front_digits, unsigned, signed, parse_int, or_named, port_of}

front_digits-All : (s : Text) → All IsDigit s → front_digits s ≡ s
unfolding front_digits
front_digits-All [] h = refl
front_digits-All (c ∷ s) (d, h) = rw d (ap (c ∷◌) (front_digits-All s h))

digit-space : (c : ℕ) → is_digit c ≡ true → is_space c ≡ false
unfolding is_space
digit-space c h = ground arith

digit-sign : (c : ℕ) → is_digit c ≡ true → ((c == b'-') ≡ false) × ((c == b'+') ≡ false)
digit-sign c h = (ground arith, ground arith)

signed-digits : (c : ℕ) (s : Text) → All IsDigit (c ∷ s) → signed (c ∷ s) ≡ unsigned number (c ∷ s)
unfolding signed
signed-digits c s (d, h) = rw (digit-sign c d).0 (rw (digit-sign c d).1 refl)

unsigned-digits :
    (c : ℕ) (s : Text)
    → All IsDigit (c ∷ s)
    → unsigned number (c ∷ s) ≡ some (number (value (c ∷ s)))
unfolding unsigned
unsigned-digits c s h =
    ap (λ t. if null t then none else some (number (value t))) (front_digits-All (c ∷ s) h)

skip_run-digits : (c : ℕ) (s : Text) → is_digit c ≡ true → skip_run is_space (c ∷ s) ≡ c ∷ s
unfolding skip_run
skip_run-digits c s d = rw (digit-space c d) refl

port_of_digits :
    (s : Text)
    → All IsDigit s
    → null s ≡ false
    → (value s == 0) ≡ false
    → port_of s ≡ number (value s)
unfolding port_of parse_int or_named
port_of_digits [] h k z = cc
port_of_digits (c ∷ s) h k z =
    ap (λ t. or_named (c ∷ s) (signed t)) (skip_run-digits c s h.0)
    ∙ ap (or_named (c ∷ s)) (signed-digits c s h ∙ unsigned-digits c s h)
    ∙ rw z refl

-- A positive number's decimal text is read as the port with this number.
pub port_of-show : (n : ℕ) → (n == 0) ≡ false → port_of (show n) ≡ number n
port_of-show n z =
    port_of_digits (show n) (All-show n) (null-show n) (ap (λ v. v == 0) (value-show n) ∙ z)
    ∙ ap number (value-show n)
