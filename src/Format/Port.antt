-- ===== src/Format/Port.antt =====
-- Which ports `isValidPort` accepts, against the decimal value of the text.
use thing.Prelude.{
  ℕ, ◌+◌, ◌-◌, ◌*◌, ◌^◌, ◌%◌, ◌≤◌, ◌<◌, ◌≡◌, ◌≢◌, ◌↔◌, ◌⊎◌, true, false, [], ◌∷◌, Bytes, All,
  length, arith, inl, inr, refl, ap, ◌∙◌,
}
use native.Mathlib.Nat.{pow-suc}
use thing.Scan.{is_space}
use thing.Format.{
  is_digit, is_number, skip_space, leading_digits, low_int, strtol, atoi, is_valid_port,
}

abbrev pub IsDigit : ℕ → Type 0
IsDigit c = (b'0' ≤ c) × (c ≤ b'9')

-- The number that a row of digits stands for.
unfoldable pub decimal : Bytes → ℕ
decimal [] = 0
decimal (c ∷ s) = (c - b'0') * 10 ^ length s + decimal s

pub is_number_iff : (s : Bytes) → (is_number s ≡ true) ↔ All IsDigit s
unfolding is_number
is_number_iff [] = ground arith
is_number_iff (c ∷ s) =
    let (f, g) = is_number_iff s in
    ((λ h. (ground arith, f (ground arith))), (λ (h, t). ground (arith, g t)))

leading_digits-decimal :
    (n : ℕ) (s : Bytes) → All IsDigit s → leading_digits n s ≡ n * 10 ^ length s + decimal s
unfolding leading_digits decimal
leading_digits-decimal n [] h = omega arith
leading_digits-decimal n (c ∷ s) (h, t) =
    let ih = leading_digits-decimal (n * 10 + (c - b'0')) s t in
    let digit : is_digit c ≡ true = unfold is_digit in ground arith in
    rw digit (ih ∙ rw pow-suc (omega arith))

leading_digits-zero : (s : Bytes) → All IsDigit s → leading_digits 0 s ≡ decimal s
leading_digits-zero s h = omega (arith, leading_digits-decimal 0 s h)

skip_space-digit : (c : ℕ) (s : Bytes) → IsDigit c → skip_space (c ∷ s) ≡ c ∷ s
unfolding skip_space is_space
skip_space-digit c s h = ground arith

strtol-digit :
    (c : ℕ) (s : Bytes) → IsDigit c → strtol (c ∷ s) ≡ low_int false (leading_digits 0 (c ∷ s))
unfolding strtol
strtol-digit c s h = ground arith

-- A row of digits is read to its end.
pub atoi-decimal :
    (c : ℕ) (s : Bytes) → All IsDigit (c ∷ s) → atoi (c ∷ s) ≡ low_int false (decimal (c ∷ s))
atoi-decimal c s h =
    unfold atoi in
    rw (skip_space-digit c s h.0) (strtol-digit c s h.0)
    ∙ ap (low_int false) (leading_digits-zero (c ∷ s) h)

low_int_small : (n : ℕ) → n < 2 ^ 63 → low_int false n ≡ n % 2 ^ 32
unfolding low_int
low_int_small n h = ground arith

-- The test behind `atoi`, at the value of the digits.
accepts-digits :
    (c : ℕ) (s : Bytes)
    → All IsDigit (c ∷ s)
    → decimal (c ∷ s) < 2 ^ 63
    → (is_valid_port (c ∷ s) ≡ true)
      ↔ ((0 < decimal (c ∷ s) % 2 ^ 32) × (decimal (c ∷ s) % 2 ^ 32 ≤ 65535))
unfolding is_valid_port
accepts-digits c s h small =
    let v = decimal (c ∷ s) in
    let e : atoi (c ∷ s) ≡ v % 2 ^ 32 = atoi-decimal c s h ∙ low_int_small v small in
    rw ((is_number_iff (c ∷ s)).1 h, e) (ground arith)

rejects-others : (c : ℕ) (s : Bytes) → is_valid_port (c ∷ s) ≡ true → All IsDigit (c ∷ s)
unfolding is_valid_port
rejects-others c s h = (is_number_iff (c ∷ s)).0 (ground arith)

-- A port text whose value is below 2^32 is accepted exactly if it is empty, or consists of digits
-- whose value is from 1 to 65535.
pub is_valid_port_iff :
    (s : Bytes)
    → decimal s < 2 ^ 32
    → (is_valid_port s ≡ true)
      ↔ ((s ≡ []) ⊎ (All IsDigit s × (1 ≤ decimal s) × (decimal s ≤ 65535)))
is_valid_port_iff [] h = ((λ _. inl refl), (λ _. unfold is_valid_port in refl))
is_valid_port_iff (c ∷ s) h = (
  (λ k.
      let ds = rejects-others c s k in
      let v = (accepts-digits c s ds (omega arith)).0 k in inr (ds, omega arith, omega arith)),
  (λ k. elim k [
    | inl e ↦ absurd (cc)
    | inr (ds, l, u) ↦ (accepts-digits c s ds (omega arith)).1 (omega arith, omega arith)
  ]),
)

-- A row of digits that is not empty, of a value below 2^63, is accepted exactly if the low 32 bits
-- of its value are from 1 to 65535: the range is tested after `atoi` has wrapped.
pub is_valid_port_wraps :
    (s : Bytes)
    → s ≢ []
    → All IsDigit s
    → decimal s < 2 ^ 63
    → (is_valid_port s ≡ true) ↔ ((1 ≤ decimal s % 2 ^ 32) × (decimal s % 2 ^ 32 ≤ 65535))
is_valid_port_wraps [] n ds h = absurd (n refl)
is_valid_port_wraps (c ∷ s) n ds h = accepts-digits c s ds h
