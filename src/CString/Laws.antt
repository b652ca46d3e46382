-- ===== src/CString/Laws.antt =====
-- Facts about the string functions.
use thing.Prelude.{
  ℕ, ◌<◌, ◌≡◌, ◌≢◌, ◌↔◌, refl, true, false, [], ◌∷◌, Bytes, All, length, take_all, length-take-le,
  arith, ◌==◌, Bool-cases, inl, inr,
}
use thing.CString.{before, cstr, same, is_empty, snprintf, IsCstr}

pub same_iff : (a b : Bytes) → (same a b ≡ true) ↔ (a ≡ b)
unfolding same
same_iff (x ∷ a) (y ∷ b) = ground (arith, same_iff a b)
same_iff _ _ = ground arith

pub same_refl : (a : Bytes) → same a a ≡ true
same_refl a = (same_iff a a).1 refl

pub before_ne : (c : ℕ) (s : Bytes) → All (λ x. x ≢ c) s → before c s ≡ s
unfolding before
before_ne c [] h = refl
before_ne c (x ∷ xs) (h, t) = ground (arith, before_ne c xs t)

pub before-All : (c : ℕ) (s : Bytes) → All (λ x. x ≢ c) (before c s)
unfolding before
before-All c [] = tt
before-All c (x ∷ xs) = elim (Bool-cases (x == c)) [
  | inl e ↦ rw e tt
  | inr e ↦ rw e (ground arith, before-All c xs)
]

pub cstr-IsCstr : (s : Bytes) → IsCstr s → cstr s ≡ s
unfolding cstr before
cstr-IsCstr [] h = refl
cstr-IsCstr (x ∷ xs) (h, t) = ground (arith, cstr-IsCstr xs t)

pub IsCstr-cstr : (s : Bytes) → IsCstr (cstr s)
unfolding cstr before
IsCstr-cstr [] = tt
IsCstr-cstr (x ∷ xs) = elim (Bool-cases (x == 0)) [
  | inl e ↦ rw e tt
  | inr e ↦ rw e (ground arith, IsCstr-cstr xs)
]

pub is_empty_ne : (s : Bytes) → is_empty s ≡ false → s ≢ []
unfolding is_empty
is_empty_ne [] h e = cc
is_empty_ne (x ∷ xs) h e = cc

-- Nothing is cut from a text that fits its buffer.
pub snprintf_fits : (size : ℕ) (s : Bytes) → length s < size → snprintf size s ≡ s
unfolding snprintf
snprintf_fits size s h = take_all _ s (omega arith)

pub length-snprintf-lt : (size : ℕ) (s : Bytes) → 0 < size → length (snprintf size s) < size
unfolding snprintf
length-snprintf-lt size s h = omega (arith, length-take-le {0} (Prim.Native.Nat.◌-◌ size 1) s)
