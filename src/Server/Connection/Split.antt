-- ===== src/Server/Connection/Split.antt =====
-- How a received text is taken apart.
use thing.Prelude.{
  ℕ, ◌≡◌, ◌≢◌, refl, sym, Option, none, some, [], ◌∷◌, ◌++◌, Bytes, All, arith, ap, ◌∙◌, Bool-cases,
  inl, inr, ◌==◌, ==_iff,
}
use thing.Server.Connection.{split_command}

-- A command without a space, and the arguments after one space, are taken apart again by
-- `split_command`.
pub split_command-join :
    (command args : Bytes)
    → All (λ c. c ≢ b' ') command
    → split_command (command ++ b' ' ∷ args) ≡ (command, some args)
unfolding split_command
split_command-join [] args h = refl
split_command-join (c ∷ command) args (h, t) = ground (arith, split_command-join command args t)

-- A text without a space is a command without arguments.
pub split_command_alone :
    (command : Bytes) → All (λ c. c ≢ b' ') command → split_command command ≡ (command, none)
unfolding split_command
split_command_alone [] h = refl
split_command_alone (c ∷ command) (h, t) = ground (arith, split_command_alone command t)

-- Putting the parts together again gives the text.
abbrev pub joined : Bytes × Option Bytes → Bytes
joined (command, none) = command
joined (command, some args) = command ++ b' ' ∷ args

joined-cons : (c : ℕ) (r : Bytes × Option Bytes) → joined (c ∷ r.0, r.1) ≡ c ∷ joined r
joined-cons c (command, none) = refl
joined-cons c (command, some args) = refl

pub joined-split_command : (s : Bytes) → joined (split_command s) ≡ s
unfolding split_command
joined-split_command [] = refl
joined-split_command (c ∷ s) = elim (Bool-cases (c == b' ')) [
  | inl e ↦ rw e (ap (λ x. x ∷ s) (sym ((==_iff c b' ').0 e)))
  | inr e ↦ rw e (joined-cons c (split_command s) ∙ ap (◌∷◌ c) (joined-split_command s))
]
