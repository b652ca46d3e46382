-- ===== src/Client/Keeps.antt =====
-- What every handler of the client keeps: relations between the console before and after.
use thing.Prelude.{
  ℕ, ◌≡◌, refl, Bool, true, false, List, [], ◌∷◌, Bytes, Bool-cases, inl, inr, if◌then◌else◌,
}
use thing.Client.Console.{
  Shown, Connection, Result, ok, faulted, endless, M, Console, ◌>>=◌, return, show, prompt,
  prompt_on, ask, ask_on, ask_again, exchanged, stripped,
}

-- However the run ends, `R` relates the console before it to the one behind it.
abbrev pub Ends :
    {S A : Type 0} → (Console S → Console S → Type 0) → Console S → Result S A → Type 0
Ends R c (ok (a, d)) = R c d
Ends R c (faulted d) = R c d
Ends R c (endless d) = R c d

abbrev pub Keeps : {S A : Type 0} → (Console S → Console S → Type 0) → M S A → Type 0
Keeps R m = (c : Console _) → Ends R c (m c)

-- What a handler may do: show a message, take a line, and exchange a request that `Q` allows.
pub record IsStepwise {S : Type 0} (conn : Connection S) (Q : Bytes → Type 0)
    (R : Console S → Console S → Type 0) : Type 0 where
  pub refl_at : (c : Console S) → R c c
  pub trans : (c d e : Console S) → R c d → R d e → R c e
  pub shows : (c : Console S) (s : Shown) → R c (record c { shown = s ∷ c.shown })
  pub reads :
      (c : Console S) (line : Bytes) (rest : List Bytes)
      → c.input ≡ line ∷ rest
      → R c (record c { input = rest })
  pub exchanges :
      (c : Console S) (q : Bytes) (n : ℕ)
      → Q q
      → R c (record c { server = (conn.exchange q n c.server).1 })

module _ {S : Type 0} (conn : Connection S) (Q : Bytes → Type 0)
    (R : Console S → Console S → Type 0) (w : IsStepwise conn Q R) where
  Ends-trans : {A : Type 0} (c d : Console S) (r : Result S A) → R c d → Ends R d r → Ends R c r
  Ends-trans c d (ok (a, e)) h k = w.trans c d e h k
  Ends-trans c d (faulted e) h k = w.trans c d e h k
  Ends-trans c d (endless e) h k = w.trans c d e h k

  Ends-then :
      {A B : Type 0} (c : Console S) (r : Result S A) (f : A → M S B)
      → Ends R c r
      → ((a : A) → Keeps R (f a))
      → Ends R c (elim r as (λ x. Result S B) [
        | ok x ↦ f x.0 x.1
        | faulted d ↦ faulted d
        | endless d ↦ endless d
      ])
  Ends-then c (ok (a, d)) f h k = Ends-trans c d (f a d) h (k a d)
  Ends-then c (faulted d) f h k = h
  Ends-then c (endless d) f h k = h

  pub Keeps-bind :
      {A B : Type 0} (m : M S A) (f : A → M S B)
      → Keeps R m
      → ((a : A) → Keeps R (f a))
      → Keeps R (m >>= f)
  Keeps-bind m f h k c = Ends-then c (m c) f (h c) k

  pub Keeps-return : {A : Type 0} (a : A) → Keeps R (return {S = S} a)
  Keeps-return a c = w.refl_at c

  pub Keeps-show : (s : Shown) → Keeps R (show {S = S} s)
  unfolding show
  Keeps-show s c = w.shows c s

  prompt_on-Ends :
      (c : Console S) (lines : List Bytes) → c.input ≡ lines → Ends R c (prompt_on lines c)
  unfolding prompt_on
  prompt_on-Ends c [] e = w.refl_at c
  prompt_on-Ends c (line ∷ rest) e = w.reads c line rest e

  pub Keeps-prompt : Keeps R (prompt {S = S})
  unfolding prompt
  Keeps-prompt c = prompt_on-Ends c c.input refl

  module _ (valid : Bytes → Bool) (refusal : Shown) where
    ask_again-Ends :
        (lines : List Bytes) (c : Console S)
        → c.input ≡ lines
        → Ends R c (ask_again valid refusal lines c)
    unfolding ask_again
    ask_again-Ends [] c e = w.refl_at c
    ask_again-Ends (line ∷ rest) c e =
        let took : Console S = record c { input = rest } in
        let refused : Console S = record c { input = rest; shown = refusal ∷ c.shown } in
        let went : R c refused =
          w.trans c took refused (w.reads c line rest e) (w.shows took refusal) in
        elim (Bool-cases (valid (stripped line))) [
          | inl v ↦ rw v (w.reads c line rest e)
          | inr v ↦ rw v (
              Ends-trans c refused (ask_again valid refusal rest refused) went
                (ask_again-Ends rest refused refl))
        ]

    ask_on-Ends :
        (lines : List Bytes) (c : Console S)
        → c.input ≡ lines
        → Ends R c (ask_on valid refusal lines c)
    unfolding ask_on
    ask_on-Ends [] c e = w.refl_at c
    ask_on-Ends (line ∷ rest) c e = ask_again-Ends (line ∷ rest) c e

    pub Keeps-ask : Keeps R (ask {S = S} valid refusal)
    unfolding ask
    Keeps-ask c = ask_on-Ends c.input c refl

  pub Keeps-exchanged : (q : Bytes) (n : ℕ) → Q q → Keeps R (exchanged conn q n)
  unfolding exchanged
  Keeps-exchanged q n h c = w.exchanges c q n h

  pub Keeps-if :
      {A : Type 0} (b : Bool) (m n : M S A)
      → Keeps R m
      → Keeps R n
      → Keeps {A = A} R (if b then m else n)
  Keeps-if true m n h k = h
  Keeps-if false m n h k = k
