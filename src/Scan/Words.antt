-- ===== src/Scan/Words.antt =====
-- What the fields of `sscanf` are: words of the text that fit their buffers.
use thing.Prelude.{
  ℕ, zero, suc, ◌≤◌, ◌<◌, ◌≡◌, ◌≢◌, refl, ap, ◌∙◌, true, false, List, [], ◌∷◌, ◌++◌, Bytes, All,
  length, arith, Bool-cases, inl, inr, append-nil,
}
use thing.Scan.{is_space, skip_space, scan_word, after_word, convert, sscanf, field}

-- A word has no white space, and is not empty.
pub record IsWord (w : Bytes) : Type 0 where
  pub no_space : All (λ c. is_space c ≡ false) w
  pub nonempty : w ≢ []

-- Each field is a word that fits its width.
abbrev pub Fits : List ℕ → List Bytes → Type 0
Fits widths [] = Unit
Fits [] (w ∷ ws) = ⊥
Fits (n ∷ ns) (w ∷ ws) = IsWord w × (length w ≤ n) × Fits ns ws

sscanf-cons :
    (n : ℕ) (ns : List ℕ) (s : Bytes) → sscanf (n ∷ ns) s ≡ convert n (sscanf ns) (skip_space s)
unfolding sscanf
sscanf-cons n ns s = refl

module _ (P : ℕ → Type 0) where
  skip_space-All : (s : Bytes) → All P s → All P (skip_space s)
  unfolding skip_space
  skip_space-All [] h = tt
  skip_space-All (c ∷ s) (h, t) = elim (Bool-cases (is_space c)) [
    | inl e ↦ rw e (skip_space-All s t)
    | inr e ↦ rw e (h, t)
  ]

  scan_word-All : (n : ℕ) (s : Bytes) → All P s → All P (scan_word n s)
  unfolding scan_word
  scan_word-All zero s h = tt
  scan_word-All (suc n) [] h = tt
  scan_word-All (suc n) (c ∷ s) (h, t) = elim (Bool-cases (is_space c)) [
    | inl e ↦ rw e tt
    | inr e ↦ rw e (h, scan_word-All n s t)
  ]

  after_word-All : (n : ℕ) (s : Bytes) → All P s → All P (after_word n s)
  unfolding after_word
  after_word-All zero s h = h
  after_word-All (suc n) [] h = tt
  after_word-All (suc n) (c ∷ s) (h, t) = elim (Bool-cases (is_space c)) [
    | inl e ↦ rw e (h, t)
    | inr e ↦ rw e (after_word-All n s t)
  ]

  convert-All :
      (n : ℕ) (more : Bytes → List Bytes) (s : Bytes)
      → ((t : Bytes) → All P t → All (All P) (more t))
      → All P s
      → All (All P) (convert n more s)
  unfolding convert
  convert-All n more [] k h = tt
  convert-All n more (c ∷ s) k h =
      (scan_word-All n (c ∷ s) h, k (after_word n (c ∷ s)) (after_word-All n (c ∷ s) h))

  -- The bytes of the fields are bytes of the text.
  pub sscanf-All : (ns : List ℕ) (s : Bytes) → All P s → All (All P) (sscanf ns s)
  sscanf-All [] s h = unfold sscanf in tt
  sscanf-All (n ∷ ns) s h =
      rw (sscanf-cons n ns s)
        (convert-All n (sscanf ns) (skip_space s) (sscanf-All ns) (skip_space-All s h))

  pub field-All :
      (w : Bytes) (ws : List Bytes) (i : ℕ) → All P w → All (All P) ws → All P (field w ws i)
  unfolding field
  field-All w [] i h k = h
  field-All w (x ∷ ws) zero h k = k.0
  field-All w (x ∷ ws) (suc i) h k = field-All w ws i h k.1

-- The first byte behind the white space is none.
StartsWord : Bytes → Type 0
StartsWord [] = Unit
StartsWord (c ∷ s) = is_space c ≡ false

skip_space-StartsWord : (s : Bytes) → StartsWord (skip_space s)
unfolding skip_space StartsWord
skip_space-StartsWord [] = tt
skip_space-StartsWord (c ∷ s) = elim (Bool-cases (is_space c)) [
  | inl e ↦ rw e (skip_space-StartsWord s)
  | inr e ↦ rw e e
]

scan_word-no_space : (n : ℕ) (s : Bytes) → All (λ c. is_space c ≡ false) (scan_word n s)
unfolding scan_word
scan_word-no_space zero s = tt
scan_word-no_space (suc n) [] = tt
scan_word-no_space (suc n) (c ∷ s) = elim (Bool-cases (is_space c)) [
  | inl e ↦ rw e tt
  | inr e ↦ rw e (e, scan_word-no_space n s)
]

length-scan_word-le : (n : ℕ) (s : Bytes) → length (scan_word n s) ≤ n
unfolding scan_word
length-scan_word-le zero s = omega arith
length-scan_word-le (suc n) [] = omega arith
length-scan_word-le (suc n) (c ∷ s) = ground (arith, length-scan_word-le n s)

scan_word-ne : (n c : ℕ) (s : Bytes) → 0 < n → is_space c ≡ false → scan_word n (c ∷ s) ≢ []
unfolding scan_word
scan_word-ne zero c s h e = absurd (omega arith)
scan_word-ne (suc n) c s h e = rw e (λ k. cc)

convert-Fits :
    (n : ℕ) (ns : List ℕ) (more : Bytes → List Bytes) (s : Bytes)
    → 0 < n
    → StartsWord s
    → ((t : Bytes) → Fits ns (more t))
    → Fits (n ∷ ns) (convert n more s)
unfolding convert StartsWord
convert-Fits n ns more [] h e k = tt
convert-Fits n ns more (c ∷ s) h e k = (
  record { no_space = scan_word-no_space n (c ∷ s); nonempty = scan_word-ne n c s h e },
  length-scan_word-le n (c ∷ s),
  k (after_word n (c ∷ s)),
)

-- If no width is 0, every field that `sscanf` assigns is a word that fits the width of its
-- conversion, and there are at most as many fields as conversions.
pub sscanf-Fits : (ns : List ℕ) (s : Bytes) → All (λ n. 0 < n) ns → Fits ns (sscanf ns s)
sscanf-Fits [] s h = unfold sscanf in tt
sscanf-Fits (n ∷ ns) s (h, t) = rw (sscanf-cons n ns s) (
    convert-Fits n ns (sscanf ns) (skip_space s) h (skip_space-StartsWord s)
      (λ r. sscanf-Fits ns r t))

-- The text ends here, or goes on with white space.
abbrev Stops : Bytes → Type 0
Stops [] = Unit
Stops (c ∷ s) = is_space c ≡ true

scan_word-append :
    (n : ℕ) (w rest : Bytes)
    → All (λ c. is_space c ≡ false) w
    → length w ≤ n
    → Stops rest
    → (scan_word n (w ++ rest) ≡ w) × (after_word n (w ++ rest) ≡ rest)
unfolding scan_word after_word
scan_word-append zero [] rest h l e = (refl, refl)
scan_word-append (suc n) [] [] h l e = (refl, refl)
scan_word-append (suc n) [] (c ∷ rest) h l e = (rw e, rw e)
scan_word-append zero (c ∷ w) rest h l e = absurd (omega arith)
scan_word-append (suc n) (c ∷ w) rest (h, t) l e =
    let ih = scan_word-append n w rest t (omega arith) e in (rw h (ap (◌∷◌ c) ih.0), rw h ih.1)

skip_space-word : (w rest : Bytes) → IsWord w → skip_space (w ++ rest) ≡ w ++ rest
unfolding skip_space
skip_space-word [] rest h = absurd (h.nonempty refl)
skip_space-word (c ∷ w) rest h = rw (h.no_space.0)

convert-word :
    (n : ℕ) (more : Bytes → List Bytes) (w rest : Bytes)
    → IsWord w
    → length w ≤ n
    → Stops rest
    → convert n more (w ++ rest) ≡ w ∷ more rest
unfolding convert
convert-word n more [] rest h l e = absurd (h.nonempty refl)
convert-word n more (c ∷ w) rest h l e =
    let both = scan_word-append n (c ∷ w) rest h.no_space l e in cc (both.0, both.1)

-- A word in front of the end or of white space is the next field.
pub sscanf-word :
    (n : ℕ) (ns : List ℕ) (w rest : Bytes)
    → IsWord w
    → length w ≤ n
    → Stops rest
    → sscanf (n ∷ ns) (w ++ rest) ≡ w ∷ sscanf ns rest
sscanf-word n ns w rest h l e =
    sscanf-cons n ns (w ++ rest)
    ∙ ap (convert n (sscanf ns)) (skip_space-word w rest h)
    ∙ convert-word n (sscanf ns) w rest h l e

pub sscanf-space : (ns : List ℕ) (s : Bytes) → sscanf ns (b' ' ∷ s) ≡ sscanf ns s
unfolding sscanf is_space
sscanf-space [] s = refl
sscanf-space (n ∷ ns) s = refl

-- Words with a space in front of each but the first, as the program's formats print them.
abbrev pub unwords : List Bytes → Bytes
unwords [] = []
unwords (w ∷ []) = w
unwords (w ∷ v ∷ ws) = w ++ b' ' ∷ unwords (v ∷ ws)

-- Words that are printed with single spaces between them, as many as there are conversions and
-- none wider than its buffer, are scanned back.
pub sscanf-unwords :
    (ns : List ℕ) (ws : List Bytes)
    → length ws ≡ length ns
    → Fits ns ws
    → sscanf ns (unwords ws) ≡ ws
sscanf-unwords [] [] e f = unfold sscanf in refl
sscanf-unwords (n ∷ ns) [] e f = absurd (omega arith)
sscanf-unwords [] (w ∷ ws) e f = absurd f
sscanf-unwords (n ∷ []) (w ∷ []) e (h, l, f) =
    rw (← append-nil w) (sscanf-word n [] w [] h l tt ∙ unfold sscanf in rw append-nil)
sscanf-unwords (n ∷ m ∷ ns) (w ∷ []) e (h, l, f) = absurd (omega arith)
sscanf-unwords (n ∷ ns) (w ∷ v ∷ ws) e (h, l, f) =
    sscanf-word n ns w (b' ' ∷ unwords (v ∷ ws)) h l (unfold is_space in refl)
    ∙ ap (◌∷◌ w) (sscanf-space ns (unwords (v ∷ ws)) ∙ sscanf-unwords ns (v ∷ ws) (omega arith) f)

pub Fits-no_space :
    (ns : List ℕ) (ws : List Bytes) → Fits ns ws → All (All (λ c. is_space c ≡ false)) ws
Fits-no_space ns [] f = tt
Fits-no_space [] (w ∷ ws) f = absurd f
Fits-no_space (n ∷ ns) (w ∷ ws) (h, l, f) = (h.no_space, Fits-no_space ns ws f)

pub field-no_space :
    (ws : List Bytes) (i : ℕ)
    → All (All (λ c. is_space c ≡ false)) ws
    → All (λ c. is_space c ≡ false) (field [] ws i)
field-no_space ws i h = field-All (λ c. is_space c ≡ false) [] ws i tt h
