-- ===== src/Client/Stdin.antt =====
-- The standard input of the client program, which it reads by `fgets` with buffers of 256 bytes
-- only, as the list of what the calls give.
use thing.Prelude.{
  ℕ, zero, suc, ◌≡◌, ◌≢◌, refl, List, [], ◌∷◌, Bytes, Bool-cases, inl, inr, ◌==◌, if◌then◌else◌,
}

-- `fgets(buffer, room + 1, stdin)`: what it puts into the buffer, and what it leaves to read.
unfoldable pub fgets : ℕ → Bytes → Bytes × Bytes
fgets zero s = ([], s)
fgets (suc room) [] = ([], [])
fgets (suc room) (c ∷ s) =
    let (line, rest) = fgets room s in if c == b'\n' then (c ∷ [], s) else (c ∷ line, rest)

unfoldable pub onto_line : ℕ → List Bytes → List Bytes
onto_line c [] = (c ∷ []) ∷ []
onto_line c (l ∷ ls) = (c ∷ l) ∷ ls

-- The lines, the first with room for `suc room` bytes, the others for 255.
unfoldable pub lines_with : ℕ → Bytes → List Bytes
unfolding onto_line
lines_with room [] = []
lines_with zero (c ∷ s) = (c ∷ []) ∷ lines_with 254 s
lines_with (suc room) (c ∷ s) =
    let fresh = lines_with 254 s in
    let same_line = lines_with room s in
    if c == b'\n' then (c ∷ []) ∷ fresh else onto_line c same_line

unfoldable pub lines_of : Bytes → List Bytes
unfolding lines_with
lines_of = lines_with 254

onto_line-fgets :
    (room c : ℕ) (s : Bytes)
    → (s ≢ [] → lines_with room s ≡ (fgets (suc room) s).0 ∷ lines_of (fgets (suc room) s).1)
    → onto_line c (lines_with room s)
      ≡ (c ∷ (fgets (suc room) s).0) ∷ lines_of (fgets (suc room) s).1
unfolding lines_of lines_with onto_line fgets
onto_line-fgets room c [] h = refl
onto_line-fgets room c (d ∷ s) h = rw (h (λ e. cc))

lines_with-fgets :
    (room : ℕ) (s : Bytes)
    → s ≢ []
    → lines_with room s ≡ (fgets (suc room) s).0 ∷ lines_of (fgets (suc room) s).1
unfolding lines_with lines_of fgets
lines_with-fgets room [] ne = absurd (ne refl)
lines_with-fgets zero (c ∷ s) ne = elim (Bool-cases (c == b'\n')) [ inl e ↦ rw e | inr e ↦ rw e ]
lines_with-fgets (suc room) (c ∷ s) ne = elim (Bool-cases (c == b'\n')) [
  | inl e ↦ rw e
  | inr e ↦ rw e (onto_line-fgets room c s (lines_with-fgets room s))
]

-- The lines of an input that is not at its end are what `fgets` gives, and the lines of what it
-- leaves.
pub lines_of-fgets : (s : Bytes) → s ≢ [] → lines_of s ≡ (fgets 255 s).0 ∷ lines_of (fgets 255 s).1
lines_of-fgets s ne = unfold lines_of in lines_with-fgets 254 s ne
