-- ===== src/Scan.antt =====
-- `sscanf` with the formats of the program, rows of `%255s` and `%5s`.
pub mod Words
use thing.Prelude.{
  ℕ, zero, suc, Bool, ◌&&◌, ◌||◌, Option, none, some, List, [], ◌∷◌, Bytes, leb, ◌==◌,
  if◌then◌else◌,
}

-- `isspace` of the C locale.
unfoldable pub is_space : ℕ → Bool
is_space c = c == b' ' || (leb 9 c && leb c 13)

skip_space : Bytes → Bytes
skip_space [] = []
skip_space (c ∷ s) = let rest = skip_space s in if is_space c then rest else c ∷ s

-- The longest run of other bytes, of at most `width` bytes, and what stands behind it.
scan_word : ℕ → Bytes → Bytes
scan_word zero s = []
scan_word (suc width) [] = []
scan_word (suc width) (c ∷ s) = let rest = scan_word width s in if is_space c then [] else c ∷ rest

after_word : ℕ → Bytes → Bytes
after_word zero s = s
after_word (suc width) [] = []
after_word (suc width) (c ∷ s) = let rest = after_word width s in if is_space c then c ∷ s else rest

-- One conversion, on the text behind the white space; `more` makes the later ones. At the end of
-- the text it fails, and so do all later ones.
convert : ℕ → (Bytes → List Bytes) → Bytes → List Bytes
convert width more [] = []
convert width more (c ∷ s) = scan_word width (c ∷ s) ∷ more (after_word width (c ∷ s))

-- The fields that were assigned, one width for each `%s` of the format.
unfoldable pub sscanf : List ℕ → Bytes → List Bytes
unfolding skip_space scan_word after_word convert
sscanf [] s = []
sscanf (width ∷ widths) s = convert width (sscanf widths) (skip_space s)

-- The buffer of the `i`-th field, which holds `initial` unless the field was assigned.
unfoldable pub field : Bytes → List Bytes → ℕ → Bytes
field initial [] i = initial
field initial (w ∷ ws) zero = w
field initial (w ∷ ws) (suc i) = field initial ws i
