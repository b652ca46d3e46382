-- ===== src/Files/Resolve.antt =====
-- Where a path text leads.
use thing.Prelude.{
  ℕ, ◌≡◌, ◌≢◌, ◌↔◌, refl, ap, ◌∙◌, true, List, [], ◌∷◌, ◌++◌, Bytes, All, codes, arith, ◌==◌,
  Bool-cases, inl, inr,
}
use thing.CString.{is_empty}
use thing.CString.Laws.{same_iff}
use thing.Files.{FilePath, onto_first, components, enter, walk, resolve, same_path}

pub same_path_iff : (p q : FilePath) → (same_path p q ≡ true) ↔ (p ≡ q)
unfolding same_path
same_path_iff (m ∷ p) (n ∷ q) = ground (arith, same_path_iff p q, same_iff m n)
same_path_iff _ _ = ground arith

pub same_path_refl : (p : FilePath) → same_path p p ≡ true
same_path_refl p = (same_path_iff p p).1 refl

-- A name that stands for an entry of its directory.
pub record IsPlain (name : Bytes) : Type 0 where
  pub nonempty : name ≢ []
  pub no_slash : All (λ c. c ≢ b'/') name
  pub not_here : name ≢ codes "."
  pub not_up : name ≢ codes ".."

onto_first-append :
    (c : ℕ) (ws vs : List Bytes) → ws ≢ [] → onto_first c (ws ++ vs) ≡ onto_first c ws ++ vs
unfolding onto_first
onto_first-append c [] vs h = absurd (h refl)
onto_first-append c (w ∷ ws) vs h = refl

onto_first-ne : (c : ℕ) (ws : List Bytes) → onto_first c ws ≢ []
unfolding onto_first
onto_first-ne c [] e = cc
onto_first-ne c (w ∷ ws) e = cc

components-ne : (s : Bytes) → components s ≢ []
unfolding components
components-ne [] = λ e. cc
components-ne (c ∷ s) = elim (Bool-cases (c == b'/')) [
  | inl h ↦ rw h (λ e. cc)
  | inr h ↦ rw h (onto_first-ne c (components s))
]

components-append : (s r : Bytes) → components (s ++ b'/' ∷ r) ≡ components s ++ components r
unfolding components
components-append [] r = refl
components-append (c ∷ s) r = elim (Bool-cases (c == b'/')) [
  | inl h ↦ rw h (ap (◌∷◌ []) (components-append s r))
  | inr h ↦ rw h (
      ap (onto_first c) (components-append s r)
      ∙ onto_first-append c (components s) (components r) (components-ne s))
]

components-no_slash : (s : Bytes) → All (λ c. c ≢ b'/') s → components s ≡ s ∷ []
unfolding components
components-no_slash [] h = refl
components-no_slash (c ∷ s) (h, t) = ground (arith, components-no_slash s t)

walk-append : (p : FilePath) (ms ns : List Bytes) → walk p (ms ++ ns) ≡ walk (walk p ms) ns
unfolding walk
walk-append p [] ns = refl
walk-append p (m ∷ ms) ns = walk-append (enter p m) ms ns

pub enter-IsPlain : (p : FilePath) (n : Bytes) → IsPlain n → enter p n ≡ n ∷ p
unfolding enter
enter-IsPlain p [] h = absurd (h.nonempty refl)
enter-IsPlain p (c ∷ n) h =
    unfold is_empty in
    ground
      (arith, same_iff (c ∷ n) (codes "."), same_iff (c ∷ n) (codes ".."), h.not_here, h.not_up)

-- A plain name behind a slash leads to that entry of the directory in front of it.
pub resolve_entry : (s n : Bytes) → IsPlain n → resolve (s ++ b'/' ∷ n) ≡ n ∷ resolve s
unfolding resolve walk
resolve_entry s n h =
    rw (components-append s n, components-no_slash n h.no_slash)
      (walk-append [] (components s) (n ∷ []) ∙ enter-IsPlain (walk [] (components s)) n h)
