-- ===== src/Server/Registry/Delete.antt =====
-- DELETE_ACCOUNT takes a name out of the table of accounts.
use thing.Prelude.{
  ℕ, ◌≡◌, ◌≢◌, ◌<◌, sym, ap, ◌∙◌, true, false, none, some, [], ◌∷◌, Bytes, codes, length, arith,
  Bool-cases, inl, inr,
}
use thing.CString.{same}
use thing.CString.Laws.{same_iff}
use thing.Files.Laws.{IsTree, node_at_root}
use thing.Files.Resolve.{same_path_iff, same_path_refl}
use thing.Files.{FilePath, Node, directory, Tree, same_path, node_at, parent}
use thing.Server.Account.Delete.{is_under}
use thing.Server.Registry.Files.{
  account_dir, password_file, Represents, update_self, update_other, IsClear-change,
}
use thing.Server.Registry.{Registry, update}

-- A tree without what is at and below a path.
pub record Cut (d : FilePath) (t u : Tree) : Type 0 where
  pub outside : (q : FilePath) → is_under d q ≡ false → node_at q u ≡ node_at q t
  pub inside : (q : FilePath) → is_under d q ≡ true → node_at q u ≡ none

is_under_longer : (d q : FilePath) → length q < length d → is_under d q ≡ false
unfolding is_under
is_under_longer d [] h = elim (Bool-cases (same_path d [])) [
  | inl e ↦ absurd (omega (arith, ap {B = ℕ} length ((same_path_iff d []).0 e)))
  | inr e ↦ e
]
is_under_longer d (n ∷ q) h = elim (Bool-cases (same_path d (n ∷ q))) [
  | inl e ↦ absurd (omega (arith, ap {B = ℕ} length ((same_path_iff d (n ∷ q)).0 e)))
  | inr e ↦ rw e (is_under_longer d q (omega arith))
]

is_under_self : (d : FilePath) → is_under d d ≡ true
unfolding is_under
is_under_self [] = same_path_refl []
is_under_self (n ∷ d) = rw (same_path_refl (n ∷ d))

longer_path : (d q : FilePath) → length d < length q → same_path d q ≡ false
longer_path d q h = elim (Bool-cases (same_path d q)) [
  | inl e ↦ absurd (omega (arith, ap {B = ℕ} length ((same_path_iff d q).0 e)))
  | inr e ↦ e
]

Cut-IsTree : (d : FilePath) (t u : Tree) → d ≢ [] → Cut d t u → IsTree t → IsTree u
unfolding is_under
Cut-IsTree d t u ne c w = record { inside = home }
  where
    nothing : {n : Node} → none ≡ some n → ⊥
    nothing k = cc

    home : (q : FilePath) (n : Node) → node_at q u ≡ some n → node_at (parent q) u ≡ some directory
    home [] n e = node_at_root u
    home (m ∷ q) n e = elim (Bool-cases (is_under d (m ∷ q))) [
      | inl b ↦ absurd (nothing (sym (c.inside (m ∷ q) b) ∙ e))
      | inr b ↦
          let above : is_under d q ≡ false = ground arith in
          c.outside q above ∙ w.inside (m ∷ q) n (sym (c.outside (m ∷ q) b) ∙ e)
    ]

module _ (p : FilePath) (u : Bytes) where
  sym_path :
      (p : FilePath) (u v : Bytes)
      → same u v ≡ false
      → same_path (account_dir p u) (account_dir p v) ≡ false
  unfolding same_path
  sym_path p u v h = rw h

  -- The other accounts are beside the directory that is cut.
  pub aside_account :
      (v : Bytes) → same u v ≡ false → is_under (account_dir p u) (account_dir p v) ≡ false
  unfolding is_under
  aside_account v h =
      rw (sym_path p u v h) (is_under_longer (account_dir p u) (codes "accounts" ∷ p) (omega arith))

  pub aside_password :
      (v : Bytes) → same u v ≡ false → is_under (account_dir p u) (password_file p v) ≡ false
  unfolding is_under
  aside_password v h =
      rw (longer_path (account_dir p u) (password_file p v) (omega arith)) (aside_account v h)

module _ (p : FilePath) (u : Bytes) (t after : Tree) (c : Cut (account_dir p u) t after) where
  -- What is left is the table without the name.
  pub cut-Represents : (r : Registry) → Represents p t r → Represents p after (update r u none)
  cut-Represents r i = record {
    tree = Cut-IsTree (account_dir p u) t after (λ e. cc) c i.tree;
    clear =
        IsClear-change (codes "accounts" ∷ p) t after
          (λ q s l k. sym (c.outside q (is_under_longer (account_dir p u) q (omega arith))) ∙ k)
          i.clear;
    absent = λ v ok k. elim (Bool-cases (same u v)) [
      | inl own ↦ rw (← (same_iff u v).0 own) (c.inside (account_dir p u) itself)
      | inr other ↦
          c.outside (account_dir p v) (aside_account p u v other)
          ∙ i.absent v ok (sym (update_other r u none v other) ∙ k)
    ];
    home = λ v q ok k. elim (Bool-cases (same u v)) [
      | inl own ↦ absurd (removed v q own k)
      | inr other ↦
          c.outside (account_dir p v) (aside_account p u v other)
          ∙ i.home v q ok (sym (update_other r u none v other) ∙ k)
    ];
    holds = λ v q ok k. elim (Bool-cases (same u v)) [
      | inl own ↦ absurd (removed v q own k)
      | inr other ↦
          c.outside (password_file p v) (aside_password p u v other)
          ∙ i.holds v q ok (sym (update_other r u none v other) ∙ k)
    ];
    password = λ v q ok k. elim (Bool-cases (same u v)) [
      | inl own ↦ absurd (removed v q own k)
      | inr other ↦ i.password v q ok (sym (update_other r u none v other) ∙ k)
    ];
  }
    where
      itself : is_under (account_dir p u) (account_dir p u) ≡ true
      itself = is_under_self (account_dir p u)

      removed : (v q : Bytes) → same u v ≡ true → update r u none v ≡ some q → ⊥
      removed v q own k = let gone = rw (← (same_iff u v).0 own) at k in cc (update_self r u none)
