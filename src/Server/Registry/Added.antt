-- ===== src/Server/Registry/Added.antt =====
-- A tree with one account more holds the table with one name more.
use thing.Prelude.{◌≡◌, sym, ap, ◌∙◌, false, none, some, ◌∷◌, Bytes, codes, Bool-cases, inl, inr}
use thing.CString.{same}
use thing.CString.Laws.{same_iff}
use thing.Database.Success.{IsClear}
use thing.Files.Laws.{IsTree}
use thing.Files.{FilePath, Node, directory, file, Tree, node_at}
use thing.Server.Account.RoundTrip.{IsPassword}
use thing.Server.Registry.Files.{account_dir, password_file, Represents, update_self, update_other}
use thing.Server.Registry.{Registry, update}

-- A tree, to which the account `u` with the password `pw` came.
pub record Adds (p : FilePath) (u pw : Bytes) (t after : Tree) : Type 0 where
  pub tree : IsTree after
  pub clear : IsClear (codes "accounts" ∷ p) after
  pub home : node_at (account_dir p u) after ≡ some directory
  pub holds : node_at (password_file p u) after ≡ some (file pw)
  pub keeps : (q : FilePath) (n : Node) → node_at q t ≡ some n → node_at q after ≡ some n
  pub beside :
      (v : Bytes) → same u v ≡ false → node_at (account_dir p v) after ≡ node_at (account_dir p v) t

pub Adds-Represents :
    (p : FilePath) (u pw : Bytes) (t after : Tree) (r : Registry)
    → Adds p u pw t after
    → IsPassword pw
    → Represents p t r
    → Represents p after (update r u (some pw))
Adds-Represents p u pw t after r a pass i = record {
  tree = a.tree;
  clear = a.clear;
  absent = λ v ok k. elim (Bool-cases (same u v)) [
    | inl own ↦ absurd (nothing (rw (← (same_iff u v).0 own) at k))
    | inr other ↦ a.beside v other ∙ i.absent v ok (sym (update_other r u (some pw) v other) ∙ k)
  ];
  home = λ v q ok k. elim (Bool-cases (same u v)) [
    | inl own ↦ rw (← (same_iff u v).0 own) a.home
    | inr other ↦
        a.keeps (account_dir p v) directory
          (i.home v q ok (sym (update_other r u (some pw) v other) ∙ k))
  ];
  holds = λ v q ok k. elim (Bool-cases (same u v)) [
    | inl own ↦ rw (← (same_iff u v).0 own) (
        a.holds
        ∙ ap (λ x. some (file x))
            (same_text (sym (update_self r u (some pw)) ∙ rw (← (same_iff u v).0 own) at k)))
    | inr other ↦
        a.keeps (password_file p v) (file q)
          (i.holds v q ok (sym (update_other r u (some pw) v other) ∙ k))
  ];
  password = λ v q ok k. elim (Bool-cases (same u v)) [
    | inl own ↦
        rw (← same_text (sym (update_self r u (some pw)) ∙ rw (← (same_iff u v).0 own) at k)) pass
    | inr other ↦ i.password v q ok (sym (update_other r u (some pw) v other) ∙ k)
  ];
}
  where
    nothing : update r u (some pw) u ≡ none → ⊥
    nothing k = cc (update_self r u (some pw))

    same_text : {a b : Bytes} → some a ≡ some b → a ≡ b
    same_text k = cc
