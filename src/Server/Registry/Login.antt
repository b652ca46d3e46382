-- ===== src/Server/Registry/Login.antt =====
-- LOGIN looks the name up in the table of accounts.
use thing.Prelude.{
  ◌≡◌, ◌≤◌, ◌<◌, refl, sym, ap, ◌∙◌, Bool, true, false, Option, none, some, ◌∷◌, Bytes, codes,
  length, take, Bool-cases, Option-cases, inl, inr, if◌then◌else◌,
}
use thing.CString.{same}
use thing.Database.Success.{path_text, resolve-path_text}
use thing.Files.Writes.{IsObliging, access_iff, open_read_iff, read_file}
use thing.Files.{FilePath, Tree, Os, resolve, node_at, is_there, access, open_read, read}
use thing.Server.Account.Login.{dir_of, file_of}
use thing.Server.Account.RoundTrip.{stored_password, resolve-dir_of, resolve-file_of}
use thing.Server.Account.{rejects_username, login_user, check_password, logged_in}
use thing.Server.Registry.Files.{account_dir, password_file, Represents}
use thing.Server.Registry.{Registry, admit}
use thing.Server.Types.{Session, login_success, password_incorrect}

if-pair :
    {A B : Type 0} (b : Bool) (x y : A) (v w : B)
    → (if◌then◌else◌ {A = A × B} b (x, v) (y, w)).0 ≡ (if b then x else y)
if-pair true x y v w = refl
if-pair false x y v w = refl

-- The session that follows on an answer is the one the table promises.
pub admit-logged_in :
    (u pw : Bytes) (o : Option Bytes) (s : Session)
    → take 255 u ≡ u
    → logged_in (admit u pw o s).0 u s ≡ (admit u pw o s).1
unfolding admit logged_in
admit-logged_in u pw none s h = refl
admit-logged_in u pw (some q) s h = elim (Bool-cases (same pw q)) [
  | inl e ↦ rw (e, h)
  | inr e ↦ rw e
]

module _ (os : Os) (kind : IsObliging os) (p : FilePath) (short : length (path_text p) < 256)
    (u : Bytes) (name : length u ≤ 255) (accepted : rejects_username u ≡ false) (pw : Bytes)
    (t : Tree) (r : Registry) (i : Represents p t r) where
  dir_at : resolve (dir_of (path_text p) u) ≡ account_dir p u
  dir_at =
      resolve-dir_of os kind (path_text p) u short name accepted
      ∙ ap (λ q. u ∷ codes "accounts" ∷ q) (resolve-path_text p t i.clear.2)

  file_at : resolve (file_of (path_text p) u) ≡ password_file p u
  file_at = resolve-file_of os kind (path_text p) u short name ∙ ap (◌∷◌ (codes "password")) dir_at

  found : access os (dir_of (path_text p) u) t ≡ is_there (node_at (account_dir p u) t)
  found = access_iff os kind (dir_of (path_text p) u) t (λ k. cc (dir_at)) ∙ rw dir_at

  -- LOGIN of an accepted name answers as the table does.
  pub login_user-admit : (s : Session) → login_user os (path_text p) u pw t ≡ (admit u pw (r u) s).0
  unfolding login_user admit
  login_user-admit s = elim (Option-cases (r u)) [
    | inl e ↦
        let gone : access os (dir_of (path_text p) u) t ≡ false =
          found ∙ rw (i.absent u accepted e) (unfold is_there in refl) in
        rw (e, accepted, gone)
    | inr (q, e) ↦
        let known : access os (dir_of (path_text p) u) t ≡ true =
          found ∙ rw (i.home u q accepted e) (unfold is_there in refl) in
        let opens : open_read os (file_of (path_text p) u) t ≡ true =
          open_read_iff os kind (file_of (path_text p) u) t (λ k. cc (file_at))
          ∙ rw (file_at, i.holds u q accepted e) (unfold is_there in refl) in
        let reads : read os (file_of (path_text p) u) 255 t ≡ some (take 255 q) =
          read_file os kind (file_of (path_text p) u) 255 t q
            (rw file_at (i.holds u q accepted e)) in
        rw (e, accepted, known, opens, reads)
          (unfold check_password in
            rw (stored_password q (i.password u q accepted e))
              (sym (if-pair (same pw q) login_success password_incorrect _ _)))
  ]
