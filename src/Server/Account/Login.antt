-- ===== src/Server/Account/Login.antt =====
-- When LOGIN succeeds.
use thing.Prelude.{◌≡◌, ◌↔◌, refl, sym, true, false, Option, none, some, Bytes, arith}
use thing.CString.{cstr, snprintf}
use thing.CString.Laws.{same_iff}
use thing.Files.{Tree, Os, access, open_read, read}
use thing.Server.Types.{login_success}
use thing.Server.Account.{
  account_path, password_path, rejects_username, chomp, check_password, login_user,
}

-- The account directory and the password file of a user.
abbrev pub dir_of : Bytes → Bytes → Bytes
dir_of datadir u = snprintf 768 (account_path datadir u)

abbrev pub file_of : Bytes → Bytes → Bytes
file_of datadir u = snprintf 1024 (password_path (dir_of datadir u))

-- What LOGIN finds on disk: an account with a readable password file of this content.
pub record Stored (os : Os) (datadir u p : Bytes) (t : Tree) : Type 0 where
  pub known : access os (dir_of datadir u) t ≡ true
  pub opens : open_read os (file_of datadir u) t ≡ true
  pub bytes : Bytes
  pub reads : read os (file_of datadir u) 255 t ≡ some bytes
  pub matches : cstr (chomp bytes) ≡ p

check_password_iff :
    (p : Bytes) (o : Option Bytes)
    → (check_password p o ≡ login_success)
      ↔ ((bytes : Bytes) × (o ≡ some bytes) × (cstr (chomp bytes) ≡ p))
unfolding check_password
check_password_iff p none = ((λ h. cc), (λ (bytes, e, m). cc))
check_password_iff p (some bytes) = (
  (λ h. (bytes, refl, sym ((same_iff p (cstr (chomp bytes))).0 (ground arith)))),
  (λ (b, e, m). ground (arith, same_iff p (cstr (chomp bytes)))),
)

module _ (os : Os) (datadir u p : Bytes) (t : Tree) where
  -- `login_user` succeeds exactly if the name is not empty and valid, its directory can be reached
  -- and its password file opened and read, and the first 255 bytes of the file, less a newline at
  -- their end and up to the first NUL, are the given password.
  pub login_user_iff :
      (login_user os datadir u p t ≡ login_success)
      ↔ ((rejects_username u ≡ false) × Stored os datadir u p t)
  unfolding login_user
  login_user_iff = (
    (λ h.
        let good : rejects_username u ≡ false = ground arith in
        let known : access os (dir_of datadir u) t ≡ true = ground arith in
        let opens : open_read os (file_of datadir u) t ≡ true = ground arith in
        let (bytes, e, m) =
          (check_password_iff p (read os (file_of datadir u) 255 t)).0 (ground arith) in
        (good, record { known = known; opens = opens; bytes = bytes; reads = e; matches = m })),
    (λ (good, s). ground (
      arith,
      s.known,
      s.opens,
      (check_password_iff p (read os (file_of datadir u) 255 t)).1 (s.bytes, s.reads, s.matches),
    )),
  )
