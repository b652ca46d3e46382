-- ===== src/Server/Account/Sessions.antt =====
-- Who is logged in after REGISTER, LOGIN, LOGOUT and DELETE_ACCOUNT.
use thing.Prelude.{
  ℕ, ◌≤◌, ◌≡◌, ◌≢◌, refl, Bool, true, false, Option, none, some, List, [], ◌∷◌, Bytes, length,
  take_all, arith, Bool-cases, inl, inr, zero, suc, if◌then◌else◌,
}
use thing.CString.{is_empty}
use thing.Scan.{sscanf, field}
use thing.Scan.Words.{Fits, sscanf-Fits}
use thing.Format.{is_valid_username}
use thing.Files.{Tree, Os}
use thing.Server.Types.{Session, no_session, Server, State, Reply, Outcome, login_success}
use thing.Server.Account.{
  credentials, rejects_username, login_user, logged_in, client_handle_register, client_handle_login,
  client_handle_logout, client_handle_delete_account, deleted, delete_command,
}

-- A session that is logged in has a name: 1 to 255 letters, digits and underscores.
pub record IsNamed (s : Session) : Type 0 where
  pub valid : s.authenticated ≡ true → is_valid_username s.username ≡ true
  pub nonempty : s.authenticated ≡ true → s.username ≢ []
  pub bounded : s.authenticated ≡ true → length s.username ≤ 255

pub IsNamed-no_session : IsNamed no_session
IsNamed-no_session = record { valid = λ h. cc; nonempty = λ h. cc; bounded = λ h. cc }

pub IsNamed-closed : (s : Session) → s.authenticated ≡ false → IsNamed s
IsNamed-closed s e = record { valid = λ h. cc; nonempty = λ h. cc; bounded = λ h. cc }

pub accepted_name :
    (u : Bytes) → rejects_username u ≡ false → (is_valid_username u ≡ true) × (u ≢ [])
unfolding rejects_username is_empty
accepted_name [] h = cc
accepted_name (c ∷ u) h = (ground arith, λ e. cc)

-- LOGIN succeeds only for a name that REGISTER would accept.
login_name :
    (os : Os) (datadir u p : Bytes) (t : Tree)
    → login_user os datadir u p t ≡ login_success
    → rejects_username u ≡ false
unfolding login_user
login_name os datadir u p t = elim (Bool-cases (rejects_username u)) [
  | inl e ↦ rw e (λ h. cc)
  | inr e ↦ λ h. e
]

-- The buffers hold at most 255 bytes.
field-Fits : (ws : List Bytes) (i : ℕ) → Fits (255 ∷ 255 ∷ []) ws → length (field [] ws i) ≤ 255
unfolding field
field-Fits [] i h = omega arith
field-Fits (v ∷ ws) zero h = h.1
field-Fits (v ∷ []) (suc i) h = omega arith
field-Fits (v ∷ w ∷ ws) (suc zero) h = h.2.1
field-Fits (v ∷ w ∷ []) (suc (suc i)) h = omega arith
field-Fits (v ∷ w ∷ x ∷ ws) (suc (suc i)) h = absurd h.2.2

pub credentials_bounded :
    (args : Bytes) → (length (credentials args).0 ≤ 255) × (length (credentials args).1 ≤ 255)
unfolding credentials
credentials_bounded args =
    let fits = sscanf-Fits (255 ∷ 255 ∷ []) args (omega arith) in
    (
      field-Fits (sscanf (255 ∷ 255 ∷ []) args) 0 fits,
      field-Fits (sscanf (255 ∷ 255 ∷ []) args) 1 fits,
    )

pub logged_in-IsNamed :
    (r : Reply) (u : Bytes) (s : Session)
    → length u ≤ 255
    → (r ≡ login_success → rejects_username u ≡ false)
    → IsNamed s
    → IsNamed (logged_in r u s)
unfolding logged_in
logged_in-IsNamed login_success u s l ok n =
    let name = accepted_name u (ok refl) in
    rw (take_all 255 u l) (record { valid = λ h. name.0; nonempty = λ h. name.1; bounded = λ h. l })
logged_in-IsNamed _ u s l ok n = n

IsNamed-if :
    (b : Bool) (x y : Outcome × State)
    → IsNamed x.1.session
    → IsNamed y.1.session
    → IsNamed (if b then x else y).1.session
IsNamed-if true x y h k = h
IsNamed-if false x y h k = k

module _ (srv : Server) where
  pub register-IsNamed :
      (args : Option Bytes) (st : State)
      → IsNamed st.session
      → IsNamed (client_handle_register srv args st).1.session
  unfolding client_handle_register
  register-IsNamed none st n = n
  register-IsNamed (some a) st n = n

  pub login-IsNamed :
      (args : Option Bytes) (st : State)
      → IsNamed st.session
      → IsNamed (client_handle_login srv args st).1.session
  unfolding client_handle_login
  login-IsNamed none st n = n
  login-IsNamed (some a) st n =
      let (u, p) = credentials a in
      logged_in-IsNamed (login_user srv.os srv.datadir u p st.tree) u st.session
        (credentials_bounded a).0 (login_name srv.os srv.datadir u p st.tree) n

  pub logout-IsNamed :
      (args : Option Bytes) (st : State) → IsNamed (client_handle_logout srv args st).1.session
  unfolding client_handle_logout
  logout-IsNamed args st = record { valid = λ h. cc; nonempty = λ h. cc; bounded = λ h. cc }

  deleted-IsNamed :
      (r : Bool × Tree) (st : State) → IsNamed st.session → IsNamed (deleted r st).1.session
  unfolding deleted
  deleted-IsNamed (true, t) st n = IsNamed-no_session
  deleted-IsNamed (false, t) st n = n

  pub delete_account-IsNamed :
      (args : Option Bytes) (st : State)
      → IsNamed st.session
      → IsNamed (client_handle_delete_account srv args st).1.session
  unfolding client_handle_delete_account
  delete_account-IsNamed args st n =
      IsNamed-if _ _ _ n
        (deleted-IsNamed (srv.os.system (delete_command srv st.session) st.tree) st n)
