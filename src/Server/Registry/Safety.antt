-- ===== src/Server/Registry/Safety.antt =====
-- Who does not know a password does not touch the account.
use thing.Prelude.{
  ◌≡◌, ◌≢◌, ◌≤◌, ap, ◌∙◌, true, false, Option, none, some, List, [], ◌∷◌, Bytes, All, length,
  Bool-cases, Option-cases, inl, inr,
}
use mathlib.Core.List.{map}
use thing.CString.{same, is_empty}
use thing.CString.Laws.{same_iff, same_refl}
use thing.Files.{FilePath, Tree, file, node_at}
use thing.Server.Account.{rejects_username, login_user}
use thing.Server.Connection.{handle_client_connection}
use thing.Server.Registry
use thing.Server.Registry.Connection.{connection_refines}
use thing.Server.Registry.Files.{Represents, Works, password_file, update_other}
use thing.Server.Registry.Login.{login_user-admit}
use thing.Server.Registry.{
  Registry, Request, Service, update, enroll, admit, request, requests, meaning,
}
use thing.Server.Types.{Server, Session, no_session, login_success}

module _ (u q : Bytes) where
  -- The account is there, and the session is not its owner's.
  pub record IsGuarded (v : Service) : Type 0 where
    pub there : v.registry u ≡ some q
    pub foreign : v.session.authenticated ≡ true → v.session.username ≢ u

  enroll_guarded : (w p : Bytes) (r : Registry) → r u ≡ some q → (enroll w p (r w) r).1 u ≡ some q
  unfolding enroll
  enroll_guarded w p r e = elim (Option-cases (r w)) [
    | inl k ↦ rw k (elim (Bool-cases (same w u)) [
      | inl own ↦ absurd (taken k (rw (← (same_iff w u).0 own) at e))
      | inr other ↦ update_other r w (some p) u other ∙ e
    ])
    | inr (x, k) ↦ rw k e
  ]
    where
      taken : r w ≡ none → r w ≡ some q → ⊥
      taken k e = cc

  admit_guarded :
      (w p : Bytes) (r : Registry) (s : Session)
      → Registry.login w p ≢ Registry.login u q
      → r u ≡ some q
      → (s.authenticated ≡ true → s.username ≢ u)
      → (admit w p (r w) s).1.authenticated ≡ true
      → (admit w p (r w) s).1.username ≢ u
  unfolding admit
  admit_guarded w p r s ne e foreign = elim (Option-cases (r w)) [
    | inl k ↦ rw k foreign
    | inr (x, k) ↦ rw k (elim (Bool-cases (same p x)) [
      | inl own ↦ rw own (λ h a. ne (pair a (right x own k a)))
      | inr other ↦ rw other foreign
    ])
  ]
    where
      pair : w ≡ u → p ≡ q → Registry.login w p ≡ Registry.login u q
      pair a b = cc

      right : (x : Bytes) → same p x ≡ true → r w ≡ some x → w ≡ u → p ≡ q
      right x own k a = let b : p ≡ x = (same_iff p x).0 own in cc

  step-IsGuarded :
      (x : Request) (v : Service) → x ≢ Registry.login u q → IsGuarded v → IsGuarded (request x v).1
  unfolding request
  step-IsGuarded (Registry.register w p) v ne g = elim (Bool-cases (rejects_username w)) [
    | inl e ↦ rw e g
    | inr e ↦ rw e (record { there = enroll_guarded w p v.registry g.there; foreign = g.foreign })
  ]
  step-IsGuarded (Registry.login w p) v ne g = elim (Bool-cases (rejects_username w)) [
    | inl e ↦ rw e g
    | inr e ↦ rw e (record {
      there = g.there;
      foreign = admit_guarded w p v.registry v.session ne g.there g.foreign;
    })
  ]
  step-IsGuarded Registry.logout v ne g = record { there = g.there; foreign = λ h. cc }
  step-IsGuarded Registry.delete_account v ne g = elim (Bool-cases v.session.authenticated) [
    | inl e ↦ rw e (record {
      there = update_other v.registry v.session.username none u (apart e) ∙ g.there;
      foreign = λ h. cc;
    })
    | inr e ↦ simp e g
  ]
    where
      apart : v.session.authenticated ≡ true → same v.session.username u ≡ false
      apart e = elim (Bool-cases (same v.session.username u)) [
        | inl own ↦ absurd (g.foreign e ((same_iff v.session.username u).0 own))
        | inr other ↦ other
      ]
  step-IsGuarded Registry.malformed v ne g = g
  step-IsGuarded Registry.unknown v ne g = g

  -- No row of requests without the right LOGIN takes the account away or changes its password.
  pub requests-IsGuarded :
      (qs : List Request) (v : Service)
      → All (λ x. x ≢ Registry.login u q) qs
      → IsGuarded v
      → IsGuarded (requests qs v).1
  unfolding requests
  requests-IsGuarded [] v h g = g
  requests-IsGuarded (x ∷ qs) v (ne, h) g =
      requests-IsGuarded qs (request x v).1 h (step-IsGuarded x v ne g)

admit_right :
    (u q : Bytes) (o : Option Bytes) (s : Session) → o ≡ some q → (admit u q o s).0 ≡ login_success
unfolding admit
admit_right u q o s e = rw (e, same_refl q)

module _ (srv : Server) (p : FilePath) (works : Works srv.os srv.datadir p) where
  -- On a system that refuses nothing, writes all it is given and runs `rm -rf` as documented and
  -- without a failure on the directory of an account, with a data directory of plain names and less than 256 literal bytes whose
  -- files hold a table of accounts: a connection leaves in the file of an account that is in the
  -- table, of an accepted name of at most 255 bytes, the password that was there, and LOGIN with it
  -- succeeds behind the connection, if its reads are not empty, are requests about accounts or
  -- commands that are not of the protocol, and none of them is LOGIN with that name and that
  -- password. The client may register, log in to other accounts, delete them, and try other
  -- passwords.
  pub connection_guards :
      (u q : Bytes) (reads : List Bytes) (qs : List Request) (t : Tree) (r : Registry)
      → rejects_username u ≡ false
      → length u ≤ 255
      → r u ≡ some q
      → All (λ x. x ≢ Registry.login u q) qs
      → All (λ b. is_empty b ≡ false) reads
      → map meaning reads ≡ map some qs
      → Represents p t r
      → (node_at (password_file p u) (handle_client_connection srv true reads t).2.tree
          ≡ some (file q))
        × (login_user srv.os srv.datadir u q (handle_client_connection srv true reads t).2.tree
            ≡ login_success)
  connection_guards u q reads qs t r accepted name known others full e i =
      let v : Service = record { registry = r; session = no_session } in
      let served = connection_refines srv p works reads qs t r full e i in
      let safe : IsGuarded u q (requests qs v).1 =
        requests-IsGuarded u q qs v others (record { there = known; foreign = λ h. cc }) in
      let last : Tree = (handle_client_connection srv true reads t).2.tree in
      (
        served.files.holds u q accepted safe.there,
        ap (λ d. login_user srv.os d u q last) works.is
            ∙ login_user-admit srv.os works.kind p (rw (← works.is) works.short) u name accepted q
                last (requests qs v).1.registry served.files no_session
            ∙ admit_right u q ((requests qs v).1.registry u) no_session safe.there,
      )
