-- ===== src/Server/Connection/Faults.antt =====
-- The texts at which the process does what C leaves undefined.
use thing.Prelude.{
  ℕ, ◌≡◌, ◌≢◌, ◌≤◌, ◌↔◌, ◌⊎◌, inl, inr, refl, sym, ap, ◌∙◌, true, Option, none, some, Bytes, codes,
  All, arith, Bool-cases, ltb, length,
}
use thing.CString.{cstr, same}
use thing.CString.Laws.{same_iff}
use thing.Files.{Tree}
use thing.Server.Types.{Server, Reply, replied, faulted}
use thing.Server.Peer.{SubjectName, server_as_server_handle_set_trustline}
use thing.Server.Dispatch.{server_as_server_dispatch_command}
use thing.Server.Dispatch.Tables.{server_dispatch_trustline, server_dispatch_other}
use thing.Server.Connection.Split.{joined, joined-split_command, split_command_alone}
use thing.Server.Connection.{split_command, handle_server_connection}

no_fault : {r : Reply} → replied r ≡ faulted → ⊥
no_fault h = cc

too_long : (r q : Bytes) → ltb (length r) 256 ≡ true → r ≡ q → 256 ≤ length q → ⊥
too_long r q e k long = ground (arith, ap {B = ℕ} length k)

some_inj : {a b : Bytes} → some a ≡ some b → a ≡ b
some_inj h = cc

joined_alone : (r : Bytes × Option Bytes) (w : Bytes) → r.0 ≡ w → r.1 ≡ none → joined r ≡ w
joined_alone (x, none) w a b = a
joined_alone (x, some y) w a b = cc

-- A text that is split into a command and no arguments is that command.
pub split_alone_iff :
    (s w : Bytes)
    → All (λ c. c ≢ b' ') w
    → (((split_command s).0 ≡ w) × ((split_command s).1 ≡ none)) ↔ (s ≡ w)
split_alone_iff s w h = (
  (λ (a, b). sym (joined-split_command s) ∙ joined_alone (split_command s) w a b),
  (λ e. rw (e, split_command_alone w h) (refl, refl)),
)

module _ (srv : Server) (subject : Option SubjectName) where
  -- What a received text of another server must be for the thread to fault.
  abbrev pub FaultsAt : Bytes → Type 0
  FaultsAt received = (256 ≤ length received) ⊎ (cstr received ≡ codes "SET_TRUSTLINE")

  trustline_faults_iff :
      (args : Option Bytes) (t : Tree)
      → ((server_as_server_handle_set_trustline srv subject args t).0 ≡ faulted) ↔ (args ≡ none)
  unfolding server_as_server_handle_set_trustline
  trustline_faults_iff none t = ((λ h. refl), (λ h. refl))
  trustline_faults_iff (some a) t = ((λ h. cc), (λ h. cc))

  dispatch_faults_iff :
      (command : Bytes) (args : Option Bytes) (t : Tree)
      → ((server_as_server_dispatch_command srv subject command args t).0 ≡ faulted)
        ↔ ((command ≡ codes "SET_TRUSTLINE") × (args ≡ none))
  dispatch_faults_iff command args t = elim (Bool-cases (same command (codes "SET_TRUSTLINE"))) [
    | inl e ↦
        let c : command ≡ codes "SET_TRUSTLINE" = (same_iff command (codes "SET_TRUSTLINE")).0 e in
        let run = server_dispatch_trustline srv subject args t in
        (
          (λ h. (c, (trustline_faults_iff args t).0 (rw (c, run) at h))),
          (λ (_, n). rw (c, run) ((trustline_faults_iff args t).1 n)),
        )
    | inr e ↦
        let ne : command ≢ codes "SET_TRUSTLINE" =
          λ k. cc (e, (same_iff command (codes "SET_TRUSTLINE")).1 k) in
        let other = server_dispatch_other srv subject command args t ne in
        ((λ h. absurd (no_fault (rw other at h))), (λ (c, n). absurd (ne c)))
  ]

  -- The thread for another server faults exactly if the read fails, if it fills the buffer of 256
  -- bytes, or if the text up to its first NUL is SET_TRUSTLINE with nothing behind it.
  pub server_connection_faults_iff :
      (received : Option Bytes) (t : Tree)
      → ((handle_server_connection srv subject received t).0 ≡ faulted)
        ↔ ((received ≡ none) ⊎ ((r : Bytes) × (received ≡ some r) × FaultsAt r))
  unfolding handle_server_connection
  server_connection_faults_iff none t = ((λ h. inl refl), (λ h. refl))
  server_connection_faults_iff (some r) t = elim (Bool-cases (ltb (length r) 256)) [
    | inl e ↦
        let (command, arguments) = split_command (cstr r) in
        let iff = dispatch_faults_iff command arguments t in
        let alone = split_alone_iff (cstr r) (codes "SET_TRUSTLINE") (omega arith) in
        (
          (λ h. inr (r, refl, inr (alone.0 (iff.0 (rw e at h))))),
          (λ w. elim w [ inl n ↦ cc | inr (q, k, f) ↦ rw e (iff.1 (alone.1 (text_of r q e k f))) ]),
        )
    | inr e ↦ ((λ h. inr (r, refl, inl (ground arith))), (λ w. rw e))
  ]
    where
      text_of :
          (r q : Bytes)
          → ltb (length r) 256 ≡ true
          → some r ≡ some q
          → FaultsAt q
          → cstr r ≡ codes "SET_TRUSTLINE"
      text_of r q e k (inl long) = absurd (too_long r q e (some_inj k) long)
      text_of r q e k (inr c) = ap cstr (some_inj k) ∙ c
