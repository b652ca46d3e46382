-- ===== src/Server/Peer/Certificate.antt =====
-- src/server/network.c: the name of a peer from the entries of its certificate, with the references
-- that are held on the way.
pub mod Names
use thing.Prelude.{
  ℕ, ◌+◌, ◌-◌, ◌≡◌, refl, ap, arith, Option, none, some, Bytes, codes, if◌then◌else◌, Bool-cases,
  inl, inr,
}
use thing.CString.{cstr}
use thing.Server.Peer
use thing.Server.Peer.{SubjectName, is_localhost}

-- A subject name, as the calls of OpenSSL give it: `X509_NAME_get_entry` and
-- `X509_NAME_ENTRY_get_data` at an index, each `none` for NULL, and the index of the common name
-- (`X509_NAME_get_index_by_NID`), `none` if it is negative.
pub record Subject : Type 0 where
  pub entry : ℕ → Option (Option Bytes)
  pub common_name_index : Option ℕ

-- `X509_get_subject_name` of a certificate, `none` for NULL. It points into the certificate.
pub record Certificate : Type 0 where
  pub subject_name : Option Subject

-- The references to the certificate that `SSL_get_peer_certificate` gave and that are not given back
-- by `X509_free`, and how often `X509_NAME_free` was called on the name inside it.
pub record Held : Type 0 where
  pub references : ℕ
  pub frees : ℕ

abbrev pub nothing_held : Held
nothing_held = record { references = 0; frees = 0 }

-- `X509_NAME_free(subject_name)` in front of a `return`.
unfoldable pub freed : Option Bytes → Held → Option Bytes × Held
freed result h = (result, record h { frees = h.frees + 1 })

unfoldable pub subject_of : Option Subject → Held → Option Subject × Held
subject_of none h = (none, record h { references = h.references - 1 })
subject_of (some s) h = (some s, h)

unfoldable pub get_peer_subject_name : Option Certificate → Held → Option Subject × Held
get_peer_subject_name none h = (none, h)
get_peer_subject_name (some c) h =
    subject_of c.subject_name (record h { references = h.references + 1 })

-- The data of an entry as a C string: what is in front of its first NUL.
unfoldable pub entry_text : Option (Option Bytes) → Option Bytes
entry_text none = none
entry_text (some none) = none
entry_text (some (some bytes)) = some (cstr bytes)

unfoldable pub get_peer_ip : Subject → Option Bytes
get_peer_ip s = entry_text (s.entry 0)

unfoldable pub name_text : Subject → Option ℕ → Option Bytes
name_text s none = none
name_text s (some i) = entry_text (s.entry i)

unfoldable pub get_peer_certificate_common_name : Subject → Option Bytes
get_peer_certificate_common_name s = name_text s s.common_name_index

-- A copy of the name is taken to succeed.
unfoldable pub checked_ip : Subject → Option Bytes → Held → Option Bytes × Held
checked_ip s none h = freed none h
checked_ip s (some peer_ip) h =
    if is_localhost peer_ip
    then freed (some (codes "localhost")) h
    else freed (get_peer_certificate_common_name s) h

unfoldable pub checked_subject : Option Subject × Held → Option Bytes × Held
checked_subject (none, h) = (none, h)
checked_subject (some s, h) = checked_ip s (get_peer_ip s) h

unfoldable pub get_domain_name : Option Certificate → Held → Option Bytes × Held
get_domain_name peer h = checked_subject (get_peer_subject_name peer h)

-- What the requests of other servers see of a certificate.
abbrev pub seen_name : Option Subject → Option SubjectName
seen_name none = none
seen_name (some s) =
    some (record { first_entry = get_peer_ip s; common_name = get_peer_certificate_common_name s })

abbrev pub seen : Option Certificate → Option SubjectName
seen none = none
seen (some c) = seen_name c.subject_name

-- What is held behind a call: nothing more without a subject name; with one, a reference to the
-- certificate that nothing gives back, and a name that was freed although the certificate owns it.
abbrev pub held_with : Option Subject → Held → Held
held_with none h = h
held_with (some s) h = record h { references = h.references + 1; frees = h.frees + 1 }

abbrev pub held_behind : Option Certificate → Held → Held
held_behind none h = h
held_behind (some c) h = held_with c.subject_name h

-- The handlers, which see a subject name only, take the name that the details give.
pub domain_name_held :
    (peer : Option Certificate) (h : Held)
    → get_domain_name peer h ≡ (Peer.get_domain_name (seen peer), held_behind peer h)
unfolding get_domain_name get_peer_subject_name checked_subject Peer.get_domain_name
domain_name_held none h = refl
domain_name_held (some c) h = named_held c.subject_name
  where
    with_ip :
        (s : Subject) (ip : Option Bytes) (k : Held)
        → checked_ip s ip k ≡ (
          Peer.with_peer_ip (get_peer_certificate_common_name s) ip,
          record k { frees = k.frees + 1 },
        )
    with_ip s none k = unfold checked_ip freed Peer.with_peer_ip in refl
    with_ip s (some ip) k = elim (Bool-cases (is_localhost ip)) [
      | inl e ↦ unfold checked_ip freed Peer.with_peer_ip Peer.named in rw e refl
      | inr e ↦ unfold checked_ip freed Peer.with_peer_ip Peer.named in rw e refl
    ]

    named_held :
        (s : Option Subject)
        → checked_subject (subject_of s (record h { references = h.references + 1 }))
          ≡ (Peer.get_domain_name (seen_name s), held_with s h)
    named_held none =
        unfold subject_of in
        ap (λ n. (none, record { references = n; frees = h.frees })) (omega arith)
    named_held (some s) =
        unfold subject_of in with_ip s (get_peer_ip s) (record h { references = h.references + 1 })
