-- ===== src/Server/Peer/Certificate/Names.antt =====
-- src/server/network.c: which name a certificate gives a peer.
use thing.Prelude.{
  ℕ, ◌≡◌, ◌↔◌, ◌⊎◌, inl, inr, refl, sym, ap, ◌∙◌, ◌++◌, Option, none, some, [], ◌∷◌, Bytes, codes,
  true, false, Bool-cases, arith, ◌==◌,
}
use mathlib.Core.Path.{subst}
use mathlib.Core.Option.{some-injective}
use thing.CString.{cstr, before, IsCstr}
use thing.CString.Laws.{same_iff, cstr-IsCstr}
use thing.Server.Peer
use thing.Server.Peer.{is_localhost}
use thing.Server.Peer.Certificate.{
  Subject, Certificate, Held, get_domain_name, entry_text, get_peer_ip,
  get_peer_certificate_common_name, name_text, seen, seen_name, held_behind, domain_name_held,
}

-- What C reads of the bytes `b` at their start: all of them if none is NUL, else those in front of the
-- first NUL.
abbrev pub Reads : Bytes → Bytes → Type 0
Reads b t = IsCstr t × ((b ≡ t) ⊎ ((rest : Bytes) × (b ≡ t ++ (0 ∷ rest))))

-- The entry at an index has data, and they read `t`.
abbrev pub HasEntry : Subject → ℕ → Bytes → Type 0
HasEntry s i t = (b : Bytes) × (s.entry i ≡ some (some b)) × Reads b t

-- The address of this host.
abbrev pub IsLocal : Bytes → Type 0
IsLocal ip = (ip ≡ codes "127.0.0.1") ⊎ (ip ≡ codes "::1")

-- The entry at index 0 is an address; for this host the name is `localhost`, for another host it is the
-- common name.
abbrev pub GivesName : Subject → Bytes → Type 0
GivesName s d =
    (ip : Bytes) × HasEntry s 0 ip
    × ((IsLocal ip × (d ≡ codes "localhost"))
        ⊎ ((¬ (IsLocal ip)) × (i : ℕ) × (s.common_name_index ≡ some i) × HasEntry s i d))

abbrev pub NamesPeer : Option Certificate → Bytes → Type 0
NamesPeer peer d =
    (c : Certificate) × (s : Subject) × (peer ≡ some c) × (c.subject_name ≡ some s) × GivesName s d

Reads-cons : (x : ℕ) (xs t : Bytes) → (x == 0) ≡ false → Reads xs t → Reads (x ∷ xs) (x ∷ t)
Reads-cons x xs t e (r, inl e2) = ((ground arith, r), inl (ap (λ l. x ∷ l) e2))
Reads-cons x xs t e (r, inr (rest, cut)) = ((ground arith, r), inr (rest, ap (λ l. x ∷ l) cut))

Reads-cstr : (b : Bytes) → Reads b (cstr b)
unfolding cstr before
Reads-cstr [] = (tt, inl refl)
Reads-cstr (x ∷ xs) = elim (Bool-cases (x == 0)) [
  | inl e ↦ rw e (tt, inr (xs, ap (λ n. n ∷ xs) (ground arith)))
  | inr e ↦ rw e (Reads-cons x xs (before 0 xs) e (Reads-cstr xs))
]

cstr-cut : (t rest : Bytes) → IsCstr t → cstr (t ++ (0 ∷ rest)) ≡ t
unfolding cstr before
cstr-cut [] rest h = refl
cstr-cut (x ∷ t) rest (h, k) = ground (arith, cstr-cut t rest k)

cstr-Reads : (b t : Bytes) → Reads b t → cstr b ≡ t
cstr-Reads b t (h, inl e) = rw e (cstr-IsCstr t h)
cstr-Reads b t (h, inr (rest, e)) = rw e (cstr-cut t rest h)

entry_text-HasEntry :
    (s : Subject) (i : ℕ) (t : Bytes) (d : Option (Option Bytes))
    → s.entry i ≡ d
    → entry_text d ≡ some t
    → HasEntry s i t
unfolding entry_text
entry_text-HasEntry s i t none e h = cc
entry_text-HasEntry s i t (some none) e h = cc
entry_text-HasEntry s i t (some (some b)) e h =
    (b, e, subst (Reads b) (some-injective _ _ h) (Reads-cstr b))

entry_text_iff :
    (s : Subject) (i : ℕ) (t : Bytes) → (entry_text (s.entry i) ≡ some t) ↔ HasEntry s i t
unfolding entry_text
entry_text_iff s i t =
    (entry_text-HasEntry s i t (s.entry i) refl, λ (b, e, r). rw e (ap some (cstr-Reads b t r)))

is_localhost_iff : (ip : Bytes) → (is_localhost ip ≡ true) ↔ IsLocal ip
unfolding is_localhost
is_localhost_iff ip = grind (arith, same_iff ip (codes "127.0.0.1"), same_iff ip (codes "::1"))

name_text-HasEntry :
    (s : Subject) (t : Bytes) (o : Option ℕ)
    → s.common_name_index ≡ o
    → name_text s o ≡ some t
    → (i : ℕ) × (s.common_name_index ≡ some i) × HasEntry s i t
unfolding name_text
name_text-HasEntry s t none e h = cc
name_text-HasEntry s t (some i) e h = (i, e, (entry_text_iff s i t).0 h)

common_name_iff :
    (s : Subject) (t : Bytes)
    → (get_peer_certificate_common_name s ≡ some t)
      ↔ ((i : ℕ) × (s.common_name_index ≡ some i) × HasEntry s i t)
unfolding get_peer_certificate_common_name name_text
common_name_iff s t = (
  name_text-HasEntry s t s.common_name_index refl,
  λ (i, e, h). ap (name_text s) e ∙ (entry_text_iff s i t).1 h,
)

with_peer_ip-GivesName :
    (s : Subject) (d : Bytes) (ip : Option Bytes)
    → get_peer_ip s ≡ ip
    → Peer.with_peer_ip (get_peer_certificate_common_name s) ip ≡ some d
    → GivesName s d
unfolding get_peer_ip Peer.with_peer_ip Peer.named
with_peer_ip-GivesName s d none e h = cc
with_peer_ip-GivesName s d (some ip) e h = (
  ip,
  (entry_text_iff s 0 ip).0 e,
  elim (Bool-cases (is_localhost ip)) [
    | inl l ↦ inl ((is_localhost_iff ip).0 l, ground (arith, l, h))
    | inr l ↦
        let (i, index, named) = (common_name_iff s d).0 (ground (arith, l, h)) in
        inr (λ k. cc ((is_localhost_iff ip).1 k, l), i, index, named)
  ],
)

GivesName-with_peer_ip :
    (s : Subject) (d : Bytes)
    → GivesName s d
    → Peer.with_peer_ip (get_peer_certificate_common_name s) (get_peer_ip s) ≡ some d
unfolding get_peer_ip Peer.with_peer_ip Peer.named
GivesName-with_peer_ip s d (ip, first, inl (l, e)) =
    rw ((entry_text_iff s 0 ip).1 first, (is_localhost_iff ip).1 l, e) refl
GivesName-with_peer_ip s d (ip, first, inr (away, i, index, named)) =
    elim (Bool-cases (is_localhost ip)) [
      | inl l ↦ absurd (away ((is_localhost_iff ip).0 l))
      | inr l ↦ rw ((entry_text_iff s 0 ip).1 first, l) ((common_name_iff s d).1 (i, index, named))
    ]

get_domain_name-NamesPeer :
    (c : Certificate) (d : Bytes) (o : Option Subject)
    → c.subject_name ≡ o
    → Peer.get_domain_name (seen_name o) ≡ some d
    → NamesPeer (some c) d
unfolding Peer.get_domain_name
get_domain_name-NamesPeer c d none e h = cc
get_domain_name-NamesPeer c d (some s) e h =
    (c, s, refl, e, with_peer_ip-GivesName s d (get_peer_ip s) refl h)

GivesName-get_domain_name :
    (c : Certificate) (d : Bytes) (s : Subject) (o : Option Subject)
    → o ≡ some s
    → GivesName s d
    → Peer.get_domain_name (seen_name o) ≡ some d
unfolding Peer.get_domain_name
GivesName-get_domain_name c d s none e h = cc
GivesName-get_domain_name c d s (some t) e h =
    GivesName-with_peer_ip t d (subst (λ u. GivesName u d) (sym (some-injective _ _ e)) h)

get_domain_name_iff :
    (peer : Option Certificate) (d : Bytes)
    → (Peer.get_domain_name (seen peer) ≡ some d) ↔ NamesPeer peer d
unfolding Peer.get_domain_name
get_domain_name_iff none d = (λ h. cc, λ (c, s, e, _, _). cc)
get_domain_name_iff (some c) d = (
  get_domain_name-NamesPeer c d c.subject_name refl,
  λ (c', s, e, subject, h).
      GivesName-get_domain_name c d s c.subject_name
        (ap Certificate.subject_name (some-injective _ _ e) ∙ subject) h,
)

-- A peer gets the name `d` exactly if its certificate has a subject name whose entry at index 0 has
-- data, which C reads up to their first NUL, and either they are `127.0.0.1` or `::1` and `d` is
-- `localhost`, or they are neither and the entry at the index of the common name has data that read
-- `d`. Whatever the answer, if there is a subject name, then one more reference to the certificate is
-- held for good, and the name, which the certificate owns, was freed once more; without a subject name
-- both are as before.
pub domain_name_iff :
    (peer : Option Certificate) (h : Held) (d : Bytes)
    → (((get_domain_name peer h).0 ≡ some d) ↔ NamesPeer peer d)
      × ((get_domain_name peer h).1 ≡ held_behind peer h)
domain_name_iff peer h d = rw (domain_name_held peer h) (get_domain_name_iff peer d, refl)
