-- ===== src/Client/Address/Forms.antt =====
-- The addresses that `parse_address_and_port` takes, and what it makes of them.
use thing.Prelude.{
  ℕ, ◌≡◌, ◌≢◌, ◌↔◌, ◌⊎◌, inl, inr, refl, sym, ap, ◌∙◌, Bool, true, false, Option, none, some, [],
  ◌∷◌, ◌++◌, Bytes, All, arith, Bool-cases,
}
use thing.CString.{is_empty}
use thing.Format.{is_digit, atoi}
use thing.Client.Address.{
  is_host_byte, run_of, at_end, port_part, with_port, parse_address_and_port,
}

abbrev pub IsHost : Bytes → Type 0
IsHost h = (h ≢ []) × All (λ c. (c ≢ b':') × (c ≢ b'/')) h

abbrev pub IsPort : Bytes → Type 0
IsPort ds = (ds ≢ []) × All (λ c. is_digit c ≡ true) ds

abbrev pub IsEnd : Bytes → Type 0
IsEnd s = (s ≡ []) ⊎ (s ≡ b'/' ∷ [])

-- `url` names the host `h`, and `port` is its port, or the one that was there before.
pub data Names (h : Bytes) (before : ℕ) (url : Bytes) (port : ℕ) : Type 0 where
  alone : (e : Bytes) → IsEnd e → url ≡ h ++ e → port ≡ before → Names h before url port
  with_digits :
      (ds e : Bytes)
      → IsPort ds
      → IsEnd e
      → url ≡ h ++ (b':' ∷ (ds ++ e))
      → port ≡ atoi (ds ++ e)
      → Names h before url port

run_of-append :
    (p : ℕ → Bool) (s r : Bytes)
    → All (λ c. p c ≡ true) s
    → run_of p r ≡ ([], r)
    → run_of p (s ++ r) ≡ (s, r)
unfolding run_of
run_of-append p [] r h e = e
run_of-append p (c ∷ s) r (h, k) e = rw (h, run_of-append p s r k e)

run_of-split :
    (p : ℕ → Bool) (s : Bytes)
    → ((run_of p s).0 ++ (run_of p s).1 ≡ s) × All (λ c. p c ≡ true) (run_of p s).0
unfolding run_of
run_of-split p [] = (refl, tt)
run_of-split p (c ∷ s) = elim (Bool-cases (p c)) [
  | inl e ↦ rw e (ap (◌∷◌ c) (run_of-split p s).0, (e, (run_of-split p s).1))
  | inr e ↦ rw e (refl, tt)
]

host_bytes : (h : Bytes) → All (λ c. (c ≢ b':') × (c ≢ b'/')) h ↔ All (λ c. is_host_byte c ≡ true) h
unfolding is_host_byte
host_bytes [] = ((λ _. tt), (λ _. tt))
host_bytes (c ∷ h) =
    let (f, g) = host_bytes h in
    (
      (λ ((a, b), k). (ground arith, f k)),
      (λ (a, k). (((λ e. ground arith), (λ e. ground arith)), g k)),
    )

is_empty_iff : (s : Bytes) → (is_empty s ≡ false) ↔ (s ≢ [])
unfolding is_empty
is_empty_iff [] = ((λ h. cc), (λ h. absurd (h refl)))
is_empty_iff (c ∷ s) = ((λ h e. cc), (λ h. refl))

at_end_iff : (s : Bytes) → (at_end s ≡ true) ↔ IsEnd s
unfolding at_end
at_end_iff [] = ((λ h. inl refl), (λ h. refl))
at_end_iff (c ∷ []) =
    ((λ h. inr (ground arith)), (λ h. elim h [ inl e ↦ cc | inr e ↦ ground arith ]))
at_end_iff (c ∷ d ∷ s) = ((λ h. cc), (λ h. elim h [ inl e ↦ cc | inr e ↦ cc ]))

-- Neither a host nor digits go on at an end, nor a host at a colon.
end_stops : (p : ℕ → Bool) (e : Bytes) → p b'/' ≡ false → IsEnd e → run_of p e ≡ ([], e)
unfolding run_of
end_stops p e h (inl k) = rw k
end_stops p e h (inr k) = rw (k, h)

port_part-end : (e : Bytes) → IsEnd e → port_part e ≡ some none
unfolding port_part at_end
port_part-end e (inl k) = rw k
port_part-end e (inr k) = rw k

port_part-digits :
    (ds e : Bytes) → IsPort ds → IsEnd e → port_part (b':' ∷ (ds ++ e)) ≡ some (some (ds ++ e))
unfolding port_part
port_part-digits ds e (ne, d) k = rw (
  run_of-append is_digit ds e d (end_stops is_digit e (unfold is_digit in refl) k),
  (is_empty_iff ds).1 ne,
  (at_end_iff e).1 k,
)

-- What a text is, of which the pattern's end takes part.
record IsGroup (rest text : Bytes) : Type 0 where
  digits : Bytes
  behind : Bytes
  are_digits : IsPort digits
  is_end : IsEnd behind
  whole : rest ≡ b':' ∷ (digits ++ behind)
  read : text ≡ digits ++ behind

port_part-none : (rest : Bytes) → port_part rest ≡ some none → IsEnd rest
unfolding port_part
port_part-none [] h = inl refl
port_part-none (c ∷ s) h = (at_end_iff (c ∷ s)).0 (ground arith)

port_part-some : (rest text : Bytes) → port_part rest ≡ some (some text) → IsGroup rest text
unfolding port_part
port_part-some [] text h = cc
port_part-some (c ∷ s) text h =
    let (whole, digits) = run_of-split is_digit s in
    record {
      digits = (run_of is_digit s).0;
      behind = (run_of is_digit s).1;
      are_digits = ((is_empty_iff (run_of is_digit s).0).0 (ground arith), digits);
      is_end = (at_end_iff (run_of is_digit s).1).0 (ground arith);
      whole = let colon : c ≡ b':' = ground arith in rw whole (ap (λ (x : ℕ). x ∷ s) colon);
      read = let got : text ≡ s = ground arith in got ∙ sym whole;
    }

nothing_found : {A : Type 0} {a : A} → none ≡ some a → ⊥
nothing_found k = cc

-- What the three results of the pattern's end lead to.
with_port_inv :
    (before port : ℕ) (host h : Bytes) (o : Option (Option Bytes))
    → with_port before host o ≡ (some h, port)
    → (host ≡ h)
      × (((o ≡ some none) × (port ≡ before))
          ⊎ ((text : Bytes) × (o ≡ some (some text)) × (port ≡ atoi text)))
unfolding with_port
with_port_inv before port host h none e =
    absurd (nothing_found (ap (λ (r : Option Bytes × ℕ). r.0) e))
with_port_inv before port host h (some none) e = (cc, inl (refl, cc))
with_port_inv before port host h (some (some text)) e = (cc, inr (text, refl, cc))

named :
    (url host rest h : Bytes) (before port : ℕ)
    → host ++ rest ≡ url
    → with_port before host (port_part rest) ≡ (some h, port)
    → (host ≡ h) × Names h before url port
named url host rest h before port split e =
    let (same, which) = with_port_inv before port host h (port_part rest) e in
    (
      same,
      elim which [
        | inl (n, k) ↦ alone rest (port_part-none rest n) (sym split ∙ rw same) k
        | inr (text, g, k) ↦
            let group = port_part-some rest text g in
            with_digits group.digits group.behind group.are_digits group.is_end
              (sym split ∙ rw (same, group.whole)) (k ∙ ap atoi group.read)
      ],
    )

parse_sound :
    (url h : Bytes) (before port : ℕ)
    → parse_address_and_port url before ≡ (some h, port)
    → IsHost h × Names h before url port
unfolding parse_address_and_port
parse_sound url h before port e =
    let (host, rest) = run_of is_host_byte url in
    let (split, all) = run_of-split is_host_byte url in
    elim (Bool-cases (is_empty host)) [
      | inl k ↦ absurd (no_host k)
      | inr k ↦
          let (same, names) = named url host rest h before port split (rw k at e) in
          (((λ n. (is_empty_iff host).0 k (same ∙ n)), (host_bytes h).1 (rw same at all)), names)
    ]
  where
    no_host : is_empty (run_of is_host_byte url).0 ≡ true → ⊥
    no_host k = nothing_found (ap (λ (r : Option Bytes × ℕ). r.0) (rw k at e))

run_of-host :
    (h r : Bytes)
    → IsHost h
    → run_of is_host_byte r ≡ ([], r)
    → run_of is_host_byte (h ++ r) ≡ (h, r)
run_of-host h r (ne, all) e = run_of-append is_host_byte h r ((host_bytes h).0 all) e

parse_host :
    (h r : Bytes) (before : ℕ)
    → IsHost h
    → run_of is_host_byte r ≡ ([], r)
    → parse_address_and_port (h ++ r) before ≡ with_port before h (port_part r)
unfolding parse_address_and_port
parse_host h r before k e = rw (run_of-host h r k e, (is_empty_iff h).1 k.0)

parse_complete :
    (url h : Bytes) (before port : ℕ)
    → IsHost h
    → Names h before url port
    → parse_address_and_port url before ≡ (some h, port)
parse_complete url h before port k (alone e end u p) =
    rw (u, p)
      (parse_host h e before k (end_stops is_host_byte e (unfold is_host_byte in refl) end)
        ∙ rw (port_part-end e end) (unfold with_port in refl))
parse_complete url h before port k (with_digits ds e d end u p) =
    rw (u, p)
      (parse_host h (b':' ∷ (ds ++ e)) before k (unfold run_of is_host_byte in refl)
        ∙ rw (port_part-digits ds e d end) (unfold with_port in refl))

-- `parse_address_and_port` gives a host exactly if the address is that host, a text that is not
-- empty and without `:` and `/`, behind which stand a colon and digits or not, and a slash or not;
-- the port is changed to what `atoi` makes of the digits, if there are any.
pub parse_address_iff :
    (url h : Bytes) (before port : ℕ)
    → (parse_address_and_port url before ≡ (some h, port)) ↔ (IsHost h × Names h before url port)
parse_address_iff url h before port =
    (parse_sound url h before port, (λ (k, n). parse_complete url h before port k n))
