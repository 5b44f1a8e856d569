-- ===== src/Dns/Echo.antt =====
-- The response carries the question of the query.
use Prim.Native.Nat.{◌%◌, ◌/◌}
use mathlib.Core.List.{append-nil}
use mathlib.Core.Path.{subst}
use taint_forge_io_t.Dns.Packet.{
  DnsQuery, NameRead, build_dns_empty_response, header, parse_dns_query, question_of, read_name,
  read_tail, u16, with_label,
}
use taint_forge_io_t.Guest.Paths.{split}
use taint_forge_io_t.Prelude.{
  All, Bool-cases, List, [], ap, arith, bind-eq-ok, eqb, inl, inr, leb, length, length-append, ltb,
  ok, ok-inj, refl, refuse-passed, suc, sym, take, zero, ℕ, ◌++◌, ◌+◌, ◌-◌, ◌<◌, ◌∷◌, ◌≡◌,
}

-- The name is read from its own bytes, whatever stands behind them.
abbrev IsPrefixRead : ℕ → List ℕ → NameRead → Type 0
IsPrefixRead k s p =
    (q : List ℕ) × (s ≡ q ++ p.2) × ((t : List ℕ) → read_name k (q ++ t) ≡ ok (p.0, p.1, t))

read_name-IsPrefixRead :
    (k : ℕ) (s : List ℕ) (p : NameRead) → read_name k s ≡ ok p → IsPrefixRead k s p
unfolding read_name
read_name-IsPrefixRead zero [] p h = cc
read_name-IsPrefixRead (suc k) [] p h = cc
read_name-IsPrefixRead (suc k) (c ∷ s) p h =
    let (o, e, g) = bind-eq-ok (read_name k s) _ h in
    let (q, split, again) = read_name-IsPrefixRead k s o e in
    subst (IsPrefixRead (suc k) (c ∷ s)) (ok-inj g)
      (c ∷ q, ap (λ u. c ∷ u) split, λ t. rw (again t) refl)
read_name-IsPrefixRead zero (l ∷ s) p h = elim (Bool-cases (eqb l 0)) [
  | inl e ↦ subst (IsPrefixRead zero (l ∷ s)) (ok-inj (rw e at h)) (l ∷ [], refl, λ t. rw e refl)
  | inr e ↦ elim (Bool-cases (leb 64 l)) [
    | inl e' ↦ ground (arith, rw (e, e') at h)
    | inr e' ↦
        let (o, r, g) = bind-eq-ok (read_name l s) (λ p. ok (with_label p)) (rw (e, e') at h) in
        let (q, split, again) = read_name-IsPrefixRead l s o r in
        subst (IsPrefixRead zero (l ∷ s)) (ok-inj g)
          (l ∷ q, ap (λ u. l ∷ u) split, λ t. rw (e, e', again t) refl)
  ]
]

take-append : (q r : List ℕ) → take (length q) (q ++ r) ≡ q
take-append [] r = refl
take-append (c ∷ q) r = ap (λ u. c ∷ u) (take-append q r)

u16_bytes : (a b : ℕ) → b < 256 → u16 (u16 a b / 256) (u16 a b % 256) ≡ u16 a b
u16_bytes a b h = omega arith

-- What the question of a response says again.
abbrev pub SameQuestion : DnsQuery → DnsQuery → Type 0
SameQuestion info answer =
    (answer.transaction_id ≡ info.transaction_id)
    × (answer.labels ≡ info.labels)
    × (answer.qtype ≡ info.qtype)
    × (answer.qclass ≡ info.qclass)

-- The number of the bytes of the question.
question_length :
    (q rest : List ℕ) (t u c d : ℕ)
    → 12 + length (q ++ t ∷ u ∷ c ∷ d ∷ rest) - length rest - 12 ≡ length (q ++ t ∷ u ∷ c ∷ d ∷ [])
question_length q rest t u c d =
    omega (arith, length-append q (t ∷ u ∷ c ∷ d ∷ rest), length-append q (t ∷ u ∷ c ∷ d ∷ []))

question_split :
    (q rest : List ℕ) (t u c d : ℕ) → q ++ t ∷ u ∷ c ∷ d ∷ rest ≡ (q ++ t ∷ u ∷ c ∷ d ∷ []) ++ rest
question_split [] rest t u c d = refl
question_split (x ∷ q) rest t u c d = ap (λ v. x ∷ v) (question_split q rest t u c d)

question_taken :
    (q rest extra s : List ℕ) (t u c d : ℕ)
    → s ≡ q ++ t ∷ u ∷ c ∷ d ∷ rest
    → take (12 + length s - length rest - 12) s ++ extra ≡ q ++ t ∷ u ∷ c ∷ d ∷ extra
question_taken q rest extra s t u c d e = rw e (
    rw (question_length q rest t u c d) (
      rw (question_split q rest t u c d)
        (rw (take-append (q ++ t ∷ u ∷ c ∷ d ∷ []) rest) (sym (question_split q extra t u c d)))))

-- What parse_dns_query reads from a response.
abbrev pub IsEcho : DnsQuery → List ℕ → Type 0
IsEcho info response =
    (answer : DnsQuery) × (parse_dns_query response ≡ ok answer) × SameQuestion info answer

-- The response of a query that has been read as far as its tail.
read_tail-IsEcho :
    (a b f g q r ancount : ℕ) (s extra head : List ℕ) (labels : List (List ℕ)) (tail : List ℕ)
    (info : DnsQuery)
    → b < 256
    → read_name 0 s ≡ ok (head, labels, tail)
    → read_tail (12 + length s) (u16 a b) (u16 f g) (u16 q r) labels tail ≡ ok info
    → IsEcho info (header ancount info (take (info.question_end_offset - 12) s ++ extra))
unfolding parse_dns_query
read_tail-IsEcho a b f g q r n' s extra head labels [] info w e n = cc
read_tail-IsEcho a b f g q r n' s extra head labels (t ∷ []) info w e n = cc
read_tail-IsEcho a b f g q r n' s extra head labels (t ∷ u ∷ []) info w e n = cc
read_tail-IsEcho a b f g q r n' s extra head labels (t ∷ u ∷ c ∷ []) info w e n = cc
read_tail-IsEcho a b f g q r n' s extra head labels (t ∷ u ∷ c ∷ d ∷ rest) info w e n =
    let (name, split, again) = read_name-IsPrefixRead 0 s (head, labels, t ∷ u ∷ c ∷ d ∷ rest) e in
    subst (λ (v : DnsQuery). IsEcho v (header n' v (take (v.question_end_offset - 12) s ++ extra)))
      (ok-inj n)
      (
        record {
          transaction_id = u16 (u16 a b / 256) (u16 a b % 256);
          flags = u16 (128 + u16 f g / 256 % 2) 128;
          qdcount = 1;
          labels = labels;
          qtype = u16 t u;
          qclass = u16 c d;
          question_end_offset = 12 + length (name ++ t ∷ u ∷ c ∷ d ∷ extra) - length extra;
        },
        rw (question_taken name rest extra s t u c d split, again (t ∷ u ∷ c ∷ d ∷ extra)) refl,
        (u16_bytes a b w, refl, refl, refl),
      )

-- A response to a query that has been read, with any records behind the question.
pub header-IsEcho :
    (packet : List ℕ) (info : DnsQuery) (ancount : ℕ) (extra : List ℕ)
    → All (λ b. b < 256) packet
    → parse_dns_query packet ≡ ok info
    → IsEcho info (header ancount info (question_of packet info ++ extra))
unfolding parse_dns_query
header-IsEcho [] info n extra w e = cc
header-IsEcho (a ∷ []) info n extra w e = cc
header-IsEcho (a ∷ b ∷ []) info n extra w e = cc
header-IsEcho (a ∷ b ∷ f ∷ []) info n extra w e = cc
header-IsEcho (a ∷ b ∷ f ∷ g ∷ []) info n extra w e = cc
header-IsEcho (a ∷ b ∷ f ∷ g ∷ q ∷ []) info n extra w e = cc
header-IsEcho (a ∷ b ∷ f ∷ g ∷ q ∷ r ∷ []) info n extra w e = cc
header-IsEcho (a ∷ b ∷ f ∷ g ∷ q ∷ r ∷ h ∷ []) info n extra w e = cc
header-IsEcho (a ∷ b ∷ f ∷ g ∷ q ∷ r ∷ h ∷ i ∷ []) info n extra w e = cc
header-IsEcho (a ∷ b ∷ f ∷ g ∷ q ∷ r ∷ h ∷ i ∷ j ∷ []) info n extra w e = cc
header-IsEcho (a ∷ b ∷ f ∷ g ∷ q ∷ r ∷ h ∷ i ∷ j ∷ k ∷ []) info n extra w e = cc
header-IsEcho (a ∷ b ∷ f ∷ g ∷ q ∷ r ∷ h ∷ i ∷ j ∷ k ∷ l ∷ []) info n extra w e = cc
header-IsEcho (a ∷ b ∷ f ∷ g ∷ q ∷ r ∷ h ∷ i ∷ j ∷ k ∷ l ∷ m ∷ s) info n extra w e =
    let counted = refuse-passed (ltb (u16 q r) 1) _ _ e in
    let (p, name, done') = bind-eq-ok (read_name 0 s) _ counted.1 in
    read_tail-IsEcho a b f g q r n s extra p.0 p.1 p.2 info w.1.0 name done'

-- A query of bytes that parse_dns_query reads has an empty response that it reads as well, with the
-- same transaction id, name, type and class.
pub parse_dns_query-build_dns_empty_response :
    (packet : List ℕ) (info : DnsQuery)
    → All (λ b. b < 256) packet
    → parse_dns_query packet ≡ ok info
    → IsEcho info (build_dns_empty_response packet info)
unfolding build_dns_empty_response
parse_dns_query-build_dns_empty_response packet info w e =
    subst (λ bs. IsEcho info (header 0 info bs)) (append-nil (question_of packet info))
      (header-IsEcho packet info 0 [] w e)
