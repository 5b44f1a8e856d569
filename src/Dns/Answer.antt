-- ===== src/Dns/Answer.antt =====
-- When `build_dns_a_response` returns a response, and what it is.
use mathlib.Core.Path.{subst}
use taint_forge_io_t.Dns.Echo.{IsEcho, header-IsEcho, parse_dns_query-build_dns_empty_response}
use taint_forge_io_t.Dns.Packet.{
  DnsQuery, answer_record, build_dns_a_response, build_dns_empty_response, byte_of, fields_of,
  header, packed_record, parse_dns_query, question_of, rdata_of,
}
use taint_forge_io_t.Prelude.{
  All, Bool-cases, List, [], ap, arith, bind-eq-ok, eqb, false, inl, inr, length, ltb, negsuc, ok,
  ok-inj, pos, refl, some, suc, true, ℕ, ℤ, ◌&&◌, ◌++◌, ◌<◌, ◌↔◌, ◌∷◌, ◌≡◌, ◌≢◌, ◌⊎◌,
}

abbrev pub IsByte : ℤ → Type 0
IsByte z = (n : ℕ) × (z ≡ pos n) × (n < 256)

-- An address that is a sequence of bytes, with a time to live and a length that fit their fields.
abbrev pub Fits : ℤ → List ℤ → Type 0
Fits ttl parts =
    All IsByte parts × ((t : ℕ) × (ttl ≡ pos t) × (t < 4294967296)) × (length parts < 65536)

lt-ltb : (a b : ℕ) → a < b → ltb a b ≡ true
lt-ltb a b h = ground arith

byte_of-IsByte : (z : ℤ) (b : ℕ) → byte_of z ≡ ok b → IsByte z
byte_of-IsByte (pos n) b h = (n, refl, ground arith)
byte_of-IsByte (negsuc n) b h = cc

IsByte-byte_of : (z : ℤ) (p : IsByte z) → byte_of z ≡ ok p.0
IsByte-byte_of z (n, e, small) = rw e (ground arith)

rdata_of-All :
    (parts : List ℤ) (bs : List ℕ)
    → rdata_of parts ≡ ok bs
    → All IsByte parts × (length bs ≡ length parts)
unfolding rdata_of
rdata_of-All [] bs h = (tt, rw (← ok-inj h) refl)
rdata_of-All (part ∷ parts) bs h =
    let (b, e, h1) = bind-eq-ok (byte_of part) _ h in
    let (rest, e', h2) = bind-eq-ok (rdata_of parts) _ h1 in
    let (bytes, same) = rdata_of-All parts rest e' in
    ((byte_of-IsByte part b e, bytes), rw (← ok-inj h2) (ap suc same))

All-rdata_of :
    (parts : List ℤ)
    → All IsByte parts
    → (bs : List ℕ) × (rdata_of parts ≡ ok bs) × (length bs ≡ length parts)
unfolding rdata_of
All-rdata_of [] h = ([], refl, refl)
All-rdata_of (part ∷ parts) (here, later) =
    let (bs, e, same) = All-rdata_of parts later in
    (here.0 ∷ bs, rw (IsByte-byte_of part here, e) refl, ap suc same)

packed_record-bounds :
    (ttl : ℤ) (rdata bs : List ℕ)
    → packed_record ttl rdata ≡ ok bs
    → ((t : ℕ) × (ttl ≡ pos t) × (t < 4294967296)) × (length rdata < 65536)
packed_record-bounds (negsuc n) rdata bs h = cc
packed_record-bounds (pos t) rdata bs h = ((t, refl, ground arith), ground arith)

answer_record-Fits :
    (ttl : ℤ) (parts : List ℤ) (bs : List ℕ) → answer_record ttl parts ≡ ok bs → Fits ttl parts
unfolding answer_record
answer_record-Fits ttl parts bs h =
    let (rdata, e, h1) = bind-eq-ok (rdata_of parts) _ h in
    let (bytes, same) = rdata_of-All parts rdata e in
    let (time, short) = packed_record-bounds ttl rdata bs h1 in
    (bytes, time, subst (λ n. n < 65536) same short)

Fits-answer_record :
    (ttl : ℤ) (parts : List ℤ) → Fits ttl parts → (bs : List ℕ) × (answer_record ttl parts ≡ ok bs)
unfolding answer_record
Fits-answer_record ttl parts (bytes, (t, e, small), short) =
    let (rdata, e', same) = All-rdata_of parts bytes in
    (
      fields_of t rdata,
      rw (e', e, lt-ltb t 4294967296 small, same, lt-ltb (length parts) 65536 short) refl,
    )

address-Fits :
    (info : DnsQuery) (ttl : ℤ) (parts : List ℤ)
    → (eqb info.qtype 1 && eqb info.qclass 1) ≡ true
    → (info.qtype ≢ 1) ⊎ (info.qclass ≢ 1) ⊎ Fits ttl parts
    → Fits ttl parts
address-Fits info ttl parts h (inl other) = ground arith
address-Fits info ttl parts h (inr (inl other)) = ground arith
address-Fits info ttl parts h (inr (inr fits)) = fits

other_query :
    (info : DnsQuery) (ttl : ℤ) (parts : List ℤ)
    → (eqb info.qtype 1 && eqb info.qclass 1) ≡ false
    → (info.qtype ≢ 1) ⊎ (info.qclass ≢ 1) ⊎ Fits ttl parts
other_query info ttl parts h = elim (Bool-cases (eqb info.qtype 1)) [
  | inl e ↦ inr (inl (ground arith))
  | inr e ↦ inl (ground arith)
]

-- For a query of bytes that parse_dns_query reads, build_dns_a_response returns a response, and one
-- that parse_dns_query reads with the same transaction id, name, type and class, exactly when the
-- query is not one for an IN A record, or the parts of the address are fewer than 2 ^ 16 bytes and
-- the time to live is below 2 ^ 32 and not negative.
pub parse_dns_query-build_dns_a_response :
    (packet : List ℕ) (parts : List ℤ) (ttl : ℤ) (info : DnsQuery)
    → All (λ b. b < 256) packet
    → parse_dns_query packet ≡ ok info
    → ((response : List ℕ) × (build_dns_a_response packet ttl parts ≡ ok (some response))
        × IsEcho info response)
      ↔ ((info.qtype ≢ 1) ⊎ (info.qclass ≢ 1) ⊎ Fits ttl parts)
unfolding build_dns_a_response
parse_dns_query-build_dns_a_response packet parts ttl info w e =
    elim (Bool-cases (eqb info.qtype 1 && eqb info.qclass 1)) [
      | inl h ↦ (
        λ found.
            let (bs, built, same) = bind-eq-ok (answer_record ttl parts) _ (rw (e, h) at found.1) in
            inr (inr (answer_record-Fits ttl parts bs built)),
        λ fits.
            let (bs, built) = Fits-answer_record ttl parts (address-Fits info ttl parts h fits) in
            (
              header 1 info (question_of packet info ++ bs),
              rw (e, h, built) refl,
              header-IsEcho packet info 1 bs w e,
            ),
      )
      | inr h ↦ (
        λ found. other_query info ttl parts h,
        λ fits. (
          build_dns_empty_response packet info,
          rw (e, h) refl,
          parse_dns_query-build_dns_empty_response packet info w e,
        ),
      )
    ]
