-- ===== src/Witness/Packets.antt =====
-- A query for the address of `a.io`.
use taint_forge_io_t.Dns.Answer.{Fits, parse_dns_query-build_dns_a_response}
use taint_forge_io_t.Dns.Echo.{IsEcho}
use taint_forge_io_t.Dns.Packet.{DnsQuery, build_dns_a_response, parse_dns_query}
use taint_forge_io_t.Prelude.{
  All, List, [], all, both-true, ltb, ltb→lt, ok, pos, refl, some, true, ℕ, ℤ, ◌<◌, ◌↔◌, ◌∷◌, ◌≡◌,
  ◌≢◌, ◌⊎◌,
}

abbrev packet : List ℕ
packet =
    18 ∷ 52 ∷ 1 ∷ 0 ∷ 0 ∷ 1 ∷ 0 ∷ 0 ∷ 0 ∷ 0 ∷ 0 ∷ 0 ∷ 1 ∷ 97 ∷ 2 ∷ 105 ∷ 111 ∷ 0 ∷ 0 ∷ 1 ∷ 0 ∷ 1
    ∷ []

abbrev info : DnsQuery
info = record {
  transaction_id = 4660;
  flags = 256;
  qdcount = 1;
  labels = (97 ∷ []) ∷ (105 ∷ 111 ∷ []) ∷ [];
  qtype = 1;
  qclass = 1;
  question_end_offset = 22;
}

packet_bytes : (bs : List ℕ) → all (λ b. ltb b 256) bs ≡ true → All (λ b. b < 256) bs
packet_bytes [] h = tt
packet_bytes (b ∷ bs) h =
    let both = both-true (ltb b 256) (all (λ c. ltb c 256) bs) h in
    (ltb→lt b 256 both.0, packet_bytes bs both.1)

abbrev gateway : List ℤ
gateway = pos 10 ∷ pos 10 ∷ pos 0 ∷ pos 1 ∷ []

parse_dns_query-build_dns_a_response_example :
    ((response : List ℕ) × (build_dns_a_response packet (pos 60) gateway ≡ ok (some response))
      × IsEcho info response)
    ↔ ((info.qtype ≢ 1) ⊎ (info.qclass ≢ 1) ⊎ Fits (pos 60) gateway)
unfolding parse_dns_query
parse_dns_query-build_dns_a_response_example =
    parse_dns_query-build_dns_a_response packet gateway (pos 60) info (packet_bytes packet refl)
      refl
