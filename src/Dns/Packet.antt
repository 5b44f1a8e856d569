-- ===== src/Dns/Packet.antt =====
-- `parse_dns_query` and the two builders of responses. Where the source counts an offset, what is left of
-- the packet is passed on.
use Prim.Native.Nat.{◌%◌, ◌/◌}
use taint_forge_io_t.Prelude.{
  List, Option, Result, [], count, eqb, err, if◌then◌else◌, leb, length, ltb, negsuc, none, ok, pos,
  refuse, some, suc, take, zero, ℕ, ℤ, ◌&&◌, ◌*◌, ◌++◌, ◌+◌, ◌-◌, ◌>>=◌, ◌∷◌,
}

pub data DnsError : Type 0 where
  packet_too_short no_questions qname_out_of_bounds : DnsError
  compressed_qname_not_supported label_out_of_bounds question_tail_out_of_bounds : DnsError

pub record DnsQuery : Type 0 where
  pub transaction_id : ℕ
  pub flags : ℕ
  pub qdcount : ℕ
  pub labels : List (List ℕ)
  pub qtype : ℕ
  pub qclass : ℕ
  pub question_end_offset : ℕ

-- Two bytes of `struct.unpack("!H")`.
abbrev pub u16 : ℕ → ℕ → ℕ
u16 hi lo = hi * 256 + lo

-- What is left of the current label, the labels behind it, and what is left of the packet.
abbrev pub NameRead : Type 0
NameRead = List ℕ × List (List ℕ) × List ℕ

abbrev pub with_code : ℕ → NameRead → NameRead
with_code c p = (c ∷ p.0, p.1, p.2)

abbrev pub with_label : NameRead → NameRead
with_label p = ([], p.0 ∷ p.1, p.2)

-- The loop over the labels, with the number of bytes that the current label still has. At a length
-- byte, `length & 0xC0` is not zero from 64 on.
unfoldable pub read_name : ℕ → List ℕ → Result DnsError NameRead
read_name zero [] = err qname_out_of_bounds
read_name (suc k) [] = err label_out_of_bounds
read_name (suc k) (c ∷ s) = do p ← read_name k s; ok (with_code c p)
read_name zero (l ∷ s) =
    let rest = read_name l s in
    if eqb l 0
    then ok ([], [], s)
    else if leb 64 l
    then err compressed_qname_not_supported
    else rest >>= λ p. ok (with_label p)

-- The type and the class behind the name.
abbrev pub read_tail : ℕ → ℕ → ℕ → ℕ → List (List ℕ) → List ℕ → Result DnsError DnsQuery
read_tail total id flags count labels (t ∷ u ∷ c ∷ d ∷ rest) = ok record {
  transaction_id = id;
  flags = flags;
  qdcount = count;
  labels = labels;
  qtype = u16 t u;
  qclass = u16 c d;
  question_end_offset = total - length rest;
}
read_tail total id flags count labels _ = err question_tail_out_of_bounds

unfoldable pub parse_dns_query : List ℕ → Result DnsError DnsQuery
unfolding read_name
parse_dns_query (a ∷ b ∷ f ∷ g ∷ q ∷ r ∷ h ∷ i ∷ j ∷ k ∷ l ∷ m ∷ s) = do
  _ ← refuse (ltb (u16 q r) 1) no_questions
  p ← read_name 0 s
  read_tail (12 + length s) (u16 a b) (u16 f g) (u16 q r) p.1 p.2
parse_dns_query _ = err packet_too_short

abbrev pub drop_twelve : List ℕ → List ℕ
drop_twelve (a ∷ b ∷ f ∷ g ∷ q ∷ r ∷ h ∷ i ∷ j ∷ k ∷ l ∷ m ∷ s) = s
drop_twelve _ = []

-- The header of a response, in front of its question and its answers. The response flags are
-- 0x8000 | 0x0080 | (query_flags & 0x0100), by their two bytes.
abbrev pub header : ℕ → DnsQuery → List ℕ → List ℕ
header ancount info rest =
    (info.transaction_id / 256)
    ∷ (info.transaction_id % 256)
    ∷ (128 + info.flags / 256 % 2)
    ∷ 128
    ∷ 0
    ∷ 1
    ∷ 0
    ∷ ancount
    ∷ 0
    ∷ 0
    ∷ 0
    ∷ 0
    ∷ rest

abbrev pub question_of : List ℕ → DnsQuery → List ℕ
question_of packet info = take (info.question_end_offset - 12) (drop_twelve packet)

unfoldable pub build_dns_empty_response : List ℕ → DnsQuery → List ℕ
build_dns_empty_response packet info = header 0 info (question_of packet info)

-- What building the answer raises: `bytes` of a number that is not a byte, and `struct.pack` of one
-- that does not fit.
pub data AnswerError : Type 0 where
  not_a_byte not_packed : AnswerError

abbrev pub byte_of : ℤ → Result AnswerError ℕ
byte_of (pos n) = if ltb n 256 then ok n else err not_a_byte
byte_of (negsuc n) = err not_a_byte

unfoldable pub rdata_of : List ℤ → Result AnswerError (List ℕ)
rdata_of [] = ok []
rdata_of (part ∷ parts) = do b ← byte_of part; bs ← rdata_of parts; ok (b ∷ bs)

-- The record that answers with an address: the pointer to the name in the question, the type, the
-- class, the time to live in four bytes, the length of the address in two, and the address.
abbrev pub fields_of : ℕ → List ℕ → List ℕ
fields_of ttl rdata =
    192
    ∷ 12
    ∷ 0
    ∷ 1
    ∷ 0
    ∷ 1
    ∷ (ttl / 16777216)
    ∷ (ttl / 65536 % 256)
    ∷ (ttl / 256 % 256)
    ∷ (ttl % 256)
    ∷ (length rdata / 256)
    ∷ (length rdata % 256)
    ∷ rdata

abbrev pub packed_record : ℤ → List ℕ → Result AnswerError (List ℕ)
packed_record (negsuc n) rdata = err not_packed
packed_record (pos ttl) rdata =
    if ltb ttl 4294967296 && ltb (length rdata) 65536
    then ok (fields_of ttl rdata)
    else err not_packed

unfoldable pub answer_record : ℤ → List ℤ → Result AnswerError (List ℕ)
unfolding rdata_of
answer_record ttl parts = do rdata ← rdata_of parts; packed_record ttl rdata

abbrev pub answer_to :
    List ℕ → ℤ → List ℤ → Result DnsError DnsQuery → Result AnswerError (Option (List ℕ))
answer_to packet ttl parts (err e) = ok none
answer_to packet ttl parts (ok info) =
    let answer = answer_record ttl parts in
    if eqb info.qtype 1 && eqb info.qclass 1
    then answer >>= (λ bs. ok (some (header 1 info (question_of packet info ++ bs))))
    else ok (some (build_dns_empty_response packet info))

-- `parts` are the numbers of `answer_ip`: `int` of each part between its dots.
unfoldable pub build_dns_a_response : List ℕ → ℤ → List ℤ → Result AnswerError (Option (List ℕ))
unfolding parse_dns_query answer_record
build_dns_a_response packet ttl parts = answer_to packet ttl parts (parse_dns_query packet)
