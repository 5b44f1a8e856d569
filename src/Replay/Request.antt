-- ===== src/Replay/Request.antt =====
-- `ReplayRequest`, `ReplayResponse` and `ReplayEntry` with the normalisation of their parts. A byte
-- string is a list of numbers. An entry of the index is given by its fields, each of its type.
use taint_forge_io_t.Guest.Paths.{as_posix, components, has_parent_part}
use taint_forge_io_t.Prelude.{
  Bool, List, Option, Result, String, Text, [], codes, eqb, err, false, is_negative, leb, length,
  lower, ltb, negsuc, none, ok, pos, refuse, require, some, strip, text_eq, text_in,
  text_starts_with, ℕ, ℤ, ◌&&◌, ◌>>=◌, ◌∷◌,
}

pub data ReplayStoreError : Type 0 where
  unsupported_transport invalid_ip port_out_of_range protocol_hint_too_long : ReplayStoreError
  path_not_relative path_with_parent bad_digest negative_size : ReplayStoreError
  delay_out_of_range entry_id_mismatch entry_exists : ReplayStoreError
  request_too_large response_too_large blob_collision : ReplayStoreError
  no_index missing_blob blob_size_mismatch blob_digest_mismatch : ReplayStoreError

abbrev pub Bytes : Type 0
Bytes = List ℕ

pub record ReplayRequest : Type 0 where
  pub transport : Text
  pub remote_ip : Text
  pub remote_port : ℤ
  pub payload_sha256 : Text
  pub payload_size : ℤ
  pub protocol_hint : Option Text

pub record ReplayResponse : Type 0 where
  pub blob_path : Text
  pub sha256 : Text
  pub size : ℤ
  pub close_after_send : Bool
  pub delay_ms : ℤ

pub record ReplayEntry : Type 0 where
  pub entry_id : Text
  pub created_at_utc : String
  pub request : ReplayRequest
  pub response : ReplayResponse
  pub source_run_id : Option String
  pub notes : Option String

unfoldable pub normalize_transport : Text → Result ReplayStoreError Text
unfolding strip lower
normalize_transport value = do
  _ ← require (text_in (lower (strip value)) (codes "tcp" ∷ codes "udp" ∷ [])) unsupported_transport
  ok (lower (strip value))

abbrev pub in_range : ℕ → ℕ → ℤ → Bool
in_range least most (pos n) = leb least n && leb n most
in_range least most (negsuc n) = false

abbrev pub normalize_port : ℤ → Result ReplayStoreError ℤ
normalize_port value = do _ ← require (in_range 1 65535 value) port_out_of_range; ok value

-- A hint that is blank is none.
abbrev pub short_hint : Text → Result ReplayStoreError (Option Text)
short_hint [] = ok none
short_hint (c ∷ s) = do
  _ ← refuse (ltb 64 (length (c ∷ s))) protocol_hint_too_long
  ok (some (c ∷ s))

abbrev pub normalize_protocol_hint : Option Text → Result ReplayStoreError (Option Text)
normalize_protocol_hint none = ok none
normalize_protocol_hint (some value) = short_hint (lower (strip value))

unfoldable pub safe_relative_path : Text → Result ReplayStoreError Text
unfolding components as_posix
safe_relative_path value = do
  _ ← refuse (text_starts_with value (codes "/")) path_not_relative
  _ ← refuse (has_parent_part (components value)) path_with_parent
  ok (as_posix value)

abbrev pub address_or_error : Option Text → Result ReplayStoreError Text
address_or_error none = err invalid_ip
address_or_error (some ip) = ok ip

module _ (ip_text : Text → Option Text) (is_base_16 : Text → Bool) where
  abbrev pub normalize_ip : Text → Result ReplayStoreError Text
  normalize_ip value = address_or_error (ip_text value)

  abbrev pub check_digest : Text → Result ReplayStoreError (Unit {0})
  check_digest digest = require (eqb (length digest) 64 && is_base_16 digest) bad_digest

  unfoldable pub parse_request : ReplayRequest → Result ReplayStoreError ReplayRequest
  unfolding lower
  parse_request raw = do
    _ ← check_digest raw.payload_sha256
    _ ← refuse (is_negative raw.payload_size) negative_size
    transport ← normalize_transport raw.transport
    remote_ip ← normalize_ip raw.remote_ip
    remote_port ← normalize_port raw.remote_port
    protocol_hint ← normalize_protocol_hint raw.protocol_hint
    ok record {
      transport = transport;
      remote_ip = remote_ip;
      remote_port = remote_port;
      payload_sha256 = lower raw.payload_sha256;
      payload_size = raw.payload_size;
      protocol_hint = protocol_hint;
    }

  unfoldable pub parse_response : ReplayResponse → Result ReplayStoreError ReplayResponse
  unfolding lower safe_relative_path
  parse_response raw = do
    _ ← safe_relative_path raw.blob_path
    _ ← check_digest raw.sha256
    _ ← refuse (is_negative raw.size) negative_size
    _ ← require (in_range 0 60000 raw.delay_ms) delay_out_of_range
    ok record {
      blob_path = raw.blob_path;
      sha256 = lower raw.sha256;
      size = raw.size;
      close_after_send = raw.close_after_send;
      delay_ms = raw.delay_ms;
    }

  module _ (fingerprint : ReplayRequest → Text) where
    unfoldable pub parse_entry : ReplayEntry → Result ReplayStoreError ReplayEntry
    unfolding parse_request parse_response
    parse_entry raw = do
      request ← parse_request raw.request
      response ← parse_response raw.response
      _ ← require (text_eq raw.entry_id (fingerprint request)) entry_id_mismatch
      ok record {
        entry_id = raw.entry_id;
        created_at_utc = raw.created_at_utc;
        request = request;
        response = response;
        source_run_id = raw.source_run_id;
        notes = raw.notes;
      }
