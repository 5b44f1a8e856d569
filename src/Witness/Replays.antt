-- ===== src/Witness/Replays.antt =====
-- A store with one recorded response. A digest is 64 zeros, and a fingerprint the port in unary.
use taint_forge_io_t.Prelude.{
  Bool, Option, Text, [], codes, false, is_hex_of_length, lower, negsuc, none, ok, pos, refl, some,
  suc, true, zero, ℕ, ℤ, ◌∷◌, ◌≡◌, ◌≢◌,
}
use taint_forge_io_t.Replay.Refined.{lookup-add, lookup_fingerprint-add}
use taint_forge_io_t.Replay.Request.{Bytes, ReplayEntry, ReplayRequest, normalize_transport}
use taint_forge_io_t.Replay.Store.{
  AddArguments, ReplayLimits, ReplayLookup, ReplayStore, RequestArguments, add, load_entries,
  lookup, lookup_fingerprint, new_entry, request_path, response_path, updated,
}
use taint_forge_io_t.Replay.Unreadable.{load_entries-unreadable}

abbrev address : Text → Option Text
address s = some s

abbrev is_base : Text → Bool
is_base s = true

abbrev zeros : ℕ → Text
zeros zero = []
zeros (suc n) = b'0' ∷ zeros n

abbrev digest : Bytes → Text
digest b = zeros 64

abbrev mark : ReplayRequest → Text
mark r = elim r.remote_port [ pos n ↦ zeros n | negsuc n ↦ [] ]

abbrev arguments : RequestArguments
arguments = record {
  transport = codes " TCP ";
  remote_ip = codes "10.0.0.1";
  remote_port = pos 3;
  request_bytes = 1 ∷ 2 ∷ [];
  protocol_hint = some (codes " Http");
}

abbrev call : ℤ → AddArguments
call delay = record {
  about = arguments;
  response_bytes = 5 ∷ [];
  close_after_send = true;
  delay_ms = delay;
  source_run_id = none;
  notes = none;
  replace = false;
}

abbrev limits : ReplayLimits
limits = record { max_request_bytes = 10; max_response_bytes = 10 }

abbrev request : ReplayRequest
request = record {
  transport = codes "tcp";
  remote_ip = codes "10.0.0.1";
  remote_port = pos 3;
  payload_sha256 = zeros 64;
  payload_size = pos 2;
  protocol_hint = some (codes "http");
}

abbrev entry_of : ℤ → ReplayEntry
entry_of delay = new_entry address is_base mark digest "now" (call delay) request

abbrev empty_store : ReplayStore
empty_store = record { index = none; blobs = [] }

abbrev after_add : ℤ → ReplayStore
after_add delay = record {
  index = some (entry_of delay ∷ []);
  blobs = (response_path (zeros 64), 5 ∷ []) ∷ (request_path (zeros 3), 1 ∷ 2 ∷ []) ∷ [];
}

ip_again : (v w : Text) → address v ≡ some w → address w ≡ some w
ip_again v w h = refl

base_lower : (s : Text) → is_base s ≡ true → is_base (lower s) ≡ true
base_lower s h = refl

digest_hex : (b : Bytes) → is_hex_of_length 64 (digest b) ≡ true
unfolding is_hex_of_length
digest_hex b = refl

digest_base : (b : Bytes) → is_base (digest b) ≡ true
digest_base b = refl

lookup-add_example :
    lookup address is_base mark digest arguments (after_add (pos 7))
    ≡ ok (record {
      hit = true;
      fingerprint = zeros 3;
      entry = some (entry_of (pos 7));
      response_bytes = some (5 ∷ []);
    })
unfolding add normalize_transport updated
lookup-add_example =
    lookup-add address is_base mark digest ip_again base_lower digest_hex digest_base limits "now"
      (call (pos 7)) empty_store (after_add (pos 7)) (entry_of (pos 7)) refl refl

abbrev miss : Text → ReplayLookup
miss id = record { hit = false; fingerprint = id; entry = none; response_bytes = none }

lookup_fingerprint-add_example :
    lookup_fingerprint address is_base mark digest (zeros 4) (after_add (pos 7))
    ≡ ok (miss (zeros 4))
unfolding add normalize_transport updated lookup_fingerprint
lookup_fingerprint-add_example =
    lookup_fingerprint-add address is_base mark digest ip_again base_lower digest_hex digest_base
      limits "now" (call (pos 7)) empty_store (after_add (pos 7)) (entry_of (pos 7)) (zeros 4)
      (miss (zeros 4)) refl refl refl

load_entries-unreadable_example :
    load_entries address is_base mark digest (after_add (pos 60001)) ≢ ok []
unfolding add normalize_transport updated
load_entries-unreadable_example =
    load_entries-unreadable address is_base mark digest limits "now" (call (pos 60001)) empty_store
      (after_add (pos 60001)) (entry_of (pos 60001)) refl refl []
