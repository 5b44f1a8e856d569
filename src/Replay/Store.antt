-- ===== src/Replay/Store.antt =====
-- `ReplayStore`: the index and the blobs below its root. Entries keep the order of the index. A call
-- that raises gives the store as far as it has changed it.
use taint_forge_io_t.Prelude.{
  Bool, List, Option, Result, String, Text, [], any, codes, eqb, err, false, if◌then◌else◌, keep,
  length, ltb, negsuc, none, not, ok, pos, refuse, require, some, sort, text_eq, traverse, true, ℕ,
  ℤ, ◌&&◌, ◌++◌, ◌>>=◌, ◌∷◌,
}
use taint_forge_io_t.Replay.Request.{
  Bytes, ReplayEntry, ReplayRequest, ReplayStoreError, blob_collision, blob_digest_mismatch,
  blob_size_mismatch, entry_exists, missing_blob, no_index, normalize_ip, normalize_port,
  normalize_protocol_hint, normalize_transport, parse_entry, request_too_large, response_too_large,
  safe_relative_path,
}

-- The index is not there, or has its entries.
pub record ReplayStore : Type 0 where
  pub index : Option (List ReplayEntry)
  pub blobs : List (Text × Bytes)

pub record ReplayLimits : Type 0 where
  pub max_request_bytes : ℕ
  pub max_response_bytes : ℕ

-- The arguments of `lookup`; those of `add` go on.
pub record RequestArguments : Type 0 where
  pub transport : Text
  pub remote_ip : Text
  pub remote_port : ℤ
  pub request_bytes : Bytes
  pub protocol_hint : Option Text

pub record AddArguments : Type 0 where
  pub about : RequestArguments
  pub response_bytes : Bytes
  pub close_after_send : Bool
  pub delay_ms : ℤ
  pub source_run_id : Option String
  pub notes : Option String
  pub replace : Bool

pub record ReplayLookup : Type 0 where
  pub hit : Bool
  pub fingerprint : Text
  pub entry : Option ReplayEntry
  pub response_bytes : Option Bytes

-- An empty index, where there was none.
abbrev pub initialize : ReplayStore → ReplayStore
initialize store = record {
  index = elim store.index [ none ↦ some [] | some entries ↦ some entries ];
  blobs = store.blobs;
}

abbrev pub find_blob : Text → List (Text × Bytes) → Option Bytes
find_blob k [] = none
find_blob k ((j, b) ∷ blobs) = if text_eq j k then some b else find_blob k blobs

-- `_write_blob`
abbrev pub write_found :
    Text
    → Bytes
    → List (Text × Bytes)
    → Option Bytes
    → Result ReplayStoreError (List (Text × Bytes))
write_found k content blobs none = ok ((k, content) ∷ blobs)
write_found k content blobs (some old) = do
  _ ← require (text_eq old content) blob_collision
  ok blobs

abbrev pub write_blob :
    Text → Bytes → List (Text × Bytes) → Result ReplayStoreError (List (Text × Bytes))
write_blob k content blobs = write_found k content blobs (find_blob k blobs)

abbrev pub request_path : Text → Text
request_path id = codes "requests/" ++ (id ++ codes ".bin")

abbrev pub response_path : Text → Text
response_path digest = codes "responses/" ++ (digest ++ codes ".bin")

-- Texts in the order of their code points.
abbrev pub text_le : Text → Text → Bool
text_le [] t = true
text_le (a ∷ s) [] = false
text_le (a ∷ s) (b ∷ t) =
    let rest = text_le s t in if ltb a b then true else if eqb a b then rest else false

abbrev pub entry_le : ReplayEntry → ReplayEntry → Bool
entry_le x y = text_le x.entry_id y.entry_id

abbrev pub has_id : Text → ReplayEntry → Bool
has_id id entry = text_eq entry.entry_id id

abbrev pub find_entry : Text → List ReplayEntry → Option ReplayEntry
find_entry id [] = none
find_entry id (e ∷ es) = if has_id id e then some e else find_entry id es

-- `len(content) == size`
abbrev pub is_size : ℤ → ℕ → Bool
is_size (pos n) m = eqb n m
is_size (negsuc n) m = false

-- The new index of `add`.
unfoldable pub updated : ReplayEntry → List ReplayEntry → List ReplayEntry
unfolding sort
updated entry entries =
    sort entry_le (keep (λ e. not (has_id entry.entry_id e)) entries ++ entry ∷ [])

module _ (ip_text : Text → Option Text) (is_base_16 : Text → Bool)
    (fingerprint : ReplayRequest → Text) (sha256 : Bytes → Text) where
  abbrev pub entries_of : Option (List ReplayEntry) → Result ReplayStoreError (List ReplayEntry)
  entries_of none = err no_index
  entries_of (some raws) = traverse (parse_entry ip_text is_base_16 fingerprint) raws

  unfoldable pub load_entries : ReplayStore → Result ReplayStoreError (List ReplayEntry)
  load_entries store = entries_of store.index

  -- The request that `add` and `lookup` make of their arguments.
  unfoldable pub request_of : RequestArguments → Result ReplayStoreError ReplayRequest
  request_of a = do
    transport ← normalize_transport a.transport
    remote_ip ← normalize_ip ip_text is_base_16 a.remote_ip
    remote_port ← normalize_port a.remote_port
    protocol_hint ← normalize_protocol_hint a.protocol_hint
    ok record {
      transport = transport;
      remote_ip = remote_ip;
      remote_port = remote_port;
      payload_sha256 = sha256 a.request_bytes;
      payload_size = pos (length a.request_bytes);
      protocol_hint = protocol_hint;
    }

  abbrev pub new_entry : String → AddArguments → ReplayRequest → ReplayEntry
  new_entry now a request = record {
    entry_id = fingerprint request;
    created_at_utc = now;
    request = request;
    response = record {
      blob_path = response_path (sha256 a.response_bytes);
      sha256 = sha256 a.response_bytes;
      size = pos (length a.response_bytes);
      close_after_send = a.close_after_send;
      delay_ms = a.delay_ms;
    };
    source_run_id = a.source_run_id;
    notes = a.notes;
  }

  -- What `add` checks before it writes: the new entry and the entries of the index.
  unfoldable pub prepare_add :
      ReplayLimits
      → String
      → AddArguments
      → ReplayStore
      → Result ReplayStoreError (ReplayEntry × List ReplayEntry)
  unfolding load_entries request_of
  prepare_add limits now a store = do
    _ ← refuse (ltb limits.max_request_bytes (length a.about.request_bytes)) request_too_large
    _ ← refuse (ltb limits.max_response_bytes (length a.response_bytes)) response_too_large
    request ← request_of a.about
    entries ← load_entries store
    _ ← refuse (any (has_id (fingerprint request)) entries && not a.replace) entry_exists
    ok (new_entry now a request, entries)

  -- The steps of `add` behind the checks: the two blobs, then the index.
  abbrev pub after_response :
      ReplayEntry × List ReplayEntry
      → ReplayStore
      → Result ReplayStoreError (List (Text × Bytes))
      → ReplayStore × Result ReplayStoreError ReplayEntry
  after_response p store (err e) = (store, err e)
  after_response p store (ok blobs) =
      (record { index = some (updated p.0 p.1); blobs = blobs }, ok p.0)

  abbrev pub after_request :
      AddArguments
      → ReplayEntry × List ReplayEntry
      → ReplayStore
      → Result ReplayStoreError (List (Text × Bytes))
      → ReplayStore × Result ReplayStoreError ReplayEntry
  after_request a p store (err e) = (store, err e)
  after_request a p store (ok blobs) =
      after_response p (record { index = store.index; blobs = blobs })
        (write_blob p.0.response.blob_path a.response_bytes blobs)

  abbrev pub after_checks :
      AddArguments
      → ReplayStore
      → Result ReplayStoreError (ReplayEntry × List ReplayEntry)
      → ReplayStore × Result ReplayStoreError ReplayEntry
  after_checks a store (err e) = (store, err e)
  after_checks a store (ok p) =
      after_request a p store
        (write_blob (request_path p.0.entry_id) a.about.request_bytes store.blobs)

  unfoldable pub add :
      ReplayLimits
      → String
      → AddArguments
      → ReplayStore
      → ReplayStore × Result ReplayStoreError ReplayEntry
  unfolding prepare_add
  add limits now a store =
      after_checks a (initialize store) (prepare_add limits now a (initialize store))

  -- The response that an entry points to, checked.
  abbrev pub checked_blob : ReplayEntry → Option Bytes → Result ReplayStoreError Bytes
  checked_blob entry none = err missing_blob
  checked_blob entry (some content) = do
    _ ← require (is_size entry.response.size (length content)) blob_size_mismatch
    _ ← require (text_eq (sha256 content) entry.response.sha256) blob_digest_mismatch
    ok content

  unfoldable pub read_response : ReplayEntry → ReplayStore → Result ReplayStoreError Bytes
  unfolding safe_relative_path
  read_response entry store = do
    path ← safe_relative_path entry.response.blob_path
    checked_blob entry (find_blob path store.blobs)

  abbrev pub lookup_found :
      Text → ReplayStore → Option ReplayEntry → Result ReplayStoreError ReplayLookup
  lookup_found id store none =
      ok record { hit = false; fingerprint = id; entry = none; response_bytes = none }
  lookup_found id store (some entry) = do
    content ← read_response entry store
    ok record { hit = true; fingerprint = id; entry = some entry; response_bytes = some content }

  -- `lookup` of a request with the given fingerprint.
  unfoldable pub lookup_fingerprint : Text → ReplayStore → Result ReplayStoreError ReplayLookup
  unfolding load_entries read_response
  lookup_fingerprint id store = do
    entries ← load_entries store
    lookup_found id store (find_entry id entries)

  unfoldable pub lookup : RequestArguments → ReplayStore → Result ReplayStoreError ReplayLookup
  unfolding request_of lookup_fingerprint
  lookup a store = do request ← request_of a; lookup_fingerprint (fingerprint request) store

  -- `validate` gives the number of the entries, if every response can be read.
  unfoldable pub validate : ReplayStore → Result ReplayStoreError ℕ
  unfolding load_entries read_response
  validate store = do
    entries ← load_entries store
    _ ← traverse (λ e. read_response e store) entries
    ok (length entries)
