-- ===== src/Replay/Refined.antt =====
-- The store as a map from fingerprints to responses, under `add`.
use mathlib.Core.Path.{subst}
use taint_forge_io_t.Prelude.{
  All, Bool, Bool-cases, List, Option, String, Text, all, ap, bind-eq-ok, both-true, eqb, eqb_iff,
  if◌then◌else◌, inl, inr, is_hex, is_hex_of_length, length, lower, none, ok, ok-inj, pos, refl,
  some, sym, text_eq_refl, text_eq→eq, true, ◌&&◌, ◌>>=◌, ◌≡◌,
}
use taint_forge_io_t.Replay.Added.{IsAdded, add-IsAdded, write_blob-IsWritten}
use taint_forge_io_t.Replay.Normal.{
  lower-hex, normalize_port_again, normalize_protocol_hint_again, normalize_transport_again,
}
use taint_forge_io_t.Replay.Parsed.{
  IsRead, entry_of_parts, normalize_ip_again, request_of_parts, response_of_parts,
  safe_relative_path-response, traverse-IsRead, traverse-read,
}
use taint_forge_io_t.Replay.Reload.{All-updated, find_entry-updated}
use taint_forge_io_t.Replay.Request.{
  Bytes, ReplayEntry, ReplayRequest, in_range, normalize_ip, normalize_port,
  normalize_protocol_hint, normalize_transport, parse_request, safe_relative_path,
}
use taint_forge_io_t.Replay.Store.{
  AddArguments, ReplayLimits, ReplayLookup, ReplayStore, RequestArguments, add, checked_blob,
  entries_of, find_blob, find_entry, has_id, initialize, load_entries, lookup, lookup_fingerprint,
  lookup_found, new_entry, read_response, request_of, request_path, response_path, updated,
}

module _ (ip_text : Text → Option Text) (is_base_16 : Text → Bool)
    (fingerprint : ReplayRequest → Text) (sha256 : Bytes → Text)
    (ip_again : (v w : Text) → ip_text v ≡ some w → ip_text w ≡ some w)
    (base_16_lower : (s : Text) → is_base_16 s ≡ true → is_base_16 (lower s) ≡ true)
    (sha256_hex : (b : Bytes) → is_hex_of_length 64 (sha256 b) ≡ true)
    (sha256_base_16 : (b : Bytes) → is_base_16 (sha256 b) ≡ true) where
  digest-checked : (b : Bytes) → (eqb (length (sha256 b)) 64 && is_base_16 (sha256 b)) ≡ true
  unfolding is_hex_of_length
  digest-checked b =
      rw (both-true (eqb (length (sha256 b)) 64) (all is_hex (sha256 b)) (sha256_hex b)).0
        (sha256_base_16 b)

  digest-lower : (b : Bytes) → lower (sha256 b) ≡ sha256 b
  unfolding is_hex_of_length
  digest-lower b =
      lower-hex (sha256 b)
        (both-true (eqb (length (sha256 b)) 64) (all is_hex (sha256 b)) (sha256_hex b)).1

  abbrev RequestRead : ReplayRequest → Type 0
  RequestRead r = parse_request ip_text is_base_16 r ≡ ok r

  request_of-read :
      (a : RequestArguments) (r : ReplayRequest)
      → request_of ip_text is_base_16 fingerprint sha256 a ≡ ok r
      → RequestRead r
  unfolding request_of
  request_of-read a r h =
      let (t, et, c) = bind-eq-ok (normalize_transport a.transport) _ h in
      let (ip, ei, d) = bind-eq-ok (normalize_ip ip_text is_base_16 a.remote_ip) _ c in
      let (port, ep, e) = bind-eq-ok (normalize_port a.remote_port) _ d in
      let (hint, eh, f) = bind-eq-ok (normalize_protocol_hint a.protocol_hint) _ e in
      subst RequestRead (ok-inj f) (
        request_of_parts ip_text is_base_16 ip_again base_16_lower t ip (sha256 a.request_bytes)
          port (pos (length a.request_bytes)) hint (normalize_transport_again a.transport t et)
          (normalize_ip_again ip_text is_base_16 ip_again base_16_lower a.remote_ip ip ei)
          (normalize_port_again a.remote_port port ep)
          (normalize_protocol_hint_again a.protocol_hint hint eh) (digest-checked a.request_bytes)
          (digest-lower a.request_bytes) refl)

  new_entry-IsRead :
      (now : String) (a : AddArguments) (r : ReplayRequest)
      → request_of ip_text is_base_16 fingerprint sha256 a.about ≡ ok r
      → in_range 0 60000 a.delay_ms ≡ true
      → IsRead ip_text is_base_16 ip_again base_16_lower fingerprint
          (new_entry ip_text is_base_16 fingerprint sha256 now a r)
  new_entry-IsRead now a r h delay =
      entry_of_parts ip_text is_base_16 ip_again base_16_lower fingerprint (fingerprint r) now r _
        a.source_run_id a.notes (request_of-read a.about r h)
        (response_of_parts ip_text is_base_16 ip_again base_16_lower
          (response_path (sha256 a.response_bytes)) (sha256 a.response_bytes)
          (pos (length a.response_bytes)) a.delay_ms a.close_after_send
          (safe_relative_path-response (sha256 a.response_bytes) (sha256_hex a.response_bytes))
          (digest-checked a.response_bytes) (digest-lower a.response_bytes) refl delay)
        (text_eq_refl (fingerprint r))

  entries_of-IsRead :
      (o : Option (List ReplayEntry)) (es : List ReplayEntry)
      → entries_of ip_text is_base_16 fingerprint sha256 o ≡ ok es
      → All (IsRead ip_text is_base_16 ip_again base_16_lower fingerprint) es
  entries_of-IsRead none es h = cc
  entries_of-IsRead (some raws) es h =
      traverse-IsRead ip_text is_base_16 ip_again base_16_lower fingerprint raws es h

  load_entries-IsRead :
      (store : ReplayStore) (es : List ReplayEntry)
      → load_entries ip_text is_base_16 fingerprint sha256 store ≡ ok es
      → All (IsRead ip_text is_base_16 ip_again base_16_lower fingerprint) es
  unfolding load_entries
  load_entries-IsRead store es h = entries_of-IsRead store.index es h

  -- The index that a successful `add` writes can be read, as it was written.
  load_entries-add :
      (now : String) (a : AddArguments) (store after : ReplayStore) (entry : ReplayEntry)
      (added : IsAdded ip_text is_base_16 fingerprint sha256 now a store after entry)
      → in_range 0 60000 a.delay_ms ≡ true
      → load_entries ip_text is_base_16 fingerprint sha256 after ≡ ok (updated entry added.entries)
  unfolding load_entries
  load_entries-add now a store after entry added delay = rw added.index_written (
      traverse-read ip_text is_base_16 ip_again base_16_lower fingerprint
        (updated entry added.entries)
        (All-updated (IsRead ip_text is_base_16 ip_again base_16_lower fingerprint) entry
          added.entries
          (subst (IsRead ip_text is_base_16 ip_again base_16_lower fingerprint) added.made
            (new_entry-IsRead now a added.request added.request_made delay))
          (load_entries-IsRead (initialize store) added.entries added.entries_read)))

  -- Blobs that were there still are.
  abbrev Keeps : ReplayStore → ReplayStore → Type 0
  Keeps store after =
      (j : Text) (b : Bytes) → find_blob j store.blobs ≡ some b → find_blob j after.blobs ≡ some b

  add-Keeps :
      (now : String) (a : AddArguments) (store after : ReplayStore) (entry : ReplayEntry)
      → IsAdded ip_text is_base_16 fingerprint sha256 now a store after entry
      → Keeps store after
  add-Keeps now a store after entry added j b h =
      let first =
        write_blob-IsWritten (request_path entry.entry_id) a.about.request_bytes store.blobs
          added.between added.request_written in
      let second =
        write_blob-IsWritten entry.response.blob_path a.response_bytes added.between after.blobs
          added.response_written in
      second.1 j b (first.1 j b h)

  checked_blob-kept :
      (entry : ReplayEntry) (o o' : Option Bytes) (b : Bytes)
      → ((c : Bytes) → o ≡ some c → o' ≡ some c)
      → checked_blob ip_text is_base_16 fingerprint sha256 entry o ≡ ok b
      → checked_blob ip_text is_base_16 fingerprint sha256 entry o' ≡ ok b
  checked_blob-kept entry none o' b k h = cc
  checked_blob-kept entry (some c) o' b k h = rw (k c refl) h

  read_response-kept :
      (entry : ReplayEntry) (store after : ReplayStore) (b : Bytes)
      → Keeps store after
      → read_response ip_text is_base_16 fingerprint sha256 entry store ≡ ok b
      → read_response ip_text is_base_16 fingerprint sha256 entry after ≡ ok b
  unfolding read_response
  read_response-kept entry store after b k h =
      let (path, e, g) = bind-eq-ok (safe_relative_path entry.response.blob_path) _ h in
      rw e (
        checked_blob-kept entry (find_blob path store.blobs) (find_blob path after.blobs) b
          (λ c found. k path c found) g)

  lookup_found-kept :
      (id : Text) (store after : ReplayStore) (o : Option ReplayEntry) (r : ReplayLookup)
      → Keeps store after
      → lookup_found ip_text is_base_16 fingerprint sha256 id store o ≡ ok r
      → lookup_found ip_text is_base_16 fingerprint sha256 id after o ≡ ok r
  lookup_found-kept id store after none r k h = h
  lookup_found-kept id store after (some entry) r k h =
      let (b, e, g) =
        bind-eq-ok (read_response ip_text is_base_16 fingerprint sha256 entry store) _ h in
      rw (read_response-kept entry store after b k e) g

  -- What a lookup of the new entry gives.
  abbrev pub hit_of : AddArguments → ReplayEntry → ReplayLookup
  hit_of a entry = record {
    hit = true;
    fingerprint = entry.entry_id;
    entry = some entry;
    response_bytes = some a.response_bytes;
  }

  read_response-add :
      (now : String) (a : AddArguments) (store after : ReplayStore) (entry : ReplayEntry)
      → IsAdded ip_text is_base_16 fingerprint sha256 now a store after entry
      → read_response ip_text is_base_16 fingerprint sha256 entry after ≡ ok a.response_bytes
  unfolding read_response
  read_response-add now a store after entry added =
      let second =
        write_blob-IsWritten entry.response.blob_path a.response_bytes added.between after.blobs
          added.response_written in
      subst
        (λ (u : ReplayEntry).
          (find_blob u.response.blob_path after.blobs ≡ some a.response_bytes)
          → read_response ip_text is_base_16 fingerprint sha256 u after ≡ ok a.response_bytes)
        added.made
        (λ found.
          rw
            (
              safe_relative_path-response (sha256 a.response_bytes) (sha256_hex a.response_bytes),
              found,
              (eqb_iff (length a.response_bytes) (length a.response_bytes)).1 refl,
              text_eq_refl (sha256 a.response_bytes),
            )
            refl)
        second.0

  lookup_fingerprint_self :
      (now : String) (a : AddArguments) (store after : ReplayStore) (entry : ReplayEntry)
      → IsAdded ip_text is_base_16 fingerprint sha256 now a store after entry
      → in_range 0 60000 a.delay_ms ≡ true
      → lookup_fingerprint ip_text is_base_16 fingerprint sha256 entry.entry_id after
        ≡ ok (hit_of a entry)
  unfolding lookup_fingerprint
  lookup_fingerprint_self now a store after entry added delay =
      rw
        (
          load_entries-add now a store after entry added delay,
          find_entry-updated entry.entry_id entry added.entries,
          text_eq_refl entry.entry_id,
          read_response-add now a store after entry added,
        )
        refl

  -- After an `add` that returns, with a delay in its range, a lookup of the same request gives the
  -- new entry and its response.
  pub lookup-add :
      (limits : ReplayLimits) (now : String) (a : AddArguments) (store after : ReplayStore)
      (entry : ReplayEntry)
      → in_range 0 60000 a.delay_ms ≡ true
      → add ip_text is_base_16 fingerprint sha256 limits now a store ≡ (after, ok entry)
      → lookup ip_text is_base_16 fingerprint sha256 a.about after ≡ ok (hit_of a entry)
  unfolding lookup
  lookup-add limits now a store after entry delay h =
      let added =
        add-IsAdded ip_text is_base_16 fingerprint sha256 limits now a store after entry h in
      rw added.request_made (
        subst
          (λ id.
            lookup_fingerprint ip_text is_base_16 fingerprint sha256 id after ≡ ok (hit_of a entry))
          (sym (ap (λ (u : ReplayEntry). u.entry_id) added.made))
          (lookup_fingerprint_self now a store after entry added delay))

  -- An `add` that returns, with a delay in its range, changes the store as a map at one fingerprint:
  -- a lookup that succeeded before gives the new response there, and elsewhere what it gave.
  pub lookup_fingerprint-add :
      (limits : ReplayLimits) (now : String) (a : AddArguments) (store after : ReplayStore)
      (entry : ReplayEntry) (id : Text) (r : ReplayLookup)
      → in_range 0 60000 a.delay_ms ≡ true
      → add ip_text is_base_16 fingerprint sha256 limits now a store ≡ (after, ok entry)
      → lookup_fingerprint ip_text is_base_16 fingerprint sha256 id (initialize store) ≡ ok r
      → lookup_fingerprint ip_text is_base_16 fingerprint sha256 id after
        ≡ ok (if has_id id entry then hit_of a entry else r)
  unfolding lookup_fingerprint
  lookup_fingerprint-add limits now a store after entry id r delay h before =
      let added =
        add-IsAdded ip_text is_base_16 fingerprint sha256 limits now a store after entry h in
      elim (Bool-cases (has_id id entry)) [
        | inl same ↦ rw same (
            subst
              (λ k.
                lookup_fingerprint ip_text is_base_16 fingerprint sha256 k after
                ≡ ok (hit_of a entry))
              (text_eq→eq entry.entry_id id same)
              (lookup_fingerprint_self now a store after entry added delay))
        | inr apart ↦
            rw
              (
                apart,
                load_entries-add now a store after entry added delay,
                find_entry-updated id entry added.entries,
                apart,
              )
              (lookup_found-kept id (initialize store) after (find_entry id added.entries) r
                (add-Keeps now a store after entry added)
                (subst
                  (λ u.
                    (u >>= λ es.
                    lookup_found ip_text is_base_16 fingerprint sha256 id (initialize store)
                      (find_entry id es))
                    ≡ ok r)
                  added.entries_read before))
      ]
