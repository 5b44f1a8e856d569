-- ===== src/Replay/Added.antt =====
-- What a successful `add` has done.
use mathlib.Core.Path.{subst}
use taint_forge_io_t.Prelude.{
  Bool, Bool-cases, List, Option, Result, String, Text, any, ap, arith, bind-eq-ok, err, inl, inr,
  length, ltb, none, not, ok, ok-inj, refl, refuse-passed, require-passed, some, sym, text_eq,
  text_eq_refl, text_eq→eq, ◌&&◌, ◌∙◌, ◌∷◌, ◌≡◌,
}
use taint_forge_io_t.Replay.Request.{Bytes, ReplayEntry, ReplayRequest, ReplayStoreError}
use taint_forge_io_t.Replay.Store.{
  AddArguments, ReplayLimits, ReplayStore, add, after_checks, after_request, after_response,
  find_blob, has_id, initialize, load_entries, new_entry, prepare_add, request_of, request_path,
  updated, write_blob, write_found,
}

module _ (ip_text : Text → Option Text) (is_base_16 : Text → Bool)
    (fingerprint : ReplayRequest → Text) (sha256 : Bytes → Text) where
  pub record IsAdded (now : String) (a : AddArguments) (store after : ReplayStore)
      (entry : ReplayEntry) : Type 0 where
    pub request : ReplayRequest
    pub request_made : request_of ip_text is_base_16 fingerprint sha256 a.about ≡ ok request
    pub entries : List ReplayEntry
    pub entries_read :
        load_entries ip_text is_base_16 fingerprint sha256 (initialize store) ≡ ok entries
    pub made : new_entry ip_text is_base_16 fingerprint sha256 now a request ≡ entry
    pub between : List (Text × Bytes)
    pub request_written :
        write_blob (request_path entry.entry_id) a.about.request_bytes store.blobs ≡ ok between
    pub response_written :
        write_blob entry.response.blob_path a.response_bytes between ≡ ok after.blobs
    pub index_written : after.index ≡ some (updated entry entries)

  after_response-ok :
      (now : String) (a : AddArguments) (p : ReplayEntry × List ReplayEntry)
      (store after : ReplayStore) (entry : ReplayEntry)
      (r : Result ReplayStoreError (List (Text × Bytes)))
      → after_response ip_text is_base_16 fingerprint sha256 p store r ≡ (after, ok entry)
      → (r ≡ ok after.blobs) × (p.0 ≡ entry) × (after.index ≡ some (updated p.0 p.1))
  after_response-ok now a p store after entry (err e) h = cc
  after_response-ok now a p store after entry (ok blobs) h = (
    ap (λ (u : ReplayStore × Result ReplayStoreError ReplayEntry). ok u.0.blobs) h,
    ok-inj (ap (λ (u : ReplayStore × Result ReplayStoreError ReplayEntry). u.1) h),
    sym (ap (λ (u : ReplayStore × Result ReplayStoreError ReplayEntry). u.0.index) h),
  )

  after_request-ok :
      (now : String) (a : AddArguments) (p : ReplayEntry × List ReplayEntry)
      (store after : ReplayStore) (entry : ReplayEntry)
      (r : Result ReplayStoreError (List (Text × Bytes)))
      → after_request ip_text is_base_16 fingerprint sha256 a p store r ≡ (after, ok entry)
      → (between : List (Text × Bytes)) × (r ≡ ok between)
        × (write_blob p.0.response.blob_path a.response_bytes between ≡ ok after.blobs)
        × (p.0 ≡ entry)
        × (after.index ≡ some (updated p.0 p.1))
  after_request-ok now a p store after entry (err e) h = cc
  after_request-ok now a p store after entry (ok blobs) h =
      let r =
        after_response-ok now a p (record { index = store.index; blobs = blobs }) after entry
          (write_blob p.0.response.blob_path a.response_bytes blobs) h in
      (blobs, refl, r.0, r.1, r.2)

  after_checks-ok :
      (now : String) (a : AddArguments) (store after : ReplayStore) (entry : ReplayEntry)
      (r : Result ReplayStoreError (ReplayEntry × List ReplayEntry))
      → after_checks ip_text is_base_16 fingerprint sha256 a store r ≡ (after, ok entry)
      → (p : ReplayEntry × List ReplayEntry) × (r ≡ ok p)
        × (after_request ip_text is_base_16 fingerprint sha256 a p store
              (write_blob (request_path p.0.entry_id) a.about.request_bytes store.blobs)
            ≡ (after, ok entry))
  after_checks-ok now a store after entry (err e) h = cc
  after_checks-ok now a store after entry (ok p) h = (p, refl, h)

  pub add-IsAdded :
      (limits : ReplayLimits) (now : String) (a : AddArguments) (store after : ReplayStore)
      (entry : ReplayEntry)
      → add ip_text is_base_16 fingerprint sha256 limits now a store ≡ (after, ok entry)
      → IsAdded now a store after entry
  unfolding add prepare_add
  add-IsAdded limits now a store after entry h =
      let (p, ep, k) =
        after_checks-ok now a (initialize store) after entry
          (prepare_add ip_text is_base_16 fingerprint sha256 limits now a (initialize store)) h in
      let w =
        after_request-ok now a p (initialize store) after entry
          (write_blob (request_path p.0.entry_id) a.about.request_bytes store.blobs) k in
      let c = refuse-passed (ltb limits.max_request_bytes (length a.about.request_bytes)) _ _ ep in
      let d = refuse-passed (ltb limits.max_response_bytes (length a.response_bytes)) _ _ c.1 in
      let (request, er, e) =
        bind-eq-ok (request_of ip_text is_base_16 fingerprint sha256 a.about) _ d.1 in
      let (entries, el, f) =
        bind-eq-ok (load_entries ip_text is_base_16 fingerprint sha256 (initialize store)) _ e in
      let g = refuse-passed (any (has_id (fingerprint request)) entries && not a.replace) _ _ f in
      let made : p.0 ≡ new_entry ip_text is_base_16 fingerprint sha256 now a request =
        ap (λ (u : ReplayEntry × List ReplayEntry). u.0) (sym (ok-inj g.1)) in
      let listed : p.1 ≡ entries =
        ap (λ (u : ReplayEntry × List ReplayEntry). u.1) (sym (ok-inj g.1)) in
      record {
        request = request;
        request_made = er;
        entries = entries;
        entries_read = el;
        made = sym made ∙ w.3;
        between = w.0;
        request_written =
            subst
              (λ (u : ReplayEntry).
                write_blob (request_path u.entry_id) a.about.request_bytes store.blobs ≡ ok w.0)
              w.3 w.1;
        response_written =
            subst
              (λ (u : ReplayEntry).
                write_blob u.response.blob_path a.response_bytes w.0 ≡ ok after.blobs)
              w.3 w.2;
        index_written =
            w.4
            ∙ ap (λ (u : ReplayEntry × List ReplayEntry). some (updated u.0 u.1))
                (subst (λ v. p ≡ (v, entries)) w.3
                  (sym (ok-inj g.1) ∙ ap (λ v. (v, entries)) (sym made)));
      }

-- A blob that is there stays, and the one that is written is there.
abbrev pub IsWritten : Text → Bytes → List (Text × Bytes) → List (Text × Bytes) → Type 0
IsWritten k content blobs blobs' =
    (find_blob k blobs' ≡ some content)
    × ((j : Text) (b : Bytes) → find_blob j blobs ≡ some b → find_blob j blobs' ≡ some b)

put-IsWritten :
    (k : Text) (content : Bytes) (blobs : List (Text × Bytes))
    → find_blob k blobs ≡ none
    → IsWritten k content blobs ((k, content) ∷ blobs)
put-IsWritten k content blobs e = (
  rw (text_eq_refl k) refl,
  λ j b h. elim (Bool-cases (text_eq k j)) [
    | inl same ↦ ground (arith, e, h, ap (λ u. find_blob u blobs) (text_eq→eq k j same))
    | inr apart ↦ rw apart h
  ],
)

write_found-IsWritten :
    (k : Text) (content : Bytes) (blobs blobs' : List (Text × Bytes)) (o : Option Bytes)
    → find_blob k blobs ≡ o
    → write_found k content blobs o ≡ ok blobs'
    → IsWritten k content blobs blobs'
write_found-IsWritten k content blobs blobs' none e h =
    subst (IsWritten k content blobs) (ok-inj h) (put-IsWritten k content blobs e)
write_found-IsWritten k content blobs blobs' (some old) e h =
    let p = require-passed (text_eq old content) _ _ h in
    subst (IsWritten k content blobs) (ok-inj p.1)
      (e ∙ ap some (text_eq→eq old content p.0), λ j b found. found)

pub write_blob-IsWritten :
    (k : Text) (content : Bytes) (blobs blobs' : List (Text × Bytes))
    → write_blob k content blobs ≡ ok blobs'
    → IsWritten k content blobs blobs'
write_blob-IsWritten k content blobs blobs' h =
    write_found-IsWritten k content blobs blobs' (find_blob k blobs) refl h
