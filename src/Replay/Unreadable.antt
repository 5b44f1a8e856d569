-- ===== src/Replay/Unreadable.antt =====
-- `add` does not check the delay that it writes.
use mathlib.Core.Path.{subst}
use taint_forge_io_t.Prelude.{
  Bool, Bool-cases, List, Option, Result, String, Text, [], arith, bind-eq-ok, eqb, false,
  if◌then◌else◌, inl, inr, is_negative, length, ok, refl, refuse-passed, require-passed, some,
  some-inj, sym, text_eq_refl, traverse, true, ◌&&◌, ◌∷◌, ◌≡◌, ◌≢◌,
}
use taint_forge_io_t.Replay.Added.{add-IsAdded}
use taint_forge_io_t.Replay.Reload.{find_entry-updated}
use taint_forge_io_t.Replay.Request.{
  Bytes, ReplayEntry, ReplayRequest, ReplayStoreError, in_range, parse_entry, parse_request,
  parse_response, safe_relative_path,
}
use taint_forge_io_t.Replay.Store.{
  AddArguments, ReplayLimits, ReplayStore, add, entries_of, find_entry, has_id, load_entries,
  updated,
}

traverse-find :
    (parse : ReplayEntry → Result ReplayStoreError ReplayEntry) (id : Text)
    (raws es : List ReplayEntry) (e : ReplayEntry)
    → traverse parse raws ≡ ok es
    → find_entry id raws ≡ some e
    → (e' : ReplayEntry) × (parse e ≡ ok e')
traverse-find parse id [] es e h f = cc
traverse-find parse id (raw ∷ raws) es e h f =
    let (x, ex, a) = bind-eq-ok (parse raw) _ h in
    let (rest, er, b) = bind-eq-ok (traverse parse raws) _ a in
    elim (Bool-cases (has_id id raw)) [
      | inl same ↦ (
        x,
        subst (λ u. parse u ≡ ok x)
            (some-inj (subst (λ t. (if t then some raw else find_entry id raws) ≡ some e) same f))
            ex,
      )
      | inr apart ↦
          traverse-find parse id raws rest e er
            (subst (λ t. (if t then some raw else find_entry id raws) ≡ some e) apart f)
    ]

module _ (ip_text : Text → Option Text) (is_base_16 : Text → Bool)
    (fingerprint : ReplayRequest → Text) (sha256 : Bytes → Text) where
  parse_entry-delay :
      (raw e : ReplayEntry)
      → parse_entry ip_text is_base_16 fingerprint raw ≡ ok e
      → in_range 0 60000 raw.response.delay_ms ≡ true
  unfolding parse_entry parse_response
  parse_entry-delay raw e h =
      let (request, eq, a) = bind-eq-ok (parse_request ip_text is_base_16 raw.request) _ h in
      let (response, er, b) = bind-eq-ok (parse_response ip_text is_base_16 raw.response) _ a in
      let (safe, ep, c) = bind-eq-ok (safe_relative_path raw.response.blob_path) _ er in
      let d =
        require-passed (eqb (length raw.response.sha256) 64 && is_base_16 raw.response.sha256) _ _
          c in
      let f = refuse-passed (is_negative raw.response.size) _ _ d.1 in
      (require-passed (in_range 0 60000 raw.response.delay_ms) _ _ f.1).0

  -- Where `add` returns for a delay out of the range that the index allows, the index that it has
  -- written cannot be loaded.
  pub load_entries-unreadable :
      (limits : ReplayLimits) (now : String) (a : AddArguments) (store after : ReplayStore)
      (entry : ReplayEntry)
      → in_range 0 60000 a.delay_ms ≡ false
      → add ip_text is_base_16 fingerprint sha256 limits now a store ≡ (after, ok entry)
      → (es : List ReplayEntry) → load_entries ip_text is_base_16 fingerprint sha256 after ≢ ok es
  unfolding load_entries
  load_entries-unreadable limits now a store after entry delay h es loaded =
      let added =
        add-IsAdded ip_text is_base_16 fingerprint sha256 limits now a store after entry h in
      let (e', read) =
        traverse-find (parse_entry ip_text is_base_16 fingerprint) entry.entry_id
          (updated entry added.entries) es entry
          (subst (λ o. entries_of ip_text is_base_16 fingerprint sha256 o ≡ ok es)
            added.index_written loaded)
          (rw (find_entry-updated entry.entry_id entry added.entries, text_eq_refl entry.entry_id)
            refl) in
      let passed =
        subst (λ (u : ReplayEntry). in_range 0 60000 u.response.delay_ms ≡ true) (sym added.made)
          (parse_entry-delay entry e' read) in
      ground (arith, passed, delay)
