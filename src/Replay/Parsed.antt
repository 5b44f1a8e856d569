-- ===== src/Replay/Parsed.antt =====
-- An entry that has been read, and an entry that `add` makes, is read as it is.
use mathlib.Core.Path.{subst}
use taint_forge_io_t.Guest.Paths.{as_posix, components, is_slash, join, root, split}
use taint_forge_io_t.Loop.Run.{run}
use taint_forge_io_t.Prelude.{
  All, Bool, List, Option, Option-cases, String, Text, [], all, ap, arith, bind-eq-ok, both-true,
  codes, eqb, false, inl, inr, is_hex, is_hex_of_length, is_negative, length, lower, lower_idem,
  not, not-true, ok, ok-inj, refl, refuse-passed, require-passed, some, text_eq, traverse, true, ℕ,
  ℤ, ◌&&◌, ◌++◌, ◌∙◌, ◌∷◌, ◌≡◌,
}
use taint_forge_io_t.Replay.Normal.{
  length-lower, normalize_port_again, normalize_protocol_hint_again, normalize_transport_again,
}
use taint_forge_io_t.Replay.Request.{
  ReplayEntry, ReplayRequest, ReplayResponse, in_range, normalize_ip, normalize_port,
  normalize_protocol_hint, normalize_transport, parse_entry, parse_request, parse_response,
  safe_relative_path,
}
use taint_forge_io_t.Replay.Store.{response_path}
use taint_forge_io_t.Session.Completion.{close}

split-part : (w : Text) → all (λ c. not (is_slash c)) w ≡ true → split w ≡ w ∷ []
unfolding split
split-part [] h = refl
split-part (c ∷ w) h =
    let both = both-true (not (is_slash c)) (all (λ d. not (is_slash d)) w) h in
    rw (split-part w both.1) (rw (not-true (is_slash c) both.0) refl)

no_slash : (d : Text) → all is_hex d ≡ true → all (λ c. not (is_slash c)) (d ++ codes ".bin") ≡ true
no_slash [] h = refl
no_slash (c ∷ d) h = ground (arith, no_slash d)

not_dot : (c : ℕ) → is_hex c ≡ true → eqb c b'.' ≡ false
not_dot c h = ground arith

dot_not : (c : ℕ) → is_hex c ≡ true → eqb b'.' c ≡ false
dot_not c h = ground arith

-- The path of a response below the root.
response_path-parts :
    (d : Text)
    → is_hex_of_length 64 d ≡ true
    → components (response_path d) ≡ codes "responses" ∷ (d ++ codes ".bin") ∷ []
unfolding components split is_hex_of_length
response_path-parts [] h = ground arith
response_path-parts (c ∷ d) h =
    let both = both-true (eqb (length (c ∷ d)) 64) (all is_hex (c ∷ d)) h in
    let digit = both-true (is_hex c) (all is_hex d) both.1 in
    rw (split-part ((c ∷ d) ++ codes ".bin") (no_slash (c ∷ d) both.1))
      (rw (not_dot c digit.0) refl)

pub safe_relative_path-response :
    (d : Text)
    → is_hex_of_length 64 d ≡ true
    → safe_relative_path (response_path d) ≡ ok (response_path d)
unfolding safe_relative_path as_posix join root is_hex_of_length
safe_relative_path-response [] h = ground arith
safe_relative_path-response (c ∷ d) h =
    let both = both-true (eqb (length (c ∷ d)) 64) (all is_hex (c ∷ d)) h in
    let digit = both-true (is_hex c) (all is_hex d) both.1 in
    rw (response_path-parts (c ∷ d) h) (rw (dot_not c digit.0) refl)

module _ (ip_text : Text → Option Text) (is_base_16 : Text → Bool)
    (ip_again : (v w : Text) → ip_text v ≡ some w → ip_text w ≡ some w)
    (base_16_lower : (s : Text) → is_base_16 s ≡ true → is_base_16 (lower s) ≡ true) where
  pub normalize_ip_again :
      (v w : Text)
      → normalize_ip ip_text is_base_16 v ≡ ok w
      → normalize_ip ip_text is_base_16 w ≡ ok w
  normalize_ip_again v w h = elim (Option-cases (ip_text v)) [
    | inl e ↦ ground (arith, e)
    | inr (t, e) ↦ let same : t ≡ w = ground (arith, e) in rw (ip_again v w (e ∙ ap some same)) refl
  ]

  check_digest_again :
      (d : Text)
      → (eqb (length d) 64 && is_base_16 d) ≡ true
      → (eqb (length (lower d)) 64 && is_base_16 (lower d)) ≡ true
  check_digest_again d h =
      let both = both-true (eqb (length d) 64) (is_base_16 d) h in
      rw (length-lower d, both.0, base_16_lower d both.1) refl

  abbrev RequestAgain : ReplayRequest → Type 0
  RequestAgain r = parse_request ip_text is_base_16 r ≡ ok r

  pub request_of_parts :
      (t ip digest : Text) (port size : ℤ) (hint : Option Text)
      → normalize_transport t ≡ ok t
      → normalize_ip ip_text is_base_16 ip ≡ ok ip
      → normalize_port port ≡ ok port
      → normalize_protocol_hint hint ≡ ok hint
      → (eqb (length digest) 64 && is_base_16 digest) ≡ true
      → lower digest ≡ digest
      → is_negative size ≡ false
      → RequestAgain (record {
        transport = t;
        remote_ip = ip;
        remote_port = port;
        payload_sha256 = digest;
        payload_size = size;
        protocol_hint = hint;
      })
  unfolding parse_request
  request_of_parts t ip digest port size hint ht hi hp hh hd hl hs =
      rw (hd, hs, ht, hi, hp, hh, hl) refl

  parse_request_again :
      (raw r : ReplayRequest) → parse_request ip_text is_base_16 raw ≡ ok r → RequestAgain r
  unfolding parse_request
  parse_request_again raw r h =
      let a =
        require-passed (eqb (length raw.payload_sha256) 64 && is_base_16 raw.payload_sha256) _ _
          h in
      let b = refuse-passed (is_negative raw.payload_size) _ _ a.1 in
      let (t, et, c) = bind-eq-ok (normalize_transport raw.transport) _ b.1 in
      let (ip, ei, d) = bind-eq-ok (normalize_ip ip_text is_base_16 raw.remote_ip) _ c in
      let (port, ep, e) = bind-eq-ok (normalize_port raw.remote_port) _ d in
      let (hint, eh, f) = bind-eq-ok (normalize_protocol_hint raw.protocol_hint) _ e in
      subst RequestAgain (ok-inj f) (
        request_of_parts t ip (lower raw.payload_sha256) port raw.payload_size hint
          (normalize_transport_again raw.transport t et) (normalize_ip_again raw.remote_ip ip ei)
          (normalize_port_again raw.remote_port port ep)
          (normalize_protocol_hint_again raw.protocol_hint hint eh)
          (check_digest_again raw.payload_sha256 a.0) (lower_idem raw.payload_sha256) b.0)

  abbrev ResponseAgain : ReplayResponse → Type 0
  ResponseAgain r = parse_response ip_text is_base_16 r ≡ ok r

  pub response_of_parts :
      (path digest : Text) (size delay : ℤ) (close : Bool) {safe : Text}
      → safe_relative_path path ≡ ok safe
      → (eqb (length digest) 64 && is_base_16 digest) ≡ true
      → lower digest ≡ digest
      → is_negative size ≡ false
      → in_range 0 60000 delay ≡ true
      → ResponseAgain (record {
        blob_path = path;
        sha256 = digest;
        size = size;
        close_after_send = close;
        delay_ms = delay;
      })
  unfolding parse_response
  response_of_parts path digest size delay close hp hd hl hs hr = rw (hp, hd, hs, hr, hl) refl

  parse_response_again :
      (raw r : ReplayResponse) → parse_response ip_text is_base_16 raw ≡ ok r → ResponseAgain r
  unfolding parse_response
  parse_response_again raw r h =
      let (safe, ep, a) = bind-eq-ok (safe_relative_path raw.blob_path) _ h in
      let b = require-passed (eqb (length raw.sha256) 64 && is_base_16 raw.sha256) _ _ a in
      let c = refuse-passed (is_negative raw.size) _ _ b.1 in
      let d = require-passed (in_range 0 60000 raw.delay_ms) _ _ c.1 in
      subst ResponseAgain (ok-inj d.1) (
        response_of_parts raw.blob_path (lower raw.sha256) raw.size raw.delay_ms
          raw.close_after_send ep (check_digest_again raw.sha256 b.0) (lower_idem raw.sha256) c.0
          d.0)

  module _ (fingerprint : ReplayRequest → Text) where
    -- An entry that reading does not change.
    abbrev pub IsRead : ReplayEntry → Type 0
    IsRead e = parse_entry ip_text is_base_16 fingerprint e ≡ ok e

    pub entry_of_parts :
        (id : Text) (now : String) (request : ReplayRequest) (response : ReplayResponse)
        (run notes : Option String)
        → RequestAgain request
        → ResponseAgain response
        → text_eq id (fingerprint request) ≡ true
        → IsRead (record {
          entry_id = id;
          created_at_utc = now;
          request = request;
          response = response;
          source_run_id = run;
          notes = notes;
        })
    unfolding parse_entry
    entry_of_parts id now request response run notes hq hr hi = rw (hq, hr, hi) refl

    parse_entry-IsRead :
        (raw e : ReplayEntry) → parse_entry ip_text is_base_16 fingerprint raw ≡ ok e → IsRead e
    unfolding parse_entry
    parse_entry-IsRead raw e h =
        let (request, eq, a) = bind-eq-ok (parse_request ip_text is_base_16 raw.request) _ h in
        let (response, er, b) = bind-eq-ok (parse_response ip_text is_base_16 raw.response) _ a in
        let c = require-passed (text_eq raw.entry_id (fingerprint request)) _ _ b in
        subst IsRead (ok-inj c.1) (
          entry_of_parts raw.entry_id raw.created_at_utc request response raw.source_run_id
            raw.notes (parse_request_again raw.request request eq)
            (parse_response_again raw.response response er) c.0)

    pub traverse-IsRead :
        (raws es : List ReplayEntry)
        → traverse (parse_entry ip_text is_base_16 fingerprint) raws ≡ ok es
        → All IsRead es
    traverse-IsRead [] es h = subst (All IsRead) (ok-inj h) tt
    traverse-IsRead (raw ∷ raws) es h =
        let (e, ee, a) = bind-eq-ok (parse_entry ip_text is_base_16 fingerprint raw) _ h in
        let (rest, et, b) =
          bind-eq-ok (traverse (parse_entry ip_text is_base_16 fingerprint) raws) _ a in
        subst (All IsRead) (ok-inj b) (parse_entry-IsRead raw e ee, traverse-IsRead raws rest et)

    pub traverse-read :
        (es : List ReplayEntry)
        → All IsRead es
        → traverse (parse_entry ip_text is_base_16 fingerprint) es ≡ ok es
    traverse-read [] h = refl
    traverse-read (e ∷ es) h = rw (h.0, traverse-read es h.1) refl
