-- ===== src/Progress/Metrics.antt =====
-- `ProgressMetrics`, `IterationObservation` and `ProgressOracle.observe`.
use taint_forge_io_t.Prelude.{
  Bool, Fields, Json, List, Option, Result, String, [], as_int, contains, count, eqb, err, false,
  get, if◌then◌else◌, length, map, negsuc, none, object, ok, pos, require, some, string, true,
  unique, ℕ, ℤ, ◌&&◌, ◌==◌, ◌>>=◌, ◌>>◌, ◌∷◌,
}
use taint_forge_io_t.Progress.Events.{
  GuestEvent, NetworkEvent, NormalizedRepair, NormalizedRequirement, ProgressOracleError,
  bad_directory, ending, missing_artifact, normalize_guest_events, normalize_network_events,
  normalize_repairs, normalize_requirements, source_mismatch, unreadable_artifact,
}

pub record ProgressMetrics : Type 0 where
  pub guest_events_total : ℕ
  pub unique_guest_events : ℕ
  pub network_events_total : ℕ
  pub unique_network_targets : ℕ
  pub requirements_total : ℕ
  pub unmet_total : ℕ
  pub likely_unmet_total : ℕ
  pub automatic_candidates : ℕ
  pub review_required : ℕ
  pub manual_analysis : ℕ
  pub fatal_signals : ℕ

pub record IterationObservation : Type 0 where
  pub requirements_sha256 : String
  pub requirements_fingerprint : String
  pub repair_plan_sha256 : String
  pub repair_fingerprint : String
  pub behavior_fingerprint : String
  pub state_fingerprint : String
  pub metrics : ProgressMetrics
  pub normalized_guest_events : List GuestEvent
  pub normalized_network_events : List NetworkEvent
  pub goal_reached : Bool
  pub goal_reason : Option String

-- The integer of a port, where it is one.
abbrev pub port_number : Option Json → Option ℤ
port_number none = none
port_number (some v) = as_int v

abbrev pub target_of : Option String → Option ℤ → List (String × ℤ) → List (String × ℤ)
target_of (some ip) (some port) rest = (ip, port) ∷ rest
target_of _ _ rest = rest

-- The pairs of `_network_targets`, before they become a set.
unfoldable pub network_targets : List NetworkEvent → List (String × ℤ)
network_targets [] = []
network_targets (e ∷ es) =
    target_of e.original_remote_ip (port_number e.original_remote_port) (network_targets es)

abbrev pub int_eq : ℤ → ℤ → Bool
int_eq (pos m) (pos n) = eqb m n
int_eq (negsuc m) (negsuc n) = eqb m n
int_eq _ _ = false

abbrev pub target_eq : String × ℤ → String × ℤ → Bool
target_eq s t = s.0 == t.0 && int_eq s.1 t.1

abbrev pub canonical_eq : String → String → Bool
canonical_eq s t = s == t

abbrev pub is_signal : GuestEvent → Bool
is_signal (ending event _) = event == "signal"
is_signal _ = false

-- `canonical_json` is `json.dumps` with sorted keys.
module _ (canonical_json : GuestEvent → String) where
  unfoldable pub build_metrics :
      List NormalizedRequirement
      → List NormalizedRepair
      → List GuestEvent
      → List NetworkEvent
      → ProgressMetrics
  unfolding network_targets unique contains
  build_metrics requirements repairs guest_events network_events = record {
    guest_events_total = length guest_events;
    unique_guest_events = length (unique canonical_eq (map canonical_json guest_events));
    network_events_total = length network_events;
    unique_network_targets = length (unique target_eq (network_targets network_events));
    requirements_total = length requirements;
    unmet_total = count (λ r. r.status == "unmet") requirements;
    likely_unmet_total = count (λ r. r.status == "unmet" && r.blocking == "likely") requirements;
    automatic_candidates = count (λ r. r.automatic_allowed) repairs;
    review_required = count (λ r. r.disposition == "review_required") repairs;
    manual_analysis = count (λ r. r.disposition == "manual_analysis") repairs;
    fatal_signals = count is_signal guest_events;
  }

-- A file of an artifacts directory: the digest of its bytes, and its JSON value, if it has one.
pub record ArtifactFile : Type 0 where
  pub sha256 : String
  pub content : Option Json

-- What `_locate_file` finds below an artifacts directory, and the events of the optional files.
pub record Artifacts : Type 0 where
  pub is_directory : Bool
  pub requirements : Option ArtifactFile
  pub repair_plan : Option ArtifactFile
  pub syscall_events : Option (List (Option Json))
  pub network_events : Option (List (Option Json))

abbrev pub located : Option ArtifactFile → Result ProgressOracleError ArtifactFile
located none = err missing_artifact
located (some f) = ok f

abbrev pub load_object : Option Json → Result ProgressOracleError Fields
load_object (some (object fs)) = ok fs
load_object _ = err unreadable_artifact

abbrev pub events_of :
    {A : Type 0}
    → (List (Option Json) → Result ProgressOracleError (List A))
    → Option (List (Option Json))
    → Result ProgressOracleError (List A)
events_of read none = ok []
events_of read (some lines) = read lines

-- `repair_plan.get("source_sha256") != requirements_sha256`
abbrev pub references : Json → String → Bool
references (string s) digest = s == digest
references _ digest = false

-- `_digest_json` of the payloads of `observe`.
pub record Digests : Type 0 where
  pub of_requirements : List NormalizedRequirement → String
  pub of_repairs : List NormalizedRepair → String
  pub of_behavior : List GuestEvent → List NetworkEvent → String
  pub of_state : (snapshot requirements repairs behavior : String) → String

-- `if goal_reached and not goal_reason: goal_reason = "explicit goal marker supplied"`
abbrev pub default_reason : Bool → Option String → Option String
default_reason true none = some "explicit goal marker supplied"
default_reason true (some s) = if s == "" then some "explicit goal marker supplied" else some s
default_reason false reason = reason

module _ (render : Json → String) (canonical_json : GuestEvent → String) (digests : Digests) where
  unfoldable pub observe :
      Artifacts → String → Bool → Option String → Result ProgressOracleError IterationObservation
  unfolding build_metrics normalize_requirements normalize_repairs normalize_guest_events
      normalize_network_events
  observe artifacts environment_snapshot_id goal_reached goal_reason = do
    require artifacts.is_directory bad_directory
    requirements_file ← located artifacts.requirements
    repair_plan_file ← located artifacts.repair_plan
    requirements ← load_object requirements_file.content
    repair_plan ← load_object repair_plan_file.content
    require (references (get "source_sha256" repair_plan) requirements_file.sha256) source_mismatch
    normalized_requirements ← normalize_requirements requirements
    normalized_repairs ← normalize_repairs repair_plan
    guest_events ← events_of (normalize_guest_events render) artifacts.syscall_events
    network_events ← events_of (normalize_network_events render) artifacts.network_events
    let requirements_fingerprint = digests.of_requirements normalized_requirements
    let repair_fingerprint = digests.of_repairs normalized_repairs
    let behavior_fingerprint = digests.of_behavior guest_events network_events
    ok (record {
      requirements_sha256 = requirements_file.sha256;
      requirements_fingerprint = requirements_fingerprint;
      repair_plan_sha256 = repair_plan_file.sha256;
      repair_fingerprint = repair_fingerprint;
      behavior_fingerprint = behavior_fingerprint;
      state_fingerprint =
          digests.of_state environment_snapshot_id requirements_fingerprint repair_fingerprint
            behavior_fingerprint;
      metrics =
          build_metrics canonical_json normalized_requirements normalized_repairs guest_events
            network_events;
      normalized_guest_events = guest_events;
      normalized_network_events = network_events;
      goal_reached = goal_reached;
      goal_reason = default_reason goal_reached goal_reason;
    })
