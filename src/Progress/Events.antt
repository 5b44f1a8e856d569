-- ===== src/Progress/Events.antt =====
-- The normalised artifacts of progress_oracle.py. Dictionaries with fixed keys are records, and the
-- events of a JSONL file are the objects of its non-blank lines, `none` where a line does not parse.
use taint_forge_io_t.Prelude.{
  Bool, Fields, Json, List, Option, Result, String, [], array, as_text, boolean, err, false, get,
  get_default, if◌then◌else◌, integer, is_negative, items_list, none, not, object, ok, some, sort,
  string, texts_le, traverse, truthy, ◌==◌, ◌>>=◌, ◌||◌, ◌∷◌,
}

pub data ProgressOracleError : Type 0 where
  no_requirements no_decisions not_an_object invalid_field invalid_line : ProgressOracleError
  bad_directory missing_artifact unreadable_artifact source_mismatch : ProgressOracleError

pub record NormalizedRequirement : Type 0 where
  pub requirement_id : String
  pub kind : String
  pub resource : String
  pub operation : String
  pub status : String
  pub blocking : String
  pub repairable : Bool
  pub errno : Option String

pub record NormalizedRepair : Type 0 where
  pub decision_id : String
  pub requirement_id : String
  pub resource : String
  pub action : String
  pub disposition : String
  pub automatic_allowed : Bool

pub data GuestEvent : Type 0 where
  syscall :
      (name : String) (errno : Option String) (success : Option Bool)
      (path remote_ip : Option String) (remote_port : Option Json)
      → GuestEvent
  -- a signal or a process exit
  ending : (event result : String) → GuestEvent
  plain : (event : String) → GuestEvent

pub record NetworkEvent : Type 0 where
  pub event : String
  pub listener_type : Option String
  pub original_remote_ip : Option String
  pub original_remote_port : Option Json
  pub udp_role : Option String
  pub response_observed : Bool

-- `_string(item, field_name, index)`
abbrev pub nonempty_text : Json → Result ProgressOracleError String
nonempty_text (string s) = if s == "" then err invalid_field else ok s
nonempty_text _ = err invalid_field

abbrev pub text_field : String → Fields → Result ProgressOracleError String
text_field name fs = nonempty_text (get name fs)

normalize_requirement : Json → Result ProgressOracleError NormalizedRequirement
normalize_requirement (object fs) = do
  requirement_id ← text_field "requirement_id" fs
  kind ← text_field "kind" fs
  resource ← text_field "resource" fs
  operation ← text_field "operation" fs
  status ← text_field "status" fs
  blocking ← text_field "blocking" fs
  ok (record {
    requirement_id = requirement_id;
    kind = kind;
    resource = resource;
    operation = operation;
    status = status;
    blocking = blocking;
    repairable = truthy (get_default "repairable" (boolean false) fs);
    errno = as_text (get "errno" fs);
  })
normalize_requirement _ = err not_an_object

normalize_repair : Json → Result ProgressOracleError NormalizedRepair
normalize_repair (object fs) = do
  decision_id ← text_field "decision_id" fs
  requirement_id ← text_field "requirement_id" fs
  resource ← text_field "resource" fs
  action ← text_field "action" fs
  disposition ← text_field "disposition" fs
  ok (record {
    decision_id = decision_id;
    requirement_id = requirement_id;
    resource = resource;
    action = action;
    disposition = disposition;
    automatic_allowed = truthy (get_default "automatic_allowed" (boolean false) fs);
  })
normalize_repair _ = err not_an_object

abbrev pub list_field :
    String → ProgressOracleError → Fields → Result ProgressOracleError (List Json)
list_field name e fs = elim (get name fs) [ array xs ↦ ok (items_list xs) | _ ↦ err e ]

abbrev pub requirement_key : NormalizedRequirement → List String
requirement_key r = r.kind ∷ r.resource ∷ r.operation ∷ r.requirement_id ∷ []

unfoldable pub normalize_requirements :
    Fields → Result ProgressOracleError (List NormalizedRequirement)
unfolding normalize_requirement
normalize_requirements raw = do
  values ← list_field "requirements" no_requirements raw
  normalized ← traverse normalize_requirement values
  ok (sort (λ a b. texts_le (requirement_key a) (requirement_key b)) normalized)

unfoldable pub normalize_repairs : Fields → Result ProgressOracleError (List NormalizedRepair)
unfolding normalize_repair
normalize_repairs raw = do
  values ← list_field "decisions" no_decisions raw
  normalized ← traverse normalize_repair values
  ok (sort (λ a b. texts_le (a.decision_id ∷ []) (b.decision_id ∷ [])) normalized)

-- `return_value >= 0` of an integer that is no Boolean.
abbrev pub success_of : Json → Option Bool
success_of (integer z) = some (not (is_negative z))
success_of _ = none

-- `value if isinstance(value, int) else None`
abbrev pub int_or_none : Json → Option Json
int_or_none (integer z) = some (integer z)
int_or_none (boolean b) = some (boolean b)
int_or_none _ = none

-- `render` is Python's `str` on values that are no texts.
module _ (render : Json → String) where
  abbrev pub shown : Json → String
  shown (string s) = s
  shown v = render v

  -- `str(value or default)`
  abbrev pub rendered_or : String → Json → String
  rendered_or default v = if truthy v then shown v else default

  abbrev pub normalize_guest_event : Fields → GuestEvent
  normalize_guest_event fs =
      let event_type = rendered_or "unknown" (get "event" fs) in
      if event_type == "syscall"
      then syscall (rendered_or "unknown" (get "syscall" fs)) (as_text (get "errno" fs))
          (success_of (get "return_value" fs)) (as_text (get "path" fs))
          (as_text (get "remote_ip" fs)) (int_or_none (get "remote_port" fs))
      else if event_type == "signal" || event_type == "process_exit"
      then ending event_type (rendered_or "unknown" (get "result" fs))
      else plain event_type

  -- `event.get("execution_context") != "guest"`
  abbrev pub is_guest : Fields → Bool
  is_guest fs = elim (get "execution_context" fs) [ string s ↦ s == "guest" | _ ↦ false ]

  -- `_read_jsonl`, then the loop over its objects.
  unfoldable pub normalize_guest_events :
      List (Option Json) → Result ProgressOracleError (List GuestEvent)
  normalize_guest_events [] = ok []
  normalize_guest_events (some (object fs) ∷ lines) = do
    rest ← normalize_guest_events lines
    ok (if is_guest fs then normalize_guest_event fs ∷ rest else rest)
  normalize_guest_events (_ ∷ lines) = err invalid_line

  -- `event.get("event") == "tcp_response"`
  abbrev pub is_tcp_response : Fields → Bool
  is_tcp_response fs = elim (get "event" fs) [ string s ↦ s == "tcp_response" | _ ↦ false ]

  abbrev pub normalize_network_event : Fields → NetworkEvent
  normalize_network_event fs = record {
    event = rendered_or "unknown" (get "event" fs);
    listener_type = as_text (get "listener_type" fs);
    original_remote_ip = as_text (get "original_remote_ip" fs);
    original_remote_port = int_or_none (get "original_remote_port" fs);
    udp_role = as_text (get "udp_role" fs);
    response_observed = is_tcp_response fs;
  }

  unfoldable pub normalize_network_events :
      List (Option Json) → Result ProgressOracleError (List NetworkEvent)
  normalize_network_events [] = ok []
  normalize_network_events (some (object fs) ∷ lines) = do
    rest ← normalize_network_events lines
    ok (normalize_network_event fs ∷ rest)
  normalize_network_events (_ ∷ lines) = err invalid_line
