-- ===== src/Extraction/Syscalls.antt =====
-- The requirements that the system calls of the guest show. Each call of `_add` is an addition; their
-- list is merged in its order. `str`, `int` and the search for open flags are parameters.
use taint_forge_io_t.Extraction.Table.{
  Addition, ExtractionConfig, RequirementEvidence, RequirementTable, add_requirements,
}
use taint_forge_io_t.Guest.Paths.{components, join, root}
use taint_forge_io_t.Prelude.{
  Bool, Fields, Json, List, Option, String, Text, [], any, boolean, codes, drop_last, eqb, false,
  get, if◌then◌else◌, is_negative, keep, negsuc, none, not, null, pos, some, string, suc, take,
  text_eq, text_in, text_starts_with, true, truthy, ℕ, ℤ, ◌&&◌, ◌++◌, ◌||◌, ◌∷◌,
}
use taint_forge_io_t.Repair.Plan.{
  BlockingAssessment, RequirementKind, device, execution, filesystem, likely, network, one_bits,
  possible, provided, syscall_support, unmet,
}
use taint_forge_io_t.Target.Equality.{scalar_eq}

abbrev pub is_text : Text → String → Bool
is_text t s = text_eq t (codes s)

abbrev pub is_errno : Option Text → String → Bool
is_errno none s = false
is_errno (some t) s = text_eq t (codes s)

abbrev is_one_of : Text → List String → Bool
is_one_of t [] = false
is_one_of t (s ∷ ss) = is_text t s || is_one_of t ss

abbrev pub open_syscalls : List String
open_syscalls = "open" ∷ "openat" ∷ "creat" ∷ []

abbrev pub open_write_flags : List String
open_write_flags = "O_WRONLY" ∷ "O_RDWR" ∷ "O_CREAT" ∷ "O_TRUNC" ∷ "O_APPEND" ∷ "O_TMPFILE" ∷ []

abbrev pub path_exists_syscalls : List String
path_exists_syscalls =
    "open" ∷ "openat" ∷ "creat" ∷ "stat" ∷ "lstat" ∷ "newfstatat" ∷ "access" ∷ "faccessat"
    ∷ "readlink" ∷ "readlinkat" ∷ "chdir" ∷ "unlink" ∷ "unlinkat" ∷ "rmdir" ∷ []

abbrev pub directory_create_syscalls : List String
directory_create_syscalls = "mkdir" ∷ "mkdirat" ∷ []

abbrev pub exec_syscalls : List String
exec_syscalls = "execve" ∷ "execveat" ∷ []

abbrev pub network_failure_errnos : List String
network_failure_errnos =
    "ECONNREFUSED" ∷ "ETIMEDOUT" ∷ "ENETUNREACH" ∷ "EHOSTUNREACH" ∷ "EADDRNOTAVAIL" ∷ []

abbrev pub optional_one_of : Option Text → List String → Bool
optional_one_of none ss = false
optional_one_of (some t) ss = is_one_of t ss

-- `_parent_directory`
abbrev parent_text : Text → Text
parent_text [] = codes "/"
parent_text (c ∷ s) = c ∷ s

unfoldable pub parent_directory : Text → Text
unfolding root join components
parent_directory path = parent_text (root path ++ join (drop_last (components path)))

-- `path == "/dev" or path.startswith("/dev/")`
abbrev pub path_kind : Text → RequirementKind
path_kind path =
    if is_text path "/dev" || text_starts_with path (codes "/dev/") then device else filesystem

abbrev pub is_device : RequirementKind → Bool
is_device device = true
is_device _ = false

-- `"|".join(texts)`
abbrev join_bars : List Text → Text
join_bars [] = []
join_bars (t ∷ []) = t
join_bars (t ∷ u ∷ ts) = t ++ (b'|' ∷ join_bars (u ∷ ts))

abbrev pub optional_if : {A : Type 0} → Bool → A → Option A
optional_if true a = some a
optional_if false a = none

abbrev pub first_of : {A : Type 0} → Option A → Option A → Option A
first_of none o = o
first_of (some a) o = some a

abbrev pub optional_list : {A : Type 0} → Option A → List A
optional_list none = []
optional_list (some a) = a ∷ []

-- The double 1.0.
abbrev certain : ℕ
certain = one_bits

abbrev is_not_negative : Option ℤ → Bool
is_not_negative none = false
is_not_negative (some z) = not (is_negative z)

abbrev is_nonzero : Option ℤ → Bool
is_nonzero none = false
is_nonzero (some (pos n)) = not (eqb n 0)
is_nonzero (some (negsuc n)) = true

-- What the events of one path have in common.
pub record PathEvent : Type 0 where
  pub path : Text
  pub syscall : Text
  pub flags : List Text
  pub errno : Option Text
  pub return_value : Option ℤ
  pub blocking : BlockingAssessment
  pub evidence : RequirementEvidence

-- An unmet requirement of a path.
abbrev pub unmet_path :
    PathEvent
    → RequirementKind
    → Text
    → String
    → BlockingAssessment
    → Bool
    → List (Text × Text)
    → Addition
unmet_path e kind resource operation blocking repairable details = record {
  kind = kind;
  resource = resource;
  operation = codes operation;
  status = unmet;
  blocking = blocking;
  confidence = certain;
  repairable = repairable;
  errno = e.errno;
  evidence = e.evidence;
  details = details;
}

abbrev pub syscall_detail : PathEvent → List (Text × Text)
syscall_detail e = (codes "syscall", e.syscall) ∷ []

abbrev pub makes_directory : PathEvent → Bool
makes_directory e =
    is_one_of e.syscall directory_create_syscalls
    || (is_one_of e.syscall open_syscalls && text_in (codes "O_CREAT") e.flags)

abbrev pub executes : PathEvent → Bool
executes e = is_one_of e.syscall exec_syscalls

abbrev pub looks_up : PathEvent → Bool
looks_up e = is_one_of e.syscall path_exists_syscalls

abbrev pub missing_path : PathEvent → Option Addition
missing_path e =
    if makes_directory e
    then some (
        unmet_path e filesystem (parent_directory e.path) "directory_exists" e.blocking true
          ((codes "trigger_path", e.path) ∷ syscall_detail e))
    else if executes e
    then some (unmet_path e execution e.path "executable_available" likely true (syscall_detail e))
    else if looks_up e
    then some
        (unmet_path e (path_kind e.path) e.path "path_exists" e.blocking true (syscall_detail e))
    else none

module _ (str_of : Json → Text) (int_of : Json → Option ℤ) (open_flags : Text → List Text)
    (sorted_texts : List Text → List Text) (decimal : ℤ → Text) where
  abbrev nonempty : Text → Option Text
  nonempty [] = none
  nonempty (c ∷ s) = some (c ∷ s)

  abbrev pub optional_string : Json → Option Text
  optional_string null = none
  optional_string v = nonempty (str_of v)

  abbrev pub optional_int : Json → Option ℤ
  optional_int null = none
  optional_int (boolean b) = none
  optional_int v = int_of v

  -- `str(event.get(key) or default)`
  abbrev text_or : String → Json → Text
  text_or default v = if truthy v then str_of v else codes default

  abbrev pub is_event : String → Fields → Bool
  is_event name event = scalar_eq (get "event" event) (string name)

  abbrev failure_summary : Text → Json → Text
  failure_summary name errno =
      if truthy errno then name ++ (codes " failed with " ++ str_of errno) else name

  -- `_syscall_evidence`
  abbrev pub syscall_evidence : Fields → ℕ → RequirementEvidence
  syscall_evidence event index = record {
    source = codes "syscall";
    summary = failure_summary (text_or "unknown" (get "syscall" event)) (get "errno" event);
    raw = optional_string (get "raw" event);
    event_index = index;
  }

  -- `_blocking_after`, on the events of the window
  abbrev exit_code_of : Fields → Option ℤ
  exit_code_of event = elim (optional_int (get "return_value" event)) [
    | none ↦ optional_int (get "result" event)
    | some z ↦ some z
  ]

  unfoldable pub blocking_in : List Fields → BlockingAssessment
  blocking_in [] = BlockingAssessment.unknown
  blocking_in (event ∷ events) =
      let rest = blocking_in events in
      if is_event "signal" event
      then likely
      else if is_event "process_exit" event
      then (if is_nonzero (exit_code_of event) then likely else possible)
      else rest

  abbrev pub requested : PathEvent → Text
  requested e = join_bars (sorted_texts e.flags)

  abbrev pub provided_path : PathEvent → Option Addition
  provided_path e =
      optional_if
        (is_not_negative e.return_value
          && is_one_of e.syscall open_syscalls
          && any (λ f. is_one_of f open_write_flags) e.flags)
        record {
          kind = filesystem;
          resource = e.path;
          operation = codes "path_writable";
          status = provided;
          blocking = BlockingAssessment.unknown;
          confidence = certain;
          repairable = true;
          errno = none;
          evidence = e.evidence;
          details = syscall_detail e ++ (codes "requested_flags", requested e) ∷ [];
        }

  abbrev pub refused_path : PathEvent → Addition
  refused_path e =
      unmet_path e filesystem e.path "path_access" e.blocking true
        (syscall_detail e ++ (codes "requested_flags", requested e) ∷ [])

  abbrev pub later_path : PathEvent → Option Addition
  later_path e =
      if is_errno e.errno "EACCES" || is_errno e.errno "EPERM"
      then some (refused_path e)
      else if is_errno e.errno "EROFS"
      then some (unmet_path e filesystem e.path "path_writable" e.blocking true (syscall_detail e))
      else if is_errno e.errno "ENOTDIR"
      then some
          (unmet_path e filesystem e.path "valid_path_layout" e.blocking true (syscall_detail e))
      else if is_errno e.errno "ENODEV" || is_errno e.errno "ENXIO"
      then some (
          unmet_path e (path_kind e.path) e.path "device_or_backend_available" e.blocking
            (is_device (path_kind e.path)) (syscall_detail e))
      else provided_path e

  -- `_extract_path_event`: at most one requirement.
  unfoldable pub path_event : PathEvent → Option Addition
  unfolding parent_directory
  path_event e =
      first_of (if is_errno e.errno "ENOENT" then missing_path e else none) (later_path e)

  abbrev pub signal_addition : Fields → ℕ → Addition
  signal_addition event index = record {
    kind = execution;
    resource = text_or "unknown" (get "result" event);
    operation = codes "avoid_fatal_signal";
    status = unmet;
    blocking = likely;
    confidence = certain;
    repairable = false;
    errno = none;
    evidence = syscall_evidence event index;
    details = (codes "diagnostic", codes "true") ∷ [];
  }

  abbrev or_unknown : Text → Text
  or_unknown [] = codes "unknown"
  or_unknown (c ∷ s) = c ∷ s

  abbrev pub unsupported_addition : PathEvent → Addition
  unsupported_addition e = record {
    kind = syscall_support;
    resource = or_unknown e.syscall;
    operation = codes "kernel_or_qemu_support";
    status = unmet;
    blocking = e.blocking;
    confidence = certain;
    repairable = false;
    errno = e.errno;
    evidence = e.evidence;
    details = [];
  }

  abbrev pub connect_to : PathEvent → Option Text → Option ℤ → Option Addition
  connect_to e (some ip) (some port) = some record {
    kind = network;
    resource = codes "tcp://" ++ (ip ++ (b':' ∷ decimal port));
    operation = codes "connect";
    status = unmet;
    blocking = e.blocking;
    confidence = certain;
    repairable = true;
    errno = e.errno;
    evidence = e.evidence;
    details = (codes "transport", codes "tcp") ∷ [];
  }
  connect_to e _ _ = none

  abbrev pub connect_addition : PathEvent → Fields → Option Addition
  connect_addition e event =
      if is_text e.syscall "connect" && optional_one_of e.errno network_failure_errnos
      then connect_to e (optional_string (get "remote_ip" event))
          (optional_int (get "remote_port" event))
      else none

  abbrev pub event_of : ExtractionConfig → Fields → ℕ → List Fields → Text → PathEvent
  event_of config event index behind path = record {
    path = path;
    syscall = text_or "" (get "syscall" event);
    flags = open_flags (text_or "" (get "args" event));
    errno = optional_string (get "errno" event);
    return_value = optional_int (get "return_value" event);
    blocking = blocking_in (take config.terminal_failure_window behind);
    evidence = syscall_evidence event index;
  }

  abbrev pub at_path : ExtractionConfig → Fields → ℕ → List Fields → Option Text → Option Addition
  at_path config event index behind none = none
  at_path config event index behind (some path) =
      path_event (event_of config event index behind path)

  abbrev pub syscall_additions : ExtractionConfig → Fields → ℕ → List Fields → List Addition
  syscall_additions config event index behind =
      let e = event_of config event index behind [] in
      optional_list (optional_if (is_errno e.errno "ENOSYS") (unsupported_addition e))
      ++ (optional_list (at_path config event index behind (optional_string (get "path" event)))
          ++ optional_list (connect_addition e event))

  -- The additions of one event, with the events behind it.
  abbrev pub event_additions : ExtractionConfig → Fields → ℕ → List Fields → List Addition
  event_additions config event index behind =
      if is_event "signal" event
      then signal_addition event index ∷ []
      else if is_event "syscall" event
      then syscall_additions config event index behind
      else []

  unfoldable pub additions_from : ExtractionConfig → ℕ → List Fields → List Addition
  unfolding blocking_in path_event
  additions_from config index [] = []
  additions_from config index (event ∷ behind) =
      event_additions config event index behind ++ additions_from config (suc index) behind

  -- `_select_syscall_events`
  abbrev pub is_selected : ExtractionConfig → Fields → Bool
  is_selected config event =
      not config.guest_only || scalar_eq (get "execution_context" event) (string "guest")

  -- `_extract_syscall_requirements` of the selected events.
  unfoldable pub extract_syscall_requirements : ExtractionConfig → List Fields → RequirementTable
  unfolding additions_from
  extract_syscall_requirements config events =
      add_requirements config (additions_from config 0 (keep (is_selected config) events)) []
