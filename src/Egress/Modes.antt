-- ===== src/Egress/Modes.antt =====
-- network_modes.py. Texts are read by their ASCII letters and white space.
use taint_forge_io_t.Prelude.{
  Bool, Option, Text, codes, false, if◌then◌else◌, lower, none, some, strip, text_eq, true,
}

pub data NetworkMode : Type 0 where
  no_network emulated replay brokered_fetch brokered_relay brokered_record : NetworkMode

-- `NetworkMode(text)`, or nothing.
abbrev pub mode_of : Text → Option NetworkMode
mode_of t =
    if text_eq t (codes "none")
    then some no_network
    else if text_eq t (codes "emulated")
    then some emulated
    else if text_eq t (codes "replay")
    then some replay
    else if text_eq t (codes "brokered_fetch")
    then some brokered_fetch
    else if text_eq t (codes "brokered_relay")
    then some brokered_relay
    else if text_eq t (codes "brokered_record")
    then some brokered_record
    else none

-- `none` for the `ValueError` of an unsupported mode.
unfoldable pub normalize_network_mode : Text → Bool → Option NetworkMode
normalize_network_mode value has_network_dependencies =
    if text_eq (lower (strip value)) (codes "auto")
    then some (if has_network_dependencies then emulated else no_network)
    else if text_eq (lower (strip value)) (codes "controlled")
    then some emulated
    else mode_of (lower (strip value))

abbrev pub requires_egress_policy : NetworkMode → Bool
requires_egress_policy brokered_fetch = true
requires_egress_policy brokered_relay = true
requires_egress_policy _ = false
