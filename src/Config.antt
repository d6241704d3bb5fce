-- ===== src/Config.antt =====
-- src/recorder.c: the configuration `RecorderConfig` and what is derived from it.
pub mod Json
pub mod Strip
pub mod Sizes
pub mod Modifiers
pub mod Groups
pub mod Cover
pub mod Load
use recorder.Common.{ℕ, ℤ, Bool, true, false, not, ◌||◌, ◌&&◌, Option, none, some, List, [], ◌∷◌}
use recorder.Common.{bytes_eq, codes}

pub data ModifierMatchKind : Type 0 where
  match_kind_exact match_kind_present match_kind_regex : ModifierMatchKind

-- A pointer that may be NULL is an Option. `match_regex` is the pattern that was compiled.
pub record EntryModifier : Type 0 where
  pub match_field : Option (List ℕ)
  pub match_kind : ModifierMatchKind
  pub match_exact : Option (List ℕ)
  pub match_present : Bool
  pub negate : Bool
  pub match_regex : Option (List ℕ)
  pub rewrite_field : Option (List ℕ)
  pub replacement : Option (List ℕ)
  pub drop_entry : Bool
  pub set_priority : Option ℕ
  pub script_command : List (List ℕ)
  pub script_run_on_replay : Bool
  pub script_timeout_sec : ℕ

pub record PriorityGroup : Type 0 where
  pub name : List ℕ
  pub priorities : List ℕ
  pub min_priority : ℕ
  pub durable_per_frame : Bool
  pub durability_flush_frames : ℕ
  pub durability_flush_interval_sec : ℕ
  pub max_bytes : ℕ
  pub max_age_sec : ℕ
  pub static_dict_path : Option (List ℕ)
  pub modifiers : List EntryModifier

-- `priority_to_group` has eight places, `none` for the -1 of a priority without a group.
pub record RecorderConfig : Type 0 where
  pub capture_message_id : Bool
  pub capture_unit : Bool
  pub capture_hostname : Bool
  pub capture_comm : Bool
  pub capture_exe : Bool
  pub capture_pid : Bool
  pub capture_uid : Bool
  pub capture_gid : Bool
  pub capture_all_fields : Bool
  pub capture_fields_whitelist : List (List ℕ)
  pub capture_fields_blacklist : List (List ℕ)
  pub sanitize_output : Bool
  pub durable_priority_max : ℤ
  pub durability_flush_frames : ℕ
  pub durability_flush_interval_sec : ℕ
  pub log_max_bytes : ℕ
  pub min_free_bytes : ℕ
  pub segment_max_bytes : ℕ
  pub segment_max_age_sec : ℕ
  pub compress_enabled : Bool
  pub compress_min_frame_bytes : ℕ
  pub compress_if_smaller : Bool
  pub encryption_public_key : Option (List ℕ)
  pub static_dict_paths : List (Option (List ℕ))
  pub modifiers : List EntryModifier
  pub groups : List PriorityGroup
  pub priority_to_group : List (Option ℕ)

unfoldable pub modifier_rewrite_field_is_supported : List ℕ → Bool
modifier_rewrite_field_is_supported field =
    bytes_eq field (codes "MESSAGE")
    || (bytes_eq field (codes "MESSAGE_ID")
        || (bytes_eq field (codes "_HOSTNAME")
            || (bytes_eq field (codes "_SYSTEMD_UNIT")
                || (bytes_eq field (codes "_COMM") || bytes_eq field (codes "_EXE")))))

-- `true` is the return value 0.
unfoldable pub validate_modifier_list : List EntryModifier → Bool
validate_modifier_list [] = true
validate_modifier_list (modifier ∷ list) = elim modifier.rewrite_field [
  | none ↦ validate_modifier_list list
  | some field ↦ modifier_rewrite_field_is_supported field && validate_modifier_list list
]

abbrev rewrites_full : Option (List ℕ) → Bool
rewrites_full none = false
rewrites_full (some field) =
    not (bytes_eq field (codes "MESSAGE")) && not (bytes_eq field (codes "_SYSTEMD_UNIT"))

unfoldable pub modifier_list_uses_full_entries : List EntryModifier → Bool
modifier_list_uses_full_entries [] = false
modifier_list_uses_full_entries (modifier ∷ list) =
    rewrites_full modifier.rewrite_field || modifier_list_uses_full_entries list

unfoldable pub groups_use_full_entries : List PriorityGroup → Bool
groups_use_full_entries [] = false
groups_use_full_entries (g ∷ groups) =
    modifier_list_uses_full_entries g.modifiers || groups_use_full_entries groups

unfoldable pub config_uses_full_entries : RecorderConfig → Bool
config_uses_full_entries cfg =
    (cfg.capture_all_fields
      || (cfg.capture_message_id
          || (cfg.capture_hostname
              || (cfg.capture_comm || (cfg.capture_exe || (cfg.capture_uid || cfg.capture_gid))))))
    || (modifier_list_uses_full_entries cfg.modifiers || groups_use_full_entries cfg.groups)
