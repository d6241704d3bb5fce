-- ===== src/Config/Load.antt =====
-- src/recorder.c: `recorder_config_init` and `recorder_config_load`. Reading the file, the JSON
-- parser and `access` are parameters.
pub mod Complete
use recorder.Common.{ℕ, ℤ, zero, suc, pos, negsuc, ◌+◌, ◌*◌, Bool, true, false, not, ◌||◌, ◌&&◌}
use recorder.Common.{
  Option, none, some, List, [], ◌∷◌, ◌++◌, map, length, get_or, replicate, leb, bytes_eq, codes,
  if◌then◌else◌, Result, ok, err, unset, ◌>>=◌, ◌>>◌, guard,
}
use mathlib.Core.Option
use recorder.Config.{RecorderConfig, PriorityGroup, validate_modifier_list}
use recorder.Config.Json.{
  Json, Libc, json_get_bool_default, json_get_uint_default, json_get_int_default,
  json_get_optional_nonempty_string, json_get_string_array, json_get_static_dict_paths,
}
use recorder.Config.Strip.{strip_hash_comment_lines}
use recorder.Config.Sizes.{json_get_size_default}
use recorder.Config.Modifiers.{json_get_modifier_list, need, is_object}
use recorder.Config.Groups.{json_get_priority_groups, empty_group}

-- the group "p<i>" of the one priority `i`
abbrev pub default_group : ℕ → PriorityGroup
default_group i = record empty_group {
  name = b'p' ∷ (b'0' + i) ∷ [];
  priorities = i ∷ [];
  min_priority = i;
}

abbrev pub eight : List ℕ
eight = 0 ∷ 1 ∷ 2 ∷ 3 ∷ 4 ∷ 5 ∷ 6 ∷ 7 ∷ []

unfoldable pub recorder_config_init : RecorderConfig
recorder_config_init = record {
  capture_message_id = false;
  capture_unit = true;
  capture_hostname = false;
  capture_comm = false;
  capture_exe = false;
  capture_pid = true;
  capture_uid = false;
  capture_gid = false;
  capture_all_fields = false;
  capture_fields_whitelist = [];
  capture_fields_blacklist = [];
  sanitize_output = true;
  durable_priority_max = pos 3;
  durability_flush_frames = 32;
  durability_flush_interval_sec = 60;
  log_max_bytes = 64 * 1024 * 1024;
  min_free_bytes = 0;
  segment_max_bytes = 4 * 1024 * 1024;
  segment_max_age_sec = 900;
  compress_enabled = true;
  compress_min_frame_bytes = 256;
  compress_if_smaller = true;
  encryption_public_key = none;
  static_dict_paths = replicate 8 none;
  modifiers = [];
  groups = map default_group eight;
  priority_to_group = map some eight;
}

-- one operand of the chain of `||`: it reads a key and stores what it read
abbrev pub ConfigStep : Type 0
ConfigStep = RecorderConfig → Result RecorderConfig

abbrev pub store : {A : Type 0} → Option A → (A → RecorderConfig) → Result RecorderConfig
store none put = err unset
store (some a) put = ok (put a)

unfoldable pub run_steps : List ConfigStep → ConfigStep
run_steps [] c = ok c
run_steps (step ∷ steps) c = step c >>= run_steps steps

module _ (libc : Libc) (root : Json) where
  abbrev bool_key :
      List ℕ → (RecorderConfig → Bool) → (RecorderConfig → Bool → RecorderConfig) → ConfigStep
  bool_key key get put c = store (json_get_bool_default root key (get c)) (put c)

  abbrev uint_key :
      List ℕ → (RecorderConfig → ℕ) → (RecorderConfig → ℕ → RecorderConfig) → ConfigStep
  uint_key key get put c = store (json_get_uint_default root key (get c)) (put c)

  abbrev size_key :
      List ℕ → (RecorderConfig → ℕ) → (RecorderConfig → ℕ → RecorderConfig) → ConfigStep
  size_key key get put c = store (json_get_size_default libc root key (get c)) (put c)

  -- the keys of what is captured and printed
  abbrev pub capture_steps : List ConfigStep
  capture_steps =
      bool_key (codes "capture_message_id") (λ c. c.capture_message_id)
        (λ c b. record c { capture_message_id = b })
      ∷ bool_key (codes "capture_unit") (λ c. c.capture_unit) (λ c b. record c { capture_unit = b })
      ∷ bool_key (codes "capture_hostname") (λ c. c.capture_hostname)
          (λ c b. record c { capture_hostname = b })
      ∷ bool_key (codes "capture_comm") (λ c. c.capture_comm) (λ c b. record c { capture_comm = b })
      ∷ bool_key (codes "capture_exe") (λ c. c.capture_exe) (λ c b. record c { capture_exe = b })
      ∷ bool_key (codes "capture_pid") (λ c. c.capture_pid) (λ c b. record c { capture_pid = b })
      ∷ bool_key (codes "capture_uid") (λ c. c.capture_uid) (λ c b. record c { capture_uid = b })
      ∷ bool_key (codes "capture_gid") (λ c. c.capture_gid) (λ c b. record c { capture_gid = b })
      ∷ bool_key (codes "capture_all_fields") (λ c. c.capture_all_fields)
          (λ c b. record c { capture_all_fields = b })
      ∷ (λ c.
          store
            (json_get_string_array root (codes "capture_fields_whitelist")
              c.capture_fields_whitelist)
            (λ v. record c { capture_fields_whitelist = v }))
      ∷ (λ c.
          store
            (json_get_string_array root (codes "capture_fields_blacklist")
              c.capture_fields_blacklist)
            (λ v. record c { capture_fields_blacklist = v }))
      ∷ bool_key (codes "sanitize_output") (λ c. c.sanitize_output)
          (λ c b. record c { sanitize_output = b })
      ∷ []

  -- the keys of the store
  abbrev pub store_steps : List ConfigStep
  store_steps =
      (λ c.
        store (json_get_int_default root (codes "durable_priority_max") 7 c.durable_priority_max)
          (λ v. record c { durable_priority_max = v }))
      ∷ uint_key (codes "durability_flush_frames") (λ c. c.durability_flush_frames)
          (λ c v. record c { durability_flush_frames = v })
      ∷ uint_key (codes "durability_flush_interval_sec") (λ c. c.durability_flush_interval_sec)
          (λ c v. record c { durability_flush_interval_sec = v })
      ∷ size_key (codes "log_max_bytes") (λ c. c.log_max_bytes)
          (λ c v. record c { log_max_bytes = v })
      ∷ size_key (codes "min_free_bytes") (λ c. c.min_free_bytes)
          (λ c v. record c { min_free_bytes = v })
      ∷ size_key (codes "segment_max_bytes") (λ c. c.segment_max_bytes)
          (λ c v. record c { segment_max_bytes = v })
      ∷ uint_key (codes "segment_max_age_sec") (λ c. c.segment_max_age_sec)
          (λ c v. record c { segment_max_age_sec = v })
      ∷ bool_key (codes "compress_enabled") (λ c. c.compress_enabled)
          (λ c b. record c { compress_enabled = b })
      ∷ uint_key (codes "compress_min_frame_bytes") (λ c. c.compress_min_frame_bytes)
          (λ c v. record c { compress_min_frame_bytes = v })
      ∷ bool_key (codes "compress_if_smaller") (λ c. c.compress_if_smaller)
          (λ c b. record c { compress_if_smaller = b })
      ∷ (λ c.
          store
            (json_get_optional_nonempty_string root (codes "encryption_public_key")
              c.encryption_public_key)
            (λ v. record c { encryption_public_key = v }))
      ∷ (λ c.
          store (json_get_static_dict_paths libc root c.static_dict_paths)
            (λ v. record c { static_dict_paths = v }))
      ∷ (λ c.
          json_get_modifier_list libc root c.modifiers >>= (λ v. ok (record c { modifiers = v })))
      ∷ []

-- the path that the priorities of a group share: one that has none fits any
unfoldable pub shared_dict :
    List (Option (List ℕ)) → List ℕ → Option (List ℕ) → Result (Option (List ℕ))
shared_dict paths [] dict_path = ok dict_path
shared_dict paths (prio ∷ priorities) dict_path = elim (get_or paths prio none) [
  | none ↦ shared_dict paths priorities dict_path
  | some candidate ↦ elim dict_path [
    | none ↦ shared_dict paths priorities (some candidate)
    | some path ↦
        if bytes_eq path candidate then shared_dict paths priorities (some path) else err unset
  ]
]

-- `prio <= durable_priority_max` for one of the priorities
unfoldable pub any_durable : ℤ → List ℕ → Bool
any_durable (negsuc n) priorities = false
any_durable (pos max) [] = false
any_durable (pos max) (prio ∷ priorities) = leb prio max || any_durable (pos max) priorities

unfoldable pub resolve_group : RecorderConfig → PriorityGroup → Result PriorityGroup
resolve_group cfg g = do
  guard (validate_modifier_list g.modifiers) unset
  dict_path ← shared_dict cfg.static_dict_paths g.priorities none
  ok (record g {
    durable_per_frame = any_durable cfg.durable_priority_max g.priorities;
    static_dict_path = dict_path;
  })

unfoldable pub resolve_groups : RecorderConfig → List PriorityGroup → Result (List PriorityGroup)
resolve_groups cfg [] = ok []
resolve_groups cfg (g ∷ groups) = do
  g' ← resolve_group cfg g
  groups' ← resolve_groups cfg groups
  ok (g' ∷ groups')

module _ (libc : Libc) (json_loads : List ℕ → Option Json) where
  abbrev pub readable_or_none : Option (List ℕ) → Bool
  readable_or_none none = true
  readable_or_none (some path) = libc.readable path

  unfoldable pub all_readable : List (Option (List ℕ)) → Bool
  all_readable [] = true
  all_readable (path ∷ paths) = readable_or_none path && all_readable paths

  -- the checks and settings behind the keys
  unfoldable pub finish_config : RecorderConfig → Result RecorderConfig
  finish_config c = do
    guard (readable_or_none c.encryption_public_key) unset
    guard (validate_modifier_list c.modifiers) unset
    guard (all_readable c.static_dict_paths) unset
    groups ← resolve_groups c c.groups
    ok (record c { groups = groups })

  unfoldable pub load_object : Json → RecorderConfig → Result RecorderConfig
  load_object root cfg =
      run_steps (capture_steps libc root ++ store_steps libc root) cfg
      >>= (λ c. json_get_priority_groups libc root c >>= finish_config)

  -- `raw` is the file.
  unfoldable pub recorder_config_load : RecorderConfig → List ℕ → Result RecorderConfig
  recorder_config_load cfg raw =
      need (json_loads (strip_hash_comment_lines raw))
      >>= (λ root. guard (is_object root) unset >> load_object root cfg)
