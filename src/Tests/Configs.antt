-- ===== src/Tests/Configs.antt =====
-- Configurations: sizes, comments and priority groups.
use recorder.Common.{ℕ, ◌*◌, ◌^◌, ◌<◌, ◌≤◌, ◌≡◌, ◌⊎◌, pos, refl, ap, arith, true, false}
use recorder.Common.{Option, some, none, List, [], ◌∷◌, length, codes, replicate}
use mathlib.Core.Option.{some-injective}
use recorder.Config.{RecorderConfig, PriorityGroup, validate_modifier_list}
use recorder.Config.Json.{
  Json, json_array, json_integer, json_object, json_string, no_member, member, element, no_more,
  Elements, Libc, json_object_get, find_member, elements, json_get_bool_default,
  json_get_uint_default, json_get_int_default, json_get_group_uint_default,
  json_get_optional_nonempty_string, json_get_string_array, json_get_static_dict_paths,
  valid_group_name, name_characters,
}
use recorder.Config.Strip.{strip_hash_comment_lines, newlines, strip_hash_comment_lines-bounds}
use recorder.Config.Sizes.{
  IsScale, parse_size_string, parse_size_string-exact, size_scale, json_get_size_default,
  json_get_group_size_default,
}
use recorder.Config.Modifiers.{json_get_modifier_list}
use recorder.Config.Groups.{
  json_get_priority_groups, read_priority_groups, read_groups, read_group, read_head, read_settings,
  assign_priorities, assign_priority, all_seen, name_taken,
}
use recorder.Config.Cover.{Covered, json_get_priority_groups-Covered}
use recorder.Config.Load.{
  recorder_config_init, recorder_config_load, default_group, load_object, run_steps, finish_config,
  resolve_groups, resolve_group, shared_dict, any_durable, all_readable,
}
use recorder.Config.Load.Complete.{recorder_config_load-Covered}

-- a comment line
abbrev commented : List ℕ
commented = codes " # x"

strip_example :
    (newlines (strip_hash_comment_lines commented) ≡ newlines commented)
    × (length (strip_hash_comment_lines commented) ≤ length commented)
strip_example = strip_hash_comment_lines-bounds commented

-- a number is its first byte
abbrev toy_strtoull : List ℕ → Option (ℕ × List ℕ)
toy_strtoull [] = none
toy_strtoull (c ∷ rest) = some (7, rest)

small_value :
    (text rest : List ℕ) (value : ℕ) → toy_strtoull text ≡ some (value, rest) → value < 2 ^ 64
small_value [] rest value e = cc
small_value (c ∷ text) rest value e =
    let same : 7 ≡ value = ap (λ (p : ℕ × List ℕ). p.0) (some-injective _ _ e) in
    omega (arith, same)

abbrev toy_libc : Libc
toy_libc = record {
  strtoull = toy_strtoull;
  strtol = λ text. none;
  isalnum = λ c. true;
  toupper = λ c. c;
  regex_compiles = λ text. true;
  readable = λ path. true;
  strtoull_range = λ text rest value e. small_value text rest value e;
}

parse_size_example :
    IsScale toy_libc 1024
    × (((7 * 1024 < 2 ^ 64) × (parse_size_string toy_libc (codes "7K") ≡ some (7 * 1024)))
        ⊎ ((2 ^ 64 ≤ 7 * 1024) × (parse_size_string toy_libc (codes "7K") ≡ none)))
unfolding size_scale
parse_size_example = parse_size_string-exact toy_libc (codes "7K") (codes "K") 7 1024 refl refl

abbrev all_priorities : Elements
all_priorities = element (json_integer (pos 0)) (
    element (json_integer (pos 1)) (
      element (json_integer (pos 2)) (
        element (json_integer (pos 3)) (
          element (json_integer (pos 4)) (
            element (json_integer (pos 5))
              (element (json_integer (pos 6)) (element (json_integer (pos 7)) no_more)))))))

abbrev group_list : Elements
group_list =
    element
      (json_object (
        member (codes "name") (json_string (codes "a"))
          (member (codes "priorities") (json_array all_priorities) no_member)))
      no_more

abbrev one_group : Json
one_group = json_object (member (codes "priority_groups") (json_array group_list) no_member)

abbrev configured : RecorderConfig
configured = record recorder_config_init {
  groups =
      record {
        name = codes "a";
        priorities = 0 ∷ 1 ∷ 2 ∷ 3 ∷ 4 ∷ 5 ∷ 6 ∷ 7 ∷ [];
        min_priority = 0;
        durable_per_frame = false;
        durability_flush_frames = 32;
        durability_flush_interval_sec = 60;
        max_bytes = 0;
        max_age_sec = 0;
        static_dict_path = none;
        modifiers = [];
      }
      ∷ [];
  priority_to_group = replicate 8 (some 0);
}

priority_groups_example : Covered configured.groups configured.priority_to_group 5
unfolding recorder_config_init json_get_priority_groups read_priority_groups read_groups read_group
    read_head read_settings assign_priorities assign_priority all_seen name_taken valid_group_name
    name_characters json_object_get find_member elements json_get_group_uint_default
    json_get_group_size_default json_get_modifier_list
priority_groups_example =
    json_get_priority_groups-Covered toy_libc one_group group_list recorder_config_init configured 5
      refl refl (omega arith)

-- the parser's answer for any text
abbrev parsed : List ℕ → Option Json
parsed text = some (json_object no_member)

-- the default groups, of which those up to the priority 3 are durable
abbrev durable_group : ℕ → PriorityGroup
durable_group i = record (default_group i) { durable_per_frame = true }

abbrev loaded : RecorderConfig
loaded = record recorder_config_init {
  groups =
      durable_group 0
      ∷ durable_group 1
      ∷ durable_group 2
      ∷ durable_group 3
      ∷ default_group 4
      ∷ default_group 5
      ∷ default_group 6
      ∷ default_group 7
      ∷ [];
}

config_load_example : Covered loaded.groups loaded.priority_to_group 5
unfolding recorder_config_load load_object run_steps finish_config resolve_groups resolve_group
    shared_dict any_durable all_readable validate_modifier_list json_get_priority_groups
    json_object_get find_member json_get_bool_default json_get_uint_default json_get_int_default
    json_get_size_default json_get_optional_nonempty_string json_get_string_array
    json_get_static_dict_paths json_get_modifier_list recorder_config_init
config_load_example =
    recorder_config_load-Covered toy_libc parsed (codes "{}") loaded 5 refl (omega arith)
