-- ===== src/Config/Groups.antt =====
-- src/recorder.c: `json_get_priority_groups`.
use recorder.Common.{ℕ, pos, Bool, true, false, not, ◌||◌, ◌&&◌, Option, none, some}
use recorder.Common.{
  List, [], ◌∷◌, ◌++◌, length, get_or, set, replicate, leb, ltb, codes, bytes_eq, if◌then◌else◌,
}
use recorder.Common.{Result, ok, err, unset, overrun, ◌>>=◌, ◌>>◌, guard}
use recorder.Config.{RecorderConfig, PriorityGroup}
use recorder.Config.Json.{
  Json, json_object, json_array, json_string, json_integer, Libc, json_object_get, elements,
  json_get_group_uint_default, valid_group_name,
}
use recorder.Config.Sizes.{json_get_group_size_default}
use recorder.Config.Modifiers.{json_get_modifier_list, need}

-- `seen_mask` by its bits, `priority_to_group`, and the group that is being read
pub record Assigning : Type 0 where
  pub seen : List Bool
  pub assigned : List (Option ℕ)
  pub group : PriorityGroup

-- one priority of the group `i`: it is from 0 to 7, and no group has it yet
unfoldable pub assign_priority : ℕ → ℕ → Assigning → Result Assigning
assign_priority i prio z = do
  guard (leb prio 7 && not (get_or z.seen prio true)) unset
  let g = z.group
  ok record {
    seen = set z.seen prio true;
    assigned = set z.assigned prio (some i);
    group = record g {
      priorities = g.priorities ++ (prio ∷ []);
      min_priority = if ltb prio g.min_priority then prio else g.min_priority;
    };
  }

unfoldable pub assign_priorities : ℕ → List Json → Assigning → Result Assigning
assign_priorities i [] z = ok z
assign_priorities i (json_integer (pos prio) ∷ rest) z = do
  z' ← assign_priority i prio z
  assign_priorities i rest z'
assign_priorities i (json ∷ rest) z = err unset

abbrev pub empty_group : PriorityGroup
empty_group = record {
  name = [];
  priorities = [];
  min_priority = 255;
  durable_per_frame = false;
  durability_flush_frames = 0;
  durability_flush_interval_sec = 0;
  max_bytes = 0;
  max_age_sec = 0;
  static_dict_path = none;
  modifiers = [];
}

-- `strcmp` with the names of the groups in front
unfoldable pub name_taken : List PriorityGroup → List ℕ → Bool
name_taken [] name = false
name_taken (g ∷ groups) name = bytes_eq g.name name || name_taken groups name

-- `MAX_GROUP_NAME_LEN`
abbrev pub max_group_name_len : ℕ
max_group_name_len = 63

abbrev string_of : Option Json → Result (List ℕ)
string_of (some (json_string text)) = ok text
string_of json = err unset

abbrev array_of : Option Json → Result (List Json)
array_of (some (json_array items)) = ok (elements items)
array_of json = err unset

abbrev need_object : Json → Result (Unit {0})
need_object (json_object members) = ok tt
need_object json = err unset

module _ (libc : Libc) where
  -- the settings of a group, with the configuration's defaults
  unfoldable pub read_settings : RecorderConfig → Json → List ℕ → Result PriorityGroup
  read_settings cfg json name = do
    frames ← need (
        json_get_group_uint_default json (codes "durability_flush_frames")
          cfg.durability_flush_frames)
    interval ← need (
        json_get_group_uint_default json (codes "durability_flush_interval_sec")
          cfg.durability_flush_interval_sec)
    max_bytes ← need (json_get_group_size_default libc json (codes "max_bytes") 0)
    max_age_sec ← need (json_get_group_uint_default json (codes "max_age_sec") 0)
    modifiers ← json_get_modifier_list libc json []
    ok (record empty_group {
      name = name;
      durability_flush_frames = frames;
      durability_flush_interval_sec = interval;
      max_bytes = max_bytes;
      max_age_sec = max_age_sec;
      modifiers = modifiers;
    })

  -- The groups that were read, with what the loop has assigned.
  pub record Reading : Type 0 where
    pub groups : List PriorityGroup
    pub seen : List Bool
    pub assigned : List (Option ℕ)

  -- The group but for its priorities, and these as they stand in the configuration. The source copies
  -- the name into its array without a look at its length: a name that is longer writes over what
  -- stands behind the array, which is undefined, and the model ends there with `overrun`.
  unfoldable pub read_head :
      RecorderConfig → Json → List PriorityGroup → Result (PriorityGroup × List Json)
  read_head cfg json groups = do
    need_object json
    name ← string_of (json_object_get json (codes "name"))
    priorities ← array_of (json_object_get json (codes "priorities"))
    guard (valid_group_name libc name) unset
    guard (leb (length name) max_group_name_len) overrun
    group ← read_settings cfg json name
    guard (not (name_taken groups name)) unset
    guard (leb 1 (length priorities) && leb (length priorities) 8) unset
    ok (group, priorities)

  abbrev pub begin : PriorityGroup → Reading → Assigning
  begin group z = record { seen = z.seen; assigned = z.assigned; group = group }

  abbrev pub add_group : Reading → Assigning → Result Reading
  add_group z a =
      ok record { groups = z.groups ++ (a.group ∷ []); seen = a.seen; assigned = a.assigned }

  unfoldable pub read_group : RecorderConfig → Json → Reading → Result Reading
  read_group cfg json z =
      read_head cfg json z.groups
      >>= (λ head. assign_priorities (length z.groups) head.1 (begin head.0 z) >>= add_group z)

  unfoldable pub read_groups : RecorderConfig → List Json → Reading → Result Reading
  read_groups cfg [] z = ok z
  read_groups cfg (json ∷ rest) z = do z' ← read_group cfg json z; read_groups cfg rest z'

  -- `seen_mask == 0xff`
  unfoldable pub all_seen : List Bool → Bool
  all_seen [] = true
  all_seen (b ∷ seen) = b && all_seen seen

  abbrev pub nothing_read : Reading
  nothing_read = record { groups = []; seen = replicate 8 false; assigned = replicate 8 none }

  unfoldable pub read_priority_groups : RecorderConfig → List Json → Result RecorderConfig
  read_priority_groups cfg items = do
    guard (leb 1 (length items) && leb (length items) 8) unset
    z ← read_groups cfg items nothing_read
    guard (all_seen z.seen) unset
    ok (record cfg { groups = z.groups; priority_to_group = z.assigned })

  -- Without the key the configuration stays as it is.
  unfoldable pub json_get_priority_groups : Json → RecorderConfig → Result RecorderConfig
  json_get_priority_groups root cfg = elim (json_object_get root (codes "priority_groups")) [
    | none ↦ ok cfg
    | some node ↦ elim node [
      | json_array items ↦ read_priority_groups cfg (elements items)
      | _ ↦ err unset
    ]
  ]
