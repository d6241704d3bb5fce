-- ===== src/Config/Load/Complete.antt =====
-- src/recorder.c: every priority has its group after `recorder_config_load`.
use recorder.Common.{ℕ, zero, suc, ◌<◌, ◌≡◌, refl, sym, ap, ◌∙◌, arith, inl}
use recorder.Common.{
  Option, none, some, List, [], ◌∷◌, ◌++◌, All, get_elem?, codes, subst, Result, ok, unset, ◌>>=◌,
  ◌>>◌, guard, past_run, past_guard, ok-injective,
}
use recorder.Config.{RecorderConfig, PriorityGroup, validate_modifier_list}
use recorder.Config.Json.{
  Json, json_null, json_boolean, json_integer, json_real, json_string, json_array, json_object,
  Libc, json_object_get, json_get_bool_default, json_get_uint_default, json_get_int_default,
  json_get_optional_nonempty_string, json_get_string_array, json_get_static_dict_paths,
}
use mathlib.Core.Option.{some-injective}
use recorder.Config.Sizes.{json_get_size_default}
use recorder.Config.Strip.{strip_hash_comment_lines}
use recorder.Config.Modifiers.{json_get_modifier_list, need, is_object}
use recorder.Config.Groups.{json_get_priority_groups}
use recorder.Config.Cover.{Covered, Contains, json_get_priority_groups-Covered}
use recorder.Config.Load.{
  default_group, ConfigStep, store, run_steps, capture_steps, store_steps, shared_dict, any_durable,
  resolve_group, resolve_groups, finish_config, load_object, recorder_config_load,
  recorder_config_init, readable_or_none, all_readable,
}

-- every priority has its group
abbrev Complete : RecorderConfig → Type 0
Complete c = (p : ℕ) → p < 8 → Covered c.groups c.priority_to_group p

-- the part of the configuration that the keys in front of the groups leave alone
abbrev Keeps : ConfigStep → Type 0
Keeps step = (c c' : RecorderConfig) → step c ≡ ok c' → Complete c → Complete c'

store-Complete :
    {A : Type 0} (o : Option A) (put : A → RecorderConfig) (c : RecorderConfig)
    → ((a : A) → Complete (put a))
    → store o put ≡ ok c
    → Complete c
store-Complete none put c h e = absurd cc
store-Complete (some a) put c h e = subst Complete (ok-injective (put a) c e) (h a)

run_steps-Keeps : (steps : List ConfigStep) → All Keeps steps → Keeps (run_steps steps)
unfolding run_steps
run_steps-Keeps [] h c c' e done = subst Complete (ok-injective c c' e) done
run_steps-Keeps (step ∷ steps) (h, hs) c c' e done =
    let (c1, (first, later)) = past_run (step c) (run_steps steps) e in
    run_steps-Keeps steps hs c1 c' later (h c c1 first done)

module _ (libc : Libc) (root : Json) where
  stored :
      {A : Type 0} (read : RecorderConfig → Option A) (put : RecorderConfig → A → RecorderConfig)
      → ((c : RecorderConfig) (a : A) → Complete c → Complete (put c a))
      → Keeps (λ c. store (read c) (put c))
  stored read put h c c' e done = store-Complete (read c) (put c) c' (λ a. h c a done) e

  capture_steps-Keeps : All Keeps (capture_steps libc root)
  capture_steps-Keeps = (
    stored (λ c. json_get_bool_default root (codes "capture_message_id") c.capture_message_id)
        (λ c v. record c { capture_message_id = v }) (λ c v h. h),
    (
      stored (λ c. json_get_bool_default root (codes "capture_unit") c.capture_unit)
          (λ c v. record c { capture_unit = v }) (λ c v h. h),
      (
        stored (λ c. json_get_bool_default root (codes "capture_hostname") c.capture_hostname)
            (λ c v. record c { capture_hostname = v }) (λ c v h. h),
        (
          stored (λ c. json_get_bool_default root (codes "capture_comm") c.capture_comm)
              (λ c v. record c { capture_comm = v }) (λ c v h. h),
          (
            stored (λ c. json_get_bool_default root (codes "capture_exe") c.capture_exe)
                (λ c v. record c { capture_exe = v }) (λ c v h. h),
            (
              stored (λ c. json_get_bool_default root (codes "capture_pid") c.capture_pid)
                  (λ c v. record c { capture_pid = v }) (λ c v h. h),
              (
                stored (λ c. json_get_bool_default root (codes "capture_uid") c.capture_uid)
                    (λ c v. record c { capture_uid = v }) (λ c v h. h),
                (
                  stored (λ c. json_get_bool_default root (codes "capture_gid") c.capture_gid)
                      (λ c v. record c { capture_gid = v }) (λ c v h. h),
                  (
                    stored
                        (λ c.
                          json_get_bool_default root (codes "capture_all_fields")
                            c.capture_all_fields)
                        (λ c v. record c { capture_all_fields = v }) (λ c v h. h),
                    (
                      stored
                          (λ c.
                            json_get_string_array root (codes "capture_fields_whitelist")
                              c.capture_fields_whitelist)
                          (λ c v. record c { capture_fields_whitelist = v }) (λ c v h. h),
                      (
                        stored
                            (λ c.
                              json_get_string_array root (codes "capture_fields_blacklist")
                                c.capture_fields_blacklist)
                            (λ c v. record c { capture_fields_blacklist = v }) (λ c v h. h),
                        (
                          stored
                              (λ c.
                                json_get_bool_default root (codes "sanitize_output")
                                  c.sanitize_output)
                              (λ c v. record c { sanitize_output = v }) (λ c v h. h),
                          tt,
                        ),
                      ),
                    ),
                  ),
                ),
              ),
            ),
          ),
        ),
      ),
    ),
  )

  modifiers-Keeps :
      Keeps (λ c.
        json_get_modifier_list libc root c.modifiers >>= (λ v. ok (record c { modifiers = v })))
  modifiers-Keeps c c' e done =
      let (v, (read, same)) =
        past_run (json_get_modifier_list libc root c.modifiers)
          (λ v. ok (record c { modifiers = v })) e in
      subst Complete (ok-injective (record c { modifiers = v }) c' same) done

  store_steps-Keeps : All Keeps (store_steps libc root)
  store_steps-Keeps = (
    stored (λ c. json_get_int_default root (codes "durable_priority_max") 7 c.durable_priority_max)
        (λ c v. record c { durable_priority_max = v }) (λ c v h. h),
    (
      stored
          (λ c.
            json_get_uint_default root (codes "durability_flush_frames") c.durability_flush_frames)
          (λ c v. record c { durability_flush_frames = v }) (λ c v h. h),
      (
        stored
            (λ c.
              json_get_uint_default root (codes "durability_flush_interval_sec")
                c.durability_flush_interval_sec)
            (λ c v. record c { durability_flush_interval_sec = v }) (λ c v h. h),
        (
          stored (λ c. json_get_size_default libc root (codes "log_max_bytes") c.log_max_bytes)
              (λ c v. record c { log_max_bytes = v }) (λ c v h. h),
          (
            stored (λ c. json_get_size_default libc root (codes "min_free_bytes") c.min_free_bytes)
                (λ c v. record c { min_free_bytes = v }) (λ c v h. h),
            (
              stored
                  (λ c.
                    json_get_size_default libc root (codes "segment_max_bytes") c.segment_max_bytes)
                  (λ c v. record c { segment_max_bytes = v }) (λ c v h. h),
              (
                stored
                    (λ c.
                      json_get_uint_default root (codes "segment_max_age_sec")
                        c.segment_max_age_sec)
                    (λ c v. record c { segment_max_age_sec = v }) (λ c v h. h),
                (
                  stored
                      (λ c.
                        json_get_bool_default root (codes "compress_enabled") c.compress_enabled)
                      (λ c v. record c { compress_enabled = v }) (λ c v h. h),
                  (
                    stored
                        (λ c.
                          json_get_uint_default root (codes "compress_min_frame_bytes")
                            c.compress_min_frame_bytes)
                        (λ c v. record c { compress_min_frame_bytes = v }) (λ c v h. h),
                    (
                      stored
                          (λ c.
                            json_get_bool_default root (codes "compress_if_smaller")
                              c.compress_if_smaller)
                          (λ c v. record c { compress_if_smaller = v }) (λ c v h. h),
                      (
                        stored
                            (λ c.
                              json_get_optional_nonempty_string root (codes "encryption_public_key")
                                c.encryption_public_key)
                            (λ c v. record c { encryption_public_key = v }) (λ c v h. h),
                        (
                          stored (λ c. json_get_static_dict_paths libc root c.static_dict_paths)
                              (λ c v. record c { static_dict_paths = v }) (λ c v h. h),
                          (modifiers-Keeps, tt),
                        ),
                      ),
                    ),
                  ),
                ),
              ),
            ),
          ),
        ),
      ),
    ),
  )

  groups-Keeps : Keeps (json_get_priority_groups libc root)
  unfolding json_get_priority_groups
  groups-Keeps c c' e done = by_node (json_object_get root (codes "priority_groups")) refl
    where
      by_node : (o : Option Json) → json_object_get root (codes "priority_groups") ≡ o → Complete c'
      by_node none missing =
          let same = rw (missing, json_get_priority_groups) at e in
          subst Complete (ok-injective c c' same) done
      by_node (some (json_array items)) key =
          λ p low. json_get_priority_groups-Covered libc root items c c' p key e low
      by_node (some json_null) key =
          let wrong = rw (key, json_get_priority_groups) at e in absurd cc
      by_node (some (json_boolean b)) key =
          let wrong = rw (key, json_get_priority_groups) at e in absurd cc
      by_node (some (json_integer n)) key =
          let wrong = rw (key, json_get_priority_groups) at e in absurd cc
      by_node (some json_real) key =
          let wrong = rw (key, json_get_priority_groups) at e in absurd cc
      by_node (some (json_string text)) key =
          let wrong = rw (key, json_get_priority_groups) at e in absurd cc
      by_node (some (json_object members)) key =
          let wrong = rw (key, json_get_priority_groups) at e in absurd cc

-- A group keeps its place and its priorities when it is resolved.
record Resolved (group : PriorityGroup) (groups' : List PriorityGroup) (i : ℕ) : Type 0 where
  group' : PriorityGroup
  at : get_elem? groups' i ≡ some group'
  same : group'.priorities ≡ group.priorities

resolve_group-priorities :
    (c : RecorderConfig) (g g' : PriorityGroup)
    → resolve_group c g ≡ ok g'
    → g'.priorities ≡ g.priorities
unfolding resolve_group
resolve_group-priorities c g g' e =
    let next : Option (List ℕ) → Result PriorityGroup = λ d. ok (record g {
      durable_per_frame = any_durable c.durable_priority_max g.priorities;
      static_dict_path = d;
    }) in
    let shared = shared_dict c.static_dict_paths g.priorities none in
    let (valid, e1) =
      past_guard (validate_modifier_list g.modifiers) unset (shared >>= next) g' e in
    let (d, (read, e2)) = past_run shared next e1 in
    sym (ap (λ (x : PriorityGroup). x.priorities) (ok-injective _ g' e2))

resolve_groups-Resolved :
    (c : RecorderConfig) (groups groups' : List PriorityGroup) (i : ℕ) (group : PriorityGroup)
    → resolve_groups c groups ≡ ok groups'
    → get_elem? groups i ≡ some group
    → Resolved group groups' i
unfolding resolve_groups
resolve_groups-Resolved c [] groups' i group e at_i = absurd cc
resolve_groups-Resolved c (g ∷ groups) groups' i group e at_i =
    let next : PriorityGroup → Result (List PriorityGroup) =
      λ x. resolve_groups c groups >>= (λ xs. ok (x ∷ xs)) in
    let (x, (first, later)) = past_run (resolve_group c g) next e in
    let (xs, (others, last)) = past_run (resolve_groups c groups) (λ ys. ok (x ∷ ys)) later in
    subst (λ r. Resolved group r i) (ok-injective (x ∷ xs) groups' last)
      (here i at_i (resolve_group-priorities c g x first)
        (λ j. resolve_groups-Resolved c groups xs j group others))
  where
    here :
        {x : PriorityGroup} {xs : List PriorityGroup} (j : ℕ)
        → get_elem? (g ∷ groups) j ≡ some group
        → x.priorities ≡ g.priorities
        → ((k : ℕ) → get_elem? groups k ≡ some group → Resolved group xs k)
        → Resolved group (x ∷ xs) j
    here {x} zero e same more = record {
      group' = x;
      at = refl;
      same = same ∙ ap (λ (y : PriorityGroup). y.priorities) (some-injective g group e);
    }
    here (suc j) e same more =
        let r = more j e in record { group' = r.group'; at = r.at; same = r.same }

module _ (libc : Libc) (json_loads : List ℕ → Option Json) where
  finish_config-Keeps : Keeps (finish_config libc json_loads)
  unfolding finish_config
  finish_config-Keeps c c' e done =
      let last : List PriorityGroup → Result RecorderConfig = λ gs. ok (record c { groups = gs }) in
      let resolve = resolve_groups c c.groups in
      let readable = all_readable libc json_loads c.static_dict_paths in
      let rest2 : Result RecorderConfig = guard readable unset >> (resolve >>= last) in
      let rest1 : Result RecorderConfig =
        guard (validate_modifier_list c.modifiers) unset >> rest2 in
      let (t1, e1) =
        past_guard (readable_or_none libc json_loads c.encryption_public_key) unset rest1 c' e in
      let (t2, e2) = past_guard (validate_modifier_list c.modifiers) unset rest2 c' e1 in
      let (t3, e3) = past_guard readable unset (resolve >>= last) c' e2 in
      let (gs, (resolved, e4)) = past_run resolve last e3 in
      subst Complete (ok-injective (record c { groups = gs }) c' e4) (λ p low.
        let found = done p low in
        let r = resolve_groups-Resolved c c.groups gs found.i found.group resolved found.at in
        record {
          i = found.i;
          group = r.group';
          index = found.index;
          at = r.at;
          listed = subst (Contains p) (sym r.same) found.listed;
        })

  load_object-Keeps : (root : Json) → Keeps (load_object libc json_loads root)
  unfolding load_object
  load_object-Keeps root c c' e done =
      let steps = capture_steps libc root ++ store_steps libc root in
      let next : RecorderConfig → Result RecorderConfig =
        λ x. json_get_priority_groups libc root x >>= finish_config libc json_loads in
      let (c1, (ran, e1)) = past_run (run_steps steps c) next e in
      let (c2, (groups, e2)) =
        past_run (json_get_priority_groups libc root c1) (finish_config libc json_loads) e1 in
      finish_config-Keeps c2 c' e2 (
        groups-Keeps libc root c1 c2 groups (
          run_steps-Keeps steps
            (All-append (capture_steps libc root) (store_steps libc root)
              (capture_steps-Keeps libc root) (store_steps-Keeps libc root))
            c c1 ran done))
    where
      All-append : (xs ys : List ConfigStep) → All Keeps xs → All Keeps ys → All Keeps (xs ++ ys)
      All-append [] ys h k = k
      All-append (x ∷ xs) ys (h, hs) k = (h, All-append xs ys hs k)

  recorder_config_init-Complete : Complete recorder_config_init
  unfolding recorder_config_init
  recorder_config_init-Complete = covered
    where
      covered :
          (p : ℕ)
          → p < 8
          → Covered recorder_config_init.groups recorder_config_init.priority_to_group p
      covered zero low = record {
        i = 0;
        group = default_group 0;
        index = refl;
        at = refl;
        listed = inl refl;
      }
      covered (suc zero) low = record {
        i = 1;
        group = default_group 1;
        index = refl;
        at = refl;
        listed = inl refl;
      }
      covered (suc (suc zero)) low = record {
        i = 2;
        group = default_group 2;
        index = refl;
        at = refl;
        listed = inl refl;
      }
      covered (suc (suc (suc zero))) low = record {
        i = 3;
        group = default_group 3;
        index = refl;
        at = refl;
        listed = inl refl;
      }
      covered (suc (suc (suc (suc zero)))) low = record {
        i = 4;
        group = default_group 4;
        index = refl;
        at = refl;
        listed = inl refl;
      }
      covered (suc (suc (suc (suc (suc zero))))) low = record {
        i = 5;
        group = default_group 5;
        index = refl;
        at = refl;
        listed = inl refl;
      }
      covered (suc (suc (suc (suc (suc (suc zero)))))) low = record {
        i = 6;
        group = default_group 6;
        index = refl;
        at = refl;
        listed = inl refl;
      }
      covered (suc (suc (suc (suc (suc (suc (suc zero))))))) low = record {
        i = 7;
        group = default_group 7;
        index = refl;
        at = refl;
        listed = inl refl;
      }
      covered (suc (suc (suc (suc (suc (suc (suc (suc p)))))))) low = absurd (omega arith)

  -- After `recorder_config_load` has succeeded on the default configuration, which it does not in
  -- the model where a group name has more than 63 bytes and overruns its array, each of the
  -- priorities 0 to 7 is assigned to a group of the configuration, and that group lists the
  -- priority.
  pub recorder_config_load-Covered :
      (raw : List ℕ) (cfg : RecorderConfig) (p : ℕ)
      → recorder_config_load libc json_loads recorder_config_init raw ≡ ok cfg
      → p < 8
      → Covered cfg.groups cfg.priority_to_group p
  unfolding recorder_config_load
  recorder_config_load-Covered raw cfg p e low =
      let next : Json → Result RecorderConfig = λ root.
        guard (is_object root) unset >> load_object libc json_loads root recorder_config_init in
      let (root, (parsed, e1)) =
        past_run (need (json_loads (strip_hash_comment_lines raw))) next e in
      let (valid, e2) =
        past_guard (is_object root) unset (load_object libc json_loads root recorder_config_init)
          cfg e1 in
      load_object-Keeps root recorder_config_init cfg e2 recorder_config_init-Complete p low
