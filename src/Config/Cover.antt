-- ===== src/Config/Cover.antt =====
-- src/recorder.c: what `json_get_priority_groups` makes sure of for each priority.
use recorder.Common.{ℕ, zero, suc, pos, ◌≤◌, ◌<◌, ◌≡◌, ◌≢◌, ◌⊎◌, inl, inr, refl, sym, ◌∙◌, arith}
use recorder.Common.{
  Bool, true, false, not, ◌&&◌, Option, none, some, List, [], ◌∷◌, ◌++◌, length, length-set, get_or,
  get_elem?, set, replicate, get_or-set_self, get_or-set_ne, leb, ltb, if◌then◌else◌, Result, ok,
  unset, ◌>>=◌, ◌>>◌, guard, past_run, past_guard, subst, ◌==◌, ==→eq, Bool-cases, ok-injective,
  codes,
}
use recorder.Config.{RecorderConfig, PriorityGroup}
use recorder.Config.Json.{Json, json_array, json_integer, Libc, json_object_get, elements, Elements}
use recorder.Config.Groups.{
  Assigning, Reading, assign_priority, assign_priorities, read_head, begin, add_group, read_group,
  read_groups, all_seen, read_priority_groups, json_get_priority_groups, nothing_read,
}

-- `p` is in the list.
abbrev pub Contains : ℕ → List ℕ → Type 0
Contains p [] = ⊥
Contains p (x ∷ xs) = (p ≡ x) ⊎ Contains p xs

Contains-front : (p : ℕ) (xs ys : List ℕ) → Contains p xs → Contains p (xs ++ ys)
Contains-front p [] ys h = absurd h
Contains-front p (x ∷ xs) ys (inl e) = inl e
Contains-front p (x ∷ xs) ys (inr h) = inr (Contains-front p xs ys h)

Contains-last : (p : ℕ) (xs : List ℕ) → Contains p (xs ++ (p ∷ []))
Contains-last p [] = inl refl
Contains-last p (x ∷ xs) = inr (Contains-last p xs)

get_elem?-front :
    {A : Type 0} (xs ys : List A) (i : ℕ) (a : A)
    → get_elem? xs i ≡ some a
    → get_elem? (xs ++ ys) i ≡ some a
get_elem?-front [] ys i a e = cc
get_elem?-front (x ∷ xs) ys zero a e = e
get_elem?-front (x ∷ xs) ys (suc i) a e = get_elem?-front xs ys i a e

get_elem?-last :
    {A : Type 0} (xs : List A) (a : A) → get_elem? (xs ++ (a ∷ [])) (length xs) ≡ some a
get_elem?-last [] a = refl
get_elem?-last (x ∷ xs) a = get_elem?-last xs a

-- The priority `p` is assigned to a group that lists it.
pub record Covered (groups : List PriorityGroup) (assigned : List (Option ℕ)) (p : ℕ) : Type 0 where
  pub i : ℕ
  pub group : PriorityGroup
  pub index : get_or assigned p none ≡ some i
  pub at : get_elem? groups i ≡ some group
  pub listed : Contains p group.priorities

-- The priority is in the group that is being read, behind the given ones.
record Current (groups : List PriorityGroup) (z : Assigning) (p : ℕ) : Type 0 where
  index : get_or z.assigned p none ≡ some (length groups)
  listed : Contains p z.group.priorities

record Tracks (groups : List PriorityGroup) (z : Assigning) : Type 0 where
  seen_length : length z.seen ≡ 8
  assigned_length : length z.assigned ≡ 8
  placed : (p : ℕ) → get_or z.seen p false ≡ true → Covered groups z.assigned p ⊎ Current groups z p

assign_priority-Tracks :
    (groups : List PriorityGroup) (prio : ℕ) (z z' : Assigning)
    → Tracks groups z
    → assign_priority (length groups) prio z ≡ ok z'
    → Tracks groups z'
unfolding assign_priority
assign_priority-Tracks groups prio z z' h e =
    let g = z.group in
    let z1 : Assigning = record {
      seen = set z.seen prio true;
      assigned = set z.assigned prio (some (length groups));
      group = record g {
        priorities = g.priorities ++ (prio ∷ []);
        min_priority = if ltb prio g.min_priority then prio else g.min_priority;
      };
    } in
    let (test, done) =
      past_guard (leb prio 7 && not (get_or z.seen prio true)) unset (ok z1) z' e in
    let low : prio ≤ 7 = ground (arith, test) in
    subst (Tracks groups) (ok-injective z1 z' done) record {
      seen_length = length-set z.seen prio true ∙ h.seen_length;
      assigned_length = length-set z.assigned prio (some (length groups)) ∙ h.assigned_length;
      placed = λ p on. elim (Bool-cases (prio == p)) [
        | inl equal ↦
            let same = ==→eq prio p equal in
            inr record {
              index = rw⁻¹ same (
                  get_or-set_self z.assigned prio (some (length groups)) none
                    (omega (arith, h.assigned_length)));
              listed = rw⁻¹ same (Contains-last prio z.group.priorities);
            }
        | inr unequal ↦
            let other : prio ≢ p = λ e. absurd (ground (arith, unequal)) in
            let kept = get_or-set_ne z.assigned prio p (some (length groups)) none other in
            elim (h.placed p (sym (get_or-set_ne z.seen prio p true false other) ∙ on)) [
              | inl c ↦ inl record {
                i = c.i;
                group = c.group;
                index = kept ∙ c.index;
                at = c.at;
                listed = c.listed;
              }
              | inr c ↦ inr record {
                index = kept ∙ c.index;
                listed = Contains-front p z.group.priorities (prio ∷ []) c.listed;
              }
            ]
      ];
    }

assign_priorities-Tracks :
    (groups : List PriorityGroup) (items : List Json) (z z' : Assigning)
    → Tracks groups z
    → assign_priorities (length groups) items z ≡ ok z'
    → Tracks groups z'
unfolding assign_priorities
assign_priorities-Tracks groups [] z z' h e = subst (Tracks groups) (ok-injective _ _ e) h
assign_priorities-Tracks groups (json_integer (pos prio) ∷ rest) z z' h e =
    let (z1, (first, later)) = past_run (assign_priority (length groups) prio z) _ e in
    assign_priorities-Tracks groups rest z1 z' (assign_priority-Tracks groups prio z z1 h first)
      later
assign_priorities-Tracks groups (json ∷ rest) z z' h e = absurd cc

-- The same for the whole reading, behind any number of groups.
module _ (libc : Libc) where
  record Holds (z : Reading libc) : Type 0 where
    seen_length : length z.seen ≡ 8
    assigned_length : length z.assigned ≡ 8
    placed : (p : ℕ) → get_or z.seen p false ≡ true → Covered z.groups z.assigned p

  finish :
      (groups : List PriorityGroup) (a : Assigning)
      → Tracks groups a
      → Holds record { groups = groups ++ (a.group ∷ []); seen = a.seen; assigned = a.assigned }
  finish groups a h = record {
    seen_length = h.seen_length;
    assigned_length = h.assigned_length;
    placed = λ p on. elim (h.placed p on) [
      | inl c ↦ record {
        i = c.i;
        group = c.group;
        index = c.index;
        at = get_elem?-front groups (a.group ∷ []) c.i c.group c.at;
        listed = c.listed;
      }
      | inr c ↦ record {
        i = length groups;
        group = a.group;
        index = c.index;
        at = get_elem?-last groups a.group;
        listed = c.listed;
      }
    ];
  }

  read_group-Holds :
      (cfg : RecorderConfig) (json : Json) (z z' : Reading libc)
      → Holds z
      → read_group libc cfg json z ≡ ok z'
      → Holds z'
  unfolding read_group
  read_group-Holds cfg json z z' h e =
      let (head, (first, later)) =
        past_run (read_head libc cfg json z.groups)
          (λ x. assign_priorities (length z.groups) x.1 (begin libc x.0 z) >>= add_group libc z)
          e in
      let (a, (assigned, last)) =
        past_run (assign_priorities (length z.groups) head.1 (begin libc head.0 z))
          (add_group libc z) later in
      let tracks =
        assign_priorities-Tracks z.groups head.1 (begin libc head.0 z) a
          record {
            seen_length = h.seen_length;
            assigned_length = h.assigned_length;
            placed = λ p on. inl (h.placed p on);
          }
          assigned in
      let z1 : Reading libc = record {
        groups = z.groups ++ (a.group ∷ []);
        seen = a.seen;
        assigned = a.assigned;
      } in
      subst Holds (ok-injective z1 z' last) (finish z.groups a tracks)

  read_groups-Holds :
      (cfg : RecorderConfig) (items : List Json) (z z' : Reading libc)
      → Holds z
      → read_groups libc cfg items z ≡ ok z'
      → Holds z'
  unfolding read_groups
  read_groups-Holds cfg [] z z' h e = subst Holds (ok-injective _ _ e) h
  read_groups-Holds cfg (json ∷ rest) z z' h e =
      let (z1, (first, later)) = past_run (read_group libc cfg json z) _ e in
      read_groups-Holds cfg rest z1 z' (read_group-Holds cfg json z z1 h first) later

  all_seen-get_or :
      (seen : List Bool) (p : ℕ)
      → all_seen libc seen ≡ true
      → p < length seen
      → get_or seen p false ≡ true
  unfolding all_seen
  all_seen-get_or [] p all h = absurd (omega arith)
  all_seen-get_or (true ∷ seen) zero all h = refl
  all_seen-get_or (false ∷ seen) zero all h = cc
  all_seen-get_or (true ∷ seen) (suc p) all h = all_seen-get_or seen p all (omega arith)
  all_seen-get_or (false ∷ seen) (suc p) all h = cc

  -- If the configuration has an array of priority groups and `json_get_priority_groups` succeeds
  -- on it, which it does not in the model where a group name has more than 63 bytes and overruns
  -- its array, then each of the priorities 0 to 7 is assigned to one of the groups that were
  -- read, and that group lists the priority.
  pub json_get_priority_groups-Covered :
      (root : Json) (items : Elements) (cfg cfg' : RecorderConfig) (p : ℕ)
      → json_object_get root (codes "priority_groups") ≡ some (json_array items)
      → json_get_priority_groups libc root cfg ≡ ok cfg'
      → p < 8
      → Covered cfg'.groups cfg'.priority_to_group p
  unfolding json_get_priority_groups read_priority_groups
  json_get_priority_groups-Covered root items cfg cfg' p key e low =
      let read = rw (key, json_get_priority_groups) at e in
      let list = elements items in
      let last : Reading libc → Result RecorderConfig = λ z.
        guard (all_seen libc z.seen) unset
        >> ok (record cfg { groups = z.groups; priority_to_group = z.assigned }) in
      let (size, e1) =
        past_guard (leb 1 (length list) && leb (length list) 8) unset
          (read_groups libc cfg list (nothing_read libc) >>= last) cfg' read in
      let (z, (run, e2)) = past_run (read_groups libc cfg list (nothing_read libc)) last e1 in
      let done : RecorderConfig = record cfg {
        groups = z.groups;
        priority_to_group = z.assigned;
      } in
      let (all, e3) = past_guard (all_seen libc z.seen) unset (ok done) cfg' e2 in
      let h = read_groups-Holds cfg (elements items) (nothing_read libc) z start run in
      let found = h.placed p (all_seen-get_or z.seen p all (omega (arith, h.seen_length))) in
      subst (λ (c : RecorderConfig). Covered c.groups c.priority_to_group p)
        (ok-injective done cfg' e3) found
    where
      nothing_on : (n p : ℕ) → get_or (replicate n false) p false ≡ true → ⊥
      nothing_on zero p on = cc
      nothing_on (suc n) zero on = cc
      nothing_on (suc n) (suc p) on = nothing_on n p on

      start : Holds (nothing_read libc)
      start = record {
        seen_length = refl;
        assigned_length = refl;
        placed = λ p on. absurd (nothing_on 8 p on);
      }
