-- ===== src/Config/Modifiers.antt =====
-- src/recorder.c: `json_get_modifier_list`, in a build with PCRE2.
use recorder.Common.{ℕ, pos, ◌+◌, Bool, true, false, not, ◌||◌, ◌&&◌, Option, none, some, is_some}
use recorder.Common.{List, [], ◌∷◌, length, get_or, leb, ltb, ◌==◌, codes, if◌then◌else◌}
use recorder.Common.{Result, ok, err, unset, ◌>>=◌, ◌>>◌, guard}
use recorder.Config.{
  EntryModifier, match_kind_exact, match_kind_present, match_kind_regex, ModifierMatchKind,
}
use recorder.Config.Json.{
  Json, json_object, json_array, json_string, json_boolean, json_integer, Libc, json_object_get,
  elements,
}

-- `none` ends the reading with -1.
abbrev pub need {ℓ} : {A : Type ℓ} → Option A → Result A
need none = err unset
need (some a) = ok a

abbrev pub is_object : Json → Bool
is_object (json_object members) = true
is_object json = false

-- a string for a key that may be missing
unfoldable pub optional_string : Option Json → Result (Option (List ℕ))
optional_string none = ok none
optional_string (some (json_string text)) = ok (some text)
optional_string (some json) = err unset

unfoldable pub optional_boolean : Option Json → Result (Option Bool)
optional_boolean none = ok none
optional_boolean (some (json_boolean b)) = ok (some b)
optional_boolean (some json) = err unset

-- `x && json_is_true(x)`
abbrev is_true : Option Bool → Bool
is_true none = false
is_true (some b) = b

abbrev one_if : {A : Type 0} → Option A → ℕ
one_if none = 0
one_if (some a) = 1

abbrev new_modifier : EntryModifier
new_modifier = record {
  match_field = none;
  match_kind = match_kind_exact;
  match_exact = none;
  match_present = false;
  negate = false;
  match_regex = none;
  rewrite_field = none;
  replacement = none;
  drop_entry = false;
  set_priority = none;
  script_command = [];
  script_run_on_replay = false;
  script_timeout_sec = 10;
}

-- "MESSAGE" where no field is named; a field that is named has characters
unfoldable pub read_match_field : Option Json → Result (List ℕ)
read_match_field none = ok (codes "MESSAGE")
read_match_field (some (json_string text)) = if length text == 0 then err unset else ok text
read_match_field (some json) = err unset

-- the arguments of a script command from the index `j` on; the first is an absolute path
unfoldable pub read_command : List Json → ℕ → Result (List (List ℕ))
read_command [] j = ok []
read_command (json_string arg ∷ rest) j = do
  guard (not (length arg == 0)) unset
  guard (not (j == 0) || (get_or arg 0 0 == b'/')) unset
  others ← read_command rest (j + 1)
  ok (arg ∷ others)
read_command (json ∷ rest) j = err unset

-- 1 to 86400 seconds, 10 where none are given
unfoldable pub read_timeout : Option Json → Result ℕ
read_timeout none = ok 10
read_timeout (some (json_integer (pos n))) = if leb 1 n && leb n 86400 then ok n else err unset
read_timeout (some json) = err unset

unfoldable pub read_priority : Option Json → Result (Option ℕ)
read_priority none = ok none
read_priority (some (json_integer (pos n))) = if ltb 7 n then err unset else ok (some n)
read_priority (some json) = err unset

module _ (libc : Libc) where
  -- the kind of the match: exactly one of the three is there
  unfoldable pub read_kind :
      Option (List ℕ) → Option (List ℕ) → Option Bool → EntryModifier → Result EntryModifier
  read_kind regex (some exact) present m =
      ok (record m { match_kind = match_kind_exact; match_exact = some exact })
  read_kind regex none (some present) m =
      ok (record m { match_kind = match_kind_present; match_present = present })
  read_kind (some regex) none none m =
      if libc.regex_compiles regex
      then ok (record m { match_kind = match_kind_regex; match_regex = some regex })
      else err unset
  read_kind none none none m = err unset

  unfoldable pub read_match : Json → Result EntryModifier
  read_match node = do
    guard (is_object node) unset
    field ← read_match_field (json_object_get node (codes "field"))
    regex ← optional_string (json_object_get node (codes "regex"))
    exact ← optional_string (json_object_get node (codes "exact"))
    present ← optional_boolean (json_object_get node (codes "present"))
    negate ← optional_boolean (json_object_get node (codes "not"))
    guard ((one_if regex + one_if exact + one_if present) == 1) unset
    read_kind regex exact present
        (record new_modifier { match_field = some field; negate = is_true negate })

  abbrev is_regex : ModifierMatchKind → Bool
  is_regex match_kind_regex = true
  is_regex kind = false

  -- A rewrite needs a match by a regular expression that is not negated.
  unfoldable pub read_rewrite : Option Json → EntryModifier → Result EntryModifier
  read_rewrite none m = ok m
  read_rewrite (some node) m = do
    guard (is_object node) unset
    field ← need (json_object_get node (codes "field"))
    replacement ← need (json_object_get node (codes "replacement"))
    field_text ← optional_string (some field)
    replacement_text ← optional_string (some replacement)
    name ← need field_text
    guard (not (length name == 0)) unset
    guard (is_regex m.match_kind) unset
    guard (not m.negate) unset
    ok (record m { rewrite_field = some name; replacement = replacement_text })

  unfoldable pub read_arguments : Json → Result (List (List ℕ))
  read_arguments (json_array items) = do
    guard (not (length (elements items) == 0)) unset
    read_command (elements items) 0
  read_arguments json = err unset

  unfoldable pub read_script : Option Json → EntryModifier → Result EntryModifier
  read_script none m = ok m
  read_script (some node) m = do
    guard (is_object node) unset
    command ← need (json_object_get node (codes "command"))
    run_on_replay ← optional_boolean (json_object_get node (codes "run_on_replay"))
    timeout ← read_timeout (json_object_get node (codes "timeout_sec"))
    arguments ← read_arguments command
    ok (record m {
      script_command = arguments;
      script_run_on_replay = is_true run_on_replay;
      script_timeout_sec = timeout;
    })

  abbrev has_action : EntryModifier → Bool
  has_action m =
      m.drop_entry
      || (is_some m.set_priority || (is_some m.rewrite_field || not (length m.script_command == 0)))

  unfoldable pub read_modifier : Json → Result EntryModifier
  read_modifier item = do
    guard (is_object item) unset
    node ← need (json_object_get item (codes "match"))
    matched ← read_match node
    drop_flag ← optional_boolean (json_object_get item (codes "drop"))
    priority ← read_priority (json_object_get item (codes "set_priority"))
    rewritten ←
        read_rewrite (json_object_get item (codes "rewrite"))
          (record matched { drop_entry = is_true drop_flag; set_priority = priority })
    scripted ← read_script (json_object_get item (codes "script")) rewritten
    guard (has_action scripted) unset
    ok scripted

  unfoldable pub read_modifiers : List Json → Result (List EntryModifier)
  read_modifiers [] = ok []
  read_modifiers (item ∷ items) = do
    m ← read_modifier item
    others ← read_modifiers items
    ok (m ∷ others)

  unfoldable pub json_get_modifier_list : Json → List EntryModifier → Result (List EntryModifier)
  json_get_modifier_list owner list = elim (json_object_get owner (codes "modifiers")) [
    | none ↦ ok list
    | some node ↦ elim node [ json_array items ↦ read_modifiers (elements items) | _ ↦ err unset ]
  ]
