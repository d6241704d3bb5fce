-- ===== src/Modifiers.antt =====
-- src/recorder.c: `apply_modifier_list` of a build with PCRE2, `build_regex_replacement`,
-- `apply_entry_modifiers` and `recorder_assign_monotonic_tie_order`.
pub mod Escaped
pub mod Reroutes
pub mod Ties
use recorder.Common.{ℕ, zero, suc, ◌+◌, ◌-◌, Bool, true, false, not, ◌||◌, ◌&&◌, Option, none, some}
use recorder.Common.{
  List, [], ◌∷◌, ◌++◌, length, take, drop, get_or, set, replicate, leb, ltb, ◌==◌, bytes_eq, codes,
  is_some, if◌then◌else◌,
}
use recorder.Config.{
  RecorderConfig, PriorityGroup, EntryModifier, match_kind_exact, match_kind_present,
  match_kind_regex,
}
use recorder.Writer.{LogEntry}

-- What PCRE2 answers: an error, no match, or the offsets of the whole match and of the groups,
-- where a group that took no part has none.
pub data MatchResult : Type 0 where
  match_error no_match : MatchResult
  matched : List (Option (ℕ × ℕ)) → MatchResult

-- a pattern on a subject, and the fields of the journal's current record
pub record Sources : Type 0 where
  pub pcre2_match : List ℕ → List ℕ → MatchResult
  pub journal_get_field : List ℕ → Option (List ℕ)

unfoldable pub entry_field_for_modifier : LogEntry → List ℕ → Option (List ℕ)
entry_field_for_modifier entry name =
    if bytes_eq name (codes "MESSAGE")
    then entry.message
    else if bytes_eq name (codes "MESSAGE_ID")
    then entry.message_id
    else if bytes_eq name (codes "_HOSTNAME")
    then entry.hostname
    else if bytes_eq name (codes "_SYSTEMD_UNIT")
    then entry.unit
    else if bytes_eq name (codes "_COMM")
    then entry.comm
    else if bytes_eq name (codes "_EXE")
    then entry.exe
    else none

-- the entry with the new text in the field that `entry_field_for_rewrite` points to
unfoldable pub rewrite_entry_field : LogEntry → List ℕ → List ℕ → Option LogEntry
rewrite_entry_field entry name text =
    if bytes_eq name (codes "MESSAGE")
    then some (record entry { message = some text })
    else if bytes_eq name (codes "MESSAGE_ID")
    then some (record entry { message_id = some text })
    else if bytes_eq name (codes "_HOSTNAME")
    then some (record entry { hostname = some text })
    else if bytes_eq name (codes "_SYSTEMD_UNIT")
    then some (record entry { unit = some text })
    else if bytes_eq name (codes "_COMM")
    then some (record entry { comm = some text })
    else if bytes_eq name (codes "_EXE")
    then some (record entry { exe = some text })
    else none

-- what two characters of a replacement stand for: "$$", "$" with a digit, or the first one
pub data Token : Type 0 where
  dollar plain : Token
  group_number : ℕ → Token

unfoldable pub token : ℕ → ℕ → Token
token c d =
    if c == b'$'
    then (if d == b'$'
        then dollar
        else (if leb b'0' d && leb d b'9' then group_number (d - b'0') else plain))
    else plain

-- the text of a group, nothing where it has none
unfoldable pub captured : List (Option (ℕ × ℕ)) → List ℕ → ℕ → List ℕ
captured ovector subject n = elim (get_or ovector n none) [
  | none ↦ []
  | some (start, end) ↦ take (end - start) (drop start subject)
]

unfoldable pub build_regex_replacement : List (Option (ℕ × ℕ)) → List ℕ → List ℕ → List ℕ
build_regex_replacement ovector subject [] = []
build_regex_replacement ovector subject (c ∷ []) = c ∷ []
build_regex_replacement ovector subject (c ∷ d ∷ text) = elim (token c d) [
  | dollar ↦ b'$' ∷ build_regex_replacement ovector subject text
  | group_number n ↦ captured ovector subject n ++ build_regex_replacement ovector subject text
  | plain ↦ c ∷ build_regex_replacement ovector subject (d ∷ text)
]

-- an entry, and the scripts that were enqueued for it with the entry as it was then
pub record Modified : Type 0 where
  pub entry : LogEntry
  pub scripts : List (EntryModifier × LogEntry)

-- The return values 0, 1 and -1; for 1 with its reason.
pub data Outcome : Type 0 where
  goes_on : Modified → Outcome
  dropped : Modified → Outcome
  rerouted_in_loop : Modified → Outcome
  rerouted_too_often : Modified → Outcome
  failed : Modified → Outcome

abbrev get_text : Option (List ℕ) → List ℕ
get_text none = []
get_text (some text) = text

-- whether the modifier matches, with the offsets for a rewrite; `none` is an error of the engine
unfoldable pub match_modifier :
    Sources → EntryModifier → Option (List ℕ) → Option (Bool × List (Option (ℕ × ℕ)))
match_modifier from m subject = elim m.match_kind [
  | match_kind_present ↦ some (if is_some subject then m.match_present else not m.match_present, [])
  | match_kind_exact ↦ elim subject [
    | none ↦ some (false, [])
    | some text ↦ some (bytes_eq text (get_text m.match_exact), [])
  ]
  | match_kind_regex ↦ elim subject [
    | none ↦ some (false, [])
    | some text ↦ elim (from.pcre2_match (get_text m.match_regex) text) [
      | match_error ↦ none
      | no_match ↦ some (false, [])
      | matched ovector ↦ some (true, ovector)
    ]
  ]
]

-- what `strlen` counts: a captured group may hold a NUL
unfoldable pub until_nul : List ℕ → List ℕ
until_nul [] = []
until_nul (c ∷ text) = if c == 0 then [] else c ∷ until_nul text

-- the rewrite of a modifier that matched; `none` is -1
unfoldable pub rewrite_step :
    EntryModifier → List (Option (ℕ × ℕ)) → List ℕ → LogEntry → Option LogEntry
rewrite_step m ovector subject entry = elim m.rewrite_field [
  | none ↦ some entry
  | some field ↦
      rewrite_entry_field entry field
        (until_nul (build_regex_replacement ovector subject (get_text m.replacement)))
]

abbrev pub with_priority : Option ℕ → LogEntry → LogEntry
with_priority none entry = entry
with_priority (some p) entry = record entry { priority = p }

-- what a modifier that matched does behind its rewrite
unfoldable pub act : EntryModifier → Modified → Outcome
act m z =
    let entry = with_priority m.set_priority z.entry in
    let z' : Modified = record {
      entry = entry;
      scripts = if length m.script_command == 0 then z.scripts else (m, entry) ∷ z.scripts;
    } in
    if m.drop_entry then dropped z' else goes_on z'

unfoldable pub act_on : EntryModifier → Modified → Option LogEntry → Outcome
act_on m z none = failed z
act_on m z (some entry) = act m (record z { entry = entry })

-- what follows from the answer of the match
unfoldable pub after_match :
    EntryModifier → List ℕ → Modified → Option (Bool × List (Option (ℕ × ℕ))) → Outcome
after_match m subject z none = failed z
after_match m subject z (some (found, ovector)) =
    if (if m.negate then not found else found)
    then act_on m z (rewrite_step m ovector subject z.entry)
    else goes_on z

unfoldable pub apply_modifier : Sources → EntryModifier → Modified → Outcome
apply_modifier from m z =
    let own = entry_field_for_modifier z.entry (get_text m.match_field) in
    let subject = if is_some own then own else from.journal_get_field (get_text m.match_field) in
    after_match m (get_text subject) z (match_modifier from m subject)

-- The next step of a chain, if the entry goes on.
abbrev pub and_then : Outcome → (Modified → Outcome) → Outcome
and_then (goes_on z) next = next z
and_then (dropped z) next = dropped z
and_then (rerouted_in_loop z) next = rerouted_in_loop z
and_then (rerouted_too_often z) next = rerouted_too_often z
and_then (failed z) next = failed z

-- the list up to the first modifier that drops the entry or fails
unfoldable pub apply_modifier_list : Sources → List EntryModifier → Modified → Outcome
apply_modifier_list from [] z = goes_on z
apply_modifier_list from (m ∷ modifiers) z =
    and_then (apply_modifier from m z) (λ z'. apply_modifier_list from modifiers z')

abbrev pub max_modifier_reroutes : ℕ
max_modifier_reroutes = 8

abbrev modifier_lists : List PriorityGroup → List (List EntryModifier)
modifier_lists [] = []
modifier_lists (g ∷ groups) = g.modifiers ∷ modifier_lists groups

-- the modifiers of the group of the entry's priority, if there is a group
unfoldable pub group_modifiers : RecorderConfig → ℕ → Option (List EntryModifier)
group_modifiers config priority = elim (get_or config.priority_to_group priority none) [
  | none ↦ none
  | some i ↦
      if ltb i (length config.groups)
      then some (get_or (modifier_lists config.groups) i [])
      else none
]

unfoldable pub apply_group : Sources → Option (List EntryModifier) → Modified → Outcome
apply_group from none z = failed z
apply_group from (some modifiers) z = apply_modifier_list from modifiers z

-- the loop, for at most the given number of rounds
unfoldable pub reroute : ℕ → Sources → RecorderConfig → List Bool → Modified → Outcome
reroute zero from config seen z = rerouted_too_often z
reroute (suc rounds) from config seen z =
    and_then (apply_group from (group_modifiers config z.entry.priority) z) (λ z'.
      let again = reroute rounds from config (set seen z'.entry.priority true) z' in
      if z'.entry.priority == z.entry.priority
      then goes_on z'
      else (if get_or seen z'.entry.priority false then rerouted_in_loop z' else again))

-- the bits of `seen_priorities`
abbrev pub seen_only : ℕ → List Bool
seen_only priority = set (replicate 8 false) priority true

unfoldable pub apply_entry_modifiers : Sources → RecorderConfig → Modified → Outcome
apply_entry_modifiers from config z =
    and_then (apply_modifier_list from config.modifiers z)
      (λ z'. reroute max_modifier_reroutes from config (seen_only z'.entry.priority) z')

-- the fields of `Recorder` that number entries of the same monotonic time stamp
pub record TieState : Type 0 where
  pub have_last : Bool
  pub last_boot_seq : ℕ
  pub last_monotonic_ts : ℕ
  pub tie_order : ℕ

abbrev uint16_max : ℕ
uint16_max = 0xffff

unfoldable pub recorder_assign_monotonic_tie_order : TieState → LogEntry → TieState × LogEntry
recorder_assign_monotonic_tie_order r entry =
    let tied =
      r.have_last
      && ((r.last_boot_seq == entry.boot_seq) && (r.last_monotonic_ts == entry.monotonic_ts)) in
    let more = ltb r.tie_order uint16_max in
    let order : ℕ = if tied then (if more then suc r.tie_order else uint16_max) else 0 in
    let next : ℕ = if tied then (if more then suc r.tie_order else r.tie_order) else 0 in
    if entry.monotonic_ts == 0 then (r, record entry { monotonic_tie_order = 0 }) else (
      record {
        have_last = true;
        last_boot_seq = entry.boot_seq;
        last_monotonic_ts = entry.monotonic_ts;
        tie_order = next;
      },
      record entry { monotonic_tie_order = order },
    )
