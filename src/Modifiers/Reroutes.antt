-- ===== src/Modifiers/Reroutes.antt =====
-- src/recorder.c: the bound on the reroutes in `apply_entry_modifiers` is never what ends them.
use recorder.Common.{ℕ, zero, suc, ◌<◌, ◌≡◌, refl, ap, ◌∙◌, arith, inl, inr}
use recorder.Common.{
  Bool, true, false, not, Bool-cases, Option, none, some, Option-cases, List, [], ◌∷◌, All, length,
  length-set, set, get_or, replicate, ◌==◌, bytes_eq, codes, if◌then◌else◌, ltb,
}
use recorder.Config.{RecorderConfig, PriorityGroup, EntryModifier}
use recorder.Writer.{LogEntry}
use recorder.Modifiers.{
  Sources, Outcome, goes_on, dropped, rerouted_in_loop, rerouted_too_often, failed, Modified,
  rewrite_entry_field, rewrite_step, act, act_on, after_match, and_then, apply_group,
  apply_modifier, apply_modifier_list, group_modifiers, modifier_lists, reroute,
  apply_entry_modifiers, seen_only, max_modifier_reroutes,
}

-- The priority that a modifier sets is one of the eight.
abbrev pub InRange : EntryModifier → Type 0
InRange m = (p : ℕ) → m.set_priority ≡ some p → p < 8

-- not ended by the bound, and with one of the eight priorities where the entry goes on
abbrev pub Decided : Outcome → Type 0
Decided (goes_on z) = z.entry.priority < 8
Decided (rerouted_too_often z) = ⊥
Decided (dropped z) = Unit
Decided (rerouted_in_loop z) = Unit
Decided (failed z) = Unit

abbrev Same : LogEntry → Option LogEntry → Type 0
Same entry none = Unit
Same entry (some e) = e.priority ≡ entry.priority

rewrite_entry_field-Same :
    (entry : LogEntry) (name text : List ℕ) → Same entry (rewrite_entry_field entry name text)
unfolding rewrite_entry_field
rewrite_entry_field-Same entry name text =
    pick (bytes_eq name (codes "MESSAGE")) (bytes_eq name (codes "MESSAGE_ID"))
      (bytes_eq name (codes "_HOSTNAME")) (bytes_eq name (codes "_SYSTEMD_UNIT"))
      (bytes_eq name (codes "_COMM")) (bytes_eq name (codes "_EXE"))
  where
    pick :
        (a b c d e f : Bool)
        → Same entry (
            if a
            then some (record entry { message = some text })
            else if b
            then some (record entry { message_id = some text })
            else if c
            then some (record entry { hostname = some text })
            else if d
            then some (record entry { unit = some text })
            else if e
            then some (record entry { comm = some text })
            else if f
            then some (record entry { exe = some text })
            else none)
    pick true b c d e f = refl
    pick false true c d e f = refl
    pick false false true d e f = refl
    pick false false false true e f = refl
    pick false false false false true f = refl
    pick false false false false false true = refl
    pick false false false false false false = tt

rewrite_step-Same :
    (m : EntryModifier) (ovector : List (Option (ℕ × ℕ))) (subject : List ℕ) (entry : LogEntry)
    → Same entry (rewrite_step m ovector subject entry)
unfolding rewrite_step
rewrite_step-Same m ovector subject entry = elim (Option-cases m.rewrite_field) [
  | inl e ↦ rw (e, rewrite_step) refl
  | inr (field, e) ↦ rw (e, rewrite_step) (rewrite_entry_field-Same entry field _)
]

act-Decided :
    (m : EntryModifier) (z : Modified) → InRange m → z.entry.priority < 8 → Decided (act m z)
unfolding act
act-Decided m z range low = elim (Bool-cases m.drop_entry) [
  | inl gone ↦ rw (gone, act) tt
  | inr stays ↦ elim (Option-cases m.set_priority) [
    | inl e ↦ rw (stays, act, e) low
    | inr (p, e) ↦ rw (stays, act, e) (range p e)
  ]
]

act_on-Decided :
    (m : EntryModifier) (z : Modified) (o : Option LogEntry)
    → Same z.entry o
    → InRange m
    → z.entry.priority < 8
    → Decided (act_on m z o)
unfolding act_on
act_on-Decided m z none same range low = tt
act_on-Decided m z (some entry) same range low =
    act-Decided m (record z { entry = entry }) range (omega (arith, same, low))

after_match-Decided :
    (m : EntryModifier) (subject : List ℕ) (z : Modified)
    (answer : Option (Bool × List (Option (ℕ × ℕ))))
    → InRange m
    → z.entry.priority < 8
    → Decided (after_match m subject z answer)
unfolding after_match
after_match-Decided m subject z none range low = tt
after_match-Decided m subject z (some (found, ovector)) range low =
    elim (Bool-cases (if m.negate then not found else found)) [
      | inl yes_it_does ↦
          rw yes_it_does
            (act_on-Decided m z _ (rewrite_step-Same m ovector subject z.entry) range low)
      | inr it_does_not ↦ rw it_does_not low
    ]

-- What two steps of a chain decide, the chain decides.
and_then-Decided :
    (o : Outcome) (next : Modified → Outcome)
    → Decided o
    → ((z : Modified) → z.entry.priority < 8 → Decided (next z))
    → Decided (and_then o next)
and_then-Decided (goes_on z) next d h = h z d
and_then-Decided (dropped z) next d h = tt
and_then-Decided (rerouted_in_loop z) next d h = tt
and_then-Decided (rerouted_too_often z) next d h = d
and_then-Decided (failed z) next d h = tt

apply_modifier_list-Decided :
    (from : Sources) (modifiers : List EntryModifier) (z : Modified)
    → All InRange modifiers
    → z.entry.priority < 8
    → Decided (apply_modifier_list from modifiers z)
unfolding apply_modifier_list apply_modifier
apply_modifier_list-Decided from [] z range low = low
apply_modifier_list-Decided from (m ∷ modifiers) z (range, more) low =
    and_then-Decided (apply_modifier from m z) (apply_modifier_list from modifiers)
      (after_match-Decided m _ z _ range low)
      (λ z' low'. apply_modifier_list-Decided from modifiers z' more low')

-- the priorities that were not seen yet
abbrev unseen : List Bool → ℕ
unseen [] = 0
unseen (b ∷ seen) = if b then unseen seen else suc (unseen seen)

unseen-set :
    (seen : List Bool) (p : ℕ)
    → p < length seen
    → get_or seen p false ≡ false
    → suc (unseen (set seen p true)) ≡ unseen seen
unseen-set [] p low e = absurd (omega arith)
unseen-set (true ∷ seen) zero low e = cc
unseen-set (false ∷ seen) zero low e = refl
unseen-set (true ∷ seen) (suc p) low e = unseen-set seen p (omega arith) e
unseen-set (false ∷ seen) (suc p) low e = ap suc (unseen-set seen p (omega arith) e)

-- The modifiers of every group set priorities that there are.
abbrev pub AllInRange : List PriorityGroup → Type 0
AllInRange [] = Unit
AllInRange (g ∷ groups) = All InRange g.modifiers × AllInRange groups

get_lists-InRange :
    (groups : List PriorityGroup) (i : ℕ)
    → AllInRange groups
    → All InRange (get_or (modifier_lists groups) i [])
get_lists-InRange [] i h = tt
get_lists-InRange (g ∷ groups) zero (h, hs) = h
get_lists-InRange (g ∷ groups) (suc i) (h, hs) = get_lists-InRange groups i hs

apply_group-Decided :
    (from : Sources) (config : RecorderConfig) (z : Modified)
    → AllInRange config.groups
    → z.entry.priority < 8
    → Decided (apply_group from (group_modifiers config z.entry.priority) z)
unfolding apply_group group_modifiers
apply_group-Decided from config z range low =
    elim (Option-cases (get_or config.priority_to_group z.entry.priority none)) [
      | inl nowhere ↦ rw (nowhere, group_modifiers) tt
      | inr (i, e) ↦ elim (Bool-cases (ltb i (length config.groups))) [
        | inl there ↦
            rw (e, group_modifiers, there)
              (apply_modifier_list-Decided from (get_or (modifier_lists config.groups) i []) z
                (get_lists-InRange config.groups i range) low)
        | inr beyond ↦ rw (e, group_modifiers, beyond) tt
      ]
    ]

reroute-Decided :
    (rounds : ℕ) (from : Sources) (config : RecorderConfig) (seen : List Bool) (z : Modified)
    → AllInRange config.groups
    → z.entry.priority < 8
    → length seen ≡ 8
    → unseen seen < rounds
    → Decided (reroute rounds from config seen z)
unfolding reroute
reroute-Decided zero from config seen z range low eight room = absurd (omega arith)
reroute-Decided (suc rounds) from config seen z range low eight room =
    and_then-Decided _ _ (apply_group-Decided from config z range low) (λ z' low'.
      elim (Bool-cases (z'.entry.priority == z.entry.priority)) [
        | inl settled ↦ rw settled low'
        | inr moved ↦ elim (Bool-cases (get_or seen z'.entry.priority false)) [
          | inl before ↦ rw (moved, before) tt
          | inr new ↦
              let fewer = unseen-set seen z'.entry.priority (omega (arith, eight)) new in
              rw (moved, new)
                (reroute-Decided rounds from config (set seen z'.entry.priority true) z' range low'
                  (length-set seen z'.entry.priority true ∙ eight) (omega (arith, fewer, room)))
        ]
      ])

-- If every modifier that sets a priority sets one from 0 to 7, and the entry has one of these,
-- then `apply_entry_modifiers` is never ended by its bound of eight reroutes: the entry goes on
-- with a priority from 0 to 7, or is dropped by a modifier or for a loop of reroutes, or a
-- modifier fails.
pub apply_entry_modifiers-Decided :
    (from : Sources) (config : RecorderConfig) (z : Modified)
    → All InRange config.modifiers
    → AllInRange config.groups
    → z.entry.priority < 8
    → Decided (apply_entry_modifiers from config z)
unfolding apply_entry_modifiers
apply_entry_modifiers-Decided from config z top groups low =
    and_then-Decided _ _ (apply_modifier_list-Decided from config.modifiers z top low) (λ z' low'.
      let none_seen = replicate 8 false in
      let one = unseen-set none_seen z'.entry.priority low' (all_false 8 z'.entry.priority) in
      reroute-Decided max_modifier_reroutes from config (seen_only z'.entry.priority) z' groups low'
        (length-set none_seen z'.entry.priority true) (omega (arith, one)))
  where
    all_false : (n p : ℕ) → get_or (replicate n false) p false ≡ false
    all_false zero p = refl
    all_false (suc n) zero = refl
    all_false (suc n) (suc p) = all_false n p
