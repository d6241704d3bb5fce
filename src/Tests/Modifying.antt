-- ===== src/Tests/Modifying.antt =====
-- Modifiers on an entry, and entries of one time stamp.
use recorder.Common.{◌≡◌, refl, arith, true, false, some, none}
use recorder.Common.{List, [], ◌∷◌, codes}
use recorder.Config.{RecorderConfig, EntryModifier, match_kind_present}
use recorder.Writer.{LogEntry}
use recorder.Modifiers.{
  Sources, no_match, Modified, apply_entry_modifiers, build_regex_replacement, TieState,
}
use recorder.Modifiers.Escaped.{escape, build_regex_replacement-escape}
use recorder.Modifiers.Reroutes.{InRange, Decided, apply_entry_modifiers-Decided}
use recorder.Modifiers.Ties.{tie_orders, count_up, tie_orders-count_up}
use recorder.Tests.Writers.{toy_config, one_entry, only_group}

escape_example :
    build_regex_replacement (some (0, 2) ∷ []) (codes "ab") (escape (codes "5$x")) ≡ codes "5$x"
escape_example = build_regex_replacement-escape (some (0, 2) ∷ []) (codes "ab") (codes "5$x")

-- every entry with a message gets the priority 6
abbrev lower : EntryModifier
lower = record {
  match_field = some (codes "MESSAGE");
  match_kind = match_kind_present;
  match_exact = none;
  match_present = true;
  negate = false;
  match_regex = none;
  rewrite_field = none;
  replacement = none;
  drop_entry = false;
  set_priority = some 6;
  script_command = [];
  script_run_on_replay = false;
  script_timeout_sec = 10;
}

abbrev lowering : RecorderConfig
lowering = record toy_config { groups = record only_group { modifiers = lower ∷ [] } ∷ [] }

abbrev no_sources : Sources
no_sources = record { pcre2_match = λ pattern subject. no_match; journal_get_field = λ name. none }

lower-InRange : InRange lower
lower-InRange p e = let same : 6 ≡ p = cc in omega (arith, same)

abbrev incoming : Modified
incoming = record { entry = one_entry; scripts = [] }

modifiers_example : Decided (apply_entry_modifiers no_sources lowering incoming)
modifiers_example =
    apply_entry_modifiers-Decided no_sources lowering incoming tt ((lower-InRange, tt), tt)
      (omega arith)

abbrev at_start : TieState
at_start = record { have_last = false; last_boot_seq = 0; last_monotonic_ts = 0; tie_order = 0 }

abbrev burst : List LogEntry
burst = one_entry ∷ one_entry ∷ one_entry ∷ []

ties_example : tie_orders at_start burst ≡ count_up 0 burst
ties_example =
    tie_orders-count_up at_start one_entry (one_entry ∷ one_entry ∷ [])
      (λ e. absurd (omega (arith, e))) refl ((refl, refl), ((refl, refl), tt)) (omega arith)
