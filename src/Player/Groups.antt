-- ===== src/Player/Groups.antt =====
-- src/player.c: `valid_group_name` and `add_group_option`.
use recorder.Common.{
  ℕ, zero, suc, ◌+◌, ◌≤◌, ◌<◌, ◌≡◌, refl, arith, inl, inr, Bool, true, false, not, ◌||◌, ◌&&◌, ap,
  ◌∙◌,
}
use recorder.Common.{
  Bool-cases, Option, none, some, List, [], ◌∷◌, ◌++◌, length, length-append, append_assoc, ◌==◌,
  leb, if◌then◌else◌, codes, bytes_eq, All, on_false, lt→leb_false, ==→eq, subst, ne→==_false,
}

-- a letter, a digit, '_' or '-'
unfoldable pub group_character : ℕ → Bool
group_character ch =
    (leb b'a' ch && leb ch b'z')
    || ((leb b'A' ch && leb ch b'Z')
        || ((leb b'0' ch && leb ch b'9') || ((ch == b'_') || (ch == b'-'))))

unfoldable pub group_characters : List ℕ → Bool
group_characters [] = true
group_characters (ch ∷ name) = group_character ch && group_characters name

unfoldable pub valid_group_name : List ℕ → Bool
valid_group_name name =
    not ((length name == 0) || bytes_eq name (codes "state")) && group_characters name

-- `strchr(start, ',')`: the text in front of the comma, and the one behind it
unfoldable pub cut_comma : List ℕ → List ℕ × Option (List ℕ)
cut_comma [] = ([], none)
cut_comma (c ∷ start) =
    let (group, rest) = cut_comma start in if c == b',' then ([], some start) else (c ∷ group, rest)

-- `SIZE_MAX / sizeof(*groups)`
abbrev pub max_groups : ℕ
max_groups = 2305843009213693951

-- one group that is refused
unfoldable pub refused : List (List ℕ) → List ℕ → Bool
refused groups group =
    ((length group == 0) || (leb 64 (length group) || (length groups == max_groups)))
    || not (valid_group_name group)

-- the loop, for at most `fuel` groups: the groups of the options, and whether it returned 0
unfoldable pub add_groups : ℕ → List (List ℕ) → List ℕ → List (List ℕ) × Bool
add_groups zero groups start = (groups, false)
add_groups (suc fuel) groups start =
    let (group, rest) = cut_comma start in
    if refused groups group then (groups, false) else elim rest [
      | none ↦ (groups ++ (group ∷ []), true)
      | some next ↦ add_groups fuel (groups ++ (group ∷ [])) next
    ]

unfoldable pub add_group_option : List (List ℕ) → Option (List ℕ) → List (List ℕ) × Bool
add_group_option groups none = (groups, false)
add_group_option groups (some []) = (groups, false)
add_group_option groups (some (c ∷ value)) = add_groups (length (c ∷ value)) groups (c ∷ value)

-- the names with commas between them
abbrev pub joined : List ℕ → List (List ℕ) → List ℕ
joined g [] = g
joined g (h ∷ gs) = g ++ (b',' ∷ joined h gs)

-- a name that the option takes
abbrev pub IsName : List ℕ → Type 0
IsName g = (valid_group_name g ≡ true) × (length g < 64)

comma_inside : (c : ℕ) → group_character c ≡ true → (c == b',') ≡ false
unfolding group_character
comma_inside c e = elim (Bool-cases (c == b',')) [
  | inl same ↦
      let bad : false ≡ true = subst (λ x. group_character x ≡ true) (==→eq c b',' same) e in
      absurd cc
  | inr other ↦ other
]

both : (a b : Bool) → (a && b) ≡ true → (a ≡ true) × (b ≡ true)
both true b e = (refl, e)
both false b e = absurd cc

cut_comma-last : (g : List ℕ) → group_characters g ≡ true → cut_comma g ≡ (g, none)
unfolding cut_comma group_characters
cut_comma-last [] e = refl
cut_comma-last (c ∷ g) e =
    let (inside, more) = both (group_character c) (group_characters g) e in
    rw (comma_inside c inside, cut_comma-last g more) refl

cut_comma-next :
    (g next : List ℕ) → group_characters g ≡ true → cut_comma (g ++ (b',' ∷ next)) ≡ (g, some next)
unfolding cut_comma group_characters
cut_comma-next [] next e = refl
cut_comma-next (c ∷ g) next e =
    let (inside, more) = both (group_character c) (group_characters g) e in
    rw (comma_inside c inside, cut_comma-next g next more) refl

IsName-characters : (g : List ℕ) → IsName g → group_characters g ≡ true
unfolding valid_group_name
IsName-characters g (valid, short) =
    (both (not ((length g == 0) || bytes_eq g (codes "state"))) (group_characters g) valid).1

none_of :
    (a b c d : Bool)
    → a ≡ false
    → b ≡ false
    → c ≡ false
    → d ≡ true
    → ((a || (b || c)) || not d) ≡ false
none_of a b c d ea eb ec ed = rw (ea, eb, ec, ed) refl

IsName-refused :
    (groups : List (List ℕ)) (g : List ℕ)
    → IsName g
    → length groups < max_groups
    → refused groups g ≡ false
unfolding refused valid_group_name
IsName-refused groups [] (valid, short) room = absurd cc
IsName-refused groups (c ∷ g) (valid, short) room =
    none_of (length (c ∷ g) == 0) (leb 64 (length (c ∷ g))) (length groups == max_groups)
      (valid_group_name (c ∷ g)) (ne→==_false (length (c ∷ g)) 0 (λ e. omega (arith, e)))
      (lt→leb_false 64 (length (c ∷ g)) short)
      (ne→==_false (length groups) max_groups (λ e. omega (arith, room, e))) valid

-- what the loop does with a group that is taken
abbrev after : ℕ → List (List ℕ) → List ℕ × Option (List ℕ) → List (List ℕ) × Bool
after fuel groups (g, rest) = elim rest [
  | none ↦ (groups ++ (g ∷ []), true)
  | some next ↦ add_groups fuel (groups ++ (g ∷ [])) next
]

add_groups-step :
    (fuel : ℕ) (groups : List (List ℕ)) (start g : List ℕ) (rest : Option (List ℕ))
    → cut_comma start ≡ (g, rest)
    → refused groups g ≡ false
    → add_groups (suc fuel) groups start ≡ after fuel groups (g, rest)
unfolding add_groups
add_groups-step fuel groups start g rest cut fine =
    ap {B = List (List ℕ) × Bool}
      (λ (p : List ℕ × Option (List ℕ)).
        if refused groups p.0 then (groups, false) else after fuel groups p)
      cut
    ∙ on_false (refused groups g) (groups, false) (after fuel groups (g, rest)) fine

add_groups-joined :
    (fuel : ℕ) (groups : List (List ℕ)) (g : List ℕ) (gs : List (List ℕ))
    → All IsName (g ∷ gs)
    → length groups + length (g ∷ gs) ≤ max_groups
    → length gs < fuel
    → add_groups fuel groups (joined g gs) ≡ (groups ++ (g ∷ gs), true)
add_groups-joined zero groups g gs names room enough = absurd (omega arith)
add_groups-joined (suc fuel) groups g [] (name, names) room enough =
    add_groups-step fuel groups g g none (cut_comma-last g (IsName-characters g name))
      (IsName-refused groups g name (omega arith))
add_groups-joined (suc fuel) groups g (h ∷ gs) (name, names) room enough =
    add_groups-step fuel groups (g ++ (b',' ∷ joined h gs)) g (some (joined h gs))
      (cut_comma-next g (joined h gs) (IsName-characters g name))
      (IsName-refused groups g name (omega arith))
    ∙ add_groups-joined fuel (groups ++ (g ∷ [])) h gs names
        (omega (arith, length-append groups (g ∷ []))) (omega arith)
    ∙ ap (λ all. (all, true)) (append_assoc groups (g ∷ []) (h ∷ gs))

length-joined :
    (g : List ℕ) (gs : List (List ℕ)) → All IsName (g ∷ gs) → length gs < length (joined g gs)
unfolding valid_group_name
length-joined [] gs ((valid, short), names) = absurd cc
length-joined (c ∷ g) [] names = omega arith
length-joined (c ∷ g) (h ∷ gs) (name, names) =
    omega (arith, length-append g (b',' ∷ joined h gs), length-joined h gs names)

-- Valid group names of less than 64 bytes, joined by commas, are all added by `add_group_option`
-- in their order behind the groups that are there, and it returns 0, while the number of groups
-- does not pass the bound of the code.
pub add_group_option-joined :
    (groups : List (List ℕ)) (g : List ℕ) (gs : List (List ℕ))
    → All IsName (g ∷ gs)
    → length groups + length (g ∷ gs) ≤ max_groups
    → add_group_option groups (some (joined g gs)) ≡ (groups ++ (g ∷ gs), true)
unfolding add_group_option
add_group_option-joined groups g gs names room =
    go (joined g gs) (length-joined g gs names)
      (add_groups-joined (length (joined g gs)) groups g gs names room (length-joined g gs names))
  where
    go :
        (text : List ℕ)
        → length gs < length text
        → add_groups (length text) groups text ≡ (groups ++ (g ∷ gs), true)
        → add_group_option groups (some text) ≡ (groups ++ (g ∷ gs), true)
    go [] more e = absurd (omega arith)
    go (c ∷ text) more e = e
