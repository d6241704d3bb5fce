-- ===== src/Common/Steps.antt =====
-- Calls that return 0 or -1 and change a state, one after the other.
use mathlib.Core.Path.{◌≡◌, refl}
use mathlib.Core.Logic.{◌⊎◌, inl, inr}
use mathlib.Core.Bool.{Bool, true, false}

-- `true` is the return value 0.
abbrev pub Step : Type 0 → Type 0
Step S = S → Bool × S

infixr 3 ◌⨟◌
-- `if (f() != 0) return -1; return g();`
abbrev pub ◌⨟◌ : {S : Type 0} → Step S → Step S → Step S
(f ⨟ g) s = let (done, s') = f s in elim done [ true ↦ g s' | false ↦ (false, s') ]

module _ {S : Type 0} where
  abbrev pub give_up : Step S
  give_up s = (false, s)

  pub seq-cases :
      (f g : Step S) (s : S)
      → (((f s).0 ≡ true) × ((f ⨟ g) s ≡ g (f s).1))
        ⊎ (((f s).0 ≡ false) × (◌≡◌ {A = Bool × S} ((f ⨟ g) s) (false, (f s).1)))
  seq-cases f g s = elim_pair (f s)
    where
      elim_pair :
          (r : Bool × S)
          → ((r.0 ≡ true) × (elim r.0 [ true ↦ g r.1 | false ↦ (false, r.1) ] ≡ g r.1))
            ⊎ ((r.0 ≡ false)
                × (◌≡◌ {A = Bool × S}
                    (elim r.0 [ true ↦ g r.1 | false ↦ (false, r.1) ])
                    (false, r.1)))
      elim_pair (true, s') = inl (refl, refl)
      elim_pair (false, s') = inr (refl, refl)

  -- A chain that succeeds is two calls that did.
  pub seq-done :
      (f g : Step S) (s : S)
      → ((f ⨟ g) s).0 ≡ true
      → ((f s).0 ≡ true) × (((g (f s).1).0 ≡ true) × ((f ⨟ g) s ≡ g (f s).1))
  seq-done f g s done = elim (seq-cases f g s) [
    | inl (ran, e) ↦ (ran, (rw e at done, e))
    | inr (failed, e) ↦ let wrong = rw e at done in cc
  ]

  -- What two calls keep, their chain keeps.
  pub seq-keeps :
      (R : S → S → Type 0)
      → ((a b c : S) → R a b → R b c → R a c)
      → (f g : Step S) (s : S) → R s (f s).1
      → ((s' : S) → R s' (g s').1)
      → R s ((f ⨟ g) s).1
  seq-keeps R trans f g s first second = elim (seq-cases f g s) [
    | inl (ran, e) ↦ rw e (trans s (f s).1 _ first (second (f s).1))
    | inr (failed, e) ↦ rw e first
  ]
