-- ===== src/Common/Tests.antt =====
-- Boolean tests on the native numbers, the conditional, and the result of a fallible C function.
use Prim.Native.Nat.{ℕ, ◌≤◌, ◌<◌, compare, Ordering}
use mathlib.Core.Path.{◌≡◌, refl}
use mathlib.Core.Logic.{◌↔◌, ◌⊎◌, inl, inr}
use mathlib.Core.Bool.{Bool, true, false}
use mathlib.Core.Option.{Option, none, some}
use native.Mathlib.Omega.{arith}

abbrev pub ltb : ℕ → ℕ → Bool
ltb a b = elim (compare a b) [ Ordering.lt ↦ true | _ ↦ false ]

abbrev pub leb : ℕ → ℕ → Bool
leb a b = elim (compare a b) [ Ordering.gt ↦ false | _ ↦ true ]

infix 50 ◌==◌
abbrev pub ◌==◌ : ℕ → ℕ → Bool
a == b = elim (compare a b) [ Ordering.eq ↦ true | _ ↦ false ]

infix 1 if◌then◌else◌
abbrev pub if◌then◌else◌ {ℓ} : {A : Type ℓ} → Bool → A → A → A
if true then x else y = x
if false then x else y = y

pub ltb→lt : (a b : ℕ) → ltb a b ≡ true → a < b
ltb→lt a b h = ground arith

pub leb→le : (a b : ℕ) → leb a b ≡ true → a ≤ b
leb→le a b h = ground arith

pub le→leb : (a b : ℕ) → a ≤ b → leb a b ≡ true
le→leb a b h = ground arith

pub lt→ltb : (a b : ℕ) → a < b → ltb a b ≡ true
lt→ltb a b h = ground arith

pub le→ltb_false : (a b : ℕ) → b ≤ a → ltb a b ≡ false
le→ltb_false a b h = ground arith

pub lt→leb_false : (a b : ℕ) → b < a → leb a b ≡ false
lt→leb_false a b h = ground arith

pub ==_refl : (a : ℕ) → (a == a) ≡ true
==_refl a = ground arith

pub eq→== : (a b : ℕ) → a ≡ b → (a == b) ≡ true
eq→== a b h = ground arith

pub ne→==_false : (a b : ℕ) → (a ≡ b → ⊥) → (a == b) ≡ false
ne→==_false a b h = ground arith

pub ==→eq : (a b : ℕ) → (a == b) ≡ true → a ≡ b
==→eq a b h = ground arith

pub ==_iff : (a b : ℕ) → ((a == b) ≡ true) ↔ (a ≡ b)
==_iff a b = ground arith

-- To split on a computed value and keep the equation.
pub Bool-cases : (b : Bool) → (b ≡ true) ⊎ (b ≡ false)
Bool-cases true = inl refl
Bool-cases false = inr refl

pub Option-cases {ℓ} : {A : Type ℓ} (o : Option A) → (o ≡ none) ⊎ ((a : A) × (o ≡ some a))
Option-cases none = inl refl
Option-cases (some a) = inr (a, refl)

-- `p != NULL`
abbrev pub is_some {ℓ} : {A : Type ℓ} → Option A → Bool
is_some none = false
is_some (some a) = true

-- What a function that returns -1 leaves in `errno`; `unset` where the code does not set it.
pub data Errno : Type 0 where
  unset einval eoverflow enotsup eacces eio estale eprotonosupport overrun : Errno

-- `ok` is a return of 0 with what went through the out parameters, `err` a return of -1. The errno
-- `overrun` stands for no return at all: the source has written out of an array.
pub data Result {ℓ} (A : Type ℓ) : Type ℓ where
  ok : A → Result A
  err : Errno → Result A

infixl 5 ◌>>=◌ ◌>>◌
-- `if (!b) { errno = e; return -1; }`
abbrev pub guard : Bool → Errno → Result (Unit {0})
guard true e = ok tt
guard false e = err e

-- The first -1 is passed on.
abbrev pub ◌>>=◌ {ℓ κ} : {X : Type ℓ} {Y : Type κ} → Result X → (X → Result Y) → Result Y
err code >>= next = err code
ok x >>= next = next x

abbrev pub ◌>>◌ {ℓ} : {Y : Type ℓ} → Result (Unit {0}) → Result Y → Result Y
err code >> next = err code
ok x >> next = next

-- A chain that succeeds went through its head.
pub past_bind {ℓ κ} :
    {X : Type ℓ} {Y : Type κ} (head : Result X) (next : X → Result Y) {y : Y}
    → (head >>= next) ≡ ok y
    → (x : X) × (next x ≡ ok y)
past_bind (err code) next done = cc
past_bind (ok x) next done = (x, done)

pub past_guard {ℓ} :
    {Y : Type ℓ} (t : Bool) (code : Errno) (next : Result Y) (y : Y)
    → (guard t code >> next) ≡ ok y
    → (t ≡ true) × (next ≡ ok y)
past_guard false code next y done = cc
past_guard true code next y done = (refl, done)

pub ok-injective {ℓ} : {X : Type ℓ} (x y : X) → ok x ≡ ok y → x ≡ y
ok-injective x y e = cc

pub Result-cases {ℓ} :
    {A : Type ℓ} (r : Result A) → ((a : A) × (r ≡ ok a)) ⊎ ((e : Errno) × (r ≡ err e))
Result-cases (ok a) = inl (a, refl)
Result-cases (err e) = inr (e, refl)

-- A test whose result is known, where a rewrite would also reach what it is about.
pub on_some {ℓ κ} :
    {A : Type ℓ} {B : Type κ} (o : Option A) (a : A) (n : B) (f : A → B)
    → o ≡ some a
    → elim o as (λ x. B) [ none ↦ n | some x ↦ f x ] ≡ f a
on_some o a n f e = rw e refl

pub on_none {ℓ κ} :
    {A : Type ℓ} {B : Type κ} (o : Option A) (n : B) (f : A → B)
    → o ≡ none
    → elim o as (λ x. B) [ none ↦ n | some x ↦ f x ] ≡ n
on_none o n f e = rw e refl

pub on_true {ℓ} : {A : Type ℓ} (b : Bool) (x y : A) → b ≡ true → (if b then x else y) ≡ x
on_true b x y e = rw e refl

pub on_false {ℓ} : {A : Type ℓ} (b : Bool) (x y : A) → b ≡ false → (if b then x else y) ≡ y
on_false b x y e = rw e refl

-- as `past_bind`, with what the head came to
pub past_run {ℓ κ} :
    {X : Type ℓ} {Y : Type κ} (head : Result X) (next : X → Result Y) {y : Y}
    → (head >>= next) ≡ ok y
    → (x : X) × ((head ≡ ok x) × (next x ≡ ok y))
past_run (err code) next done = cc
past_run (ok x) next done = (x, (refl, done))
