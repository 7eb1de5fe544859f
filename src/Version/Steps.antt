-- ===== src/Version/Steps.antt =====
-- How a step of `GetModuleVersionInfo` may end: with a value, with the return of -1, with a read out
-- of the resource, or with the fuel of a loop used up.
use loginhelper.Prelude.{◌≡◌, refl, Bool, true, false, if◌then◌else◌, Option, none, some}

pub data Outcome (A : Type 0) : Type 0 where
  goes : A → Outcome A
  fails : Outcome A
  out_of_bounds : Outcome A
  out_of_fuel : Outcome A

infixl 5 ◌>>=◌
abbrev pub ◌>>=◌ : {A B : Type 0} → Outcome A → (A → Outcome B) → Outcome B
goes a >>= f = f a
fails >>= f = fails
out_of_bounds >>= f = out_of_bounds
out_of_fuel >>= f = out_of_fuel

abbrev pub or_out : {A : Type 0} → Option A → Outcome A
or_out none = out_of_bounds
or_out (some a) = goes a

-- The step ends, without a read out of bounds, and a value that it gives is good.
abbrev pub Ensures : {A : Type 0} → (A → Type 0) → Outcome A → Type 0
Ensures Good (goes a) = Good a
Ensures Good fails = Unit
Ensures Good out_of_bounds = ⊥
Ensures Good out_of_fuel = ⊥

pub Ensures->>= :
    {A B : Type 0} (Good : A → Type 0) (Fine : B → Type 0) (m : Outcome A) (f : A → Outcome B)
    → Ensures Good m
    → ((a : A) → Good a → Ensures Fine (f a))
    → Ensures Fine (m >>= f)
Ensures->>= Good Fine (goes a) f h next = next a h
Ensures->>= Good Fine fails f h next = tt
Ensures->>= Good Fine out_of_bounds f h next = h
Ensures->>= Good Fine out_of_fuel f h next = h

-- The step gives a value, and that is good.
abbrev pub Gives : {A : Type 0} → (A → Type 0) → Outcome A → Type 0
Gives Good (goes a) = Good a
Gives Good fails = ⊥
Gives Good out_of_bounds = ⊥
Gives Good out_of_fuel = ⊥

pub Gives->>= :
    {A B : Type 0} (Good : A → Type 0) (Fine : B → Type 0) (m : Outcome A) (f : A → Outcome B)
    → Gives Good m
    → ((a : A) → Good a → Gives Fine (f a))
    → Gives Fine (m >>= f)
Gives->>= Good Fine (goes a) f h next = next a h
Gives->>= Good Fine fails f h next = h
Gives->>= Good Fine out_of_bounds f h next = h
Gives->>= Good Fine out_of_fuel f h next = h

pub Gives-if :
    {A : Type 0} (Good : A → Type 0) (test : Bool) (first second : Outcome A)
    → (test ≡ true → Gives Good first)
    → (test ≡ false → Gives Good second)
    → Gives Good (if test then first else second)
Gives-if Good true first second h k = h refl
Gives-if Good false first second h k = k refl

pub Ensures-if :
    {A : Type 0} (Good : A → Type 0) (test : Bool) (first second : Outcome A)
    → (test ≡ true → Ensures Good first)
    → (test ≡ false → Ensures Good second)
    → Ensures Good (if test then first else second)
Ensures-if Good true first second h k = h refl
Ensures-if Good false first second h k = k refl

pub Gives-Ensures : {A : Type 0} (Good : A → Type 0) (m : Outcome A) → Gives Good m → Ensures Good m
Gives-Ensures Good (goes a) h = h
Gives-Ensures Good fails h = tt
Gives-Ensures Good out_of_bounds h = h
Gives-Ensures Good out_of_fuel h = h

-- The value that is given.
pub Gives-value :
    {A : Type 0} (Good : A → Type 0) (m : Outcome A)
    → Gives Good m
    → (a : A) × (m ≡ goes a) × Good a
Gives-value Good (goes a) h = (a, refl, h)
Gives-value Good fails h = absurd h
Gives-value Good out_of_bounds h = absurd h
Gives-value Good out_of_fuel h = absurd h
