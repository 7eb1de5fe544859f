-- ===== src/Prelude/Results.antt =====
-- How a call of the program may end.
use mathlib.Core.Path.{◌≡◌, refl}
use mathlib.Core.Option.{Option, none, some}
use mathlib.Core.Bool.{Bool, true, false}
use loginhelper.Prelude.Tests.{if◌then◌else◌}

-- `throws`: a C++ exception leaves it; `aborts`: the C runtime ends the process on an invalid
-- parameter; `undefined`: it reads or writes out of bounds, and anything may happen.
pub data Result {ℓ} (A : Type ℓ) : Type ℓ where
  ok : A → Result A
  throws : Result A
  aborts : Result A
  undefined : Result A

infixl 5 ◌>>=◌
abbrev pub ◌>>=◌ {ℓ κ} : {A : Type ℓ} {B : Type κ} → Result A → (A → Result B) → Result B
ok a >>= f = f a
throws >>= f = throws
aborts >>= f = aborts
undefined >>= f = undefined

abbrev pub some_or {ℓ} : {A : Type ℓ} → Result A → Option A → Result A
some_or failure none = failure
some_or failure (some a) = ok a

-- A chain that ends well has an intermediate value.
pub ok->>= {ℓ κ} :
    {A : Type ℓ} {B : Type κ} (first : Result A) (next : A → Result B) {result : B}
    → (first >>= next) ≡ ok result
    → (middle : A) × (first ≡ ok middle) × (next middle ≡ ok result)
ok->>= (ok middle) next e = (middle, refl, e)
ok->>= throws next e = cc
ok->>= aborts next e = cc
ok->>= undefined next e = cc

-- A value that the call returns is good, if it returns one.
abbrev pub Holds {ℓ} : {A : Type ℓ} → (A → Type 0) → Result A → Type 0
Holds Good (ok a) = Good a
Holds Good throws = Unit
Holds Good aborts = Unit
Holds Good undefined = Unit

pub Holds->>= {ℓ κ} :
    {A : Type ℓ} {B : Type κ} (Good : B → Type 0) (m : Result A) (f : A → Result B)
    → ((a : A) → m ≡ ok a → Holds Good (f a))
    → Holds Good (m >>= f)
Holds->>= Good (ok a) f h = h a refl
Holds->>= Good throws f h = tt
Holds->>= Good aborts f h = tt
Holds->>= Good undefined f h = tt

pub Holds-if {ℓ} :
    {A : Type ℓ} (Good : A → Type 0) (test : Bool) (first second : Result A)
    → Holds Good first
    → Holds Good second
    → Holds Good (if test then first else second)
Holds-if Good true first second h k = h
Holds-if Good false first second h k = k

pub Holds-map {ℓ} :
    {A : Type ℓ} (Good Fine : A → Type 0) (m : Result A)
    → ((a : A) → Good a → Fine a)
    → Holds Good m
    → Holds Fine m
Holds-map Good Fine (ok a) h k = h a k
Holds-map Good Fine throws h k = tt
Holds-map Good Fine aborts h k = tt
Holds-map Good Fine undefined h k = tt
