-- ===== src/Pe/Loader/Names.antt =====
-- The name of a module that was found by its name.
use mathlib.Core.Path.{subst, fun_ext}
use loginhelper.Prelude.{
  ℕ, ◌*◌, ◌<◌, ◌≡◌, ◌≢◌, refl, sym, ap, ◌∙◌, Bool, List, [], ◌∷◌, ◌++◌, map, Option, none, some,
  ◌==◌, ==_iff, Bool-cases, inl, inr, length, All,
}
use loginhelper.NtString.{NtString, view}
use loginhelper.NtString.Laws.{IsString}
use loginhelper.Locks.{LockCalls, IsLock, with_guard, lock, unlock}
use loginhelper.Pe.Loader.{
  LoaderData, Walk, exhausted, ended, stopped, search_list, name_at, module_name, base_name,
  base_at, get_module,
}
use loginhelper.Pe.Loader.Rings.{
  Chain, first_of, find_entry-first_of, Finds, IsList, locked, unlocked, IsNamed, get_module-Finds,
}

some-injective : {a b : ℕ} → some a ≡ some b → a ≡ b
some-injective {a = a} e = ap (λ (o : Option ℕ). elim o [ none ↦ a | some c ↦ c ]) e

-- The entries are different modules.
abbrev pub Distinct : (ℕ → ℕ) → List ℕ → Type 0
Distinct f [] = Unit {0}
Distinct f (e ∷ es) = All (λ x. f x ≢ f e) es × Distinct f es

first_of_self :
    (f : ℕ → ℕ) (e : ℕ) (before after : List ℕ)
    → Distinct f (before ++ (e ∷ after))
    → first_of (λ x. f x == f e) (before ++ (e ∷ after)) ≡ stopped e
first_of_self f e [] after apart = rw ((==_iff (f e) (f e)).1 refl) refl
first_of_self f e (b ∷ before) after (apart, rest) =
    let other : f e ≢ f b = elsewhere before apart in
    elim (Bool-cases (f b == f e)) [
      | inl same ↦ absurd (other (sym ((==_iff (f b) (f e)).0 same)))
      | inr differ ↦ rw differ (first_of_self f e before after rest)
    ]
  where
    elsewhere : (before : List ℕ) → All (λ x. f x ≢ f b) (before ++ (e ∷ after)) → f e ≢ f b
    elsewhere [] h = h.0
    elsewhere (x ∷ xs) h = elsewhere xs h.1

module _ {World : Type 0} (locks : LockCalls World) (laws : IsLock locks) (ldr : LoaderData World)
    (tolower : ℕ → ℕ) (name : List ℕ) (fits : length name * 2 < 65536) where
  -- The list is the same in two states, as far as the searches read it.
  abbrev pub SameList : World → World → Type 0
  SameList w w' =
      (ldr.head w' ≡ ldr.head w)
      × ((e : ℕ) → ldr.flink e w' ≡ ldr.flink e w)
      × ((e : ℕ) → ldr.dll_base e w' ≡ ldr.dll_base e w)
      × ((e : ℕ) → ldr.base_dll_name e w' ≡ ldr.base_dll_name e w)

  Chain-cong :
      (next next' : ℕ → ℕ) (head entry : ℕ) (es : List ℕ)
      → ((e : ℕ) → next' e ≡ next e)
      → Chain next head entry es
      → Chain next' head entry es
  Chain-cong next next' head entry [] same h = h
  Chain-cong next next' head entry (e ∷ es) same (here, inside, rest) =
      (here, inside, rw (same e) (Chain-cong next next' head (next e) es same rest))

  module _ (w1 w2 : World) (es : List ℕ) (same : SameList w1 w2) where
    IsList-same : IsList locks laws ldr w1 es → IsList locks laws ldr w2 es
    IsList-same chain =
        rw (same.0, same.1 (ldr.head w1))
          (Chain-cong (λ e. ldr.flink e w1) (λ e. ldr.flink e w2) (ldr.head w1) _ es same.1 chain)

    -- A search for the module of one of the entries stops at that entry.
    search_list_self :
        (fuel e : ℕ) (before after : List ℕ)
        → IsList locks laws ldr w1 es
        → length es < fuel
        → Distinct (λ x. ldr.dll_base x w1) es
        → es ≡ before ++ (e ∷ after)
        → search_list locks ldr fuel (λ x w. ldr.dll_base x w == ldr.dll_base e w1) w2 ≡ stopped e
    unfolding search_list
    search_list_self fuel e before after chain enough apart split =
        let base = ldr.dll_base e w1 in
        find_entry-first_of (λ x. ldr.flink x w2) (ldr.head w2) (λ x. ldr.dll_base x w2 == base)
          fuel _ es (IsList-same chain) enough
        ∙ ap (λ (test : ℕ → Bool). first_of test es)
            (fun_ext (λ x. ap (λ (b : ℕ). b == base) (same.2 x)))
        ∙ ap (λ (t : List ℕ). first_of (λ x. ldr.dll_base x w1 == base) t) split
        ∙ first_of_self (λ x. ldr.dll_base x w1) e before after
            (subst (Distinct (λ x. ldr.dll_base x w1)) split apart)

  -- The base name of the module that `get_module` finds by a name is that name, but for case, if
  -- there is one, the entries are different modules, and the list is not changed between the calls.
  -- The other conditions are those of `get_module`.
  pub base_name-get_module :
      (fuel : ℕ) (w : World) (es : List ℕ) (base : ℕ)
      → IsList locks laws ldr (locked locks laws ldr w) es
      → length es < fuel
      → All (λ e. IsString 2 4 refl (ldr.base_dll_name e (locked locks laws ldr w))) es
      → Distinct (λ e. ldr.dll_base e (locked locks laws ldr w)) es
      → SameList (locked locks laws ldr w) (locked locks laws ldr (unlocked locks laws ldr w))
      → (get_module locks ldr tolower fuel (some name) w).0 ≡ some base
      → base ≢ 0
      → (t : List ℕ) × ((base_name locks ldr fuel base (unlocked locks laws ldr w)).0 ≡ some t)
        × (map tolower t ≡ map tolower name)
  unfolding base_name module_name with_guard lock unlock name_at base_at
  base_name-get_module fuel w es base chain enough strings apart same found there =
      let (r, base', ran, finds, at, kept) =
        get_module-Finds locks laws ldr tolower name fits fuel w es chain enough strings in
      finish r finds (at ∙ sym (ap (λ (p : Option ℕ × World). p.0) ran) ∙ found)
    where
      finish :
          (r : Walk)
          → Finds (IsNamed locks laws ldr tolower name fits (locked locks laws ldr w)) es r
          → base_at locks ldr r (locked locks laws ldr w) ≡ some base
          → (t : List ℕ) × ((base_name locks ldr fuel base (unlocked locks laws ldr w)).0 ≡ some t)
            × (map tolower t ≡ map tolower name)
      finish exhausted finds e = absurd finds
      finish ended finds e = absurd (there (sym (some-injective e)))
      finish (stopped x) (before, after, split, (linked, named), none_before) e =
          let w1 = locked locks laws ldr w in
          let w2 = locked locks laws ldr (unlocked locks laws ldr w) in
          let again = search_list_self w1 w2 es same fuel x before after chain enough apart split in
          let here : ldr.dll_base x w1 ≡ base = some-injective e in
          (
            view 2 4 (ldr.base_dll_name x w2),
            rw (← here) (ap (λ (r : Walk). name_at locks ldr ldr.base_dll_name r w2) again),
            ap (λ (s : NtString). map tolower (view 2 4 s)) (same.3 x) ∙ named,
          )
