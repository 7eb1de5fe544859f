-- ===== src/Pe/Loader/Rings.antt =====
-- The searches of the loader's list against the list of its entries: they end, under the lock and with
-- every lock as before, at the first entry that passes.
use loginhelper.Prelude.{
  ℕ, zero, suc, ◌*◌, ◌<◌, ◌≡◌, ◌≢◌, refl, sym, ap, ◌∙◌, inl, inr, ◌↔◌, Bool, true, List, [], ◌∷◌,
  ◌++◌, map, some, ◌==◌, ==_iff, if◌then◌else◌, Bool-cases, length, All, arith,
}
use loginhelper.NtString.{NtString, from_pointer, view}
use loginhelper.NtString.Laws.{IsString, iequals_iff, from_pointer-IsString, text}
use loginhelper.Locks.{LockCalls, lock, unlock, with_guard, IsLock}
use loginhelper.Pe.Loader.{
  LoaderData, Walk, exhausted, ended, stopped, find_entry, search_list, name_at, module_name,
  base_at, is_named, get_module,
}

-- From `entry` on, the links lead through `es` back to the head.
abbrev pub Chain : (ℕ → ℕ) → ℕ → ℕ → List ℕ → Type 0
Chain next head entry [] = entry ≡ head
Chain next head entry (e ∷ es) = (entry ≡ e) × (e ≢ head) × Chain next head (next e) es

-- Where a search of the entries stops.
abbrev pub first_of : (ℕ → Bool) → List ℕ → Walk
first_of test [] = ended
first_of test (e ∷ es) = if test e then stopped e else first_of test es

pub find_entry-first_of :
    (next : ℕ → ℕ) (head : ℕ) (test : ℕ → Bool) (fuel entry : ℕ) (es : List ℕ)
    → Chain next head entry es
    → length es < fuel
    → find_entry next head test fuel entry ≡ first_of test es
unfolding find_entry
find_entry-first_of next head test zero entry es chain enough = absurd (omega arith)
find_entry-first_of next head test (suc fuel) entry [] chain enough = ground arith
find_entry-first_of next head test (suc fuel) entry (e ∷ es) chain enough =
    ground (arith, find_entry-first_of next head test fuel (next e) es)

-- What a search has found: the first entry with a property, or that none has it.
abbrev pub Finds : (ℕ → Type 0) → List ℕ → Walk → Type 0
Finds Good es exhausted = ⊥
Finds Good es ended = All (λ e. ¬ Good e) es
Finds Good es (stopped e) =
    (before : List ℕ) × (after : List ℕ) × (es ≡ before ++ (e ∷ after))
    × Good e
    × All (λ e. ¬ Good e) before

first_of-Finds :
    (Good : ℕ → Type 0) (test : ℕ → Bool) (es : List ℕ)
    → All (λ e. (test e ≡ true) ↔ Good e) es
    → Finds Good es (first_of test es)
first_of-Finds Good test [] tests = tt
first_of-Finds Good test (e ∷ es) (decides, tests) = elim (Bool-cases (test e)) [
  | inl passes ↦ rw passes ([], es, refl, decides.0 passes, tt)
  | inr other ↦ rw other (
      later (first_of test es) (λ good. cc (other, decides.1 good))
        (first_of-Finds Good test es tests))
]
  where
    later : (r : Walk) → ¬ Good e → Finds Good es r → Finds Good (e ∷ es) r
    later exhausted bad found = found
    later ended bad found = (bad, found)
    later (stopped x) bad (before, after, split, good, none_before) =
        (e ∷ before, after, ap (◌∷◌ e) split, good, (bad, none_before))

All-map {ℓ κ μ} :
    {A : Type ℓ} {Good : A → Type κ} {Fine : A → Type μ} (xs : List A)
    → ((x : A) → Good x → Fine x)
    → All Good xs
    → All Fine xs
All-map [] imp h = tt
All-map (x ∷ xs) imp (good, rest) = (imp x good, All-map xs imp rest)

All-All {ℓ κ} : {A : Type ℓ} {Good : A → Type κ} (xs : List A) → ((x : A) → Good x) → All Good xs
All-All [] h = tt
All-All (x ∷ xs) h = (h x, All-All xs h)

module _ {World : Type 0} (locks : LockCalls World) (laws : IsLock locks)
    (ldr : LoaderData World) where
  -- The entries of the list, from its head on.
  abbrev pub IsList : World → List ℕ → Type 0
  IsList w es = Chain (λ e. ldr.flink e w) (ldr.head w) (ldr.flink (ldr.head w) w) es

  -- The state in which a search runs, and the one behind it.
  abbrev pub locked : World → World
  locked w = locks.rtl_enter (ldr.loader_lock w) w

  abbrev pub unlocked : World → World
  unlocked w = locks.rtl_leave (ldr.loader_lock w) (locked w)

  abbrev pub KeepsLocks : World → World → Type 0
  KeepsLocks w w' = (handle : ℕ) → laws.depth handle w' ≡ laws.depth handle w

  unlocked-KeepsLocks : (w : World) → KeepsLocks w (unlocked w)
  unlocked-KeepsLocks w handle =
      laws.left (ldr.loader_lock w) handle (locked w)
      ∙ ground (arith, laws.entered (ldr.loader_lock w) handle w)

  search_list-Finds :
      (Good : ℕ → Type 0) (test : ℕ → World → Bool) (fuel : ℕ) (w : World) (es : List ℕ)
      → IsList w es
      → length es < fuel
      → All (λ e. (test e w ≡ true) ↔ Good e) es
      → Finds Good es (search_list locks ldr fuel test w)
  unfolding search_list
  search_list-Finds Good test fuel w es chain enough decides =
      rw
        (find_entry-first_of (λ e. ldr.flink e w) (ldr.head w) (λ e. test e w) fuel _ es chain
          enough)
        (first_of-Finds Good (λ e. test e w) es decides)

  name_at-Finds :
      (Good : ℕ → Type 0) (name : ℕ → World → NtString) (es : List ℕ) (r : Walk) (w : World)
      → Finds Good es r
      → (t : List ℕ) × (name_at locks ldr name r w ≡ some t)
  unfolding name_at
  name_at-Finds Good name es exhausted w found = absurd found
  name_at-Finds Good name es ended w found = ([], refl)
  name_at-Finds Good name es (stopped e) w found = (view 2 4 (name e w), refl)

  base_at-Finds :
      (Good : ℕ → Type 0) (es : List ℕ) (r : Walk) (w : World)
      → Finds Good es r
      → (base : ℕ) × (base_at locks ldr r w ≡ some base)
  unfolding base_at
  base_at-Finds Good es exhausted w found = absurd found
  base_at-Finds Good es ended w found = (0, refl)
  base_at-Finds Good es (stopped e) w found = (ldr.dll_base e w, refl)

  -- `base_name` ends, with the name of the first entry of the list whose module is this one, and the
  -- empty text if there is none; every lock is entered as often as before. This is for a list that comes
  -- back to its head, as it is under the lock, and more fuel than it has entries.
  pub module_name-Finds :
      (name : ℕ → World → NtString) (fuel this : ℕ) (w : World) (es : List ℕ)
      → IsList (locked w) es
      → length es < fuel
      → (r : Walk) × (t : List ℕ) × (module_name locks ldr name fuel this w ≡ (some t, unlocked w))
        × Finds (λ e. ldr.dll_base e (locked w) ≡ this) es r
        × (name_at locks ldr name r (locked w) ≡ some t)
        × KeepsLocks w (unlocked w)
  unfolding module_name with_guard lock unlock
  module_name-Finds name fuel this w es chain enough =
      let w1 = locked w in
      let Good = λ (e : ℕ). ldr.dll_base e w1 ≡ this in
      let found =
        search_list-Finds Good (λ e w. ldr.dll_base e w == this) fuel w1 es chain enough
          (All-All es (λ e. ==_iff (ldr.dll_base e w1) this)) in
      let r = search_list locks ldr fuel (λ e w. ldr.dll_base e w == this) w1 in
      let (t, named) = name_at-Finds Good name es r w1 found in
      (r, t, rw named refl, found, named, unlocked-KeepsLocks w)

  module _ (tolower : ℕ → ℕ) (name : List ℕ) (fits : length name * 2 < 65536) where
    -- An entry that is in memory order and has the name, but for case.
    abbrev pub IsNamed : World → ℕ → Type 0
    IsNamed w e =
        (ldr.in_memory_flink e w ≢ 0)
        × (map tolower (text 2 4 refl (ldr.base_dll_name e w)) ≡ map tolower name)

    is_named_iff :
        (e : ℕ) (w : World)
        → IsString 2 4 refl (ldr.base_dll_name e w)
        → (is_named locks ldr tolower name e w ≡ true) ↔ IsNamed w e
    unfolding is_named
    is_named_iff e w string =
        let (made, same) = from_pointer-IsString 2 4 refl name fits in
        let equal =
          iequals_iff 2 4 refl tolower (ldr.base_dll_name e w) (from_pointer 2 4 (some name)) string
            made in
        let as_text = ap (map tolower) same in
        elim (Bool-cases (ldr.in_memory_flink e w == 0)) [
          | inl out ↦ rw out (λ e. cc, λ h. absurd (h.0 ((==_iff _ _).0 out)))
          | inr linked ↦ rw linked (
            λ h. ((λ none. ground (arith, linked, none)), equal.0 h ∙ as_text),
            λ h. equal.1 (h.1 ∙ sym as_text),
          )
        ]

    -- `get_module` by a name ends, with the module of the first entry that has the name, but for case,
    -- and is linked in memory order, that is whose link forward there is not null, and `nullptr` if there
    -- is none; an entry of the name without that link is passed over. Every lock is entered as often as
    -- before. This is for a list that comes back to its head, as it is under the lock, of entries with
    -- whole names, more fuel than it has entries, and a name that fits a string.
    pub get_module-Finds :
        (fuel : ℕ) (w : World) (es : List ℕ)
        → IsList (locked w) es
        → length es < fuel
        → All (λ e. IsString 2 4 refl (ldr.base_dll_name e (locked w))) es
        → (r : Walk) × (base : ℕ) × (get_module locks ldr tolower fuel (some name) w
            ≡ (some base, unlocked w))
          × Finds (IsNamed (locked w)) es r
          × (base_at locks ldr r (locked w) ≡ some base)
          × KeepsLocks w (unlocked w)
    unfolding get_module with_guard lock unlock
    get_module-Finds fuel w es chain enough strings =
        let w1 = locked w in
        let found =
          search_list-Finds (IsNamed w1) (is_named locks ldr tolower name) fuel w1 es chain enough
            (All-map es (λ e string. is_named_iff e w1 string) strings) in
        let r = search_list locks ldr fuel (is_named locks ldr tolower name) w1 in
        let (base, there) = base_at-Finds (IsNamed w1) es r w1 found in
        (r, base, rw there refl, found, there, unlocked-KeepsLocks w)
