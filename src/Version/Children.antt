-- ===== src/Version/Children.antt =====
-- The inner loop of `GetModuleVersionInfo` against the list of a block's children.
use loginhelper.Prelude.{
  ℕ, zero, suc, ◌+◌, ◌<◌, ◌≤◌, ◌≡◌, refl, ap, sym, ◌∙◌, List, [], ◌∷◌, Option, none, some, ◌==◌,
  if◌then◌else◌, length, get_elem?, arith,
}
use loginhelper.Version.Steps.{Outcome, goes, fails, ◌>>=◌, Gives-value}
use loginhelper.Version.{TextCalls, Block, cstr_equal, dwordup, key_of, read_sub, judge, find_sub}
use loginhelper.Version.Blocks.{IsTextCalls, Found, read_sub-Gives, dwordup-le}

module _ (calls : TextCalls) (laws : IsTextCalls calls) (bytes : List ℕ) where
  -- The blocks that stand one behind the other from `sub` on, up to where none is to be read.
  abbrev pub Children : ℕ → ℕ → List Block → Type 0
  Children sub end [] = read_sub calls bytes sub end ≡ goes none
  Children sub end (b ∷ bs) =
      (read_sub calls bytes sub end ≡ goes (some b)) × Children (sub + dwordup b.total) end bs

  -- The first child that is compared as equal, if no comparison fails before.
  abbrev pub named : List ℕ → List Block → Outcome Block
  named start [] = fails
  named start (b ∷ bs) =
      let ncmp = calls.compare_string_ex start (key_of calls bytes b) in
      if ncmp == 0 then fails else if ncmp == cstr_equal then goes b else named start bs

  abbrev pub taken : Option Block → Outcome Block
  taken none = fails
  taken (some b) = goes b

  -- The child that a component asks for: the one at its index, or the first of its name.
  abbrev pub chosen : List ℕ → Option ℕ → List Block → Outcome Block
  chosen start none bs = named start bs
  chosen start (some n) bs = taken (get_elem? bs n)

  chosen-nil : (start : List ℕ) (index : Option ℕ) → chosen start index [] ≡ fails
  chosen-nil start none = refl
  chosen-nil start (some n) = refl

  judge-nil :
      (start : List ℕ) (index : Option ℕ) (next : Block → Option ℕ → Outcome Block)
      → judge calls bytes start none index next ≡ fails
  unfolding judge
  judge-nil start none next = refl
  judge-nil start (some n) next = refl

  judge-chosen :
      (start : List ℕ) (b : Block) (bs : List Block) (index : Option ℕ)
      (next : Block → Option ℕ → Outcome Block)
      → ((index' : Option ℕ) → next b index' ≡ chosen start index' bs)
      → judge calls bytes start (some b) index next ≡ chosen start index (b ∷ bs)
  unfolding judge
  judge-chosen start b bs (some zero) next later = refl
  judge-chosen start b bs (some (suc n)) next later = later (some n)
  judge-chosen start b bs none next later = rw (later none) refl

  find_sub-chosen :
      (bs : List Block) (fuel : ℕ) (start : List ℕ) (sub end : ℕ) (index : Option ℕ)
      → length bs < fuel
      → Children sub end bs
      → find_sub calls bytes fuel start sub end index ≡ chosen start index bs
  unfolding find_sub
  find_sub-chosen bs zero start sub end index enough chain = absurd (omega arith)
  find_sub-chosen [] (suc fuel) start sub end index enough chain =
      ap
        (λ (m : Outcome (Option Block)). m >>= (λ read.
          judge calls bytes start read index
            (λ b index'. find_sub calls bytes fuel start (sub + dwordup b.total) end index')))
        chain
      ∙ judge-nil start index _
      ∙ sym (chosen-nil start index)
  find_sub-chosen (b ∷ bs) (suc fuel) start sub end index enough (here, chain) =
      ap
        (λ (m : Outcome (Option Block)). m >>= (λ read.
          judge calls bytes start read index
            (λ b index'. find_sub calls bytes fuel start (sub + dwordup b.total) end index')))
        here
      ∙ judge-chosen start b bs index _ (λ index'.
        find_sub-chosen bs fuel start (sub + dwordup b.total) end index' (omega arith) chain)

  -- The list of the children is there, and shorter than the fuel.
  children :
      (fuel sub end : ℕ)
      → 0 < fuel
      → end < fuel + sub
      → end ≤ length bytes
      → (bs : List Block) × Children sub end bs × (length bs < fuel)
  children zero sub end some_fuel enough bound = absurd (omega arith)
  children (suc fuel) sub end some_fuel enough bound =
      let (o, e, found) =
        Gives-value (Found sub end) _ (read_sub-Gives calls laws bytes sub end bound) in
      from (λ b h k. children fuel (sub + dwordup b.total) end h k bound) o e found
    where
      from :
          ((b : Block)
            → 0 < fuel
            → end < fuel + (sub + dwordup b.total)
            → (bs : List Block) × Children (sub + dwordup b.total) end bs × (length bs < fuel))
          → (o : Option Block) → read_sub calls bytes sub end ≡ goes o
          → Found sub end o
          → (bs : List Block) × Children sub end bs × (length bs < suc fuel)
      from rest none e found = ([], e, omega arith)
      from rest (some b) e (block, here, big) =
          let (bs, chain, short) =
            rest b (omega (arith, block.inside, here, big))
              (omega (arith, big, dwordup-le b.total)) in
          (b ∷ bs, (e, chain), omega arith)

  -- In a block up to `end`, inside of the resource, there is one list of children from `sub` on, the blocks that stand
  -- one behind the other, and the inner loop returns the one that the component asks for: the one at its
  -- index, or the first of its name; it fails if there is none.
  pub find_sub-Children :
      (sub end : ℕ)
      → end ≤ length bytes
      → (bs : List Block) × Children sub end bs
        × ((start : List ℕ) (index : Option ℕ)
            → find_sub calls bytes (suc end) start sub end index ≡ chosen start index bs)
  find_sub-Children sub end bound =
      let (bs, chain, short) = children (suc end) sub end (omega arith) (omega arith) bound in
      (bs, chain, λ start index. find_sub-chosen bs (suc end) start sub end index short chain)
