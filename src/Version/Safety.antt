-- ===== src/Version/Safety.antt =====
-- `GetModuleVersionInfo` on any bytes: it ends, reads nothing outside of the resource, and its answer
-- is a range of the resource.
use loginhelper.Prelude.{
  ℕ, zero, suc, ◌+◌, ◌-◌, ◌≤◌, ◌<◌, ◌≡◌, refl, Bool, false, not, ◌||◌, List, [], ◌∷◌, Option, none,
  some, ltb, ◌==◌, length, arith,
}
use loginhelper.Version.Blocks.{
  IsTextCalls, IsBlock, IsBlock-le, Fits, Found, word_at-Gives, dword_at-Gives, cb_length-Gives,
  read_sub-Gives, dwordup-le,
}
use loginhelper.Version.Steps.{Outcome, Ensures, Ensures->>=, Ensures-if, Gives-Ensures}
use loginhelper.Version.{
  Resource, TextCalls, cstr_equal, Block, dwordup, skip_backslashes, component, word_at, dword_at,
  cb_length, block_of, check_key, open_head, key_of, read_sub, judge, find_sub, enter, walk, answer,
  open_resource, get_module_version_info,
}

module _ (calls : TextCalls) (laws : IsTextCalls calls) (bytes : List ℕ) where
  word_at-within : (i : ℕ) → i + 2 ≤ length bytes → Ensures (λ n. Unit {0}) (word_at calls bytes i)
  word_at-within i h = Gives-Ensures (λ n. Unit {0}) _ (word_at-Gives calls laws bytes i h)

  dword_at-within :
      (i : ℕ) → i + 4 ≤ length bytes → Ensures (λ n. Unit {0}) (dword_at calls bytes i)
  dword_at-within i h = Gives-Ensures (λ n. Unit {0}) _ (dword_at-Gives calls laws bytes i h)

  judge-Ensures :
      (start : List ℕ) (sub end : ℕ) (read : Option Block) (index : Option ℕ)
      (next : Block → Option ℕ → Outcome Block)
      → Found sub end read
      → ((b : Block) (index' : Option ℕ)
          → Found sub end (some b)
          → Ensures (IsBlock end) (next b index'))
      → Ensures (IsBlock end) (judge calls bytes start read index next)
  unfolding judge
  judge-Ensures start sub end none index next found later = tt
  judge-Ensures start sub end (some b) (some zero) next found later = found.0
  judge-Ensures start sub end (some b) (some (suc n)) next found later = later b (some n) found
  judge-Ensures start sub end (some b) none next found later =
      let ncmp = calls.compare_string_ex start (key_of calls bytes b) in
      Ensures-if (IsBlock end) (ncmp == 0) _ _ (λ failed. tt)
        (λ compared.
          Ensures-if (IsBlock end) (ncmp == cstr_equal) _ _ (λ same. found.0)
            (λ other. later b none found))

  -- The inner loop: every round passes a block of eight bytes or more.
  find_sub-Ensures :
      (fuel : ℕ) (start : List ℕ) (sub end : ℕ) (index : Option ℕ)
      → 0 < fuel
      → end < fuel + sub
      → end ≤ length bytes
      → Ensures (IsBlock end) (find_sub calls bytes fuel start sub end index)
  unfolding find_sub
  find_sub-Ensures zero start sub end index some_fuel enough bound = absurd (omega arith)
  find_sub-Ensures (suc fuel) start sub end index some_fuel enough bound =
      Ensures->>= (Found sub end) (IsBlock end) (read_sub calls bytes sub end) _
        (Gives-Ensures (Found sub end) _ (read_sub-Gives calls laws bytes sub end bound))
        (λ read found. judge-Ensures start sub end read index _ found (λ b index' h.
          find_sub-Ensures fuel start (sub + dwordup b.total) end index'
            (omega (arith, h.0.inside, h.1, h.2)) (omega (arith, h.2, dwordup-le b.total)) bound))

  component_shorter : (path : List ℕ) → length (component path).1 ≤ length path
  unfolding component
  component_shorter [] = omega arith
  component_shorter (c ∷ cs) = ground (arith, component_shorter cs)

  skip_backslashes-le : (path : List ℕ) → length (skip_backslashes path) ≤ length path
  unfolding skip_backslashes
  skip_backslashes-le [] = omega arith
  skip_backslashes-le (c ∷ cs) = ground (arith, skip_backslashes-le cs)

  -- A component in front of which the backslashes are skipped is not empty.
  skip_backslashes-front :
      (path : List ℕ) (c : ℕ) (cs : List ℕ) → skip_backslashes path ≡ c ∷ cs → (c == 0x5C) ≡ false
  unfolding skip_backslashes
  skip_backslashes-front [] c cs e = cc
  skip_backslashes-front (x ∷ xs) c cs e = ground (arith, skip_backslashes-front xs c cs)

  component-lt :
      (c : ℕ) (cs : List ℕ) → (c == 0x5C) ≡ false → length (component (c ∷ cs)).1 < suc (length cs)
  unfolding component
  component-lt c cs e = ground (arith, component_shorter cs)

  enter-Ensures :
      (block : Block) (next : List ℕ → Block → Outcome Block) (path : List ℕ)
      → IsBlock (length bytes) block
      → ((rest : List ℕ) (b : Block)
          → length rest < length path
          → IsBlock (length bytes) b
          → Ensures (IsBlock (length bytes)) (next rest b))
      → ((c : ℕ) (cs : List ℕ) → path ≡ c ∷ cs → (c == 0x5C) ≡ false)
      → Ensures (IsBlock (length bytes)) (enter calls bytes block next path)
  unfolding enter
  enter-Ensures block next [] h later front = h
  enter-Ensures block next (c ∷ cs) h later front =
      let end = block.at + block.total in
      Ensures->>= (IsBlock end) (IsBlock (length bytes)) (find_sub calls bytes (suc end) _ _ end _)
        _ (find_sub-Ensures (suc end) _ _ end _ (omega arith) (omega arith) h.inside)
        (λ b k. later _ b (component-lt c cs (front c cs refl)) (IsBlock-le k h.inside))

  walk-Ensures :
      (fuel : ℕ) (path : List ℕ) (block : Block)
      → length path < fuel
      → IsBlock (length bytes) block
      → Ensures (IsBlock (length bytes)) (walk calls bytes fuel path block)
  unfolding walk
  walk-Ensures zero path block enough h = absurd (omega arith)
  walk-Ensures (suc fuel) path block enough h =
      enter-Ensures block _ (skip_backslashes path) h
        (λ rest b shorter k. walk-Ensures fuel rest b (omega (arith, skip_backslashes-le path)) k)
        (skip_backslashes-front path)

  check_key-Ensures :
      (cb : Option ℕ) (total value_length : ℕ)
      → Fits (total - 6) cb
      → 92 ≤ total
      → total ≤ length bytes
      → Ensures (IsBlock (length bytes)) (check_key calls bytes cb total value_length)
  unfolding check_key
  check_key-Ensures none total value_length fits big inside = tt
  check_key-Ensures (some cb) total value_length fits big inside =
      let head = block_of calls bytes 0 total value_length cb in
      Ensures-if (IsBlock (length bytes)) (not (head.off == 40)) _ _ (λ other. tt)
        (λ placed.
          Ensures->>= (λ n. Unit {0}) (IsBlock (length bytes)) (dword_at calls bytes 40) _
            (dword_at-within 40 (omega arith))
            (λ signature k.
              Ensures-if (IsBlock (length bytes)) (not (signature == 0xFEEF04BD)) _ _ (λ other. tt)
                (λ signed.
                  Ensures-if (IsBlock (length bytes)) (ltb total head.len) _ _ (λ long. tt)
                    (λ short. record {
                      inside = omega arith;
                      valued = refl;
                      long = ground (arith, short);
                      keyed = omega arith;
                    }))))

  open_head-Ensures :
      (size : ℕ)
      → 2 ≤ length bytes
      → length bytes ≡ size
      → Ensures (IsBlock (length bytes)) (open_head calls bytes size)
  unfolding open_head
  open_head-Ensures size some_bytes whole =
      Ensures->>= (λ n. Unit {0}) (IsBlock (length bytes)) (word_at calls bytes 0) _
        (word_at-within 0 (omega arith))
        (λ total k.
          Ensures-if (IsBlock (length bytes)) (ltb size total || (ltb total 92 || ltb 0x7FFF total))
            _ _ (λ other. tt)
            (λ fits.
              let big : 92 ≤ total = ground (arith, fits) in
              let inside : total ≤ length bytes = ground (arith, fits) in
              Ensures->>= (λ n. Unit {0}) (IsBlock (length bytes)) (word_at calls bytes 4) _
                (word_at-within 4 (omega arith))
                (λ type k.
                  Ensures-if (IsBlock (length bytes)) (not (type == 0)) _ _ (λ other. tt)
                    (λ typed.
                      Ensures->>= (λ n. Unit {0}) (IsBlock (length bytes)) (word_at calls bytes 2) _
                        (word_at-within 2 (omega arith))
                        (λ value_length k.
                          Ensures-if (IsBlock (length bytes)) (not (value_length == 52)) _ _
                            (λ other. tt)
                            (λ valued.
                              Ensures->>= (Fits (total - 6)) (IsBlock (length bytes))
                                (cb_length calls bytes 6 (total - 6)) _
                                (Gives-Ensures (Fits (total - 6)) _
                                  (cb_length-Gives calls laws bytes 6 (total - 6) (omega arith)))
                                (λ cb h. check_key-Ensures cb total value_length h big inside)))))))

  -- The value of a block that is not at its end, and else nothing, at the end of its key.
  answer-range : (bound : ℕ) (b : Block) → IsBlock bound b → (answer b).0 + (answer b).1 ≤ bound
  unfolding answer
  answer-range bound b h = ground arith

module _ (calls : TextCalls) (laws : IsTextCalls calls) where
  -- A resource of at least two bytes, all of its size, if it is loaded.
  abbrev pub IsLoaded : Resource → Type 0
  IsLoaded r =
      (bytes : List ℕ) → r.loaded ≡ some bytes → (2 ≤ length bytes) × (length bytes ≡ r.size)

  -- The answer is a range of the resource.
  abbrev pub InResource : Resource → ℕ × ℕ → Type 0
  InResource r (p, n) = p + n ≤ r.size

  -- Whatever the bytes of the resource and the path are, `GetModuleVersionInfo` ends, in its -1 or with
  -- a value, reads nothing outside of the resource, and gives a range inside of it. This is for a
  -- resource whose loaded bytes are as many as its size, two at least.
  pub get_module_version_info_safe :
      (r : Resource) (wants : Bool) (path : Option (List ℕ))
      → IsLoaded r
      → Ensures (InResource r) (get_module_version_info calls r wants path)
  unfolding get_module_version_info open_resource
  get_module_version_info_safe r wants none loaded = tt
  get_module_version_info_safe r wants (some path) loaded =
      Ensures-if (InResource r) (not wants) _ _ (λ other. tt)
        (λ wanted.
          Ensures-if (InResource r) (not r.found || r.size == 0) _ _ (λ other. tt)
            (λ there. opened r.loaded refl))
    where
      opened :
          (o : Option (List ℕ))
          → r.loaded ≡ o
          → Ensures (InResource r) (open_resource calls r path o)
      opened none e = tt
      opened (some bytes) e =
          let (some_bytes, whole) = loaded bytes e in
          let bound = length bytes in
          Ensures->>= (IsBlock bound) (InResource r) (open_head calls bytes r.size) _
            (open_head-Ensures calls laws bytes r.size some_bytes whole)
            (λ head h.
              Ensures->>= (IsBlock bound) (InResource r)
                (walk calls bytes (suc (length path)) path head) _
                (walk-Ensures calls laws bytes (suc (length path)) path head (omega arith) h)
                (λ b k. omega (arith, answer-range calls laws bytes bound b k)))
