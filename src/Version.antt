-- ===== src/Version.antt =====
-- The version resource of a module: `GetModuleVersionInfo` of src/loginhelper/versioninfo.c. A pointer
-- into the resource is its distance in bytes from the resource's head.
pub mod Steps
pub mod Blocks
pub mod Safety
pub mod Children
mod Tests
use loginhelper.Prelude.{
  ℕ, zero, suc, ◌+◌, ◌-◌, ◌*◌, ◌/◌, ◌^◌, Bool, true, false, not, ◌&&◌, ◌||◌, List, [], ◌∷◌, ◌++◌,
  Option, none, some, ltb, leb, ◌==◌, if◌then◌else◌, length, take, drop, get_elem?, ℤ, pos, negsuc,
}
use loginhelper.Std.{wcstol}
use loginhelper.Version.Steps.{Outcome, goes, fails, out_of_bounds, out_of_fuel, ◌>>=◌, or_out}

-- What the Windows API gives of the resource: whether it is found, its size, and its bytes.
pub record Resource : Type 0 where
  pub found : Bool
  pub size : ℕ
  pub loaded : Option (List ℕ)

-- `StringCbLengthW` on the bytes that it may read, and `CompareStringEx` on two texts, with the
-- invariant locale and without regard to case.
pub record TextCalls : Type 0 where
  pub string_cb_length_w : List ℕ → ℕ → Option ℕ
  pub compare_string_ex : List ℕ → List ℕ → ℕ

abbrev pub cstr_equal : ℕ
cstr_equal = 2

-- A VERBLOCK: its place, its fields, and what the code computes from it.
pub record Block : Type 0 where
  pub at : ℕ
  pub total : ℕ
  pub value_length : ℕ
  pub cb : ℕ
  pub off : ℕ
  pub len : ℕ

-- `DWORDUP`.
unfoldable pub dwordup : ℕ → ℕ
dwordup x = (x + 3) / 4 * 4

-- The sizes and offsets of VERBLOCK and VERHEAD.
abbrev pub verblock_size : ℕ
verblock_size = 8

abbrev pub key_offset : ℕ
key_offset = 6

abbrev pub fixed_info_offset : ℕ
fixed_info_offset = 40

abbrev pub fixed_info_size : ℕ
fixed_info_size = 52

abbrev pub verhead_size : ℕ
verhead_size = 92

-- Wide characters of their bytes.
unfoldable pub wide : List ℕ → List ℕ
wide (lo ∷ hi ∷ rest) = (lo + hi * 2 ^ 8) ∷ wide rest
wide (lo ∷ []) = []
wide [] = []

-- `while ( *pwszSubBlock == '\\' ) ++pwszSubBlock;`
unfoldable pub skip_backslashes : List ℕ → List ℕ
skip_backslashes [] = []
skip_backslashes (c ∷ cs) = let rest = skip_backslashes cs in if c == 0x5C then rest else c ∷ cs

-- The characters up to the next backslash, and the rest from there on.
unfoldable pub component : List ℕ → List ℕ × List ℕ
component [] = ([], [])
component (c ∷ cs) =
    let (start, rest) = component cs in if c == 0x5C then ([], c ∷ cs) else (c ∷ start, rest)

abbrev pub natural : ℤ → Option ℕ
natural (pos n) = some n
natural (negsuc n) = none

-- `index`, where it is not negative: of a component `*`, or `#` with a number behind it.
unfoldable pub index_of : List ℕ → List ℕ → Option ℕ
index_of [] rest = none
index_of (c ∷ cs) rest =
    let (n, endptr) = wcstol (cs ++ rest) in
    if c == b'*' && length cs == 0
    then some 0
    else if c == b'#'
    then (if length endptr == length rest then natural n else none)
    else none

module _ (calls : TextCalls) (bytes : List ℕ) where
  unfoldable pub word_at : ℕ → Outcome ℕ
  word_at i = do
    lo ← or_out (get_elem? bytes i)
    hi ← or_out (get_elem? bytes (i + 1))
    goes (lo + hi * 2 ^ 8)

  unfoldable pub dword_at : ℕ → Outcome ℕ
  dword_at i = do lo ← word_at i; hi ← word_at (i + 2); goes (lo + hi * 2 ^ 16)

  -- `StringCbLengthW(szKey, max, &cb)`, which may read all `max` bytes.
  unfoldable pub cb_length : ℕ → ℕ → Outcome (Option ℕ)
  cb_length i max =
      if leb (i + max) (length bytes)
      then goes (calls.string_cb_length_w (take max (drop i bytes)) max)
      else out_of_bounds

  abbrev block_of : ℕ → ℕ → ℕ → ℕ → Block
  block_of at total value_length cb =
      let off = dwordup (verblock_size + cb) in
      record {
        at = at;
        total = total;
        value_length = value_length;
        cb = cb;
        off = off;
        len = off + value_length;
      }

  -- The conditions on the head behind `StringCbLengthW`, with what that gives.
  unfoldable pub check_key : Option ℕ → ℕ → ℕ → Outcome Block
  check_key none total value_length = fails
  check_key (some cb) total value_length =
      let head = block_of 0 total value_length cb in
      if not (head.off == fixed_info_offset) then fails else (do
        signature ← dword_at fixed_info_offset
        if not (signature == 0xFEEF04BD)
            then fails
            else if ltb total head.len
            then fails
            else goes head)

  -- The conditions on the head, for a resource of `size` bytes.
  unfoldable pub open_head : ℕ → Outcome Block
  open_head size = do
    total ← word_at 0
    if ltb size total || (ltb total verhead_size || ltb 0x7FFF total) then fails else (do
      type ← word_at 4
      if not (type == 0) then fails else (do
        value_length ← word_at 2
        if not (value_length == fixed_info_size) then fails else (do
          cb ← cb_length key_offset (total - key_offset)
          check_key cb total value_length)))

  -- The condition of the inner loop behind `StringCbLengthW`, on a block at `sub`.
  unfoldable pub check_sub : Option ℕ → ℕ → ℕ → Outcome (Option Block)
  check_sub none sub total = goes none
  check_sub (some cb) sub total = do
    value_length ← word_at (sub + 2)
    let block = block_of sub total value_length cb
    goes (if leb block.len total then some block else none)

  -- The condition of the inner loop: the block at `sub`, in front of `end`.
  unfoldable pub read_sub : ℕ → ℕ → Outcome (Option Block)
  read_sub sub end = if ltb end sub || ltb (end - sub) verblock_size then goes none else (do
    total ← word_at sub
    if ltb total verblock_size || ltb (end - sub) total
        then goes none
        else (do cb ← cb_length (sub + key_offset) (total - key_offset); check_sub cb sub total))

  -- The characters of a block's key.
  abbrev pub key_of : Block → List ℕ
  key_of b = wide (take (b.cb / 2 * 2) (drop (b.at + key_offset) bytes))

  -- The body of the inner loop: `block = sub`, the return, or the next round with its index.
  unfoldable pub judge :
      List ℕ → Option Block → Option ℕ → (Block → Option ℕ → Outcome Block) → Outcome Block
  judge start none index next = fails
  judge start (some b) (some zero) next = goes b
  judge start (some b) (some (suc n)) next = next b (some n)
  judge start (some b) none next =
      let ncmp = calls.compare_string_ex start (key_of b) in
      if ncmp == 0 then fails else if ncmp == cstr_equal then goes b else next b none

  -- The inner loop, from `sub` on.
  unfoldable pub find_sub : ℕ → List ℕ → ℕ → ℕ → Option ℕ → Outcome Block
  find_sub zero start sub end index = out_of_fuel
  find_sub (suc fuel) start sub end index = do
    read ← read_sub sub end
    judge start read index (λ b index'. find_sub fuel start (sub + dwordup b.total) end index')

  -- The body of the outer loop, on the path behind its backslashes. A round of the inner loop passes
  -- eight bytes at least.
  unfoldable pub enter : Block → (List ℕ → Block → Outcome Block) → List ℕ → Outcome Block
  enter block next [] = goes block
  enter block next (c ∷ cs) = do
    let (start, rest) = component (c ∷ cs)
    let end = block.at + block.total
    block' ← find_sub (suc end) start (block.at + dwordup block.len) end (index_of start rest)
    next rest block'

  -- The outer loop, from `block` on.
  unfoldable pub walk : ℕ → List ℕ → Block → Outcome Block
  walk zero path block = out_of_fuel
  walk (suc fuel) path block =
      enter block (λ rest block'. walk fuel rest block') (skip_backslashes path)

-- `*ppv` and the result.
unfoldable pub answer : Block → ℕ × ℕ
answer b =
    if ltb b.off b.total
    then (b.at + b.off, b.value_length)
    else (b.at + key_offset + b.cb, b.value_length)

module _ (calls : TextCalls) where
  unfoldable pub open_resource : Resource → List ℕ → Option (List ℕ) → Outcome (ℕ × ℕ)
  open_resource r path none = fails
  open_resource r path (some bytes) = do
    head ← open_head calls bytes r.size
    block ← walk calls bytes (suc (length path)) path head
    goes (answer block)

  -- `GetModuleVersionInfo`, with `wants` for a `ppv` that is not null. Where it fails, `*ppv` is null.
  unfoldable pub get_module_version_info : Resource → Bool → Option (List ℕ) → Outcome (ℕ × ℕ)
  get_module_version_info r wants none = fails
  get_module_version_info r wants (some path) =
      if not wants
      then fails
      else if not r.found || r.size == 0
      then fails
      else open_resource r path r.loaded
