-- ===== src/Entry/Reads.antt =====
-- The numbers that the entry reads from the code stand inside the matches of its patterns.
use loginhelper.Prelude.{
  ℕ, ◌+◌, ◌*◌, ◌/◌, ◌^◌, ◌≤◌, ◌≡◌, refl, ap, List, Option, none, some, ◌==◌, Bool-cases, inl, inr,
  length, get_elem?-below, arith, Result, ok, ◌>>=◌,
}
use loginhelper.Searchers.{compile_pattern, pattern_searcher}
use loginhelper.Searchers.Nibbles.{nibbles}
use loginhelper.Searchers.First.{AreBytes, pattern_searcher-IsRange}
use loginhelper.Entry.{
  Module, Plugin, find_code, read_code, hook_confirm_click, hook_open_login_panel,
}

read_code-ok : (code : List ℕ) (i : ℕ) → i + 4 ≤ length code → (n : ℕ) × (read_code code i ≡ ok n)
unfolding read_code
read_code-ok code i h =
    let (b0, e0) = get_elem?-below code i (omega arith) in
    let (b1, e1) = get_elem?-below code (i + 1) (omega arith) in
    let (b2, e2) = get_elem?-below code (i + 2) (omega arith) in
    let (b3, e3) = get_elem?-below code (i + 3) (omega arith) in
    (b0 + b1 * 2 ^ 8 + b2 * 2 ^ 16 + b3 * 2 ^ 24, rw (e0, e1, e2, e3) refl)

some-injective : {a b : ℕ} → some a ≡ some b → a ≡ b
some-injective {a = a} e = ap (λ (o : Option ℕ). elim o [ none ↦ a | some c ↦ c ]) e

-- A match lies inside the code with all its bytes.
pub find_code-inside :
    (m : Module) (text : List ℕ) (found : ℕ)
    → AreBytes m.code
    → find_code m text ≡ some found
    → found + (length (nibbles text) + 1) / 2 ≤ length m.code
unfolding find_code
find_code-inside m text found bytes e =
    let (first, bound, ends) = pattern_searcher-IsRange text m.code bytes in
    elim (Bool-cases ((pattern_searcher (compile_pattern text) m.code).0 == length m.code)) [
      | inl missing ↦ absurd (none_some (rw missing at e))
      | inr there ↦
          let here = some-injective (rw there at e) in
          elim ends [
            | inl (out, out') ↦ absurd (ground (arith, out, there))
            | inr (inside, size) ↦ omega (arith, here, size, bound)
          ]
    ]
  where
    none_some : none ≡ some found → ⊥
    none_some e = cc

read-ok :
    (first : Result ℕ) (next : ℕ → Plugin) (n : ℕ)
    → first ≡ ok n
    → (p : Plugin) × ((first >>= (λ a. ok (next a))) ≡ ok p)
read-ok first next n e = (next n, ap (λ (r : Result ℕ). r >>= (λ a. ok (next a))) e)

pub hook_confirm_click-ok :
    (m : Module) (p : Plugin) (o : Option ℕ)
    → ((found : ℕ) → o ≡ some found → found + 31 ≤ length m.code)
    → (p' : Plugin) × (hook_confirm_click m p o ≡ ok p')
unfolding hook_confirm_click
hook_confirm_click-ok m p none h = (p, refl)
hook_confirm_click-ok m p (some found) h =
    let inside = h found refl in
    let (n, e) = read_code-ok m.code (found + 2) (omega arith) in read-ok _ _ n e

pub hook_open_login_panel-ok :
    (m : Module) (p : Plugin) (o : Option ℕ)
    → ((found : ℕ) → o ≡ some found → found + 32 ≤ length m.code)
    → (p' : Plugin) × (hook_open_login_panel m p o ≡ ok p')
unfolding hook_open_login_panel
hook_open_login_panel-ok m p none h = (p, refl)
hook_open_login_panel-ok m p (some found) h =
    let inside = h found refl in
    let (n, e) = read_code-ok m.code (found + 0x10) (omega arith) in read-ok _ _ n e
