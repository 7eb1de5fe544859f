-- ===== src/Layout/Laws.antt =====
-- Where the members of the game's structures stand.
use native.Mathlib.Nat.{lt-div-mul-add}
use loginhelper.Prelude.{
  ℕ, ◌+◌, ◌-◌, ◌*◌, ◌/◌, ◌≤◌, ◌<◌, ◌≡◌, refl, ◌⊎◌, inl, inr, ◌↔◌, true, false, List, [], ◌∷◌, All,
  arith,
}
use loginhelper.Layout.{
  Member, align_up, offsets, behind, alignment, struct_of, offset_of, ui_panel, login_otp_panel,
  ui_engine_interface, title_login_panel, asserted,
}

-- The offsets of members that follow a place: each is a multiple of its alignment, and no member
-- begins in front of the end of the one before it.
abbrev pub IsLayout : ℕ → List Member → List ℕ → Type 0
IsLayout place [] [] = Unit
IsLayout place [] (o ∷ os) = ⊥
IsLayout place (m ∷ ms) [] = ⊥
IsLayout place (m ∷ ms) (o ∷ os) =
    (place ≤ o) × ((k : ℕ) × (o ≡ k * m.align)) × IsLayout (o + m.bytes) ms os

align_up-above : (place align : ℕ) → 0 < align → place ≤ align_up place align
unfolding align_up
align_up-above place align pos =
    omega (arith, lt-div-mul-add {a = place + (align - 1)} {b = align} pos)

offsets-IsLayout :
    (place : ℕ) (ms : List Member)
    → All (λ m. 0 < m.align) ms
    → IsLayout place ms (offsets place ms)
unfolding offsets align_up
offsets-IsLayout place [] h = tt
offsets-IsLayout place (m ∷ ms) h = (
  align_up-above place m.align h.0,
  ((place + (m.align - 1)) / m.align, refl),
  offsets-IsLayout (align_up place m.align + m.bytes) ms h.1,
)

abbrev ArePositive : List Member → Type 0
ArePositive = All (λ m. 0 < m.align)

positive :
    (p : ℕ)
    → (p ≡ 4) ⊎ (p ≡ 8)
    → ArePositive (login_otp_panel p)
      × ArePositive (title_login_panel p)
      × ArePositive (ui_engine_interface p)
unfolding login_otp_panel title_login_panel ui_engine_interface struct_of ui_panel alignment
positive p (inl e) = rw e (ground arith)
positive p (inr e) = rw e (ground arith)

-- The members of the two windows and of the interface stand one behind the other, each at a multiple
-- of its alignment, for pointers of four and of eight bytes.
pub members-IsLayout :
    (p : ℕ)
    → (p ≡ 4) ⊎ (p ≡ 8)
    → IsLayout 0 (login_otp_panel p) (offsets 0 (login_otp_panel p))
      × IsLayout 0 (title_login_panel p) (offsets 0 (title_login_panel p))
      × IsLayout 0 (ui_engine_interface p) (offsets 0 (ui_engine_interface p))
members-IsLayout p size =
    let (otp, login, engine) = positive p size in
    (
      offsets-IsLayout 0 (login_otp_panel p) otp,
      offsets-IsLayout 0 (title_login_panel p) login,
      offsets-IsLayout 0 (ui_engine_interface p) engine,
    )

asserted_narrow : asserted 4 ≡ false
unfolding asserted login_otp_panel title_login_panel ui_engine_interface struct_of ui_panel
    alignment offset_of offsets align_up behind
asserted_narrow = refl

asserted_wide : asserted 8 ≡ true
unfolding asserted login_otp_panel title_login_panel ui_engine_interface struct_of ui_panel
    alignment offset_of offsets align_up behind
asserted_wide = refl

-- The offsets of the windows' and the interface's members are the asserted ones exactly where a
-- pointer has eight bytes, of four and eight.
pub asserted_iff : (p : ℕ) → (p ≡ 4) ⊎ (p ≡ 8) → (asserted p ≡ true) ↔ (p ≡ 8)
asserted_iff p (inl e) = rw (e, asserted_narrow) (λ a. cc a, λ a. absurd (omega arith))
asserted_iff p (inr e) = rw (e, asserted_wide) (λ a. refl, λ a. refl)
