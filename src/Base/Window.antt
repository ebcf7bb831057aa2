-- ===== src/Base/Window.antt =====
-- Pages: what a loop with an offset and a limit keeps of a list. A limit of zero is none.
use Prim.Native.Nat.{ℕ, zero, suc, ◌+◌, ◌-◌}
use mathlib.Core.Bool.{true, false, ◌&&◌}
use mathlib.Core.List.{List, [], ◌∷◌}
use mathlib.Core.Logic.{inl, inr}
use mathlib.Core.Path.{◌≡◌, refl}
use native.Mathlib.Omega.{arith}
use flamedb.Base.Lists.{take, drop}
use flamedb.Base.Tests.{ltb, leb, ◌==◌, if◌then◌else◌, Bool-cases}

module _ {A : Type 0} where
  -- The page of a list: past the offset, and as many as the limit, or all where it is zero.
  unfoldable pub window : ℕ → ℕ → List A → List A
  window limit offset entries =
      if limit == 0 then drop offset entries else take limit (drop offset entries)

  take_nil : (n : ℕ) → take {A = A} n [] ≡ []
  take_nil zero = refl
  take_nil (suc n) = refl

  pub drop_nil : (n : ℕ) → drop {A = A} n [] ≡ []
  drop_nil zero = refl
  drop_nil (suc n) = refl

module _ {A : Type 0} (limit : ℕ) where
  -- What still goes on a page that holds some entries.
  unfoldable pub room : ℕ → List A → List A
  room used entries = if limit == 0 then entries else take (limit - used) entries

  pub room-nil : (used : ℕ) → room used [] ≡ []
  unfolding room
  room-nil used = elim (Bool-cases (limit == 0)) [
    | inl all ↦ rw all refl
    | inr bounded ↦ rw bounded (take_nil (limit - used))
  ]

  pub room-last :
      (used : ℕ) (e : A) (entries : List A)
      → (ltb 0 limit && leb limit used) ≡ false
      → (ltb 0 limit && leb limit (used + 1)) ≡ true
      → room used (e ∷ entries) ≡ e ∷ []
  unfolding room
  room-last used e entries h full =
      let one : limit - used ≡ 1 = ground arith in
      let bounded : (limit == 0) ≡ false = ground arith in rw (bounded, one) refl

  pub room-next :
      (used : ℕ) (e : A) (entries : List A)
      → (ltb 0 limit && leb limit used) ≡ false
      → room used (e ∷ entries) ≡ e ∷ room (used + 1) entries
  unfolding room
  room-next used e entries h = elim (Bool-cases (limit == 0)) [
    | inl all ↦ rw all refl
    | inr bounded ↦
        let next : limit - used ≡ suc (limit - (used + 1)) = ground (arith, h, bounded) in
        rw (bounded, next) refl
  ]

  pub window-room :
      (offset : ℕ) (entries : List A) → room 0 (drop offset entries) ≡ window limit offset entries
  unfolding room window
  window-room offset entries = let full : limit - 0 ≡ limit = omega arith in rw full refl
