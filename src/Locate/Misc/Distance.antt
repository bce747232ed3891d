-- ===== src/Locate/Misc/Distance.antt =====
-- blockframe.c: the sign of the distance that find_pc_misc_function computes.
use g.Base.{ℕ, ◌+◌, ◌^◌, ◌≤◌, ◌<◌, ◌≡◌, ◌⊎◌, inl, inr, true, false, ◌==◌, arith}
use g.Locate.Misc.{distance, is_positive}

order_cases : (a b : ℕ) → (a ≡ b) ⊎ ((b < a) ⊎ (a < b))
order_cases a b = omega arith

pub next_cases : (a b : ℕ) → a < b → (b ≡ a + 1) ⊎ (a + 1 < b)
next_cases a b h = omega arith

pub lower_cases : (a b : ℕ) → a ≤ b → (a ≡ b) ⊎ (a < b)
lower_cases a b h = omega arith

-- Of two addresses less than 2^31 apart, the sign of the distance tells which is the greater.
pub distance-Sign :
    (a pc b : ℕ)
    → b ≤ a
    → a < b + 2 ^ 31
    → b ≤ pc
    → pc < b + 2 ^ 31
    → a < 2 ^ 32
    → pc < 2 ^ 32
    → ((a ≡ pc) × ((distance a pc == 0) ≡ true))
      ⊎ (((pc < a) × ((distance a pc == 0) ≡ false) × (is_positive (distance a pc) ≡ true))
          ⊎ ((a < pc) × ((distance a pc == 0) ≡ false) × (is_positive (distance a pc) ≡ false)))
distance-Sign a pc b h1 h2 h3 h4 h5 h6 = elim (order_cases a pc) [
  | inl e ↦ inl (e, ground arith)
  | inr s ↦ elim s [
    | inl l ↦ inr (inl (l, ground arith, ground arith))
    | inr g ↦ inr (inr (g, ground arith, ground arith))
  ]
]
