-- ===== src/Locate/Misc.antt =====
-- blockframe.c: find_pc_misc_function, the bisection of misc_function_vector.
mod Distance
pub mod Nearest
use Prim.Native.String.{String}
use g.Base.{
  ℕ, zero, suc, ◌+◌, ◌-◌, ◌/◌, ◌^◌, Bool, Option, none, some, List, ◌==◌, ltb, ◌&&◌, ◌||◌,
  if◌then◌else◌, length, get_or,
}
use g.Base.Int.{ℤ, pos, negsuc}
use g.Base.Words.{u32}

-- `struct misc_function`; `type` is never used.
pub record MiscFunction : Type 0 where
  pub name : String
  pub address : ℕ

-- `misc_function_vector[i].address`
abbrev pub address_at : List MiscFunction → ℕ → ℕ
address_at vector i = (get_or vector i (record { name = ""; address = 0 })).address

-- `distance`, the difference as an `int`.
abbrev pub distance : ℕ → ℕ → ℕ
distance address pc = u32 (address + (2 ^ 32 - pc))

abbrev pub is_positive : ℕ → Bool
is_positive d = ltb 0 d && ltb d (2 ^ 31)

-- The loop; `none` is out of fuel.
unfoldable pub bisect : ℕ → List MiscFunction → ℕ → ℕ → ℕ → Option ℕ
bisect zero vector pc lo hi = none
bisect (suc fuel) vector pc lo hi =
    let new = (lo + hi) / 2 in
    let d = distance (address_at vector new) pc in
    let hi' = if is_positive d then new else hi in
    let lo' = if is_positive d then lo else new in
    let rest = bisect fuel vector pc lo' hi' in
    if d == 0 then some new else if hi' == lo' + 1 then some lo' else rest

-- The index, or -1.
unfoldable pub find_pc_misc_function : List MiscFunction → ℕ → Option ℤ
find_pc_misc_function vector pc =
    let count = length vector in
    if count == 0
    then some (negsuc 0)
    else if ltb pc (address_at vector 0) || ltb (address_at vector (count - 1)) pc
    then some (negsuc 0)
    else elim (bisect count vector pc 0 (count - 1)) [ none ↦ none | some k ↦ some (pos k) ]
