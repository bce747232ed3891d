-- ===== src/History.antt =====
-- values.c: the history of values, in chunks of 60 on a chain that starts with the latest.
pub mod Refine
pub mod Access
mod Tests
use g.Base.{
  ℕ, zero, suc, ◌+◌, ◌-◌, ◌/◌, ◌%◌, Bool, true, false, Option, none, some, List, [], ◌∷◌, ◌==◌, ltb,
  leb, if◌then◌else◌,
}
use g.Base.Int.{ℤ, pos, negsuc}

-- `values` of a `struct value_history_chunk`; `none` is a zero.
abbrev pub Chunk : Type 0 → Type 0
Chunk V = ℕ → Option V

-- value_history_chain and value_history_count.
pub record History (V : Type 0) : Type 0 where
  pub chain : List (Chunk V)
  pub count : ℕ

abbrev pub change : {V : Type 0} → Chunk V → ℕ → V → Chunk V
change c i v j = if i == j then some v else c j

abbrev pub store_first : {V : Type 0} → ℕ → V → List (Chunk V) → List (Chunk V)
store_first i v [] = []
store_first i v (c ∷ cs) = change c i v ∷ cs

abbrev pub new_chunk : {V : Type 0} → Chunk V
new_chunk i = none

-- `invalid` is the test for a float that unpack_double rejects.
unfoldable pub record_latest_value : {V : Type 0} → (V → Bool) → V → History V → ℤ × History V
record_latest_value invalid val h =
    if invalid val
    then (negsuc 0, h)
    else (let i = h.count % 60 in
        let chain = (if i == 0 then new_chunk ∷ h.chain else h.chain) in
        (pos (h.count + 1), record { chain = store_first i val chain; count = h.count + 1 }))

pub data HistoryError : Type 0 where
  empty one_value too_far not_reached : HistoryError

-- `found none` is a zero among the values, and `no_chunk` a null pointer on the chain.
pub data Accessed (V : Type 0) : Type 0 where
  found : Option V → Accessed V
  raises : HistoryError → Accessed V
  no_chunk : Accessed V

-- `absnum`; `none` where it is not positive.
unfoldable pub absolute : ℤ → ℕ → Option ℕ
absolute (pos zero) count = if count == 0 then none else some count
absolute (pos (suc n)) count = some (suc n)
absolute (negsuc n) count = if ltb (n + 1) count then some (count - (n + 1)) else none

abbrev pub error_of : ℤ → HistoryError
error_of (pos zero) = HistoryError.empty
error_of (pos (suc zero)) = HistoryError.one_value
error_of num = HistoryError.too_far

abbrev pub chunk_at : {V : Type 0} → ℕ → List (Chunk V) → Option (Chunk V)
chunk_at i [] = none
chunk_at zero (c ∷ cs) = some c
chunk_at (suc i) (c ∷ cs) = chunk_at i cs

abbrev pub value_in : {V : Type 0} → ℕ → Option (Chunk V) → Accessed V
value_in i none = Accessed.no_chunk
value_in i (some c) = Accessed.found (c i)

-- The value of a number from 0 on.
unfoldable pub value_at : {V : Type 0} → ℕ → History V → Accessed V
value_at k h = value_in (k % 60) (chunk_at ((h.count - 1) / 60 - k / 60) h.chain)

unfoldable pub access_value_history : {V : Type 0} → ℤ → History V → Accessed V
access_value_history num h = elim (absolute num h.count) [
  | none ↦ Accessed.raises (error_of num)
  | some n ↦ if ltb h.count n then Accessed.raises HistoryError.not_reached else value_at (n - 1) h
]
