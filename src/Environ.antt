-- ===== src/Environ.antt =====
-- environ.c: the environment of the program that is debugged, a vector of strings "VAR=VALUE". A
-- string is the list of its characters, without the zero that ends it.
pub mod Access
mod Tests
use g.Base.{
  ℕ, zero, suc, ◌+◌, Bool, true, false, Option, none, some, List, [], ◌∷◌, ◌++◌, ◌==◌, ltb,
  if◌then◌else◌, length,
}

abbrev pub String : Type 0
String = List ℕ

-- `struct environ`: the strings before the zero of the vector, which has `allocated + 1` slots.
pub record Environ : Type 0 where
  pub allocated : ℕ
  pub vector : List String

abbrev pub make_environ : Environ
make_environ = record { allocated = 10; vector = [] }

abbrev pub larger : ℕ → ℕ → ℕ
larger a b = if ltb b a then a else b

-- The loop that copies the strings. A copy has room for the zero, but the zero is not copied: the
-- string goes on with what `heap` says is there up to the next zero.
unfoldable pub copy_strings : (ℕ → String) → ℕ → List String → List String
copy_strings heap i [] = []
copy_strings heap i (s ∷ ss) = (s ++ heap i) ∷ copy_strings heap (i + 1) ss

unfoldable pub init_environ : (ℕ → String) → List String → Environ → Environ
init_environ heap environ e =
    let i = length environ in
    record {
      allocated = if ltb e.allocated i then larger i (e.allocated + 10) else e.allocated;
      vector = copy_strings heap 0 environ;
    }

-- `!strncmp (s, var, len) && s[len] == '='`, and then `&s[len + 1]`.
unfoldable pub value_of : String → String → Option String
value_of [] [] = none
value_of [] (c ∷ s) = if c == 61 then some s else none
value_of (v ∷ var) [] = none
value_of (v ∷ var) (c ∷ s) = let rest = value_of var s in if v == c then rest else none

abbrev pub or_rest : {A : Type 0} → Option A → Option A → Option A
or_rest (some a) rest = some a
or_rest none rest = rest

unfoldable pub first_value : String → List String → Option String
first_value var [] = none
first_value var (s ∷ ss) = or_rest (value_of var s) (first_value var ss)

unfoldable pub get_in_environ : Environ → String → Option String
get_in_environ e var = first_value var e.vector

abbrev pub is_set : Option String → Bool
is_set none = false
is_set (some v) = true

-- The string in the first slot of the variable, or in a new one.
unfoldable pub put : String → String → List String → List String
put var new [] = new ∷ []
put var new (s ∷ ss) =
    let rest = put var new ss in if is_set (value_of var s) then new ∷ ss else s ∷ rest

-- A vector that is full grows by 10 slots where the variable is new.
unfoldable pub set_in_environ : Environ → String → String → Environ
set_in_environ e var value = record {
  allocated =
      if is_set (first_value var e.vector)
      then e.allocated
      else if length e.vector == e.allocated
      then e.allocated + 10
      else e.allocated;
  vector = put var (var ++ 61 ∷ value) e.vector;
}

-- The strings behind the first one of the variable move up.
unfoldable pub remove_first : String → List String → List String
remove_first var [] = []
remove_first var (s ∷ ss) =
    let rest = remove_first var ss in if is_set (value_of var s) then ss else s ∷ rest

unfoldable pub unset_in_environ : Environ → String → Environ
unset_in_environ e var = record e { vector = remove_first var e.vector }
