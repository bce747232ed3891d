-- ===== src/Command.antt =====
-- command.c and command.h: the list of commands, and what adds to it and deletes from it. A string
-- is the list of its characters; the variable that `prefixlist` points to is a number.
pub mod Lookup
pub mod Search
pub mod Names
pub mod Depth
mod Tests
use g.Base.{
  ℕ, ◌+◌, ◌-◌, Bool, true, false, Option, none, some, List, [], ◌∷◌, ◌==◌, leb, ◌&&◌, if◌then◌else◌,
}
use g.Base.Int.{ℤ, pos}

abbrev pub Text : Type 0
Text = List ℕ

-- `struct cmd_list_element`. `prefixname` is `none` until somebody sets it.
pub record Cmd : Type 0 where
  pub name : Text
  pub class : ℤ
  pub function : Option ℕ
  pub doc : Text
  pub prefixlist : Option ℕ
  pub prefixname : Option Text
  pub allow_unknown : ℤ
  pub abbrev_flag : Bool
  pub aux : ℕ

-- `!strcmp (s, t)`
unfoldable pub same_text : Text → Text → Bool
same_text [] [] = true
same_text [] (d ∷ t) = false
same_text (c ∷ s) [] = false
same_text (c ∷ s) (d ∷ t) = c == d && same_text s t

-- `(x >= 'A' && x <= 'Z') ? x - 'A' + 'a' : x`
abbrev pub lower : ℕ → ℕ
lower x = if leb 65 x && leb x 90 then x - 65 + 97 else x

unfoldable pub lower_text : Text → Text
lower_text [] = []
lower_text (c ∷ s) = lower c ∷ lower_text s

abbrev pub shifted : Bool → Text → Text
shifted shift_to_lower name = if shift_to_lower then lower_text name else name

-- The loops of delete_cmd, on the name as it is compared.
unfoldable pub delete_named : Text → List Cmd → List Cmd
delete_named name [] = []
delete_named name (c ∷ cs) =
    let rest = delete_named name cs in if same_text c.name name then rest else c ∷ rest

unfoldable pub delete_cmd : Bool → Text → List Cmd → List Cmd
delete_cmd shift_to_lower name list = delete_named (shifted shift_to_lower name) list

abbrev pub new_cmd : Text → ℤ → Option ℕ → Text → Bool → Cmd
new_cmd name class fun doc abbrev_flag = record {
  name = name;
  class = class;
  function = fun;
  doc = doc;
  prefixlist = none;
  prefixname = none;
  allow_unknown = pos 0;
  abbrev_flag = abbrev_flag;
  aux = 0;
}

-- The list with the new element first; it is what the function returns a pointer to.
unfoldable pub add_cmd : Bool → Text → ℤ → Option ℕ → Text → List Cmd → List Cmd
add_cmd shift_to_lower name class fun doc list =
    let name' = shifted shift_to_lower name in
    new_cmd name' class fun doc false ∷ delete_cmd shift_to_lower name' list

unfoldable pub add_abbrev_cmd : Bool → Text → ℤ → Option ℕ → Text → List Cmd → List Cmd
add_abbrev_cmd shift_to_lower name class fun doc list =
    let name' = shifted shift_to_lower name in
    new_cmd name' class fun doc true ∷ delete_cmd shift_to_lower name' list

-- A change of the element that was added.
abbrev pub amend : (Cmd → Cmd) → List Cmd → List Cmd
amend f [] = []
amend f (c ∷ cs) = f c ∷ cs

unfoldable pub add_prefix_cmd :
    Bool → Text → ℤ → Option ℕ → Text → ℕ → Text → ℤ → List Cmd → List Cmd
add_prefix_cmd shift_to_lower name class fun doc prefixlist prefixname allow_unknown list =
    amend
      (λ c. record c {
        prefixlist = some prefixlist;
        prefixname = some prefixname;
        allow_unknown = allow_unknown;
      })
      (add_cmd shift_to_lower name class fun doc list)

unfoldable pub add_abbrev_prefix_cmd :
    Bool → Text → ℤ → Option ℕ → Text → ℕ → Text → ℤ → List Cmd → List Cmd
add_abbrev_prefix_cmd shift_to_lower name class fun doc prefixlist prefixname allow_unknown list =
    amend
      (λ c. record c {
        prefixlist = some prefixlist;
        prefixname = some prefixname;
        allow_unknown = allow_unknown;
        abbrev_flag = true;
      })
      (add_cmd shift_to_lower name class fun doc list)
