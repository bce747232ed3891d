-- ===== src/Command/Lookup.antt =====
-- command.c: lookup_cmd_1, lookup_cmd and add_alias_cmd. `lists` gives the variables that a
-- `prefixlist` points to. An error that ui_badnews raises is a result of its own.
use g.Base.{
  ℕ, zero, suc, ◌+◌, Bool, true, false, Option, none, some, List, [], ◌∷◌, ◌==◌, leb, ltb, ◌&&◌,
  ◌||◌, not, if◌then◌else◌, length,
}
use g.Base.Int.{ℤ, pos, negsuc, eq_ℤ}
use g.Command.{Text, Cmd, shifted, amend, add_cmd, delete_cmd}

abbrev pub is_blank : ℕ → Bool
is_blank c = c == 32 || c == 9

unfoldable pub skip_blanks : Text → Text
skip_blanks [] = []
skip_blanks (c ∷ s) = let rest = skip_blanks s in if is_blank c then rest else c ∷ s

-- `isalnum(*p) || *p == '-'`
abbrev pub in_word : ℕ → Bool
in_word c = leb 48 c && leb c 57 || leb 65 c && leb c 90 || leb 97 c && leb c 122 || c == 45

-- The word that the text begins with, and what follows it.
unfoldable pub word : Text → Text × Text
word [] = ([], [])
word (c ∷ s) = let (w, p) = word s in if in_word c then (c ∷ w, p) else ([], c ∷ s)

-- `!strncmp (command, name, strlen (command))`
unfoldable pub is_prefix : Text → Text → Bool
is_prefix [] t = true
is_prefix (c ∷ s) [] = false
is_prefix (c ∷ s) (d ∷ t) = c == d && is_prefix s t

abbrev pub is_function : Option ℕ → Bool
is_function none = false
is_function (some f) = true

abbrev pub matches : Bool → Text → Cmd → Bool
matches ignore_help_classes command c =
    is_prefix command c.name && (not ignore_help_classes || is_function c.function)

-- The loop over the list, with `found` and `nfound`; an exact name ends it.
unfoldable pub search : Bool → Text → List Cmd → Option Cmd → ℕ → Option Cmd × ℕ
search ign command [] found nfound = (found, nfound)
search ign command (c ∷ cs) found nfound =
    let m = matches ign command c in
    let rest =
      search ign command cs (if m then some c else found) (if m then nfound + 1 else nfound) in
    if m && length c.name == length command then (some c, 1) else rest

pub data Verdict : Type 0 where
  nothing : Verdict
  ambiguous : Verdict
  one : Cmd → Verdict

abbrev pub verdict : Option Cmd × ℕ → Verdict
verdict (none, nfound) = Verdict.nothing
verdict (some c, nfound) =
    if nfound == 0
    then Verdict.nothing
    else if ltb 1 nfound
    then Verdict.ambiguous
    else Verdict.one c

-- What is returned, `*text` and `*result_list`; the list is empty for 0.
pub record Result : Type 0 where
  pub returned : Verdict
  pub text : Text
  pub result_list : List Cmd

abbrev pub or_list : List Cmd → List Cmd → List Cmd
or_list [] other = other
or_list (c ∷ cs) other = c ∷ cs

-- After the lookup of a subcommand of `c` in `sub`.
abbrev pub with_sub : Cmd → List Cmd → List Cmd → Result → Result
with_sub c clist sub r = elim r.returned [
  | Verdict.nothing ↦ record r { returned = Verdict.one c; result_list = clist }
  | Verdict.ambiguous ↦ record r { result_list = or_list r.result_list sub }
  | Verdict.one c' ↦ r
]

-- lookup_cmd_1 behind the search: `t` is the text at the word and `p` behind it, and `sub a` is the
-- lookup of a subcommand in the list `a`.
abbrev pub descend :
    (ℕ → List Cmd)
    → Text
    → Text
    → List Cmd
    → List Cmd
    → (ℕ → Option Result)
    → Verdict
    → Option Result
descend lists t p clist result_list sub Verdict.nothing =
    some (record { returned = Verdict.nothing; text = t; result_list = result_list })
descend lists t p clist result_list sub Verdict.ambiguous =
    some (record { returned = Verdict.ambiguous; text = t; result_list = [] })
descend lists t p clist result_list sub (Verdict.one c) = elim c.prefixlist [
  | none ↦ some (record { returned = Verdict.one c; text = p; result_list = clist })
  | some a ↦ elim (sub a) [ none ↦ none | some r ↦ some (with_sub c clist (lists a) r) ]
]

module _ (lists : ℕ → List Cmd) (shift_to_lower ignore_help_classes : Bool) where
  -- `none` where the fuel, a bound on the depth of the subcommands, is used up.
  unfoldable pub lookup_cmd_1 : ℕ → Text → List Cmd → List Cmd → Option Result
  lookup_cmd_1 zero text clist result_list = none
  lookup_cmd_1 (suc fuel) text clist result_list =
      let t = skip_blanks text in
      let (w, p) = word t in
      if length w == 0
      then some (record { returned = Verdict.nothing; text = t; result_list = result_list })
      else descend lists t p clist result_list (λ a. lookup_cmd_1 fuel p (lists a) result_list)
          (verdict (search ignore_help_classes (shifted shift_to_lower w) clist none 0))

pub data LookupError : Type 0 where
  undefined_command ambiguous_command undefined_subcommand : LookupError

pub data Answer : Type 0 where
  answer : Option Cmd → Answer
  badnews : LookupError → Answer

abbrev pub is_negative : ℤ → Bool
is_negative (pos n) = false
is_negative (negsuc n) = true

abbrev pub head? : List Cmd → Option Cmd
head? [] = none
head? (c ∷ cs) = some c

abbrev pub local_allow_unknown : List Cmd → ℤ → ℤ
local_allow_unknown [] allow_unknown = allow_unknown
local_allow_unknown (c ∷ cs) allow_unknown = c.allow_unknown

abbrev pub lacks_subcommand : Cmd → Text → Bool
lacks_subcommand c line = elim c.prefixlist [
  | none ↦ false
  | some a ↦ not (length line == 0) && eq_ℤ c.allow_unknown (pos 0)
]

-- What lookup_cmd makes of the result of lookup_cmd_1: the answer, and `*line`.
unfoldable pub conclude : ℤ → Result → Answer × Text
conclude allow_unknown r = elim r.returned [
  | Verdict.nothing ↦ (
    (if eq_ℤ allow_unknown (pos 0)
        then Answer.badnews LookupError.undefined_command
        else Answer.answer none),
    r.text,
  )
  | Verdict.ambiguous ↦ (
    (if is_negative (local_allow_unknown r.result_list allow_unknown)
        then Answer.answer (head? r.result_list)
        else Answer.badnews LookupError.ambiguous_command),
    r.text,
  )
  | Verdict.one c ↦
      let line = skip_blanks r.text in
      (
        (if lacks_subcommand c line
            then Answer.badnews LookupError.undefined_subcommand
            else Answer.answer (some c)),
        line,
      )
]

-- A line of fewer than two characters is not looked up. The fuel is more than the line is long.
unfoldable pub lookup_cmd :
    (ℕ → List Cmd) → Bool → Text → List Cmd → ℤ → Bool → Option (Answer × Text)
lookup_cmd lists shift_to_lower line list allow_unknown ignore_help_classes =
    if ltb (length line) 2
    then some (Answer.answer none, line)
    else elim (lookup_cmd_1 lists shift_to_lower ignore_help_classes (length line + 1) line list
        []) [ none ↦ none | some r ↦ some (conclude allow_unknown r) ]

-- An alias takes the function, the documentation and the subcommands of the old command. An error
-- in the lookup of the old name leaves the list as it is.
unfoldable pub add_alias_cmd :
    (ℕ → List Cmd) → Bool → Text → Text → ℤ → Bool → List Cmd → Option (List Cmd)
add_alias_cmd lists shift_to_lower name oldname class abbrev_flag list =
    elim (lookup_cmd lists shift_to_lower (shifted shift_to_lower oldname) list (pos 1) true) [
      | none ↦ none
      | some (Answer.badnews e, line) ↦ some list
      | some (Answer.answer none, line) ↦ some (delete_cmd shift_to_lower name list)
      | some (Answer.answer (some old), line) ↦ some (
          amend
            (λ c. record c {
              prefixlist = old.prefixlist;
              prefixname = old.prefixname;
              allow_unknown = old.allow_unknown;
              abbrev_flag = abbrev_flag;
              aux = old.aux;
            })
            (add_cmd shift_to_lower name class old.function old.doc list))
    ]
