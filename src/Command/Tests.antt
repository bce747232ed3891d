-- ===== src/Command/Tests.antt =====
-- command.c: runs on small lists, and each theorem at such an input.
use g.Base.{ℕ, ◌≡◌, refl, true, false, none, some, List, [], ◌∷◌, length, ◌≤◌}
use g.Base.Int.{pos}
use g.Command.{Text, Cmd, new_cmd, add_cmd, same_text}
use g.Command.Lookup.{
  search, verdict, Verdict, lookup_cmd, lookup_cmd_1, Answer, is_prefix, conclude, skip_blanks,
  word,
}
use g.Command.Names.{IsDistinct, add_cmd-IsDistinct, add_cmd-search}
use g.Command.Search.{choose, search-choose, search-longer}
use g.Command.Depth.{lookup_cmd-answers, lookup_cmd-one_letter}

-- "step", "stepi" and "s"
abbrev step : Text
step = 115 ∷ 116 ∷ 101 ∷ 112 ∷ []

abbrev stepi : Text
stepi = 115 ∷ 116 ∷ 101 ∷ 112 ∷ 105 ∷ []

abbrev s_cmd : Cmd
s_cmd = new_cmd (115 ∷ []) (pos 1) (some 7) [] false

abbrev stepi_cmd : Cmd
stepi_cmd = new_cmd stepi (pos 1) (some 3) [] false

abbrev commands : List Cmd
commands = stepi_cmd ∷ new_cmd step (pos 1) (some 2) [] false ∷ []

no_lists : ℕ → List Cmd
no_lists a = []

commands-IsDistinct : IsDistinct commands
unfolding same_text
commands-IsDistinct = ((refl, tt), (tt, tt))

step_found :
    lookup_cmd no_lists false step commands (pos 0) false
    ≡ some (Answer.answer (some (new_cmd step (pos 1) (some 2) [] false)), [])
unfolding lookup_cmd lookup_cmd_1 skip_blanks word search is_prefix conclude
step_found = refl

-- "STEP" replaces "step" where names are put in lower case.
add_cmd-IsDistinct_example :
    IsDistinct (add_cmd true (83 ∷ 84 ∷ 69 ∷ 80 ∷ []) (pos 2) (some 9) [] commands)
add_cmd-IsDistinct_example =
    add_cmd-IsDistinct true (83 ∷ 84 ∷ 69 ∷ 80 ∷ []) (pos 2) (some 9) [] commands
      commands-IsDistinct

add_cmd-search_example :
    let list' = add_cmd false step (pos 2) (some 9) [] commands in
    (verdict (search true step list' none 0) ≡ Verdict.one (new_cmd step (pos 2) (some 9) [] false))
    × (verdict (search true stepi list' none 0) ≡ verdict (search true stepi commands none 0))
unfolding is_prefix
add_cmd-search_example = add_cmd-search false true step stepi (pos 2) (some 9) [] commands refl

search-choose_example : verdict (search true step commands none 0) ≡ choose true step commands
search-choose_example = search-choose true step commands

longer_word_finds : verdict (search false stepi (stepi_cmd ∷ []) none 0) ≡ Verdict.one stepi_cmd
unfolding search is_prefix
longer_word_finds = search-longer false step stepi (stepi_cmd ∷ []) stepi_cmd refl refl refl

lookup_cmd-answers_example :
    (a : Answer × Text) × (lookup_cmd no_lists false step commands (pos 0) false ≡ some a)
    × (length a.1 ≤ 4)
lookup_cmd-answers_example = lookup_cmd-answers no_lists false step commands (pos 0) false

one_letter_not_found :
    (lookup_cmd_1 no_lists false false 2 (115 ∷ []) (s_cmd ∷ []) []
      ≡ some (record { returned = Verdict.one s_cmd; text = []; result_list = s_cmd ∷ [] }))
    × (lookup_cmd no_lists false (115 ∷ []) (s_cmd ∷ []) (pos 0) false
        ≡ some (Answer.answer none, 115 ∷ []))
unfolding search is_prefix
one_letter_not_found =
    lookup_cmd-one_letter no_lists false 115 (s_cmd ∷ []) (pos 0) false s_cmd refl refl refl
