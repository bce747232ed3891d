-- ===== src/Environ/Tests.antt =====
-- environ.c: runs, and each theorem at such an input.
use g.Base.{◌≤◌, ◌≡◌, ◌≢◌, refl, none, some, [], ◌∷◌, length, arith}
use g.Environ.{
  String, Environ, make_environ, init_environ, get_in_environ, set_in_environ, unset_in_environ,
  value_of, first_value,
}
use g.Environ.Access.{
  is_name, IsOnce, set_in_environ-get, set_in_environ-IsOnce, unset_in_environ-get,
  init_environ-get,
}

-- "A", "AB" and "x"
abbrev a : String
a = 65 ∷ []

abbrev ab : String
ab = 65 ∷ 66 ∷ []

abbrev x : String
x = 120 ∷ []

abbrev environ : Environ
environ = record { allocated = 2; vector = (65 ∷ 61 ∷ []) ∷ (65 ∷ 66 ∷ 61 ∷ 120 ∷ []) ∷ [] }

ab-ne-a : ab ≢ a
ab-ne-a h = absurd (ground (arith, h))

ab_found : get_in_environ environ ab ≡ some x
unfolding get_in_environ first_value value_of
ab_found = refl

set_in_environ-get_example :
    let e' = set_in_environ environ a x in
    (get_in_environ e' a ≡ some x)
    × (get_in_environ e' ab ≡ get_in_environ environ ab)
    × (length e'.vector ≤ e'.allocated)
unfolding is_name
set_in_environ-get_example = set_in_environ-get environ a x ab refl refl ab-ne-a (omega arith)

single_after_set : IsOnce ab (set_in_environ environ a x).vector
unfolding is_name value_of first_value
single_after_set =
    set_in_environ-IsOnce environ a x ab refl refl
      ((λ e. absurd (ground (arith, e))), ((λ e. refl), tt))

unset_in_environ-get_example :
    let e' = unset_in_environ environ a in
    (get_in_environ e' a ≡ none)
    × (get_in_environ e' ab ≡ get_in_environ environ ab)
    × (length e'.vector ≤ e'.allocated)
unfolding is_name value_of first_value
unset_in_environ-get_example =
    unset_in_environ-get environ a ab refl refl ab-ne-a ((λ e. refl), ((λ e. refl), tt))
      (omega arith)

-- The heap has "!" behind the copy.
init_environ-get_example :
    get_in_environ (init_environ (λ i. 33 ∷ []) ((65 ∷ 61 ∷ 120 ∷ []) ∷ []) make_environ) a
    ≡ some (120 ∷ 33 ∷ [])
unfolding value_of
init_environ-get_example =
    init_environ-get (λ i. 33 ∷ []) (65 ∷ 61 ∷ 120 ∷ []) [] make_environ a x refl
