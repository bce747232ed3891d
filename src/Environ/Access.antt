-- ===== src/Environ/Access.antt =====
-- environ.c: what get_in_environ finds after the operations, and the slots that they use.
use g.Base.{
  ℕ, ◌+◌, ◌≤◌, ◌≡◌, ◌≢◌, inl, inr, refl, ap, ◌∙◌, Bool, true, none, some, List, [], ◌∷◌, ◌++◌, ◌==◌,
  ◌&&◌, not, if◌then◌else◌, length, arith, Bool-cases, ==_refl, Option-cases,
}
use g.Environ.{
  String, Environ, value_of, first_value, get_in_environ, is_set, put, set_in_environ, remove_first,
  unset_in_environ, init_environ, copy_strings,
}

-- A name without `=`.
unfoldable pub is_name : String → Bool
is_name [] = true
is_name (c ∷ s) = not (c == 61) && is_name s

value_of_binding : (var value : String) → value_of var (var ++ 61 ∷ value) ≡ some value
unfolding value_of
value_of_binding [] value = refl
value_of_binding (c ∷ var) value = rw (==_refl c) (value_of_binding var value)

-- A string is of one name only.
one_name :
    (w var s : String)
    → is_name w ≡ true
    → is_name var ≡ true
    → is_set (value_of w s) ≡ true
    → is_set (value_of var s) ≡ true
    → w ≡ var
unfolding is_name value_of
one_name [] [] s hw hv a b = refl
one_name [] (v ∷ var) [] hw hv a b = absurd (ground arith)
one_name [] (v ∷ var) (c ∷ s) hw hv a b = absurd (ground arith)
one_name (d ∷ w) [] [] hw hv a b = absurd (ground arith)
one_name (d ∷ w) [] (c ∷ s) hw hv a b = absurd (ground arith)
one_name (d ∷ w) (v ∷ var) [] hw hv a b = absurd (ground arith)
one_name (d ∷ w) (v ∷ var) (c ∷ s) hw hv a b =
    let i = one_name w var s (ground arith) (ground arith) (ground arith) (ground arith) in
    let j : d ≡ v = ground arith in cc

-- A string of one name has no value for another.
value_of-other :
    (w var s v : String)
    → is_name w ≡ true
    → is_name var ≡ true
    → w ≢ var
    → value_of var s ≡ some v
    → value_of w s ≡ none
value_of-other w var s v hw hv ne h = elim (Option-cases (value_of w s)) [
  | inl e ↦ e
  | inr (x, e) ↦ absurd (ne (one_name w var s hw hv (ap is_set e) (ap is_set h)))
]

put-same :
    (var value : String) (ss : List String)
    → first_value var (put var (var ++ 61 ∷ value) ss) ≡ some value
unfolding first_value put
put-same var value [] = rw (value_of_binding var value)
put-same var value (s ∷ ss) = elim (Option-cases (value_of var s)) [
  | inl e ↦ rw e (rw e (put-same var value ss))
  | inr (v, e) ↦ rw e (rw (value_of_binding var value))
]

put-other :
    (w var value : String) (ss : List String)
    → is_name w ≡ true
    → is_name var ≡ true
    → w ≢ var
    → first_value w (put var (var ++ 61 ∷ value) ss) ≡ first_value w ss
unfolding first_value put
put-other w var value [] hw hv ne =
    rw (value_of-other w var (var ++ 61 ∷ value) value hw hv ne (value_of_binding var value))
put-other w var value (s ∷ ss) hw hv ne = elim (Option-cases (value_of var s)) [
  | inl e ↦ rw e (rw (put-other w var value ss hw hv ne) refl)
  | inr (v, e) ↦ rw e (
      rw (
        value_of-other w var s v hw hv ne e,
        value_of-other w var (var ++ 61 ∷ value) value hw hv ne (value_of_binding var value),
      ))
]

length-put :
    (var new : String) (ss : List String)
    → length (put var new ss) ≡ (if is_set (first_value var ss) then length ss else length ss + 1)
unfolding first_value put
length-put var new [] = refl
length-put var new (s ∷ ss) = elim (Option-cases (value_of var s)) [
  | inl e ↦ rw e (ground (arith, length-put var new ss))
  | inr (v, e) ↦ rw e refl
]

length-remove_first : (var : String) (ss : List String) → length (remove_first var ss) ≤ length ss
unfolding remove_first
length-remove_first var [] = omega arith
length-remove_first var (s ∷ ss) = elim (Bool-cases (is_set (value_of var s))) [
  | inl e ↦ rw e (omega arith)
  | inr e ↦ rw e (omega (arith, length-remove_first var ss))
]

remove_first-other :
    (w var : String) (ss : List String)
    → is_name w ≡ true
    → is_name var ≡ true
    → w ≢ var
    → first_value w (remove_first var ss) ≡ first_value w ss
unfolding first_value remove_first
remove_first-other w var [] hw hv ne = refl
remove_first-other w var (s ∷ ss) hw hv ne = elim (Option-cases (value_of var s)) [
  | inl e ↦ rw e (rw (remove_first-other w var ss hw hv ne) refl)
  | inr (v, e) ↦ rw e (rw (value_of-other w var s v hw hv ne e))
]

-- At most one string of the vector is of the variable.
abbrev pub IsOnce : String → List String → Type 0
IsOnce var [] = Unit
IsOnce var (s ∷ ss) = (is_set (value_of var s) ≡ true → first_value var ss ≡ none) × IsOnce var ss

remove_first-same :
    (var : String) (ss : List String) → IsOnce var ss → first_value var (remove_first var ss) ≡ none
unfolding first_value remove_first
remove_first-same var [] h = refl
remove_first-same var (s ∷ ss) h = elim (Option-cases (value_of var s)) [
  | inl e ↦ rw e (rw e (remove_first-same var ss h.1))
  | inr (v, e) ↦ rw e (h.0 (ap is_set e))
]

put-IsOnce :
    (var value w : String) (ss : List String)
    → is_name w ≡ true
    → is_name var ≡ true
    → IsOnce w ss
    → IsOnce w (put var (var ++ 61 ∷ value) ss)
unfolding first_value put
put-IsOnce var value w [] hw hv h = ((λ f. refl), tt)
put-IsOnce var value w (s ∷ ss) hw hv h = elim (Option-cases (value_of var s)) [
  | inl e ↦ rw e (
    (λ f.
        let ne : w ≢ var =
          λ g. absurd (ground (arith, ap is_set (ap (λ x. value_of x s) g ∙ e), f)) in
        put-other w var value ss hw hv ne ∙ h.0 f),
    put-IsOnce var value w ss hw hv h.1,
  )
  | inr (v, e) ↦ rw e (
    (λ f.
        let g =
          one_name w var (var ++ 61 ∷ value) hw hv f (ap is_set (value_of_binding var value)) in
        h.0 (ap is_set (ap (λ x. value_of x s) g ∙ e))),
    h.1,
  )
]

-- set_in_environ leaves each name without `=` at most once in the vector, the one that it sets and
-- any other, where it was at most once.
pub set_in_environ-IsOnce :
    (e : Environ) (var value w : String)
    → is_name w ≡ true
    → is_name var ≡ true
    → IsOnce w e.vector
    → IsOnce w (set_in_environ e var value).vector
unfolding set_in_environ
set_in_environ-IsOnce e var value w hw hv h = put-IsOnce var value w e.vector hw hv h

-- set_in_environ gives the variable its value, and no other variable another value, for names
-- without `=`; and where the strings were within the slots of the vector they still are.
pub set_in_environ-get :
    (e : Environ) (var value w : String)
    → is_name w ≡ true
    → is_name var ≡ true
    → w ≢ var
    → length e.vector ≤ e.allocated
    → let e' = set_in_environ e var value in
      (get_in_environ e' var ≡ some value)
      × (get_in_environ e' w ≡ get_in_environ e w)
      × (length e'.vector ≤ e'.allocated)
unfolding set_in_environ get_in_environ
set_in_environ-get e var value w hw hv ne h = (
  put-same var value e.vector,
  put-other w var value e.vector hw hv ne,
  rw (length-put var (var ++ 61 ∷ value) e.vector) (ground arith),
)

-- unset_in_environ takes the value of a variable that is at most once in the vector, and changes
-- no other variable, for names without `=`; and the strings stay within the slots.
pub unset_in_environ-get :
    (e : Environ) (var w : String)
    → is_name w ≡ true
    → is_name var ≡ true
    → w ≢ var
    → IsOnce var e.vector
    → length e.vector ≤ e.allocated
    → let e' = unset_in_environ e var in
      (get_in_environ e' var ≡ none)
      × (get_in_environ e' w ≡ get_in_environ e w)
      × (length e'.vector ≤ e'.allocated)
unfolding unset_in_environ get_in_environ
unset_in_environ-get e var w hw hv ne o h = (
  remove_first-same var e.vector o,
  remove_first-other w var e.vector hw hv ne,
  omega (arith, length-remove_first var e.vector, h),
)

value_of-append :
    (var s v rest : String) → value_of var s ≡ some v → value_of var (s ++ rest) ≡ some (v ++ rest)
unfolding value_of
value_of-append [] [] v rest h = absurd (ground arith)
value_of-append [] (c ∷ s) v rest h = elim (Bool-cases (c == 61)) [
  | inl e ↦ let g : s ≡ v = ground (arith, e, h) in rw (e, g)
  | inr e ↦ absurd (ground (arith, e, h))
]
value_of-append (d ∷ var) [] v rest h = absurd (ground arith)
value_of-append (d ∷ var) (c ∷ s) v rest h = elim (Bool-cases (d == c)) [
  | inl e ↦ rw e (value_of-append var s v rest (ground (arith, e, h)))
  | inr e ↦ absurd (ground (arith, e, h))
]

-- The variable of the first string of the process, in the environment that init_environ copies it
-- to, has its value followed by the characters that the heap has behind the copy.
pub init_environ-get :
    (heap : ℕ → String) (s : String) (ss : List String) (e : Environ) (var v : String)
    → value_of var s ≡ some v
    → get_in_environ (init_environ heap (s ∷ ss) e) var ≡ some (v ++ heap 0)
unfolding init_environ get_in_environ copy_strings first_value
init_environ-get heap s ss e var v h = rw (value_of-append var s v (heap 0) h)
