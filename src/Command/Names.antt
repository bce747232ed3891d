-- ===== src/Command/Names.antt =====
-- command.c: the names of a list of commands under add_cmd and delete_cmd.
use g.Base.{
  ℕ, ◌+◌, ◌≡◌, inl, inr, refl, ap, Bool, true, false, Option, none, some, List, [], ◌∷◌, length,
  arith, Bool-cases, ==_refl, ◌||◌, not, if◌then◌else◌, ◌∙◌,
}
use g.Base.Int.{ℤ}
use g.Command.{
  Text, Cmd, same_text, lower, lower_text, shifted, delete_named, delete_cmd, new_cmd, add_cmd,
}
use g.Command.Lookup.{is_prefix, is_function, matches, search, Verdict, verdict}

same_text-eq : (s t : Text) → same_text s t ≡ true → s ≡ t
unfolding same_text
same_text-eq [] [] h = refl
same_text-eq [] (d ∷ t) h = absurd (ground arith)
same_text-eq (c ∷ s) [] h = absurd (ground arith)
same_text-eq (c ∷ s) (d ∷ t) h =
    let i = same_text-eq s t (ground arith) in let j : c ≡ d = ground arith in cc

is_prefix_refl : (s : Text) → is_prefix s s ≡ true
unfolding is_prefix
is_prefix_refl [] = refl
is_prefix_refl (c ∷ s) = rw (==_refl c) (is_prefix_refl s)

lower-lower : (x : ℕ) → lower (lower x) ≡ lower x
lower-lower x = ground arith

lower_text-lower_text : (s : Text) → lower_text (lower_text s) ≡ lower_text s
unfolding lower_text
lower_text-lower_text [] = refl
lower_text-lower_text (c ∷ s) = rw (lower-lower c, lower_text-lower_text s)

shifted-shifted : (low : Bool) (s : Text) → shifted low (shifted low s) ≡ shifted low s
shifted-shifted true s = lower_text-lower_text s
shifted-shifted false s = refl

-- No command of the list has the name.
abbrev pub IsAbsent : Text → List Cmd → Type 0
IsAbsent name [] = Unit
IsAbsent name (c ∷ cs) = (same_text c.name name ≡ false) × IsAbsent name cs

-- The names of the list differ from each other.
abbrev pub IsDistinct : List Cmd → Type 0
IsDistinct [] = Unit
IsDistinct (c ∷ cs) = IsAbsent c.name cs × IsDistinct cs

delete_named-IsAbsent : (name : Text) (cs : List Cmd) → IsAbsent name (delete_named name cs)
unfolding delete_named
delete_named-IsAbsent name [] = tt
delete_named-IsAbsent name (c ∷ cs) = elim (Bool-cases (same_text c.name name)) [
  | inl e ↦ rw e (delete_named-IsAbsent name cs)
  | inr e ↦ rw e (e, delete_named-IsAbsent name cs)
]

IsAbsent-delete_named :
    (n name : Text) (cs : List Cmd) → IsAbsent n cs → IsAbsent n (delete_named name cs)
unfolding delete_named
IsAbsent-delete_named n name [] h = tt
IsAbsent-delete_named n name (c ∷ cs) h = elim (Bool-cases (same_text c.name name)) [
  | inl e ↦ rw e (IsAbsent-delete_named n name cs h.1)
  | inr e ↦ rw e (h.0, IsAbsent-delete_named n name cs h.1)
]

IsDistinct-delete_named :
    (name : Text) (cs : List Cmd) → IsDistinct cs → IsDistinct (delete_named name cs)
unfolding delete_named
IsDistinct-delete_named name [] h = tt
IsDistinct-delete_named name (c ∷ cs) h = elim (Bool-cases (same_text c.name name)) [
  | inl e ↦ rw e (IsDistinct-delete_named name cs h.1)
  | inr e ↦ rw e (IsAbsent-delete_named c.name name cs h.0, IsDistinct-delete_named name cs h.1)
]

-- A list of commands with different names still has different names after add_cmd, whether or not
-- the new name was there and whether or not names are put in lower case.
pub add_cmd-IsDistinct :
    (low : Bool) (name : Text) (class : ℤ) (fun : Option ℕ) (doc : Text) (list : List Cmd)
    → IsDistinct list
    → IsDistinct (add_cmd low name class fun doc list)
unfolding add_cmd delete_cmd
add_cmd-IsDistinct low name class fun doc list h = rw (shifted-shifted low name) (
  delete_named-IsAbsent (shifted low name) list,
  IsDistinct-delete_named (shifted low name) list h,
)

search-delete_named :
    (ign : Bool) (v name : Text) (cs : List Cmd) (found : Option Cmd) (n : ℕ)
    → is_prefix v name ≡ false
    → search ign v (delete_named name cs) found n ≡ search ign v cs found n
unfolding search delete_named
search-delete_named ign v name [] found n h = refl
search-delete_named ign v name (c ∷ cs) found n h = elim (Bool-cases (same_text c.name name)) [
  | inl e ↦
      let f : is_prefix v c.name ≡ false = rw (same_text-eq c.name name e) h in
      rw (e, f) (search-delete_named ign v name cs found n h)
  | inr e ↦ rw e (elim (Bool-cases (matches ign v c)) [
    | inl f ↦ rw (f, search-delete_named ign v name cs (some c) (n + 1) h)
    | inr f ↦ rw (f, search-delete_named ign v name cs found n h)
  ])
]

search-new :
    (ign : Bool) (name : Text) (class : ℤ) (fun : Option ℕ) (doc : Text) (cs : List Cmd)
    → let c = new_cmd name class fun doc false in
      verdict (search ign name (c ∷ cs) none 0)
      ≡ (if not ign || is_function fun then Verdict.one c else verdict (search ign name cs none 0))
unfolding search
search-new ign name class fun doc cs =
    let c = new_cmd name class fun doc false in
    let m : matches ign name c ≡ not ign || is_function fun = rw (is_prefix_refl name) refl in
    elim (Bool-cases (not ign || is_function fun)) [
      | inl e ↦ rw (m ∙ e, e, ==_refl (length name)) refl
      | inr e ↦ rw (m ∙ e, e) refl
    ]

-- After add_cmd, the loop of lookup_cmd_1 over the list finds the new command by its name in full,
-- unless commands without a function are ignored and it has none, where the loop gives what the list
-- without the name does. For a word that does not abbreviate the new name the loop gives what it did
-- before. The name is the one that is stored, in lower case where names are put in lower case.
pub add_cmd-search :
    (low ign : Bool) (name v : Text) (class : ℤ) (fun : Option ℕ) (doc : Text) (list : List Cmd)
    → is_prefix v (shifted low name) ≡ false
    → let list' = add_cmd low name class fun doc list in
      (verdict (search ign (shifted low name) list' none 0) ≡ (
        if not ign || is_function fun
        then Verdict.one (new_cmd (shifted low name) class fun doc false)
        else verdict (search ign (shifted low name) (delete_cmd low name list) none 0)))
      × (verdict (search ign v list' none 0) ≡ verdict (search ign v list none 0))
unfolding add_cmd delete_cmd search
add_cmd-search low ign name v class fun doc list h = (
  search-new ign (shifted low name) class fun doc
        (delete_named (shifted low (shifted low name)) list)
      ∙ ap
          (λ n.
            if not ign || is_function fun
            then Verdict.one (new_cmd (shifted low name) class fun doc false)
            else verdict (search ign (shifted low name) (delete_named n list) none 0))
          (shifted-shifted low name),
  rw (shifted-shifted low name, h)
      (ap verdict (search-delete_named ign v (shifted low name) list none 0 h)),
)
