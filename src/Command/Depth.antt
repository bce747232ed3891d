-- ===== src/Command/Depth.antt =====
-- command.c: lookup_cmd_1 and lookup_cmd come to an end, and the lines that are not looked up.
use g.Base.{
  ℕ, zero, suc, ◌+◌, ◌<◌, ◌≤◌, ◌≡◌, ◌≢◌, inl, inr, refl, ap, Bool, true, false, Option, none, some,
  List, [], ◌∷◌, ◌==◌, ltb, length, arith, Bool-cases,
}
use g.Base.Int.{ℤ}
use g.Command.{Text, Cmd, shifted}
use g.Command.Lookup.{
  skip_blanks, is_blank, in_word, word, search, Verdict, verdict, Result, with_sub, descend,
  lookup_cmd_1, lookup_cmd, Answer, conclude,
}

length-skip_blanks : (s : Text) → length (skip_blanks s) ≤ length s
unfolding skip_blanks
length-skip_blanks [] = omega arith
length-skip_blanks (c ∷ s) = elim (Bool-cases (is_blank c)) [
  | inl e ↦ rw e (omega (arith, length-skip_blanks s))
  | inr e ↦ rw e (omega arith)
]

length-word : (s : Text) → length (word s).0 + length (word s).1 ≡ length s
unfolding word
length-word [] = refl
length-word (c ∷ s) = elim (Bool-cases (in_word c)) [
  | inl e ↦ rw e (omega (arith, length-word s))
  | inr e ↦ rw e (omega arith)
]

-- A result, with a text that is not longer.
abbrev pub Returns : Option Result → ℕ → Type 0
Returns none n = ⊥
Returns (some r) n = length r.text ≤ n

with_sub_text :
    (c : Cmd) (clist sub : List Cmd) (r : Result) → (with_sub c clist sub r).text ≡ r.text
with_sub_text c clist sub r = ground arith

sub-Returns :
    (c : Cmd) (clist sub : List Cmd) (o : Option Result) (k n : ℕ)
    → k ≤ n
    → Returns o k
    → Returns (elim o [ none ↦ none | some r ↦ some (with_sub c clist sub r) ]) n
sub-Returns c clist sub none k n h r = absurd r
sub-Returns c clist sub (some r) k n h v =
    let e = ap length (with_sub_text c clist sub r) in omega (arith, v, e)

module _ (lists : ℕ → List Cmd) (low ign : Bool) where
  descend-Returns :
      (t p : Text) (clist rl : List Cmd) (sub : ℕ → Option Result) (v : Verdict) (n : ℕ)
      → length t ≤ n
      → length p ≤ n
      → ((a : ℕ) → Returns (sub a) (length p))
      → Returns (descend lists t p clist rl sub v) n
  descend-Returns t p clist rl sub Verdict.nothing n h k s = h
  descend-Returns t p clist rl sub Verdict.ambiguous n h k s = h
  descend-Returns t p clist rl sub (Verdict.one c) n h k s = go c.prefixlist
    where
      go :
          (o : Option ℕ)
          → Returns
              (elim o [
                | none ↦ some (record { returned = Verdict.one c; text = p; result_list = clist })
                | some a ↦ elim (sub a) [
                  | none ↦ none
                  | some r ↦ some (with_sub c clist (lists a) r)
                ]
              ])
              n
      go none = k
      go (some a) = sub-Returns c clist (lists a) (sub a) (length p) n k (s a)

  -- With more fuel than characters lookup_cmd_1 returns, and `*text` is not longer than it was.
  pub lookup_cmd_1-Returns :
      (fuel : ℕ) (text : Text) (clist rl : List Cmd)
      → length text < fuel
      → Returns (lookup_cmd_1 lists low ign fuel text clist rl) (length text)
  unfolding lookup_cmd_1
  lookup_cmd_1-Returns zero text clist rl h = absurd (omega arith)
  lookup_cmd_1-Returns (suc fuel) text clist rl h =
      let t = skip_blanks text in
      let (w, p) = word t in
      let a = length-skip_blanks text in
      let b = length-word t in
      elim (Bool-cases (length w == 0)) [
        | inl e ↦ rw e a
        | inr e ↦
            let f : length w ≢ 0 = ground arith in
            rw e (
              descend-Returns t p clist rl _ _ (length text) a (omega arith)
                (λ i. lookup_cmd_1-Returns fuel p (lists i) rl (omega (arith, a, b, f, h))))
      ]

returned :
    (o : Option Result) (n : ℕ) → Returns o n → (r : Result) × (o ≡ some r) × (length r.text ≤ n)
returned none n h = absurd h
returned (some r) n h = (r, refl, h)

length-conclude : (allow : ℤ) (r : Result) → length (conclude allow r).1 ≤ length r.text
unfolding conclude
length-conclude allow r = go r.returned
  where
    go : (v : Verdict) → length (conclude allow (record r { returned = v })).1 ≤ length r.text
    go Verdict.nothing = omega arith
    go Verdict.ambiguous = omega arith
    go (Verdict.one c) = length-skip_blanks r.text

-- lookup_cmd always comes to an answer or an error, in any lists of subcommands, also where one
-- refers to itself, and leaves a line that is not longer than it was.
pub lookup_cmd-answers :
    (lists : ℕ → List Cmd) (low : Bool) (line : Text) (list : List Cmd) (allow : ℤ) (ign : Bool)
    → (a : Answer × Text) × (lookup_cmd lists low line list allow ign ≡ some a)
      × (length a.1 ≤ length line)
unfolding lookup_cmd
lookup_cmd-answers lists low line list allow ign = elim (Bool-cases (ltb (length line) 2)) [
  | inl e ↦ rw e ((Answer.answer none, line), refl, omega arith)
  | inr e ↦
      let (r, f, l) =
        returned (lookup_cmd_1 lists low ign (length line + 1) line list []) (length line)
          (lookup_cmd_1-Returns lists low ign (length line + 1) line list [] (omega arith)) in
      rw (e, f) (conclude allow r, refl, omega (arith, length-conclude allow r, l))
]

descend_leaf :
    (lists : ℕ → List Cmd) (t p : Text) (clist rl : List Cmd) (sub : ℕ → Option Result) (c : Cmd)
    → c.prefixlist ≡ none
    → descend lists t p clist rl sub (Verdict.one c)
      ≡ some (record { returned = Verdict.one c; text = p; result_list = clist })
descend_leaf lists t p clist rl sub c e =
    ap
      (λ o. elim o [
        | none ↦ some (record { returned = Verdict.one c; text = p; result_list = clist })
        | some a ↦ elim (sub a) [ none ↦ none | some r ↦ some (with_sub c clist (lists a) r) ]
      ])
      e

-- A line of one character of a word: where lookup_cmd_1 finds a command for it, lookup_cmd still
-- answers that there is no command, and this is no error even where unknown commands are not
-- allowed.
pub lookup_cmd-one_letter :
    (lists : ℕ → List Cmd) (low : Bool) (x : ℕ) (list : List Cmd) (allow : ℤ) (ign : Bool) (c : Cmd)
    → in_word x ≡ true
    → c.prefixlist ≡ none
    → verdict (search ign (shifted low (x ∷ [])) list none 0) ≡ Verdict.one c
    → (lookup_cmd_1 lists low ign 2 (x ∷ []) list []
        ≡ some (record { returned = Verdict.one c; text = []; result_list = list }))
      × (lookup_cmd lists low (x ∷ []) list allow ign ≡ some (Answer.answer none, x ∷ []))
unfolding lookup_cmd lookup_cmd_1 skip_blanks word
lookup_cmd-one_letter lists low x list allow ign c h p v =
    let b : is_blank x ≡ false = ground (arith, h) in
    (
      rw (b, h, v)
          (descend_leaf lists (x ∷ []) [] list []
            (λ a. lookup_cmd_1 lists low ign 1 [] (lists a) []) c p),
      refl,
    )
