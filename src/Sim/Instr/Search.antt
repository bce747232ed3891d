-- ===== src/Sim/Instr/Search.antt =====
-- sim/simdecode.c: what sim_instruction_lookup finds, whatever was looked up before.
use g.Base.{
  ℕ, ◌≡◌, refl, ap, ◌∙◌, ◌^◌, ◌<◌, true, false, ◌==◌, Option, none, some, List, [], ◌∷◌, ◌++◌,
  arith, Bool-cases, ◌⊎◌, inl, inr, ◌↔◌,
}
use g.Base.Bits.{zero-and}
use g.Decode.Entry.{Format}
use g.Sim.Instr.{
  Cache, instructions, pseudo, push_all, builddecodetable, pull, move_to_front, found,
  sim_instruction_lookup,
}
use g.Sim.Instr.Entry.{SimInfo, SimTable, sim_entry, no_fix, fits, top_bits}
use g.Sim.Instr.Lists.{
  move_to_front-Occurs, Answers, found-Answers, push_all-Filed, push_all-append,
}
use g.Sim.Instr.Unique.{Occurs, fxcr, instructions_once, fits-top_bits}

-- The last entry of the table, which has no mask.
abbrev pub opc_exception : SimInfo
opc_exception = sim_entry 0 0 "pseudo" Format.pseudo_format "opc_exception" no_fix

-- The lists have the entries of the table by their top bits, and the first of list 0 is the last
-- entry of the table.
record IsCache (cache : Cache) : Type 0 where
  members :
      (k : ℕ) (p : SimInfo)
      → Occurs p (cache k) ↔ ((Occurs p (instructions ++ pseudo)) × (top_bits p.info.opcode ≡ k))
  first : (rest : SimTable) × (cache 0 ≡ opc_exception ∷ rest)

builddecodetable-IsCache : IsCache builddecodetable
unfolding builddecodetable push_all
builddecodetable-IsCache = record {
  members = λ k p.
      let filed = push_all-Filed (instructions ++ pseudo) (λ n. []) k p in
      ((λ o. elim (filed.0 o) [ inl h ↦ h | inr n ↦ absurd n ]), (λ h. filed.1 (inl h)));
  first = (
    sim_entry 0 0 "pseudo" Format.pseudo_format "not_decoded" no_fix
        ∷ sim_entry 0 0 "pseudo" Format.pseudo_format "end_of_page" no_fix
        ∷ push_all instructions (λ n. []) 0,
    ap (λ (c : Cache). c 0) (push_all-append instructions pseudo (λ n. [])),
  );
}

opc_exception-fits : (i : ℕ) → fits opc_exception i ≡ true
opc_exception-fits i = rw (zero-and i) refl

-- A list that starts with it stays as it is.
move_to_front-first :
    (rest : SimTable) (i : ℕ) → move_to_front (opc_exception ∷ rest) i ≡ opc_exception ∷ rest
unfolding pull
move_to_front-first rest i = rw (opc_exception-fits i, move_to_front) refl

found-first : (rest : SimTable) (i : ℕ) → found (opc_exception ∷ rest) i ≡ some opc_exception
unfolding pull
found-first rest i = rw (opc_exception-fits i, found) refl

sim_instruction_lookup-IsCache :
    (i : ℕ) (cache : Cache) → IsCache cache → IsCache (sim_instruction_lookup i cache).1
unfolding sim_instruction_lookup
sim_instruction_lookup-IsCache i cache v = record {
  members = λ k p.
      let old = v.members k p in
      let moved = move_to_front-Occurs (cache k) i p in
      elim (Bool-cases (k == top_bits i)) [
        | inl e ↦ rw e ((λ o. old.0 (moved.1 o)), (λ h. moved.0 (old.1 h)))
        | inr e ↦ rw e old
      ];
  first = elim (Bool-cases (0 == top_bits i)) [
    | inl e ↦
        rw e (v.first.0, ap (λ ps. move_to_front ps i) v.first.1 ∙ move_to_front-first v.first.0 i)
    | inr e ↦ rw e v.first
  ];
}

-- The lists after a number of searches.
abbrev pub after : List ℕ → Cache → Cache
after [] cache = cache
after (i ∷ is) cache = after is (sim_instruction_lookup i cache).1

after-IsCache : (is : List ℕ) (cache : Cache) → IsCache cache → IsCache (after is cache)
after-IsCache [] cache v = v
after-IsCache (i ∷ is) cache v =
    after-IsCache is (sim_instruction_lookup i cache).1 (sim_instruction_lookup-IsCache i cache v)

Occurs-append : (p : SimInfo) (ps qs : SimTable) → Occurs p (ps ++ qs) ↔ (Occurs p ps ⊎ Occurs p qs)
Occurs-append p [] qs = ((λ o. inr o), (λ o. elim o [ inl n ↦ absurd n | inr o' ↦ o' ]))
Occurs-append p (q ∷ ps) qs =
    let ih = Occurs-append p ps qs in
    (
      (λ o. elim o [
        | inl s ↦ inl (inl s)
        | inr o' ↦ elim (ih.0 o') [ inl l ↦ inl (inr l) | inr r ↦ inr r ]
      ]),
      (λ o. elim o [
        | inl l ↦ elim l [ inl s ↦ inl s | inr l' ↦ inr (ih.1 (inl l')) ]
        | inr r ↦ inr (ih.1 (inr r))
      ]),
    )

pseudo-top_bits : (p : SimInfo) → Occurs p pseudo → top_bits p.info.opcode ≡ 0
pseudo-top_bits p (inl s) = ap (λ r. top_bits r.info.opcode) s
pseudo-top_bits p (inr (inl s)) = ap (λ r. top_bits r.info.opcode) s
pseudo-top_bits p (inr (inr (inl s))) = ap (λ r. top_bits r.info.opcode) s
pseudo-top_bits p (inr (inr (inr n))) = absurd n

-- In the other lists there are instructions only.
instruction :
    (cache : Cache) (k : ℕ) (p : SimInfo)
    → IsCache cache
    → 0 < k
    → Occurs p (cache k)
    → Occurs p instructions
instruction cache k p v hk o =
    let (o', t) = (v.members k p).0 o in
    elim ((Occurs-append p instructions pseudo).0 o') [
      | inl l ↦ l
      | inr r ↦ absurd (omega (arith, t, pseudo-top_bits p r))
    ]

zero_or_more : (n : ℕ) → (n ≡ 0) ⊎ (0 < n)
zero_or_more n = omega arith

-- An instruction that fits a word is in the list of its top bits.
listed :
    (cache : Cache) (i : ℕ) (p : SimInfo)
    → IsCache cache
    → i < 2 ^ 32
    → Occurs p instructions
    → fits p i ≡ true
    → Occurs p (cache (top_bits i))
listed cache i p v hi op e =
    (v.members (top_bits i) p).1
      ((Occurs-append p instructions pseudo).1 (inl op), fits-top_bits p i hi op e)

found_iff :
    (cache : Cache) (i : ℕ) (o : Option SimInfo) (p : SimInfo)
    → IsCache cache
    → i < 2 ^ 32
    → 0 < top_bits i
    → fits fxcr i ≡ false
    → Answers (cache (top_bits i)) i o
    → Occurs p instructions
    → (fits p i ≡ true) ↔ (o ≡ some p)
found_iff cache i none p v hi ht nf h op = ((λ e. cc (h p (listed cache i p v hi op e))), (λ e. cc))
found_iff cache i (some q) p v hi ht nf h op = (
  (λ e. ap some (instructions_once i q p nf (instruction cache (top_bits i) q v ht h.0) op h.1 e)),
  (λ e. ground (arith, h.1)),
)

-- For a word that is no fxcr, and an instruction of the table, whatever words were looked up since
-- the lists were built: sim_instruction_lookup finds the last entry of the table, which stands for
-- an invalid opcode, where the top six bits of the word are 0; and else it finds the instruction
-- exactly where the word fits it.
pub sim_instruction_lookup-finds :
    (is : List ℕ) (i : ℕ) (p : SimInfo)
    → i < 2 ^ 32
    → fits fxcr i ≡ false
    → Occurs p instructions
    → ((top_bits i ≡ 0)
        × ((sim_instruction_lookup i (after is builddecodetable)).0 ≡ some opc_exception))
      ⊎ ((0 < top_bits i)
          × ((fits p i ≡ true)
              ↔ ((sim_instruction_lookup i (after is builddecodetable)).0 ≡ some p)))
unfolding sim_instruction_lookup
sim_instruction_lookup-finds is i p hi nf op =
    let cache = after is builddecodetable in
    let v : IsCache cache = after-IsCache is builddecodetable builddecodetable-IsCache in
    elim (zero_or_more (top_bits i)) [
      | inl z ↦ inl (
        z,
        ap (λ k. found (cache k) i) z ∙ ap (λ ps. found ps i) v.first.1 ∙ found-first v.first.0 i,
      )
      | inr m ↦ inr (
        m,
        found_iff cache i (found (cache (top_bits i)) i) p v hi m nf
            (found-Answers (cache (top_bits i)) i) op,
      )
    ]
