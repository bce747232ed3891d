-- ===== src/Decode/Tests.antt =====
-- decode.c: the search of the table on instruction words.
use g.Base.{◌≡◌, refl, true, none, some, [], ◌∷◌, ◌↔◌, ◌⊎◌, inl, inr}
use g.Decode.{entries, remote_instruction_lookup, lookup_from}
use g.Decode.Entry.{InstrInfo, Table, Format, entry, fits}
use g.Decode.Alu.{add_entries}
use g.Decode.Search.{remote_instruction_lookup-fits, remote_instruction_lookup-order}
use g.Decode.Unique.{Occurs}

jmp_found :
    remote_instruction_lookup 0xf400c001 ≡ some (entry 0xf400c000 0xffffffe0 "jmp" Format.jmp)
unfolding remote_instruction_lookup
jmp_found = refl

undefined_word : remote_instruction_lookup 0x90000000 ≡ none
unfolding remote_instruction_lookup
undefined_word = refl

abbrev add_entry : InstrInfo
add_entry = entry 0x70000000 0xfc000000 "add" Format.intrl

add_entry-Occurs : Occurs add_entry entries
unfolding entries add_entries
add_entry-Occurs = inl refl

remote_instruction_lookup-fits_example :
    (fits add_entry 0x70410005 ≡ true) ↔ (remote_instruction_lookup 0x70410005 ≡ some add_entry)
remote_instruction_lookup-fits_example =
    remote_instruction_lookup-fits 0x70410005 add_entry refl add_entry-Occurs

-- The table with its first two entries swapped.
abbrev swap_first : Table → Table
swap_first [] = []
swap_first (p ∷ []) = p ∷ []
swap_first (p ∷ q ∷ ps) = q ∷ p ∷ ps

exchange : {A B C : Type 0} → A ⊎ (B ⊎ C) → B ⊎ (A ⊎ C)
exchange (inl a) = inr (inl a)
exchange (inr (inl b)) = inl b
exchange (inr (inr c)) = inr (inr c)

Occurs-swap_first : (ps : Table) (p : InstrInfo) → Occurs p (swap_first ps) ↔ Occurs p ps
Occurs-swap_first [] p = ((λ o. o), (λ o. o))
Occurs-swap_first (q ∷ []) p = ((λ o. o), (λ o. o))
Occurs-swap_first (q ∷ r ∷ ps) p = (exchange, exchange)

swapped_table_finds :
    lookup_from (swap_first entries) 0xf4007001 ≡ remote_instruction_lookup 0xf4007001
swapped_table_finds =
    remote_instruction_lookup-order (swap_first entries) 0xf4007001 (Occurs-swap_first entries) refl
