-- ===== src/Link/Tests.antt =====
-- remote.c and hmon/mon.c: messages of some values, and the characters of some of them.
use g.Base.{ℕ, ◌≡◌, refl, true, false, List, [], ◌∷◌, ◌++◌, arith}
use g.Link.Table.{compress_table}
use g.Link.Stream.{monitor, hears}
use g.Link.Values.{Width, whole, half, single, Item}
use g.Link.Roundtrip.{Fit, message, get_message, widths_of, values_of, get_message-message}
use g.Link.{Out, Reply, word_chars, byte_chars, word_code, byte_code}

-- A frequent word is sent as one character, and a rare byte as two.
frequent : word_chars 0xf000d9ff ≡ 0 ∷ []
unfolding word_chars word_code compress_table
frequent = refl

rare : byte_chars 0xee ≡ 0x84 ∷ 0x6e ∷ []
unfolding byte_chars byte_code compress_table
rare = refl

abbrev silent : Out
silent = record { sent = []; checksum = 5; checksumming = false }

abbrev item : Width → ℕ → Item
item width v = record { width = width; value = v }

abbrev values : List Item
values = item whole 0xf000d9ff ∷ item single 0xee ∷ item half 0x7265 ∷ item whole 0x12345678 ∷ []

values-Fit : Fit values
values-Fit = Fit.fits _ _ (omega arith) (
    Fit.fits _ _ (omega arith)
      (Fit.fits _ _ (omega arith) (Fit.fits _ _ (omega arith) Fit.none_left)))

get_message-message_example :
    let o = message values silent in
    (partial' : ℕ) × (get_message monitor
        (widths_of values)
        (hears (o.sent ++ 0x96 ∷ []) 0 0 0 true)
      ≡ Reply.received (values_of values) (hears (0x96 ∷ []) partial' 0 o.checksum false))
get_message-message_example =
    get_message-message monitor values silent (0x96 ∷ []) 0 refl values-Fit
