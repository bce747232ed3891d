-- ===== src/Remote.antt =====
-- remmem.c: the memory of a target behind a monitor, and the cache of it that g88 keeps, in lines of
-- 128 bytes. The simulator and faults of the link are left out: a transfer comes to its data or to
-- C_DATAERROR.
pub mod Coherence
pub mod Stale
mod Tests
use g.Base.{
  ℕ, zero, suc, ◌+◌, ◌-◌, ◌*◌, ◌/◌, ◌%◌, ◌^◌, ◌<◌, ◌≤◌, ◌≡◌, Bool, true, false, Option, none, some,
  List, [], ◌∷◌, ◌==◌, leb, ltb, ◌&&◌, ◌||◌, not, if◌then◌else◌,
}

-- Byte `i` of the `size` bytes of a number that the link sends, the most significant first.
abbrev pub sent_byte : ℕ → ℕ → ℕ → ℕ
sent_byte size w i = w / 256 ^ (size - 1 - i) % 256

-- The monitor: an upload by mode, address and size, which gives bytes, and a download of a number.
pub record Monitor : Type 1 where
  pub State : Type 0
  pub upload : State → ℕ → ℕ → ℕ → Option (ℕ → ℕ)
  pub download : State → ℕ → ℕ → ℕ → ℕ → Option State
  -- A block that can be read is read the same in parts.
  pub upload-part :
      (s : State) (mode a n o k : ℕ) (f : ℕ → ℕ)
      → upload s mode a n ≡ some f
      → o + k ≤ n
      → (g : ℕ → ℕ) × (upload s mode (a + o) k ≡ some g) × ((i : ℕ) → i < k → g i ≡ f (o + i))
  -- A download that is acknowledged is what is read afterwards.
  pub download-upload :
      (s s' : State) (mode a k w b n : ℕ) (f : ℕ → ℕ)
      → download s mode a k w ≡ some s'
      → upload s mode b n ≡ some f
      → (g : ℕ → ℕ) × (upload s' mode b n ≡ some g)
        × ((j : ℕ)
            → g j
              ≡ (if leb a (b + j) && ltb (b + j) (a + k) then sent_byte k w (b + j - a) else f j))

-- `struct mem_cache`
pub record Line : Type 0 where
  pub usmode : ℕ
  pub addr : ℕ
  pub values : ℕ → ℕ

pub record Remote (S : Type 0) : Type 0 where
  pub mem_cache : List Line
  pub remote_errno : Bool
  pub target : S

abbrev pub in_rom : Bool → ℕ → Bool
in_rom motomode addr =
    if motomode
    then leb 0xffc00000 addr && leb addr 0xffc7ffff
    else leb 0xfe000000 addr && leb addr 0xfe03ffff

abbrev pub in_sram : Bool → ℕ → Bool
in_sram motomode addr = if motomode then leb 0xffe00000 addr && leb addr 0xffe1ffff else false

-- The number of `size` bytes; `none` is a case error.
abbrev pub assemble : ℕ → (ℕ → ℕ) → Option ℕ
assemble size p =
    if size == 1
    then some (p 0)
    else if size == 2
    then some (p 0 * 2 ^ 8 + p 1)
    else if size == 4
    then some (p 0 * 2 ^ 24 + p 1 * 2 ^ 16 + p 2 * 2 ^ 8 + p 3)
    else none

abbrev pub line_of : ℕ → ℕ
line_of addr = addr / 128 * 128

abbrev pub holds : ℕ → ℕ → Line → Bool
holds addr usmode m = m.addr == line_of addr && m.usmode == usmode

unfoldable pub find_line : ℕ → ℕ → List Line → Option Line
find_line addr usmode [] = none
find_line addr usmode (m ∷ ms) =
    let rest = find_line addr usmode ms in if holds addr usmode m then some m else rest

abbrev pub with_value : {S : Type 0} → Remote S → Option ℕ → Option (ℕ × Remote S)
with_value r none = none
with_value r (some w) = some (w, r)

-- `m->values[i]`, where `heap` stands for what follows the line in memory.
abbrev pub byte_of : (ℕ → ℕ) → Line → ℕ → ℕ
byte_of heap m i = if ltb i 128 then m.values i else heap (i - 128)

module _ (mon : Monitor) where
  -- `none` is rerr.
  unfoldable pub forced_read_remote : ℕ → ℕ → ℕ → Remote mon.State → Option (ℕ × Remote mon.State)
  forced_read_remote addr size usmode r =
      if not (addr % size == 0) then none else elim (mon.upload r.target usmode addr size) [
        | none ↦ some (0, record r { remote_errno = true })
        | some f ↦ with_value (record r { remote_errno = false }) (assemble size f)
      ]

  unfoldable pub read_line :
      (ℕ → ℕ) → ℕ → ℕ → Line → Remote mon.State → Option (ℕ × Remote mon.State)
  read_line heap addr size m r =
      with_value (record r { remote_errno = false })
        (assemble size (λ i. byte_of heap m (addr % 128 + i)))

  -- The cache line is uploaded first where it is missing.
  unfoldable pub read_remote :
      Bool → (ℕ → ℕ) → ℕ → ℕ → ℕ → Remote mon.State → Option (ℕ × Remote mon.State)
  read_remote motomode heap addr size usmode r =
      if leb 0x80000000 addr && not (in_rom motomode addr) && not (in_sram motomode addr)
      then forced_read_remote addr size usmode r
      else elim (find_line addr usmode r.mem_cache) [
        | some m ↦ read_line heap addr size m r
        | none ↦ elim (mon.upload r.target usmode (line_of addr) 128) [
          | none ↦ forced_read_remote addr size usmode r
          | some f ↦
              let m : Line = record { usmode = usmode; addr = line_of addr; values = f } in
              read_line heap addr size m (record r { mem_cache = m ∷ r.mem_cache })
        ]
      ]

-- Byte `i` of a store through a pointer of the host.
abbrev pub stored_byte : Bool → ℕ → ℕ → ℕ → ℕ
stored_byte big size w i = if big then sent_byte size w i else w / 256 ^ i % 256

abbrev pub store : Bool → ℕ → ℕ → ℕ → (ℕ → ℕ) → ℕ → ℕ
store big offset size w values j =
    if leb offset j && ltb j (offset + size) then stored_byte big size w (j - offset) else values j

unfoldable pub write_thru_mem_cache : Bool → ℕ → ℕ → ℕ → ℕ → List Line → List Line
write_thru_mem_cache big addr w size usmode [] = []
write_thru_mem_cache big addr w size usmode (m ∷ ms) =
    let rest = write_thru_mem_cache big addr w size usmode ms in
    if holds addr usmode m
    then record m { values = store big (addr % 128) size w m.values } ∷ ms
    else m ∷ rest

-- What write_remote comes to: it returns, or it ends in rerr, which leaves a state too.
pub data Written (S : Type 0) : Type 0 where
  returns : Remote S → Written S
  raises : Remote S → Written S

abbrev pub is_size : ℕ → Bool
is_size size = size == 1 || size == 2 || size == 4

-- The mode that is meant; `psr_mode` is the mode that the PSR of the target has.
abbrev pub mode_of : ℕ → ℕ → ℕ
mode_of psr_mode usmode = if usmode == 0 || usmode == 1 then usmode else psr_mode

module _ (mon : Monitor) where
  unfoldable pub write_remote : Bool → ℕ → ℕ → ℕ → ℕ → ℕ → Remote mon.State → Written mon.State
  write_remote big psr_mode addr w size usmode r =
      if not (is_size size)
      then Written.raises (record r { remote_errno = false })
      else (let mode = mode_of psr_mode usmode in
          let cache = write_thru_mem_cache big addr w size mode r.mem_cache in
          elim (mon.download r.target mode addr size w) [
            | some s ↦
                Written.returns (record { mem_cache = cache; remote_errno = false; target = s })
            | none ↦ Written.raises (record r { mem_cache = cache; remote_errno = true })
          ])

abbrev pub invalidate_mem_cache : {S : Type 0} → Remote S → Remote S
invalidate_mem_cache r = record r { mem_cache = [] }
