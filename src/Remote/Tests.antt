-- ===== src/Remote/Tests.antt =====
-- remmem.c: a target of bytes for each mode, and each theorem at such an input.
use mathlib.Core.Option.{some-injective, none-ne-some}
use g.Base.{
  ℕ, ◌+◌, ◌-◌, ◌<◌, ◌≤◌, ◌≡◌, ◌≢◌, inl, inr, refl, sym, ap, ◌∙◌, true, false, Option, none, some,
  [], ◌∷◌, ◌==◌, leb, ltb, ◌&&◌, if◌then◌else◌, arith, Bool-cases, ==_refl,
}
use g.Remote.{
  sent_byte, Monitor, Line, Remote, find_line, Written, write_remote, read_remote,
  forced_read_remote, read_line,
}
use g.Remote.Coherence.{IsCoherent, seen, Keeps, read_remote-seen}
use g.Remote.Stale.{Agrees, write_remote-Agrees, write_remote-stale}

abbrev Bytes : Type 0
Bytes = ℕ → ℕ → ℕ

abbrev give : Bytes → ℕ → ℕ → ℕ → Option (ℕ → ℕ)
give s mode a n = some (λ i. s mode (a + i))

abbrev stored : Bytes → ℕ → ℕ → ℕ → ℕ → Bytes
stored s mode a k w u b =
    if u == mode && (leb a b && ltb b (a + k)) then sent_byte k w (b - a) else s u b

-- There is no memory from 0x7000 on that takes a store.
abbrev take_in : Bytes → ℕ → ℕ → ℕ → ℕ → Option Bytes
take_in s mode a k w = if leb 0x7000 a then none else some (stored s mode a k w)

taken_refused : (s : Bytes) (mode a k w : ℕ) → leb 0x7000 a ≡ true → take_in s mode a k w ≡ none
taken_refused s mode a k w e = rw e

taken_stored :
    (s : Bytes) (mode a k w : ℕ)
    → leb 0x7000 a ≡ false
    → take_in s mode a k w ≡ some (stored s mode a k w)
taken_stored s mode a k w e = rw e

give-part :
    (s : Bytes) (mode a n o k : ℕ) (f : ℕ → ℕ)
    → give s mode a n ≡ some f
    → o + k ≤ n
    → (g : ℕ → ℕ) × (give s mode (a + o) k ≡ some g) × ((i : ℕ) → i < k → g i ≡ f (o + i))
give-part s mode a n o k f h l = (
  (λ i. s mode (a + o + i)),
  refl,
  λ i hi.
      let e : a + o + i ≡ a + (o + i) = omega arith in
      ap (s mode) e ∙ ap (λ t. t (o + i)) (some-injective _ _ h),
)

take_in-give :
    (s s' : Bytes) (mode a k w b n : ℕ) (f : ℕ → ℕ)
    → take_in s mode a k w ≡ some s'
    → give s mode b n ≡ some f
    → (g : ℕ → ℕ) × (give s' mode b n ≡ some g)
      × ((j : ℕ)
          → g j ≡ (if leb a (b + j) && ltb (b + j) (a + k) then sent_byte k w (b + j - a) else f j))
take_in-give s s' mode a k w b n f h l = elim (Bool-cases (leb 0x7000 a)) [
  | inl e ↦ absurd (none-ne-some _ (sym (taken_refused s mode a k w e) ∙ h))
  | inr e ↦
      let p : stored s mode a k w ≡ s' =
        some-injective _ _ (sym (taken_stored s mode a k w e) ∙ h) in
      (
        (λ j. s' mode (b + j)),
        refl,
        λ j.
            ap (λ t. t mode (b + j)) (sym p)
            ∙ rw (==_refl mode, ap (λ t. t j) (some-injective _ _ l)),
      )
]

abbrev monitor : Monitor
monitor = record {
  State = Bytes;
  upload = give;
  download = take_in;
  upload-part = give-part;
  download-upload = take_in-give;
}

-- A line of the supervisor, mode 1, at 0x7000, of a target that has 5 in each byte.
abbrev fives : Bytes
fives = λ u b. 5

abbrev line : Line
line = record { usmode = 1; addr = 0x7000; values = λ i. 5 }

abbrev remote : Remote Bytes
remote = record { mem_cache = line ∷ []; remote_errno = false; target = fives }

fives_read :
    seen monitor (read_remote monitor true (λ i. 0) 0x7004 2 0 remote) ≡ some (0x505, false)
unfolding read_remote find_line read_line
fives_read = refl

remote-IsCoherent : IsCoherent monitor fives (line ∷ [])
unfolding find_line
remote-IsCoherent =
    (record { aligned = refl; block = λ i. 5; uploaded = refl; same = λ i h. refl }, refl, tt)

read_remote-seen_example :
    let read = read_remote monitor true (λ i. 0) 0x7004 4 1 remote in
    (seen monitor read ≡ seen monitor (forced_read_remote monitor 0x7004 4 1 remote))
    × Keeps monitor fives read
read_remote-seen_example =
    read_remote-seen monitor true (λ i. 0) 0x7004 4 1 remote refl refl remote-IsCoherent

other_mode :
    (s' : Bytes) (u b n : ℕ)
    → take_in fives 1 0x6000 4 0x1234 ≡ some s'
    → u ≢ 1
    → give s' u b n ≡ give fives u b n
other_mode s' u b n h ne =
    let p : stored fives 1 0x6000 4 0x1234 ≡ s' = some-injective _ _ h in
    let e : (u == 1) ≡ false = ground arith in ap (λ t. give t u b n) (sym p) ∙ rw e

write_remote-Agrees_example : Agrees monitor (write_remote monitor true 1 0x6000 0x1234 4 2 remote)
write_remote-Agrees_example =
    write_remote-Agrees monitor 1 0x6000 0x1234 4 2 remote refl remote-IsCoherent other_mode

write_remote-stale_example :
    (r' : Remote Bytes) × (write_remote monitor true 1 0x7000 0x1234 4 2 remote ≡ Written.raises r')
    × (r'.target ≡ fives)
    × (seen monitor (read_remote monitor true (λ i. 0) 0x7000 4 1 r') ≡ some (0x1234, false))
unfolding find_line
write_remote-stale_example =
    write_remote-stale monitor true (λ i. 0) 1 0x7000 0x1234 2 remote line (omega arith) refl
      (omega arith) refl refl
