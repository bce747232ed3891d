-- ===== src/Sim/Execute/Exception/Return.antt =====
-- sim/execute.c: an exception, and the return from it by rte.
use Prim.Native.Nat.{bit_or}
use g.Base.{
  ℕ, ◌+◌, ◌*◌, ◌/◌, ◌%◌, ◌^◌, ◌≡◌, refl, ap, ◌∙◌, Bool, true, false, ◌==◌, ◌&&◌, not, if◌then◌else◌,
  arith, Bool-cases, Option-cases, inl, inr, none, some, ==_refl,
}
use g.Base.Words.{IsWord, truth, u32}
use g.Sim.Cmmu.{Mode, supervisor, user}
use g.Sim.Execute.{psr}
use g.Sim.Execute.Machine.{Code, Machine, Control, dispatch, disp_after_br}
use g.Sim.Execute.Exception.{
  psr_bits, aligned, ctl, clear_transactions, shadow, shadow_next, shadow_valid, vector,
  take_exception, gen_exception_without_check,
}
use g.Sim.Execute.Exception.Masks.{
  psr_bits_fixed, psr_bits-parity, psr_parity, aligned-marked, marked-parity, marked-low,
  marked-valid, psr_bits-sign,
}
use g.Sim.Execute.Rte.{rte}

-- Where the program goes on after an exception: past the instruction, or at the target of the
-- branch that it delays.
abbrev pub resumption : {S : Type 0} → Machine S → ℕ
resumption m = elim m.r_delayed_p [ some d ↦ m.delayed_ip | none ↦ u32 (m.ip + 4) ]

after_next : (i : ℕ) → u32 (i + 8) ≡ u32 (u32 (i + 4) + 4)
after_next i = omega arith

module _ {S : Type 0} where
  -- What clear_transactions and shadow leave alone.
  record Keeps (m t : Machine S) : Type 0 where
    ip_kept : t.ip ≡ m.ip
    delayed_ip_kept : t.delayed_ip ≡ m.delayed_ip
    r_delayed_p_kept : t.r_delayed_p ≡ m.r_delayed_p

  -- The shadow registers of an exception: the status and the address to go on at.
  record Shadows (w a : ℕ) (t : Machine S) : Type 0 where
    frozen : psr t.cpu % 2 ≡ 1
    status : ctl 2 t ≡ psr_bits w
    next : ctl 5 t ≡ bit_or a 2
    fetched : ctl 6 t ≡ bit_or (u32 (a + 4)) 2

  clear_transactions-Keeps :
      (ex : ℕ) (m : Machine S)
      → Keeps m (clear_transactions ex m) × (psr (clear_transactions ex m).cpu ≡ psr m.cpu)
  unfolding clear_transactions
  clear_transactions-Keeps ex m = elim (Bool-cases (not (ex == 3) && psr m.cpu % 2 == 0)) [
    | inl e ↦
        rw e (record { ip_kept = refl; delayed_ip_kept = refl; r_delayed_p_kept = refl }, refl)
    | inr e ↦
        rw e (record { ip_kept = refl; delayed_ip_kept = refl; r_delayed_p_kept = refl }, refl)
  ]

  shadow-Keeps :
      (ex : ℕ) (m : Machine S)
      → Keeps m (shadow ex m)
        × (psr (shadow ex m).cpu ≡ bit_or (psr m.cpu) 0x800003fb)
        × (ctl 2 (shadow ex m) ≡ psr_bits (psr m.cpu))
  unfolding shadow
  shadow-Keeps ex m = elim (Bool-cases (ex == 2)) [
    | inl e ↦
        rw e
          (record { ip_kept = refl; delayed_ip_kept = refl; r_delayed_p_kept = refl }, refl, refl)
    | inr e ↦
        rw e
          (record { ip_kept = refl; delayed_ip_kept = refl; r_delayed_p_kept = refl }, refl, refl)
  ]

  shadow_next-Shadows :
      (w : ℕ) (m : Machine S)
      → psr m.cpu % 2 ≡ 1
      → ctl 2 m ≡ psr_bits w
      → Shadows w (resumption m) (shadow_next m) × ((shadow_next m).r_delayed_p ≡ none)
  unfolding shadow_next
  shadow_next-Shadows w m hf hs = elim (Option-cases m.r_delayed_p) [
    | inl e ↦ rw e (
      record {
        frozen = hf;
        status = hs;
        next = refl;
        fetched = ap (λ a. bit_or a 2) (after_next m.ip);
      },
      refl,
    )
    | inr (d, e) ↦ rw e (record { frozen = hf; status = hs; next = refl; fetched = refl }, refl)
  ]

  -- Where the program goes on does not depend on what is kept.
  resumption-Keeps : (m t : Machine S) → Keeps m t → resumption t ≡ resumption m
  resumption-Keeps m t k = elim (Option-cases m.r_delayed_p) [
    | inl e ↦ rw (k.r_delayed_p_kept, e, k.ip_kept) refl
    | inr (d, e) ↦ rw (k.r_delayed_p_kept, e, k.delayed_ip_kept) refl
  ]

module _ (K : Code)
    (fetches : (mode : Mode) (a : ℕ) (s : K.State) → (K.l_to_d mode a s).0 ≡ true) where
  shadow_valid-Shadows :
      (w a : ℕ) (m : Machine K.State) → Shadows w a m → Shadows w a (shadow_valid K m)
  unfolding shadow_valid
  shadow_valid-Shadows w a m h =
      rw (fetches m.usmode (aligned (ctl 5 m)) m.code)
        (record { frozen = h.frozen; status = h.status; next = h.next; fetched = h.fetched })

  shadow_valid-r_delayed_p : (m : Machine K.State) → (shadow_valid K m).r_delayed_p ≡ m.r_delayed_p
  unfolding shadow_valid
  shadow_valid-r_delayed_p m = rw (fetches m.usmode (aligned (ctl 5 m)) m.code) refl

  vector-Shadows :
      (ex w a : ℕ) (m : Machine K.State)
      → Shadows w a m
      → ((vector K false ex m).0 ≡ dispatch)
        × Shadows w a (vector K false ex m).1
        × ((vector K false ex m).1.usmode ≡ supervisor)
  unfolding vector
  vector-Shadows ex w a m h = rw (fetches supervisor (u32 (ctl 7 m + ex * 8)) m.code) (
    refl,
    record { frozen = h.frozen; status = h.status; next = h.next; fetched = h.fetched },
    refl,
  )

  take_exception-Shadows :
      (ex : ℕ) (m : Machine K.State)
      → ((take_exception K false ex m).0 ≡ dispatch)
        × Shadows (psr m.cpu) (resumption m) (take_exception K false ex m).1
        × ((take_exception K false ex m).1.usmode ≡ supervisor)
  unfolding take_exception
  take_exception-Shadows ex m =
      let m1 : Machine K.State = clear_transactions ex m in
      let (k1, p1) = clear_transactions-Keeps ex m in
      let (k2, p2, s2) = shadow-Keeps ex m1 in
      let m2 : Machine K.State = shadow ex m1 in
      let (h, d) =
        shadow_next-Shadows (psr m.cpu) m2 (ap (λ w. w % 2) p2 ∙ psr_parity (psr m1.cpu))
          (s2 ∙ ap psr_bits p1) in
      let same : resumption m2 ≡ resumption m =
        resumption-Keeps m1 m2 k2 ∙ resumption-Keeps m m1 k1 in
      vector-Shadows ex (psr m.cpu) (resumption m) (shadow_valid K (shadow_next m2))
        (shadow_valid-Shadows (psr m.cpu) (resumption m) (shadow_next m2) (rw (← same) h))

  -- The return to an address, with the status as it was.
  pub record Resumed (w a : ℕ) (regs : ℕ → ℕ) (r : Control × Machine K.State) : Type 0 where
    pub goes_on : r.0 ≡ disp_after_br
    pub at_address : r.1.p ≡ a
    pub status_restored : psr r.1.cpu ≡ psr_bits w
    pub mode_restored : r.1.usmode ≡ (if truth (w / 2 ^ 31) then supervisor else user)
    pub registers : r.1.cpu.regs ≡ regs
    pub not_delayed : r.1.r_delayed_p ≡ none

  rte-Resumed :
      (simdiags : Bool) (w a : ℕ) (t : Machine K.State)
      → IsWord w
      → w % 2 ≡ 0
      → IsWord a
      → a % 4 ≡ 0
      → Shadows w a t
      → t.usmode ≡ supervisor
      → Resumed w a t.cpu.regs (rte K simdiags false t)
  unfolding rte
  rte-Resumed simdiags w a t hw hw2 ha ha4 h hm =
      rw
        (
          hm,
          h.frozen,
          h.status,
          psr_bits-parity w,
          hw2,
          h.next,
          h.fetched,
          marked-parity a ha4,
          marked-valid a ha4,
          marked-low (u32 (a + 4)) (omega arith),
          marked-valid (u32 (a + 4)) (omega arith),
          aligned-marked a ha ha4,
          aligned-marked (u32 (a + 4)) (omega arith) (omega arith),
          ==_refl (u32 (a + 4)),
          psr_bits_fixed w,
          psr_bits-sign w hw,
          fetches (if truth (w / 2 ^ 31) then supervisor else user) a t.code,
        )
        (record {
          goes_on = refl;
          at_address = refl;
          status_restored = refl;
          mode_restored = refl;
          registers = refl;
          not_delayed = refl;
        })

  -- The state in which a handler ends that has changed general registers only.
  abbrev pub handled : (ℕ → ℕ) → ℕ → Machine K.State → Machine K.State
  handled regs at t = record t { cpu = record t.cpu { regs = regs }; p = at }

  -- Where every address of code can be fetched, an exception taken with shadowing on, from a status
  -- register that is a word, goes to a handler; and where the handler changes general registers
  -- only, its rte goes on at the next instruction, or at the target of the branch that delays the
  -- instruction, if that address is a word that is a multiple of 4. The mode and the bits of the
  -- status register that exist are as they were before the exception, and the general registers are
  -- those of the handler.
  pub rte-gen_exception_without_check :
      (simdiags : Bool) (ex : ℕ) (m : Machine K.State) (regs : ℕ → ℕ) (at : ℕ)
      → psr m.cpu % 2 ≡ 0
      → IsWord (psr m.cpu)
      → IsWord (resumption m)
      → resumption m % 4 ≡ 0
      → ((gen_exception_without_check K false ex m).0 ≡ dispatch)
        × Resumed
            (psr m.cpu)
            (resumption m)
            regs
            (rte K simdiags false (handled regs at (gen_exception_without_check K false ex m).1))
  unfolding gen_exception_without_check
  rte-gen_exception_without_check simdiags ex m regs at hp hw ha ha4 =
      let (d, h, s) = take_exception-Shadows ex m in
      rw hp (
        d,
        rte-Resumed simdiags (psr m.cpu) (resumption m)
            (handled regs at (take_exception K false ex m).1) hw hp ha ha4
            (record { frozen = h.frozen; status = h.status; next = h.next; fetched = h.fetched }) s,
      )
