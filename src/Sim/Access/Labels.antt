-- ===== src/Sim/Access/Labels.antt =====
-- sim/execute.c: the labels of `sim` for loads, stores and exchanges, with the macros CALC_ADDR and
-- CALC_ADDR_SCALED. What the macros are given, and what follows them, is the shape of a label.
use g.Base.{
  ℕ, ◌+◌, ◌*◌, ◌/◌, ◌%◌, Bool, true, false, Option, none, some, ◌==◌, ◌&&◌, not, if◌then◌else◌,
}
use g.Base.Words.{u32}
use g.Sim.Bus.{Size, byte, half, word, dword}
use g.Sim.Cmmu.{Mode, user, Exception, e_none, e_dacc, e_cacc, is_user}
use g.Sim.Execute.{
  Operand, Decoded, Cpu, put, Ending, dispatch_next, gen_exception, return_pt, breakpoint, src1,
  src2, psr, check_stack,
}
use g.Sim.Execute.Logic.{regnum, scoreboard}
use g.Sim.Access.{Devices, Space, bytes, align, is_none, move, l_mem_op}
use g.Sim.Access.Host.{MemOp, ld, st, xmem, ld_u, Moved, load_from, store_to, exchange, zero_ends}
use g.Sim.Access.Tlb.{entry, poff}
use g.Sim.Access.Fault.{writes}

-- What is done through the pointer: a load, with whether it is signed; a store, or an exchange, with
-- how much of the memory is looked at for a memory breakpoint.
pub data Body : Type 0 where
  loads : (signed : Bool) → Size → Body
  stores : (moved watch : Size) → Body
  exchanges : Size → Body

pub record Shape : Type 0 where
  pub user_space : Bool
  pub scaled : Bool
  pub op : MemOp
  pub size : Size
  pub body : Body

abbrev pub plain : MemOp → Size → Body → Shape
plain op size body = record {
  user_space = false;
  scaled = false;
  op = op;
  size = size;
  body = body;
}

abbrev pub scale : Shape → Shape
scale s = record s { scaled = true }

-- EX_IF_USER, and the tlbs of the user.
abbrev pub usr : Shape → Shape
usr s = record s { user_space = true }

-- The loads, stores and exchanges among the labels of `sim`.
pub data MemLabel : Type 0 where
  ld_d ld_w ld_h ld_b ld_hu ld_bu ld_d_usr ld_usr ld_h_usr ld_b_usr ld_hu_usr ld_bu_usr : MemLabel
  ld_d_sc ld_sc ld_h_sc ld_hu_sc ld_d_usr_sc ld_usr_sc ld_h_usr_sc ld_hu_usr_sc : MemLabel
  st_d st_w st_h st_b st_d_usr st_usr st_h_usr st_b_usr : MemLabel
  st_d_sc st_sc st_h_sc st_d_usr_sc st_usr_sc st_h_usr_sc : MemLabel
  xmem_bu xmem_w xmem_sc xmem_usr xmem_bu_usr xmem_usr_sc : MemLabel

abbrev pub load_shape : MemOp → Bool → Size → Shape
load_shape op signed size = plain op size (loads signed size)

abbrev pub store_shape : Size → Shape
store_shape size = plain st size (stores size size)

-- The address of an exchange of a byte is that of a word, and so is what l_mem_op is asked for.
abbrev pub exchange_shape : Size → Shape
exchange_shape size = plain xmem word (exchanges size)

unfoldable pub shape : MemLabel → Shape
shape ld_d = load_shape ld true dword
shape ld_w = load_shape ld true word
shape ld_h = load_shape ld true half
shape ld_b = load_shape ld true byte
shape ld_hu = load_shape ld_u false half
shape ld_bu = load_shape ld_u false byte
shape ld_d_usr = usr (load_shape ld true dword)
shape ld_usr = usr (load_shape ld true word)
shape ld_h_usr = usr (load_shape ld true half)
shape ld_b_usr = usr (load_shape ld true byte)
shape ld_hu_usr = usr (load_shape ld_u false half)
shape ld_bu_usr = usr (load_shape ld_u false byte)
shape ld_d_sc = scale (load_shape ld true dword)
shape ld_sc = scale (load_shape ld true word)
shape ld_h_sc = scale (load_shape ld true half)
shape ld_hu_sc = scale (load_shape ld_u false half)
shape ld_d_usr_sc = usr (scale (load_shape ld true dword))
shape ld_usr_sc = usr (scale (load_shape ld true word))
shape ld_h_usr_sc = usr (scale (load_shape ld true half))
shape ld_hu_usr_sc = usr (scale (load_shape ld_u false half))
shape st_d = store_shape dword
shape st_w = store_shape word
shape st_h = store_shape half
shape st_b = store_shape byte
shape st_d_usr = usr (store_shape dword)
shape st_usr = usr (store_shape word)
shape st_h_usr = usr (store_shape half)
shape st_b_usr = usr (store_shape byte)
shape st_d_sc = scale (store_shape dword)
shape st_sc = scale (store_shape word)
shape st_h_sc = scale (store_shape half)
shape st_d_usr_sc = usr (scale (store_shape dword))
shape st_usr_sc = usr (scale (plain st word (stores dword word)))
shape st_h_usr_sc = usr (scale (store_shape half))
shape xmem_bu = exchange_shape byte
shape xmem_w = exchange_shape word
shape xmem_sc = scale (exchange_shape word)
shape xmem_usr = usr (exchange_shape word)
shape xmem_bu_usr = usr (exchange_shape byte)
shape xmem_usr_sc = usr (scale (exchange_shape word))

-- `regs[0] = 0; regs[32] = 0` where the load is of a double word.
abbrev pub after_load : Size → Cpu → Cpu
after_load dword c = zero_ends c
after_load _ c = c

abbrev pub zero_r0 : Cpu → Cpu
zero_r0 c = record c { regs = put 0 0 c.regs }

-- The transfer through the pointer.
abbrev pub through : Body → Bool → Operand → ℕ → (ℕ → ℕ) → Cpu → Moved
through (loads signed size) big r o values c =
    (values, after_load size (load_from big signed size r o values c))
through (stores moved watch) big r o values c = (store_to big moved r o c values, c)
through (exchanges size) big r o values c =
    let (values', c') = exchange big false size r o values c in (values', zero_r0 c')

abbrev pub exception_code : Exception → ℕ
exception_code e_none = 0
exception_code e_cacc = 2
exception_code e_dacc = 3

-- The test for a misaligned address.
abbrev pub misaligned : Size → ℕ → Cpu → Bool
misaligned size a c = not (a % bytes size == 0) && psr c / 4 % 2 == 0

abbrev pub address : Shape → Decoded → Cpu → ℕ
address s p c = u32 (src1 p c + (if s.scaled then src2 p c * bytes s.size else src2 p c))

-- CHECK_STACK is in the code of `ld` alone.
abbrev pub ends_load : MemLabel → Cpu → Ending
ends_load ld_w c = check_stack c
ends_load _ c = dispatch_next

-- `watched` is whether the memory breakpoint is within the bytes from an offset in a page.
abbrev pub ends_body : (watched : ℕ → ℕ → ℕ → Bool) → MemLabel → Body → ℕ → ℕ → Cpu → Ending
ends_body watched l (loads signed size) page o c = ends_load l c
ends_body watched l (stores moved watch) page o c =
    if watched page o (bytes watch) then return_pt breakpoint else dispatch_next
ends_body watched l (exchanges size) page o c =
    if watched page o (bytes size) then return_pt breakpoint else dispatch_next

module _ (d : Devices) (big : Bool) (cmmu_number : ℕ → ℕ) (dummy_regnum : ℕ)
    (watched : ℕ → ℕ → ℕ → Bool) (usmode : Mode) where
  -- The label `macc`.
  abbrev pub macc : Operand → Space d.bus.State → Ending × Space d.bus.State
  macc r s =
      (gen_exception 4, record s { cpu = scoreboard dummy_regnum (regnum dummy_regnum r) s.cpu })

  abbrev pub slow :
      Mode → Shape → Operand → ℕ → Space d.bus.State → Option (Ending × Space d.bus.State)
  slow mode sh r a s = elim (l_mem_op d big cmmu_number mode sh.op sh.size r a s) [
    | none ↦ none
    | some (ex, s') ↦
        some ((if is_none ex then dispatch_next else gen_exception (exception_code ex)), s')
  ]

  abbrev pub fast :
      MemLabel → Shape → Operand → ℕ → ℕ → Space d.bus.State → Ending × Space d.bus.State
  fast l sh r page o s =
      let s' = move big (through sh.body) r page o s in
      (ends_body watched l sh.body page o s'.cpu, s')

  abbrev pub tlb_of : Mode → Shape → Space d.bus.State → ℕ → Option ℕ
  tlb_of mode sh s = entry (if writes sh.op then s.tlbs.store_tlb mode else s.tlbs.load_tlb mode)

  abbrev pub mode_of : Shape → Mode
  mode_of sh = if sh.user_space then user else usmode

  -- CALC_ADDR and what follows it; `none` is err.
  unfoldable pub calc_addr :
      MemLabel → Shape → Operand → ℕ → Space d.bus.State → Option (Ending × Space d.bus.State)
  calc_addr l sh r a s =
      if misaligned sh.size a s.cpu
      then some (macc r s)
      else (let a' = align sh.size a in
          elim (tlb_of (mode_of sh) sh s a') [
            | some page ↦ some (fast l sh r page (poff a') s)
            | none ↦ slow (mode_of sh) sh r a s
          ])

  unfoldable pub access :
      MemLabel → Decoded → Space d.bus.State → Option (Ending × Space d.bus.State)
  unfolding shape
  access l p s =
      let sh = shape l in
      if sh.user_space && is_user usmode
      then some (gen_exception 6, s)
      else calc_addr l sh p.dest (address sh p s.cpu) s
