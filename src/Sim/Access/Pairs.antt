-- ===== src/Sim/Access/Pairs.antt =====
-- sim/execute.c: the stores and the loads that read what they write.
use g.Base.{ℕ, ◌%◌, ◌≡◌, ◌≢◌, refl, Bool, true, false, if◌then◌else◌, arith}
use g.Sim.Bus.{Size, byte, half, word, dword}
use g.Sim.Execute.{Cpu}
use g.Sim.Access.{bytes, align}
use g.Sim.Access.Host.{ld, ld_u}
use g.Sim.Access.Labels.{
  MemLabel, Shape, shape, misaligned, load_shape, store_shape, st_w, st_h, st_b, st_usr, st_h_usr,
  st_b_usr, st_sc, st_h_sc, st_h_usr_sc, ld_w, ld_h, ld_hu, ld_b, ld_bu, ld_usr, ld_h_usr,
  ld_hu_usr, ld_b_usr, ld_bu_usr, ld_sc, ld_h_sc, ld_hu_sc, ld_h_usr_sc, ld_hu_usr_sc,
}

-- The load that reads what the store writes: the labels, the size, and whether the load is signed.
pub data Reads : MemLabel → MemLabel → Size → Bool → Type 0 where
  words : Reads st_w ld_w word true
  halves : Reads st_h ld_h half true
  halves_u : Reads st_h ld_hu half false
  bytes_s : Reads st_b ld_b byte true
  bytes_u : Reads st_b ld_bu byte false
  words_usr : Reads st_usr ld_usr word true
  halves_usr : Reads st_h_usr ld_h_usr half true
  halves_u_usr : Reads st_h_usr ld_hu_usr half false
  bytes_s_usr : Reads st_b_usr ld_b_usr byte true
  bytes_u_usr : Reads st_b_usr ld_bu_usr byte false
  words_sc : Reads st_sc ld_sc word true
  halves_sc : Reads st_h_sc ld_h_sc half true
  halves_u_sc : Reads st_h_sc ld_hu_sc half false
  halves_usr_sc : Reads st_h_usr_sc ld_h_usr_sc half true
  halves_u_usr_sc : Reads st_h_usr_sc ld_hu_usr_sc half false

abbrev pub storing : Bool → Bool → Size → Shape
storing user_space scaled size = record (store_shape size) {
  user_space = user_space;
  scaled = scaled;
}

abbrev pub loading : Bool → Bool → Bool → Size → Shape
loading user_space scaled signed size =
    record (load_shape (if signed then ld else ld_u) signed size) {
      user_space = user_space;
      scaled = scaled;
    }

pub record HasShapes (l l' : MemLabel) (size : Size) (signed : Bool) : Type 0 where
  pub user_space : Bool
  pub scaled : Bool
  pub narrow : size ≢ dword
  pub stores_so : shape l ≡ storing user_space scaled size
  pub loads_so : shape l' ≡ loading user_space scaled signed size

word_narrow : word ≢ dword
word_narrow e = cc

half_narrow : half ≢ dword
half_narrow e = cc

byte_narrow : byte ≢ dword
byte_narrow e = cc

abbrev has :
    {l l' : MemLabel} {size : Size} {signed : Bool} (u sc : Bool)
    → size ≢ dword
    → shape l ≡ storing u sc size
    → shape l' ≡ loading u sc signed size
    → HasShapes l l' size signed
has u sc n e f = record { user_space = u; scaled = sc; narrow = n; stores_so = e; loads_so = f }

pub Reads-HasShapes :
    (l l' : MemLabel) (size : Size) (signed : Bool)
    → Reads l l' size signed
    → HasShapes l l' size signed
unfolding shape
Reads-HasShapes _ _ _ _ words = has false false word_narrow refl refl
Reads-HasShapes _ _ _ _ halves = has false false half_narrow refl refl
Reads-HasShapes _ _ _ _ halves_u = has false false half_narrow refl refl
Reads-HasShapes _ _ _ _ bytes_s = has false false byte_narrow refl refl
Reads-HasShapes _ _ _ _ bytes_u = has false false byte_narrow refl refl
Reads-HasShapes _ _ _ _ words_usr = has true false word_narrow refl refl
Reads-HasShapes _ _ _ _ halves_usr = has true false half_narrow refl refl
Reads-HasShapes _ _ _ _ halves_u_usr = has true false half_narrow refl refl
Reads-HasShapes _ _ _ _ bytes_s_usr = has true false byte_narrow refl refl
Reads-HasShapes _ _ _ _ bytes_u_usr = has true false byte_narrow refl refl
Reads-HasShapes _ _ _ _ words_sc = has false true word_narrow refl refl
Reads-HasShapes _ _ _ _ halves_sc = has false true half_narrow refl refl
Reads-HasShapes _ _ _ _ halves_u_sc = has false true half_narrow refl refl
Reads-HasShapes _ _ _ _ halves_usr_sc = has true true half_narrow refl refl
Reads-HasShapes _ _ _ _ halves_u_usr_sc = has true true half_narrow refl refl

-- An aligned address stays as it is, and is not misaligned.
pub aligned-kept : (size : Size) (a : ℕ) → a % bytes size ≡ 0 → align size a ≡ a
aligned-kept byte a h = omega arith
aligned-kept half a h = omega arith
aligned-kept word a h = omega arith
aligned-kept dword a h = omega arith

pub aligned-passes :
    (size : Size) (a : ℕ) (c : Cpu) → a % bytes size ≡ 0 → misaligned size a c ≡ false
aligned-passes size a c h = rw h refl
