-- ===== src/Pipeline.antt =====
-- ARK/G3/sim.c: a MIPS pipeline of five stages, with the macros of ARK/G3/mips32.h. Registers and
-- fields of 32 bits are numbers below 2^32; memory is a function from addresses to bytes, which the
-- code indexes without a test. The ELF reader, the configuration file and the output are not
-- modelled.
pub mod Control
mod Tests
use Prim.Native.Nat.{bit_and, bit_or}
use aar.Base.{
  ℕ, zero, suc, ◌+◌, ◌-◌, ◌*◌, ◌/◌, ◌%◌, ◌^◌, Bool, true, false, not, ◌&&◌, ◌||◌, Option, none,
  some, update, ltb, leb, ◌==◌, if◌then◌else◌,
}

-- struct preg_if_id
pub record PregIfId : Type 0 where
  pub inst : ℕ
  pub next_pc : ℕ

-- struct preg_id_ex
pub record PregIdEx : Type 0 where
  pub mem_read : Bool
  pub mem_write : Bool
  pub reg_write : Bool
  pub alu_src : Bool
  pub mem_to_reg : Bool
  pub branch : Bool
  pub jump : Bool
  pub funct : ℕ
  pub rt : ℕ
  pub rs : ℕ
  pub rt_value : ℕ
  pub rs_value : ℕ
  pub sign_ext_imm : ℕ
  pub reg_dst : ℕ
  pub next_pc : ℕ
  pub jump_target : ℕ

-- struct preg_ex_mem
pub record PregExMem : Type 0 where
  pub mem_read : Bool
  pub mem_write : Bool
  pub reg_write : Bool
  pub mem_to_reg : Bool
  pub branch : Bool
  pub rt : ℕ
  pub rt_value : ℕ
  pub alu_res : ℕ
  pub reg_dst : ℕ
  pub branch_target : ℕ

-- struct preg_mem_wb
pub record PregMemWb : Type 0 where
  pub reg_write : Bool
  pub mem_to_reg : Bool
  pub alu_res : ℕ
  pub read_data : ℕ
  pub rt : ℕ
  pub reg_dst : ℕ

-- The static variables. instr_cnt and cycles are of 64 bits.
pub record Simulator : Type 0 where
  pub pc : ℕ
  pub instr_cnt : ℕ
  pub cycles : ℕ
  pub regs : ℕ → ℕ
  pub mem : ℕ → ℕ
  pub if_id : PregIfId
  pub id_ex : PregIdEx
  pub ex_mem : PregExMem
  pub mem_wb : PregMemWb

-- What a stage returns: 0, SAW_SYSCALL, or one of the errors.
pub data Status : Type 0 where
  ok saw_syscall unknown_opcode unknown_funct interp_control_failed interp_id_failed
        interp_ex_failed :
      Status

abbrev pub get_opcode : ℕ → ℕ
get_opcode inst = inst / 2 ^ 26

abbrev pub get_rs : ℕ → ℕ
get_rs inst = inst / 2 ^ 21 % 2 ^ 5

abbrev pub get_rt : ℕ → ℕ
get_rt inst = inst / 2 ^ 16 % 2 ^ 5

abbrev pub get_rd : ℕ → ℕ
get_rd inst = inst / 2 ^ 11 % 2 ^ 5

abbrev pub get_funct : ℕ → ℕ
get_funct inst = inst % 2 ^ 6

abbrev pub get_imm : ℕ → ℕ
get_imm inst = inst % 2 ^ 16

abbrev pub get_address : ℕ → ℕ
get_address inst = inst % 2 ^ 26

-- A 16-bit value as one of 32 bits.
abbrev pub sign_extend : ℕ → ℕ
sign_extend v = if ltb v (2 ^ 15) then v else v + (2 ^ 32 - 2 ^ 16)

-- The most significant byte first, from the address less MIPS_RESERVE in 32 bits.
abbrev pub host_address : ℕ → ℕ
host_address a = (a + (2 ^ 32 - 0x400000)) % 2 ^ 32

pub get_bigword : (ℕ → ℕ) → ℕ → ℕ
get_bigword mem a =
    let h = host_address a in
    mem h * 2 ^ 24 + mem (h + 1) * 2 ^ 16 + mem (h + 2) * 2 ^ 8 + mem (h + 3)

pub set_bigword : (ℕ → ℕ) → ℕ → ℕ → ℕ → ℕ
set_bigword mem a value =
    let h = host_address a in
    update
      (update (update (update mem h (value / 2 ^ 24 % 2 ^ 8)) (h + 1) (value / 2 ^ 16 % 2 ^ 8))
        (h + 2) (value / 2 ^ 8 % 2 ^ 8))
      (h + 3) (value % 2 ^ 8)

pub interp_wb : Simulator → Simulator
interp_wb s =
    let wb = s.mem_wb in
    if wb.reg_write || wb.reg_dst == 0
    then record s {
      regs = update s.regs wb.reg_dst (if wb.mem_to_reg then wb.read_data else wb.alu_res);
    }
    else s

-- ~x in 32 bits.
abbrev complement : ℕ → ℕ
complement x = 2 ^ 32 - 1 - x

-- The comparison of two words as signed numbers.
abbrev signed_ltb : ℕ → ℕ → Bool
signed_ltb a b = ltb ((a + 2 ^ 31) % 2 ^ 32) ((b + 2 ^ 31) % 2 ^ 32)

abbrev second_operand : PregIdEx → ℕ
second_operand d = if d.alu_src then d.sign_ext_imm else d.rt_value

abbrev set_alu_res : ℕ → Simulator → Status × Simulator
set_alu_res v s = (ok, record s { ex_mem = record s.ex_mem { alu_res = v } })

-- The numbers are FUNCT_JR, ADD, SUB, AND, OR, NOR, SLT and SYSCALL, and 0.
pub alu : Simulator → Status × Simulator
alu s =
    let d = s.id_ex in
    let b = second_operand d in
    if d.funct == 0x08
    then (ok, s)
    else if d.funct == 0x20
    then set_alu_res ((b + d.rs_value) % 2 ^ 32) s
    else if d.funct == 0x22
    then set_alu_res ((d.rs_value + 2 ^ 32 - b) % 2 ^ 32) s
    else if d.funct == 0x24
    then set_alu_res (bit_and d.rs_value b) s
    else if d.funct == 0x25
    then set_alu_res (bit_or d.rs_value b) s
    else if d.funct == 0x27
    then set_alu_res (complement (bit_or d.rs_value b)) s
    else if d.funct == 0x2a
    then set_alu_res (if signed_ltb d.rs_value b then 1 else 0) s
    else if d.funct == 0x0c
    then (saw_syscall, s)
    else if d.funct == 0
    then (ok, s)
    else (unknown_funct, s)

pub interp_mem : Simulator → Simulator
interp_mem s =
    let x = s.ex_mem in
    record s {
      mem_wb = record s.mem_wb {
        reg_write = x.reg_write;
        mem_to_reg = x.mem_to_reg;
        reg_dst = x.reg_dst;
        alu_res = x.alu_res;
        rt = x.rt;
        read_data = if x.mem_read then get_bigword s.mem x.alu_res else s.mem_wb.read_data;
      };
      mem = if x.mem_write then set_bigword s.mem x.alu_res x.rt_value else s.mem;
    }

-- The registers between the stages that interp_ex passes on.
abbrev pass_on : Simulator → Simulator
pass_on s =
    let d = s.id_ex in
    record s {
      ex_mem = record s.ex_mem {
        rt = d.rt;
        rt_value = d.rt_value;
        mem_read = d.mem_read;
        mem_write = d.mem_write;
        reg_write = d.reg_write;
        mem_to_reg = d.mem_to_reg;
        reg_dst = d.reg_dst;
        branch_target = (d.next_pc + d.sign_ext_imm * 4) % 2 ^ 32;
        branch = d.branch;
      };
    }

pub is_ok : Status → Bool
is_ok ok = true
is_ok _ = false

-- Whatever alu reports becomes an unknown function.
pub interp_ex : Simulator → Status × Simulator
interp_ex s = let (r, s') = alu (pass_on s) in (if is_ok r then ok else unknown_funct, s')

-- (MS_4B & next_pc) | (address << 2)
abbrev jump_address : PregIfId → ℕ
jump_address f = bit_or (f.next_pc / 2 ^ 28 * 2 ^ 28) (get_address f.inst * 4)

abbrev control_r : ℕ → PregIdEx → PregIdEx
control_r inst d =
    let r = record d {
      mem_to_reg = false;
      mem_read = false;
      mem_write = false;
      alu_src = false;
      branch = false;
      jump = false;
      reg_dst = get_rd inst;
      reg_write = true;
      funct = get_funct inst;
    } in
    if get_funct inst == 0x08
    then record r {
      jump = true;
      mem_write = false;
      mem_read = false;
      reg_write = false;
      branch = false;
      jump_target = d.rs_value;
    }
    else r

-- Of BEQ and of BNE.
abbrev control_branch : PregIdEx → PregIdEx
control_branch d = record d {
  branch = true;
  reg_write = false;
  mem_read = false;
  mem_write = false;
  jump = false;
  alu_src = false;
  funct = 0x22;
}

-- The fields of id_ex after interp_control; `none` is an unknown opcode.
pub control : ℕ → PregIfId → PregIdEx → Option PregIdEx
control pc f d =
    if f.inst == 0
    then some (record d {
      mem_write = false;
      mem_read = false;
      reg_write = false;
      alu_src = false;
      branch = false;
      jump = false;
      funct = get_funct f.inst;
    })
    else if get_opcode f.inst == 0x00
    then some (control_r f.inst d)
    else if get_opcode f.inst == 0x02
    then some (record d {
      jump = true;
      mem_write = false;
      mem_read = false;
      reg_write = false;
      branch = false;
      jump_target = jump_address f;
    })
    else if get_opcode f.inst == 0x03
    then some (record d {
      jump = true;
      mem_write = false;
      mem_read = false;
      reg_write = true;
      branch = false;
      funct = 0x20;
      rs_value = pc;
      rt_value = 0;
      reg_dst = 31;
      jump_target = jump_address f;
    })
    else if get_opcode f.inst == 0x04 || get_opcode f.inst == 0x05
    then some (control_branch d)
    else if get_opcode f.inst == 0x23
    then some (record d {
      alu_src = true;
      mem_read = true;
      reg_write = true;
      mem_to_reg = true;
      mem_write = false;
      jump = false;
      branch = false;
      funct = 0x20;
      reg_dst = get_rt f.inst;
    })
    else if get_opcode f.inst == 0x2b
    then some (record d {
      mem_write = true;
      alu_src = true;
      branch = false;
      jump = false;
      mem_read = false;
      reg_write = false;
      mem_to_reg = false;
      funct = 0x20;
    })
    else none

pub interp_control : Simulator → Status × Simulator
interp_control s = elim (control s.pc s.if_id s.id_ex) [
  | none ↦ (unknown_opcode, s)
  | some d ↦ (ok, record s { id_ex = d })
]

-- interp_control never returns the number that is compared with `syscall`.
pub interp_id : Simulator → Status × Simulator
interp_id s =
    let inst = s.if_id.inst in
    let (r, s') = interp_control (record s {
      id_ex = record s.id_ex {
        rs_value = s.regs (get_rs inst);
        rt_value = s.regs (get_rt inst);
        rt = get_rt inst;
        rs = get_rs inst;
        sign_ext_imm = sign_extend (get_imm inst);
        next_pc = s.if_id.next_pc;
      };
    }) in
    (if is_ok r then ok else interp_control_failed, s')

pub interp_if : Simulator → Simulator
interp_if s =
    let inst = get_bigword s.mem s.pc in
    let fetched = record s { if_id = record s.if_id { inst = inst } } in
    if s.id_ex.mem_read
    then if get_rs inst == s.id_ex.rt || get_rt inst == s.id_ex.rt
      then record s { if_id = record s.if_id { inst = 0 } }
      else fetched
    else record fetched {
      pc = (s.pc + 4) % 2 ^ 32;
      if_id = record fetched.if_id { next_pc = (s.pc + 4) % 2 ^ 32 };
      instr_cnt = (s.instr_cnt + 1) % 2 ^ 64;
    }

-- The first test of forward.
abbrev forward_ex : PregExMem → PregIdEx → PregIdEx
forward_ex x d =
    if x.reg_write && ((not (x.reg_dst == d.rs) || x.reg_dst == d.rt) && not (x.reg_dst == 0))
    then record d { rs_value = x.alu_res; rt_value = x.alu_res }
    else d

abbrev forward_rs : PregMemWb → PregIdEx → PregIdEx
forward_rs w d =
    if w.reg_dst == d.rs
    then if not d.jump
      then record d { rs_value = if w.mem_to_reg then w.read_data else w.alu_res }
      else record d { jump_target = w.alu_res }
    else d

abbrev forward_rt : PregMemWb → PregIdEx → PregIdEx
forward_rt w d =
    if w.reg_dst == d.rt
    then if not d.jump
      then record d { rt_value = if w.mem_to_reg then w.read_data else w.alu_res }
      else record d { jump_target = w.alu_res }
    else d

pub forward : Simulator → Simulator
forward s = record s {
  id_ex = forward_rt s.mem_wb (forward_rs s.mem_wb (forward_ex s.ex_mem s.id_ex));
}

-- Both tests on alu_res together: a branch is taken either way.
pub take_branch : Simulator → Simulator
take_branch s =
    if s.ex_mem.branch
    then record s {
      pc = s.ex_mem.branch_target;
      if_id = record s.if_id { inst = 0 };
      instr_cnt = (s.instr_cnt + (2 ^ 64 - 1)) % 2 ^ 64;
    }
    else s

pub take_jump : Simulator → Simulator
take_jump s = if s.id_ex.jump then record s { pc = s.id_ex.jump_target } else s

-- What interp_id returns is compared with ERROR_UNKNOWN_OPCODE and SAW_SYSCALL, neither of which it
-- gives, so the cycle goes on.
pub cycle : Simulator → Status × Simulator
cycle s =
    let (r, s₁) = interp_ex (interp_mem (interp_wb s)) in
    if is_ok r
    then (ok, forward (take_jump (take_branch (interp_if (interp_id s₁).1))))
    else (interp_ex_failed, s₁)

-- At most `fuel` cycles; `none` is a run that is still going.
pub interp : ℕ → Simulator → Option (Simulator)
interp zero s = none
interp (suc fuel) s =
    let (r, s') = cycle s in
    let more = interp fuel (record s' { cycles = (s'.cycles + 1) % 2 ^ 64 }) in
    if is_ok r then more else some s'
