-- ===== src/Pipeline/Tests.antt =====
-- The theorems on ARK/G3/sim.c, tried on a store word instruction.
use aar.Base.{◌≡◌, refl, ◌&&◌, true, false, some, arith}
use aar.Pipeline.{PregIfId, PregIdEx, control, get_bigword, set_bigword}
use aar.Pipeline.Control.{control-exclusive, get_bigword-set_bigword}

-- sw $t0, 4($sp)
abbrev some_if_id : PregIfId
some_if_id = record { inst = 0xafa80004; next_pc = 0x400004 }

abbrev some_id_ex : PregIdEx
some_id_ex = record {
  mem_read = true;
  mem_write = false;
  reg_write = true;
  alu_src = false;
  mem_to_reg = true;
  branch = false;
  jump = false;
  funct = 0;
  rt = 8;
  rs = 29;
  rt_value = 7;
  rs_value = 100;
  sign_ext_imm = 4;
  reg_dst = 0;
  next_pc = 0x400004;
  jump_target = 0;
}

abbrev stored : PregIdEx
stored = record some_id_ex {
  mem_write = true;
  alu_src = true;
  branch = false;
  jump = false;
  mem_read = false;
  reg_write = false;
  mem_to_reg = false;
  funct = 0x20;
}

decoded : control 0x400008 some_if_id some_id_ex ≡ some stored
unfolding control
decoded = refl

control-exclusive_example :
    ((stored.mem_read && stored.mem_write) ≡ false)
    × ((stored.branch && stored.jump) ≡ false)
    × ((stored.mem_write && stored.reg_write) ≡ false)
control-exclusive_example = control-exclusive 0x400008 some_if_id some_id_ex stored decoded

get_bigword-set_bigword_example :
    get_bigword (set_bigword (λ a. 0) 0x400010 0x01020304) 0x400010 ≡ 0x01020304
get_bigword-set_bigword_example = get_bigword-set_bigword (λ a. 0) 0x400010 0x01020304 (omega arith)
