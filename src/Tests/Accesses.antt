-- ===== src/Tests/Accesses.antt =====
-- Loads and stores at concrete states.
use projet_l3_inf_bn_zl_rj_r.Prelude.{
  ◌%◌, ◌^◌, ◌≡◌, refl, some, pos, ◌==◌, if◌then◌else◌, arith, u32,
}
use projet_l3_inf_bn_zl_rj_r.Constants.{data_abort}
use projet_l3_inf_bn_zl_rj_r.Util.{get_bit, get_bits}
use projet_l3_inf_bn_zl_rj_r.Registers.{registers_read}
use projet_l3_inf_bn_zl_rj_r.Memory.{Memory}
use projet_l3_inf_bn_zl_rj_r.Core.{
  arm_read_register, arm_write_register, cond_not_respect, condition_result,
}
use projet_l3_inf_bn_zl_rj_r.LoadStore.{arm_load_store, displace}
use projet_l3_inf_bn_zl_rj_r.LoadStore.Halves.{IsHalfAccess, half_rd, arm_load_store-ldrh_strh}
use projet_l3_inf_bn_zl_rj_r.LoadStore.Words.{
  IsWordAccess, rd, arm_load_store-ldr_str, arm_load_store_abort,
}
use projet_l3_inf_bn_zl_rj_r.Tests.{machine, arm}

-- STR r1, [r2, #4].
str_4 : IsWordAccess arm 0xe5821004 0
unfolding get_bits get_bit cond_not_respect condition_result
str_4 = record {
  met = refl;
  class = refl;
  immediate = refl;
  before = refl;
  whole = refl;
  kept = refl;
  way = refl;
  base = omega arith;
}

-- LDR r5, [r2, #4].
ldr_4 : IsWordAccess arm 0xe5925004 1
unfolding get_bits get_bit cond_not_respect condition_result
ldr_4 = record {
  met = refl;
  class = refl;
  immediate = refl;
  before = refl;
  whole = refl;
  kept = refl;
  way = refl;
  base = omega arith;
}

arm_load_store-ldr_str_example :
    (mem' : Memory) × (arm_load_store machine arm 0xe5821004
      ≡ some (pos 0, record arm { mem = mem' }))
    × (arm_load_store machine (record arm { mem = mem' }) 0xe5925004
        ≡ some (
          pos 0,
          arm_write_register
              (record arm { mem = mem' })
              (rd 0xe5925004)
              (arm_read_register arm (rd 0xe5821004)),
        ))
unfolding get_bits get_bit arm_read_register registers_read displace
arm_load_store-ldr_str_example =
    arm_load_store-ldr_str machine arm 0xe5821004 0xe5925004 str_4 ldr_4 refl (omega arith)
      (omega arith) (omega arith)

-- LDR r5, [r2, #256].
ldr_256 : IsWordAccess arm 0xe5925100 1
unfolding get_bits get_bit cond_not_respect condition_result
ldr_256 = record {
  met = refl;
  class = refl;
  immediate = refl;
  before = refl;
  whole = refl;
  kept = refl;
  way = refl;
  base = omega arith;
}

arm_load_store_abort_example :
    arm_load_store machine arm 0xe5925100
    ≡ some (
      pos data_abort,
      if 1 == 0
          then arm
          else arm_write_register arm (rd 0xe5925100) (u32 (machine.stale_word arm.cycle_count)),
    )
unfolding get_bits get_bit arm_read_register registers_read displace
arm_load_store_abort_example =
    arm_load_store_abort machine arm 0xe5925100 1 (omega arith) ldr_256 (omega arith)

-- STRH r1, [r2, #4].
strh_4 : IsHalfAccess arm 0xe1c210b4 0
unfolding get_bits get_bit cond_not_respect condition_result
strh_4 = record {
  met = refl;
  class = refl;
  extra = refl;
  before = refl;
  immediate = refl;
  kept = refl;
  way = refl;
  seven = refl;
  four = refl;
  half = refl;
  base = omega arith;
}

-- LDRH r5, [r2, #4].
ldrh_4 : IsHalfAccess arm 0xe1d250b4 1
unfolding get_bits get_bit cond_not_respect condition_result
ldrh_4 = record {
  met = refl;
  class = refl;
  extra = refl;
  before = refl;
  immediate = refl;
  kept = refl;
  way = refl;
  seven = refl;
  four = refl;
  half = refl;
  base = omega arith;
}

arm_load_store-ldrh_strh_example :
    (mem' : Memory) × (arm_load_store machine arm 0xe1c210b4
      ≡ some (pos 0, record arm { mem = mem' }))
    × (arm_load_store machine (record arm { mem = mem' }) 0xe1d250b4
        ≡ some (
          pos 0,
          arm_write_register
              (record arm { mem = mem' })
              (half_rd 0xe1d250b4)
              (arm_read_register arm (half_rd 0xe1c210b4) % 2 ^ 16),
        ))
unfolding get_bits get_bit arm_read_register registers_read displace
arm_load_store-ldrh_strh_example =
    arm_load_store-ldrh_strh machine arm 0xe1c210b4 0xe1d250b4 strh_4 ldrh_4 refl (omega arith)
      (omega arith)
