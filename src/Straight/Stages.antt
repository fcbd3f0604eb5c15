-- ===== src/Straight/Stages.antt =====
-- The stages on plain instructions.
use risc5_simulator.Common.{
  ℕ, true, false, ◌==◌, ◌!=◌, ◌≡◌, ◌⊎◌, refl, sym, ap, ◌∙◌, arith, Bool-cases, inl, inr,
}
use risc5_simulator.Platform.{Unspecified}
use risc5_simulator.Utils.{
  load, save, get_opcode, get_rd, has_rd, is_branch, is_r, is_i, is_u, is_uj, get_bits,
}
use risc5_simulator.Machine.{Machine, StageRegM, StageRegW}
use risc5_simulator.Stages.{branch_stage, memory_stage}
use risc5_simulator.Pipeline.{nop, stage_execute, stage_memory, resolve}
use risc5_simulator.Pipeline.Operands.{written, written-nop, nop-writes}
use risc5_simulator.Registers.{RegisterFile}
use risc5_simulator.Straight.{plain, NoPrediction, result}

-- A plain instruction is no bubble, no access of memory and no branch.
pub plain_opcode :
    (i : ℕ)
    → plain i ≡ true
    → (has_rd (get_opcode i) ≡ true)
      × ((get_opcode i == load) ≡ false)
      × (is_branch (get_opcode i) ≡ false)
      × ((get_rd i == 0) ≡ false)
plain_opcode i h = ground arith

plain-nop : plain nop ≡ false
unfolding has_rd get_opcode get_bits
plain-nop = refl

pub plain_nonzero : (i : ℕ) → plain i ≡ true → (i == nop) ≡ false
plain_nonzero i h = elim (Bool-cases (i == nop)) [
  | inr e ↦ e
  | inl e ↦ let z : i ≡ nop = ground arith in ground (arith, plain-nop, ap plain z)
]

-- The memory stage on a plain instruction.
load_lem : (op : ℕ) → (op == load) ≡ false → (op != load) ≡ true
load_lem op h = ground arith

save_lem : (op : ℕ) → has_rd op ≡ true → (op != save) ≡ true
unfolding has_rd is_r is_i is_u is_uj
save_lem op h = ground arith

save_eq : (op : ℕ) → has_rd op ≡ true → (op == save) ≡ false
save_eq op h = ground (arith, save_lem op h)

plain_branch : (i a b : ℕ) → plain i ≡ true → branch_stage i a b ≡ false
unfolding branch_stage is_branch
plain_branch i a b h = ground (arith, plain_opcode i h)

pub unset : (n : ℕ) → n ≡ 0 → (n == 1) ≡ false
unset n h = ground arith

-- The memory stage passes a plain instruction on.
pub memory_plain :
    (p : Unspecified) (w : StageRegW) (s : Machine)
    → plain s.m_reg.instruction ≡ true
    → s.m_reg.control_stalled ≡ 0
    → s.w_reg.stalled ≡ 0
    → stage_memory p w s ≡ (
      record w {
        new_pc = s.m_reg.new_pc;
        stalled = 0;
        instruction = s.m_reg.instruction;
        val = s.m_reg.res;
      },
      s,
    )
unfolding stage_memory memory_stage
memory_plain p w s h c k =
    let (rd, ld, _, _) = plain_opcode s.m_reg.instruction h in
    rw
      (
        plain_nonzero s.m_reg.instruction h,
        unset s.m_reg.control_stalled c,
        unset s.w_reg.stalled k,
        load_lem (get_opcode s.m_reg.instruction) ld,
        save_lem (get_opcode s.m_reg.instruction) rd,
      )
      (rw (ld, save_eq (get_opcode s.m_reg.instruction) rd) refl)

pub execute_plain :
    (p : Unspecified) (m : StageRegM) (s : Machine)
    → plain s.x_reg.instruction ≡ true
    → s.x_reg.data_stalled ≡ 0
    → s.m_reg.control_stalled ≡ 0
    → s.w_reg.stalled ≡ 0
    → NoPrediction s.btb
    → stage_execute p m s ≡ (
      record {
        instruction = s.x_reg.instruction;
        res = result p s.x_reg;
        reg2 = s.x_reg.reg2;
        control_stalled = 0;
        new_pc = s.x_reg.new_pc;
      },
      s,
    )
unfolding stage_execute resolve
execute_plain p m s h d c k free =
    let x = s.x_reg in
    rw
      (
        plain_nonzero x.instruction h,
        unset x.data_stalled d,
        unset s.m_reg.control_stalled c,
        unset s.w_reg.stalled k,
        plain_branch x.instruction x.reg1 x.reg2 h,
        free x.new_pc,
      )
      refl

-- A bubble or a plain instruction.
abbrev pub Slot : ℕ → Type 0
Slot i = (i ≡ nop) ⊎ (plain i ≡ true)

-- The memory stage hands the instruction on with what it will write, and leaves the machine.
pub memory_passes :
    (p : Unspecified) (w : StageRegW) (s : Machine) (f : RegisterFile)
    → Slot s.m_reg.instruction
    → s.m_reg.control_stalled ≡ 0
    → s.w_reg.stalled ≡ 0
    → let (w', s') = stage_memory p w s in
      (s' ≡ s)
      × (w'.instruction ≡ s.m_reg.instruction)
      × (w'.stalled ≡ 0)
      × (w'.new_pc ≡ s.m_reg.new_pc)
      × (written w'.instruction w'.val f ≡ written s.m_reg.instruction s.m_reg.res f)
unfolding stage_memory
memory_passes p w s f (inl e) c k = rw e (rw nop-writes (refl, refl, refl, refl, refl))
memory_passes p w s f (inr h) c k = rw (memory_plain p w s h c k) (refl, refl, refl, refl, refl)

execute_nop :
    (p : Unspecified) (m : StageRegM) (s : Machine)
    → s.x_reg.instruction ≡ nop
    → stage_execute p m s ≡ (record m { instruction = nop; control_stalled = 0 }, s)
unfolding stage_execute
execute_nop p m s h = rw h refl

pub execute_passes :
    (p : Unspecified) (m : StageRegM) (s : Machine) (f : RegisterFile)
    → (s.x_reg.instruction ≡ nop)
      ⊎ ((plain s.x_reg.instruction ≡ true) × (s.x_reg.data_stalled ≡ 0))
    → s.m_reg.control_stalled ≡ 0
    → s.w_reg.stalled ≡ 0
    → NoPrediction s.btb
    → let (m', s') = stage_execute p m s in
      (s' ≡ s)
      × (m'.instruction ≡ s.x_reg.instruction)
      × (m'.control_stalled ≡ 0)
      × ((s.x_reg.instruction ≡ nop) ⊎ (m'.new_pc ≡ s.x_reg.new_pc))
      × (written m'.instruction m'.res f ≡ written s.x_reg.instruction (result p s.x_reg) f)
execute_passes p m s f (inl e) c k free =
    let is_nop : (s.x_reg.instruction == nop) ≡ true = ground arith in
    rw (execute_nop p m s e) (
      refl,
      sym e,
      refl,
      inl e,
      written-nop nop m.res f refl
          ∙ sym (written-nop s.x_reg.instruction (result p s.x_reg) f is_nop),
    )
execute_passes p m s f (inr (h, d)) c k free =
    rw (execute_plain p m s h d c k free) (refl, refl, refl, inr refl, refl)
