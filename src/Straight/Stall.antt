-- ===== src/Straight/Stall.antt =====
-- Decode on plain instructions.
use risc5_simulator.Common.{ℕ, true, false, ◌==◌, ◌≡◌, ◌⊎◌, refl, arith, inl, inr, none, some}
use risc5_simulator.Platform.{Unspecified}
use risc5_simulator.Machine.{Machine, StageRegX}
use risc5_simulator.Stages.{decode_stage}
use risc5_simulator.Pipeline.{nop, operands, stage_decode}
use risc5_simulator.Straight.{plain}
use risc5_simulator.Straight.Stages.{plain_nonzero, unset}

-- What decode makes of the instruction in D: nothing of a bubble, and of any instruction behind a
-- data stall; else a data stall or its operands.
pub decode_drops :
    (p : Unspecified) (x : StageRegX) (s : Machine)
    → (s.d_reg.instruction ≡ nop) ⊎ (s.x_reg.data_stalled ≡ 1)
    → stage_decode p x s ≡ record x { new_pc = s.d_reg.new_pc; instruction = nop; data_stalled = 0 }
unfolding stage_decode
decode_drops p x s (inl e) = rw e refl
decode_drops p x s (inr e) = rw e (ground arith)

pub decode_stalls :
    (p : Unspecified) (x : StageRegX) (s : Machine)
    → plain s.d_reg.instruction ≡ true
    → s.d_reg.stalled ≡ 0
    → (s.x_reg.data_stalled == 1) ≡ false
    → s.m_reg.control_stalled ≡ 0
    → s.w_reg.stalled ≡ 0
    → let d = decode_stage s.d_reg.instruction s.d_reg.new_pc p.extend_pc s in
      operands s s.d_reg.instruction (d.reg1, d.reg2) ≡ none
      → stage_decode p x s
        ≡ record x { new_pc = s.d_reg.new_pc; instruction = nop; data_stalled = 1 }
unfolding stage_decode
decode_stalls p x s h d g c k e =
    rw
      (
        plain_nonzero s.d_reg.instruction h,
        unset s.d_reg.stalled d,
        g,
        unset s.m_reg.control_stalled c,
        unset s.w_reg.stalled k,
        e,
      )
      refl

pub decode_issues :
    (p : Unspecified) (x : StageRegX) (s : Machine) (a b : ℕ)
    → plain s.d_reg.instruction ≡ true
    → s.d_reg.stalled ≡ 0
    → (s.x_reg.data_stalled == 1) ≡ false
    → s.m_reg.control_stalled ≡ 0
    → s.w_reg.stalled ≡ 0
    → let d = decode_stage s.d_reg.instruction s.d_reg.new_pc p.extend_pc s in
      operands s s.d_reg.instruction (d.reg1, d.reg2) ≡ some (a, b)
      → stage_decode p x s ≡ record {
        new_pc = s.d_reg.new_pc;
        instruction = s.d_reg.instruction;
        reg1 = a;
        reg2 = b;
        imm = d.imm;
        extend_pc = d.extend_pc;
        data_stalled = 0;
      }
unfolding stage_decode
decode_issues p x s a b h d g c k e =
    rw
      (
        plain_nonzero s.d_reg.instruction h,
        unset s.d_reg.stalled d,
        g,
        unset s.m_reg.control_stalled c,
        unset s.w_reg.stalled k,
        e,
      )
      refl
