-- ===== src/Iss/Step/Words.antt =====
-- What `exec_step` (vp/src/core/rv32/iss.cpp) makes of the words that `InstructionFactory` builds.
use riscv_vp.Base.{ℕ, ◌≡◌, refl, Bool, false, true, ◌==◌, if◌then◌else◌, ◌∙◌, bit_and, masked_field}
use riscv_vp.Instr.Mapping.{Mapping, add, addi, rv32}
use riscv_vp.Instr.Pattern.{pattern_of}
use riscv_vp.Instr.Decode.{decode_normal}
use riscv_vp.Instr.Decode.Spec.{decode_normal_iff}
use riscv_vp.Instr.Factory
use riscv_vp.Instr.Factory.Laws.{register_word-fits, i_type-fits}
use riscv_vp.Instr.Factory.Operands.{IsRegister, IsImmediate, addi_operands, add_operands}
use riscv_vp.Instr.Compressed.Fields.{is_compressed, quadrant}
use riscv_vp.Iss.Alu.{add32}
use riscv_vp.Iss.Hart.{Hart, Environment, Floats, ok}
use riscv_vp.Iss.Exec.{Machine, ◌>>=◌}
use riscv_vp.Iss.Step.Registers.{read_reg, write_rd}
use riscv_vp.Iss.Step.Integer.{integer, unary, binary}
use riscv_vp.Iss.Step.Run.{
  catch, set_instr, is_aligned, decode, execute, fetch, execute_decoded, exec_step,
}

addi-decodes : (d s imm : ℕ) → decode_normal rv32 (Factory.addi d s imm) ≡ addi
unfolding Factory.addi pattern_of
addi-decodes d s imm =
    (decode_normal_iff addi rv32 (Factory.addi d s imm) (λ e. cc)).1 (i_type-fits d s imm 19 0)

add-decodes : (d s t : ℕ) → decode_normal rv32 (Factory.add d s t) ≡ add
unfolding Factory.add pattern_of
add-decodes d s t =
    (decode_normal_iff add rv32 (Factory.add d s t) (λ e. cc)).1 (register_word-fits d s t 0 0)

full-of :
    (i m e : ℕ) → bit_and i m ≡ e → bit_and m 3 ≡ 3 → bit_and e 3 ≡ 3 → is_compressed i ≡ false
unfolding is_compressed quadrant
full-of i m e h k l = let q : bit_and i 3 ≡ 3 = masked_field i m e 3 h k ∙ l in rw q refl

addi-full : (d s imm : ℕ) → is_compressed (Factory.addi d s imm) ≡ false
unfolding Factory.addi
addi-full d s imm = full-of _ 0x707f 19 (i_type-fits d s imm 19 0) refl refl

add-full : (d s t : ℕ) → is_compressed (Factory.add d s t) ≡ false
unfolding Factory.add
add-full d s t = full-of _ 0xfe00707f 51 (register_word-fits d s t 0 0) refl refl

-- The hart after a word of 32 bits has been fetched.
abbrev pub fetched : ℕ → Mapping → Bool → ℕ → Hart → Hart
fetched word op locked mip h = record h {
  instr = word;
  op = op;
  iss = record h.iss { pc = add32 h.iss.pc 4; bus_locked = locked; mip = mip };
}

-- `regs[d] = value`.
abbrev pub set_reg : ℕ → ℕ → Hart → Hart
set_reg d value h = record h { regs = λ index. if index == d then value else h.regs index }

module _ {M : Type 0} (env : Environment M) (floats : Floats) where
  exec_step-full :
      (word : ℕ) (op : Mapping) (s : Machine M) (locked : Bool) (mip : ℕ) (memory : M)
      → is_aligned s.hart ≡ true
      → env.load_instr s.hart.iss.pc s.hart s.memory
        ≡ record { result = ok word; bus_locked = locked; mip = mip; memory = memory }
      → is_compressed word ≡ false
      → decode_normal rv32 word ≡ op
      → exec_step env floats s
        ≡ execute env floats op word
            (record { hart = fetched word op locked mip s.hart; memory = memory })
  unfolding exec_step fetch decode execute_decoded set_instr ◌>>=◌ catch
  exec_step-full word op s locked mip memory a e c d = rw (a, e, c, d, e) refl

  -- If the program counter is aligned and the memory answers the fetch with the word that the
  -- factory builds for `ADDI`, from registers below 32 and an immediate from -2048 to 2047, then
  -- `exec_step` ends without a trap, the destination holds the sum modulo 2 ^ 32, and the program
  -- counter has moved by 4.
  pub exec_step-addi :
      (d a imm : ℕ) (s : Machine M) (locked : Bool) (mip : ℕ) (memory : M)
      → IsRegister d
      → IsRegister a
      → IsImmediate imm
      → is_aligned s.hart ≡ true
      → env.load_instr s.hart.iss.pc s.hart s.memory ≡ record {
        result = ok (Factory.addi d a imm);
        bus_locked = locked;
        mip = mip;
        memory = memory;
      }
      → exec_step env floats s ≡ (
        ok tt,
        record {
          hart =
              set_reg d
                (add32 (s.hart.regs a) imm)
                (fetched (Factory.addi d a imm) addi locked mip s.hart);
          memory = memory;
        },
      )
  unfolding execute integer unary read_reg write_rd ◌>>=◌
  exec_step-addi d a imm s locked mip memory hd ha hi al e =
      let o = addi_operands d a imm hd ha hi in
      exec_step-full (Factory.addi d a imm) addi s locked mip memory al e (addi-full d a imm)
        (addi-decodes d a imm)
      ∙ rw (o.0, o.1, o.2) refl

  -- The same for `ADD`, from registers below 32.
  pub exec_step-add :
      (d a b : ℕ) (s : Machine M) (locked : Bool) (mip : ℕ) (memory : M)
      → IsRegister d
      → IsRegister a
      → IsRegister b
      → is_aligned s.hart ≡ true
      → env.load_instr s.hart.iss.pc s.hart s.memory ≡ record {
        result = ok (Factory.add d a b);
        bus_locked = locked;
        mip = mip;
        memory = memory;
      }
      → exec_step env floats s ≡ (
        ok tt,
        record {
          hart =
              set_reg d
                (add32 (s.hart.regs a) (s.hart.regs b))
                (fetched (Factory.add d a b) add locked mip s.hart);
          memory = memory;
        },
      )
  unfolding execute integer binary read_reg write_rd ◌>>=◌
  exec_step-add d a b s locked mip memory hd ha hb al e =
      let o = add_operands d a b hd ha hb in
      exec_step-full (Factory.add d a b) add s locked mip memory al e (add-full d a b)
        (add-decodes d a b)
      ∙ rw (o.0, o.1, o.2) refl
