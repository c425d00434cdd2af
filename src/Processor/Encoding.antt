-- ===== src/Processor/Encoding.antt =====
-- The instruction words: their fields, and the sign extension.
use superscalar_oooprocessor.Base.{
  ℕ, ◌+◌, ◌*◌, ◌/◌, ◌%◌, ◌^◌, ◌<◌, ◌≡◌, refl, bit_or-disjoint, arith, true, false,
}
use superscalar_oooprocessor.Config.{u32_mod}
use superscalar_oooprocessor.Alu.{extend_imm}
use superscalar_oooprocessor.Processor.Isa
use superscalar_oooprocessor.Processor.SingleCycle.{Fields, fields_of}

-- The fields of the two layouts.
fields-≡ :
    {f g : Fields}
    → f.opcode ≡ g.opcode
    → f.rs ≡ g.rs
    → f.rt ≡ g.rt
    → f.rd ≡ g.rd
    → f.shamt ≡ g.shamt
    → f.funct ≡ g.funct
    → f.imm ≡ g.imm
    → f.addr ≡ g.addr
    → f ≡ g
fields-≡ o s t d h f i a = λ x. record {
  opcode = o x;
  rs = s x;
  rt = t x;
  rd = d x;
  shamt = h x;
  funct = f x;
  imm = i x;
  addr = a x;
}

abbrev pub r_fields : ℕ → ℕ → ℕ → ℕ → ℕ → Fields
r_fields s t d shamt funct = record {
  opcode = 0;
  rs = s;
  rt = t;
  rd = d;
  shamt = shamt;
  funct = funct;
  imm = d * 2 ^ 11 + shamt * 2 ^ 6 + funct;
  addr = Isa.r_word s t d shamt funct;
}

abbrev pub i_fields : ℕ → ℕ → ℕ → ℕ → Fields
i_fields opcode s t imm = record {
  opcode = opcode;
  rs = s;
  rt = t;
  rd = imm / 2 ^ 11;
  shamt = imm / 2 ^ 6 % 2 ^ 5;
  funct = imm % 2 ^ 6;
  imm = imm;
  addr = s * 2 ^ 21 + t * 2 ^ 16 + imm;
}

pub fields_of-r_word :
    (s t d shamt funct : ℕ)
    → s < 2 ^ 5
    → t < 2 ^ 5
    → d < 2 ^ 5
    → shamt < 2 ^ 5
    → funct < 2 ^ 6
    → fields_of (Isa.r_word s t d shamt funct) ≡ r_fields s t d shamt funct
fields_of-r_word s t d shamt funct hs ht hd hh hf =
    fields-≡ (omega arith) (omega arith) (omega arith) (omega arith) (omega arith) (omega arith)
      (omega arith) (omega arith)

pub fields_of-i_word :
    (opcode s t imm : ℕ)
    → opcode < 2 ^ 6
    → s < 2 ^ 5
    → t < 2 ^ 5
    → imm < 2 ^ 16
    → fields_of (Isa.i_word opcode s t imm) ≡ i_fields opcode s t imm
fields_of-i_word opcode s t imm ho hs ht hi =
    fields-≡ (omega arith) (omega arith) (omega arith) (omega arith) (omega arith) (omega arith)
      (omega arith) (omega arith)

-- The sign extension by `0xffff0000 | imm` is that of two's complement.
pub extend_imm-sign_extend : (imm : ℕ) → imm < 2 ^ 16 → extend_imm false imm ≡ Isa.sign_extend imm
unfolding extend_imm
extend_imm-sign_extend imm h = ground (arith, bit_or-disjoint 16 0xffff imm h)

pub sign_extend-lt : (imm : ℕ) → imm < 2 ^ 16 → Isa.sign_extend imm < u32_mod
sign_extend-lt imm h = ground arith

pub extend_imm-zero : (imm : ℕ) → extend_imm true imm ≡ imm
unfolding extend_imm
extend_imm-zero imm = refl
