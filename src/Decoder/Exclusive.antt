-- ===== src/Decoder/Exclusive.antt =====
-- Which outputs of the decoder can be set together.
use rv32i_core.Prelude.{ℕ, ◌+◌, ◌≤◌, ◌≡◌, ◌⊎◌, arith, ◌==◌, true, false, bit}
use rv32i_core.Word.{slice}
use rv32i_core.Decoder.{Control, decode, defaults, system_priv, system_csr}

pub record IsExclusive (c : Control) : Type 0 where
  -- At most one of these acts, and none of them on an illegal word.
  pub one_action :
      bit c.mem_we
        + bit c.mem_re
        + bit c.is_branch
        + bit c.is_jal
        + bit c.is_jalr
        + bit c.is_mret
        + bit c.is_ecall
        + bit c.illegal
      ≤ 1
  pub load : c.mem_re ≡ true → (c.reg_we ≡ true) × (c.wb_sel ≡ 1)
  pub store : c.mem_we ≡ true → c.reg_we ≡ false
  pub link : bit c.is_jal + bit c.is_jalr ≡ 1 → (c.reg_we ≡ true) × (c.wb_sel ≡ 2)
  pub csr : (c.csr_op ≡ 0) ⊎ ((c.wb_sel ≡ 3) × (c.reg_we ≡ true) × (c.illegal ≡ false))
  -- An illegal word enables a register write only as a SYSTEM word with funct3 = 100.
  pub garbage : c.illegal ≡ true → (c.reg_we ≡ false) ⊎ ((c.wb_sel ≡ 3) × (c.funct3 ≡ 4))

system_priv-IsExclusive : (w i : ℕ) → IsExclusive (system_priv i (defaults w))
unfolding system_priv defaults
system_priv-IsExclusive w i = ground arith

system_csr-IsExclusive :
    (w : ℕ) → ((defaults w).funct3 == 0) ≡ false → IsExclusive (system_csr w (defaults w))
unfolding system_csr defaults
system_csr-IsExclusive w h = ground arith

-- Of every word: at most one of a store, a load, a branch, jal, jalr, mret, ecall and the illegal
-- flag is decoded; loads, jumps and CSR accesses write back from their own source and stores not
-- at all; an illegal word enables a register write only in the SYSTEM encoding with funct3 = 4.
pub decode-IsExclusive : (w : ℕ) → IsExclusive (decode w)
unfolding decode
decode-IsExclusive w =
    ground (arith, system_priv-IsExclusive w (slice w 20 12), system_csr-IsExclusive w)
