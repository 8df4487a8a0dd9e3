-- ===== src/AxilMem/Array.antt =====
-- rtl/soc/axil_mem.v keeps the promises of a peripheral behind the register interface: an array of
-- words, read a cycle later.
use rv32i_core.Prelude.{
  ℕ, ◌^◌, ◌<◌, ◌≡◌, refl, sym, ap, ◌∙◌, Bool, true, false, if◌then◌else◌, update, arith,
}
use rv32i_core.Word.{slice}
use rv32i_core.Dmem
use rv32i_core.Dmem.{written}
use rv32i_core.Dmem.Words.{HasWords, written-lt}
use rv32i_core.RegIf.{Wires}
use rv32i_core.RegIf.Follow.{Registers, IsModelled}
use rv32i_core.AxilMem.{AxilMem, posedge, axil_mem}

abbrev pub Words : Type 0
Words = ℕ → ℕ

-- The word that an address names.
abbrev pub index : ℕ → ℕ
index a = slice a 2 14

abbrev pub words : Registers Words
words = record {
  reset = λ m. m;
  rest = λ m. m;
  write = λ a v strb m. update m (index a) (written strb v (m (index a)));
  read = λ a m. m (index a);
  late = true;
}

-- The memory holds the words of the model, which fit 32 bits.
pub record Powered (m : Words) (d : AxilMem) : Type 0 where
  pub same : (i : ℕ) → d.u_dmem.mem i ≡ m i
  pub fits : HasWords m

pub record Shows (m : Words) (d : AxilMem) : Type 0 where
  pub same : (i : ℕ) → d.u_dmem.mem i ≡ m i
  pub fits : HasWords m
  pub fresh : d.rd_pending ≡ false

pub record Late (a : ℕ) (m : Words) (d : AxilMem) : Type 0 where
  pub same : (i : ℕ) → d.u_dmem.mem i ≡ m i
  pub fits : HasWords m
  pub pending : d.rd_pending ≡ true
  pub answer : d.u_dmem.rdata ≡ m (index a)

-- Without a write enable an edge leaves the words as they are.
unwritten : (v old : ℕ) → old < 2 ^ 32 → written 0 v old ≡ old
unwritten v old h = omega arith

keeps_words :
    (b : Bool) (w : Wires) (m : Words) (d : AxilMem)
    → w.wr_en ≡ false
    → ((i : ℕ) → d.u_dmem.mem i ≡ m i)
    → HasWords m
    → (i : ℕ) → (posedge (axil_mem.connect b w d)).u_dmem.mem i ≡ m i
unfolding posedge Dmem.posedge
keeps_words b w m d wr same fits i =
    let a = index (if w.rd_en then w.rd_addr else w.wr_addr) in
    let old : d.u_dmem.mem a < 2 ^ 32 = rw (same a) (fits a) in
    ground (arith, same i, same a, unwritten w.wr_data (d.u_dmem.mem a) old)

writes_words :
    (w : Wires) (m : Words) (d : AxilMem)
    → w.wr_en ≡ true
    → w.rd_en ≡ false
    → ((i : ℕ) → d.u_dmem.mem i ≡ m i)
    → (i : ℕ)
    → (posedge (axil_mem.connect true w d)).u_dmem.mem i
      ≡ words.write w.wr_addr w.wr_data w.wr_strb m i
unfolding posedge Dmem.posedge
writes_words w m d wr rd same i = ground (arith, same i, same (index w.wr_addr))

pub written-HasWords : (a v strb : ℕ) (m : Words) → HasWords m → HasWords (words.write a v strb m)
written-HasWords a v strb m h i = ground (arith, h i, written-lt strb v (m (index a)))

pub axil_mem_law : IsModelled axil_mem words Shows Powered Late
unfolding posedge Dmem.posedge
axil_mem_law = record {
  connect_shows = λ b w m p h. record { same = h.same; fits = h.fits; fresh = h.fresh };
  connect_powered = λ b w m p h. record { same = h.same; fits = h.fits };
  connect_late = λ b w a m p h. record {
    same = h.same;
    fits = h.fits;
    pending = h.pending;
    answer = h.answer;
  };
  reset_shows = λ w m p wr rd h. (
    record { same = keeps_words false w m p wr h.same h.fits; fits = h.fits },
    record { same = keeps_words false w m p wr h.same h.fits; fits = h.fits; fresh = refl },
  );
  rest_shows = λ w m p wr rd h. record {
    same = keeps_words true w m p wr h.same h.fits;
    fits = h.fits;
    fresh = ground arith;
  };
  write_shows = λ w m p wr rd h. (
    wr,
    record {
      same = writes_words w m p wr rd h.same;
      fits = written-HasWords w.wr_addr w.wr_data w.wr_strb m h.fits;
      fresh = ground arith;
    },
  );
  read_shows = λ w m p wr rd quick h. cc;
  read_late = λ w m p wr rd slow h. (
    ground (arith, h.fresh),
    ground (arith, h.fresh),
    record {
      same = keeps_words true w m p wr h.same h.fits;
      fits = h.fits;
      pending = ground (arith, h.fresh);
      answer = ground (arith, h.same (index w.rd_addr));
    },
  );
  late_shows = λ w a m p wr rd e h. (
    ground (arith, h.pending),
    h.answer ∙ ap (λ (b : ℕ). m (index b)) (sym e),
    record {
      same = keeps_words true w m p wr h.same h.fits;
      fits = h.fits;
      fresh = ground (arith, h.pending);
    },
  );
}
