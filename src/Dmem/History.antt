-- ===== src/Dmem/History.antt =====
-- What a load of sim/verilator/tb_dmem.cpp finds after any stores, byte by byte.
use rv32i_core.Prelude.{
  ℕ, zero, suc, ◌*◌, ◌/◌, ◌%◌, ◌^◌, ◌<◌, ◌≡◌, refl, ◌∙◌, ap, Bool, true, ◌&&◌, arith, ◌==◌,
  if◌then◌else◌, update, List, [], ◌∷◌,
}
use rv32i_core.Tb.{Tb}
use rv32i_core.Dmem.{Dmem, written}
use rv32i_core.Dmem.Bytes.{written_bytes}
use rv32i_core.Dmem.Bench.{store, load}

-- The arguments of a store.
pub record Store : Type 0 where
  pub addr : ℕ
  pub value : ℕ
  pub strb : ℕ

-- The stores, the earliest first.
abbrev pub stores : List Store → Tb Dmem → Tb Dmem
stores [] s = s
stores (w ∷ ws) s = stores ws (store w.addr w.value w.strb s)

-- The word of the memory that an address selects; bit k of a number.
abbrev pub word_of : ℕ → ℕ
word_of a = a / 4 % 2 ^ 14

abbrev pub has_bit : ℕ → ℕ → Bool
has_bit k x = x / 2 ^ k % 2 == 1

-- The last byte that the stores put into lane k of word j, or `old` if none does.
abbrev pub last_byte : List Store → ℕ → ℕ → ℕ → ℕ
last_byte [] j k old = old
last_byte (w ∷ ws) j k old =
    last_byte ws j k
      (if word_of w.addr == j && has_bit k w.strb then w.value / 2 ^ (8 * k) % 2 ^ 8 else old)

lane : (ℕ → ℕ) → ℕ → ℕ → ℕ
lane mem j k = mem j / 2 ^ (8 * k) % 2 ^ 8

written-lane :
    (strb v old k : ℕ)
    → k < 4
    → written strb v old / 2 ^ (8 * k) % 2 ^ 8
      ≡ (if has_bit k strb then v / 2 ^ (8 * k) % 2 ^ 8 else old / 2 ^ (8 * k) % 2 ^ 8)
written-lane strb v old zero h = (written_bytes strb v old).0
written-lane strb v old (suc zero) h = (written_bytes strb v old).1
written-lane strb v old (suc (suc zero)) h = (written_bytes strb v old).2
written-lane strb v old (suc (suc (suc zero))) h = (written_bytes strb v old).3
written-lane strb v old (suc (suc (suc (suc k)))) h = absurd (omega arith)

update-lane :
    (i j k new : ℕ) (mem : ℕ → ℕ)
    → lane (update mem i new) j k ≡ (if j == i then new / 2 ^ (8 * k) % 2 ^ 8 else lane mem j k)
unfolding lane
update-lane i j k new mem = ground arith

merge :
    (i j : ℕ) (b : Bool) (new : ℕ) (old : ℕ → ℕ)
    → (if j == i then (if b then new else old i) else old j) ≡ (if i == j && b then new else old j)
merge i j b new old = ground arith

store-lane :
    (w : Store) (s : Tb Dmem) (j k : ℕ)
    → k < 4
    → lane (store w.addr w.value w.strb s).dut.mem j k ≡ (
        if word_of w.addr == j && has_bit k w.strb
        then w.value / 2 ^ (8 * k) % 2 ^ 8
        else lane s.dut.mem j k)
unfolding store lane
store-lane w s j k h =
    let i = word_of w.addr in
    let old = s.dut.mem i in
    update-lane i j k (written w.strb w.value old) s.dut.mem
    ∙ ap (λ b. if j == i then b else lane s.dut.mem j k) (written-lane w.strb w.value old k h)
    ∙ merge i j (has_bit k w.strb) (w.value / 2 ^ (8 * k) % 2 ^ 8) (λ m. lane s.dut.mem m k)

store-en : (w : Store) (s : Tb Dmem) → (store w.addr w.value w.strb s).dut.en ≡ s.dut.en
unfolding store
store-en w s = refl

stores-en : (ws : List Store) (s : Tb Dmem) → (stores ws s).dut.en ≡ s.dut.en
stores-en [] s = refl
stores-en (w ∷ ws) s = stores-en ws (store w.addr w.value w.strb s) ∙ store-en w s

stores-lane :
    (ws : List Store) (s : Tb Dmem) (j k : ℕ)
    → k < 4
    → lane (stores ws s).dut.mem j k ≡ last_byte ws j k (lane s.dut.mem j k)
stores-lane [] s j k h = refl
stores-lane (w ∷ ws) s j k h =
    stores-lane ws (store w.addr w.value w.strb s) j k h
    ∙ ap (λ old. last_byte ws j k old) (store-lane w s j k h)

load-lane :
    (a k : ℕ) (s : Tb Dmem)
    → s.dut.en ≡ true
    → (load a s).dut.rdata / 2 ^ (8 * k) % 2 ^ 8 ≡ lane s.dut.mem (word_of a) k
unfolding load lane
load-lane a k s e = rw e refl

-- With the read enabled, after any stores byte k of a loaded word is byte k of the value of the last
-- store to that word, that is, with the same address bits 15 to 2, whose strobe k is set; if there is
-- none, it is the byte from before the stores.
pub load-stores :
    (ws : List Store) (a k : ℕ) (s : Tb Dmem)
    → s.dut.en ≡ true
    → k < 4
    → (load a (stores ws s)).dut.rdata / 2 ^ (8 * k) % 2 ^ 8
      ≡ last_byte ws (word_of a) k (s.dut.mem (word_of a) / 2 ^ (8 * k) % 2 ^ 8)
unfolding lane
load-stores ws a k s e h =
    load-lane a k (stores ws s) (stores-en ws s ∙ e) ∙ stores-lane ws s (word_of a) k h
