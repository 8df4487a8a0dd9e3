-- ===== src/AxilMaster/Lanes.antt =====
-- rtl/soc/axil_master.v, the byte-lane logic: functions of the address, the store data and funct3.
use rv32i_core.Prelude.{ℕ, ◌+◌, ◌%◌, ◌^◌, Bool, not, ◌&&◌, ◌||◌, ◌==◌, if◌then◌else◌}
use rv32i_core.Word.{u32, u64, slice, cat, rep, ◌<<◌, ◌>>◌}

abbrev pub lane : ℕ → ℕ
lane mem_addr = slice mem_addr 0 2

-- {lane, 3'b000}
abbrev pub shift : ℕ → ℕ
shift mem_addr = cat 3 (lane mem_addr) 0

abbrev pub is_half : ℕ → Bool
is_half mem_funct3 = slice mem_funct3 0 2 == 0b01

abbrev pub is_word : ℕ → Bool
is_word mem_funct3 = slice mem_funct3 0 2 == 0b10

unfoldable pub crosses : ℕ → ℕ → Bool
crosses mem_addr mem_funct3 =
    (is_word mem_funct3 && not (lane mem_addr == 0b00))
    || (is_half mem_funct3 && lane mem_addr == 0b11)

unfoldable pub addr_lo : ℕ → ℕ
addr_lo mem_addr = cat 2 (slice mem_addr 2 30) 0

unfoldable pub addr_hi : ℕ → ℕ
unfolding addr_lo
addr_hi mem_addr = u32 (addr_lo mem_addr + 4)

unfoldable pub byte_en : ℕ → ℕ
byte_en mem_funct3 =
    let size = slice mem_funct3 0 2 in
    if size == 0b00
    then 0b0001
    else if size == 0b01
    then 0b0011
    else if size == 0b10
    then 0b1111
    else 0b0000

abbrev byte_en_shifted : ℕ → ℕ → ℕ
byte_en_shifted mem_addr mem_funct3 = (byte_en mem_funct3 << lane mem_addr) % 2 ^ 8

unfoldable pub wstrb_lo : ℕ → ℕ → ℕ
unfolding byte_en
wstrb_lo mem_addr mem_funct3 = slice (byte_en_shifted mem_addr mem_funct3) 0 4

unfoldable pub wstrb_hi : ℕ → ℕ → ℕ
unfolding byte_en
wstrb_hi mem_addr mem_funct3 = slice (byte_en_shifted mem_addr mem_funct3) 4 4

abbrev wdata_shifted : ℕ → ℕ → ℕ
wdata_shifted mem_addr mem_wdata = u64 (mem_wdata << shift mem_addr)

unfoldable pub wdata_lo : ℕ → ℕ → ℕ
wdata_lo mem_addr mem_wdata = slice (wdata_shifted mem_addr mem_wdata) 0 32

unfoldable pub wdata_hi : ℕ → ℕ → ℕ
wdata_hi mem_addr mem_wdata = slice (wdata_shifted mem_addr mem_wdata) 32 32

-- {m_axil_rdata, word_lo_reg} or {32'b0, m_axil_rdata}, shifted down to the wanted lane.
unfoldable pub shifted : ℕ → ℕ → ℕ → ℕ → ℕ
unfolding crosses
shifted mem_addr mem_funct3 word_lo_reg m_axil_rdata =
    let combined =
      if crosses mem_addr mem_funct3
      then cat 32 m_axil_rdata word_lo_reg
      else cat 32 0 m_axil_rdata in
    slice (combined >> shift mem_addr) 0 32

-- The case statement of the sign and zero extension.
unfoldable pub rdata_ext : ℕ → ℕ → ℕ
rdata_ext mem_funct3 shifted =
    if mem_funct3 == 0b000
    then cat 8 (rep 24 (slice shifted 7 1)) (slice shifted 0 8)
    else if mem_funct3 == 0b001
    then cat 16 (rep 16 (slice shifted 15 1)) (slice shifted 0 16)
    else if mem_funct3 == 0b010
    then shifted
    else if mem_funct3 == 0b100
    then cat 8 0 (slice shifted 0 8)
    else if mem_funct3 == 0b101
    then cat 16 0 (slice shifted 0 16)
    else shifted
