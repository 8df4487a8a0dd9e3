-- ===== src/Gpio/Laws.antt =====
-- rtl/soc/gpio.v: what writes leave and reads find.
use rv32i_core.Prelude.{ℕ, ◌%◌, ◌^◌, ◌<◌, ◌≡◌, arith, true, not, ◌==◌, if◌then◌else◌}
use rv32i_core.Word.{slice}
use rv32i_core.Dmem.{written}
use rv32i_core.Dmem.Words.{written-lt}
use rv32i_core.Gpio.{Gpio, posedge, led, reg_rd_data}

-- A write cycle out of reset with the given switches.
abbrev pub write_cycle : ℕ → ℕ → ℕ → ℕ → Gpio → Gpio
write_cycle addr word strb sw d = posedge (record d {
  rst_n = true;
  sw = sw;
  reg_wr_en = true;
  reg_wr_addr = addr;
  reg_wr_data = word;
  reg_wr_strb = strb;
})

abbrev pub read_at : ℕ → Gpio → ℕ
read_at addr d = reg_rd_data (record d { reg_rd_addr = addr })

-- After a write cycle a read at an address with bit 2 clear finds the LED register, in which a write
-- to such an address has replaced the bytes whose strobes are set and another write has changed
-- nothing; a read at any other address finds the switches; and with all strobes set the LEDs show
-- the low half of a 32-bit word written to the register.
pub write-read_at :
    (wr rd word strb sw : ℕ) (d : Gpio)
    → word < 2 ^ 32
    → let after = write_cycle wr word strb sw d in
      (read_at rd after ≡ (
        if not (slice rd 2 1 == 0)
        then sw
        else if slice wr 2 1 == 0
        then written strb word d.led_reg
        else d.led_reg))
      × (led (write_cycle 0 word 0xF sw d) ≡ word % 2 ^ 16)
unfolding posedge reg_rd_data
write-read_at wr rd word strb sw d h = (ground arith, omega arith)

-- The LED register fits 32 bits after every clock edge.
pub led_reg-lt : (d : Gpio) → d.led_reg < 2 ^ 32 → (posedge d).led_reg < 2 ^ 32
unfolding posedge
led_reg-lt d h = ground (arith, written-lt d.reg_wr_strb d.reg_wr_data d.led_reg)
