-- ===== src/Gpio/Panel.antt =====
-- rtl/soc/gpio.v keeps the promises of a peripheral behind the register interface: a LED word and
-- the switches.
use rv32i_core.Prelude.{ℕ, ◌≡◌, false, ◌==◌, if◌then◌else◌, arith}
use rv32i_core.Word.{slice}
use rv32i_core.Dmem.{written}
use rv32i_core.RegIf.Follow.{Registers, IsModelled}
use rv32i_core.Gpio.{Gpio, posedge, reg_rd_data, gpio}

pub record Panel : Type 0 where
  pub leds : ℕ
  pub sw : ℕ

abbrev pub panel : Registers Panel
panel = record {
  reset = λ m. record m { leds = 0 };
  rest = λ m. m;
  write =
      λ a v strb m. record m { leds = if slice a 2 1 == 0 then written strb v m.leds else m.leds };
  read = λ a m. if slice a 2 1 == 0 then m.leds else m.sw;
  late = false;
}

abbrev pub Shows : Panel → Gpio → Type 0
Shows m d = (d.led_reg ≡ m.leds) × (d.sw ≡ m.sw)

abbrev pub Late : ℕ → Panel → Gpio → Type 0
Late a m d = ⊥

pub gpio_law : IsModelled gpio panel Shows Shows Late
unfolding posedge reg_rd_data
gpio_law = record {
  connect_shows = λ b w m p h. h;
  connect_powered = λ b w m p h. h;
  connect_late = λ b w a m p h. h;
  reset_shows = λ w m p wr rd h. ground arith;
  rest_shows = λ w m p wr rd h. ground arith;
  write_shows = λ w m p wr rd h. ground arith;
  read_shows = λ w m p wr rd quick h. ground arith;
  read_late = λ w m p wr rd slow h. cc;
  late_shows = λ w a m p wr rd e h. absurd h;
}
