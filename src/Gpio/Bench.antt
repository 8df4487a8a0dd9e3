-- ===== src/Gpio/Bench.antt =====
-- sim/verilator/tb_gpio.cpp: main, over a bus that makes the transfers.
use rv32i_core.Prelude.{ℕ, ◌-◌, ◌*◌, ◌^◌, ◌==◌, if◌then◌else◌, ◌|>◌, bit_and}
use rv32i_core.Word.{u32, shl, ◌<<◌, ◌∣◌}
use rv32i_core.Tb.{Tb, initial, tb_begin, tb_check, drive, finish, rnd, rnd_range}
use rv32i_core.Tb.Loop.{for_loop}
use rv32i_core.RegIf.{RegIf, System}
use rv32i_core.RegIf.Transfer
use rv32i_core.RegIf.Transfer.{Bus, opening, check_read}
use rv32i_core.Gpio.{Gpio, led, gpio}

-- The bench and the local `model` of section 6.
pub record Shadowed (D : Type 0) : Type 0 where
  pub tb : Tb D
  pub model : ℕ

-- What main does to the ports of the design beside the bus.
pub record Ports (D : Type 0) : Type 0 where
  pub set_sw : ℕ → Tb D → Tb D
  pub led : Tb D → ℕ

-- if (strb & (1 << k)) model = (model & ~(0xFFu << (8 * k))) | (v & (0xFFu << (8 * k))).
abbrev pub put_lane : ℕ → ℕ → ℕ → ℕ → ℕ
put_lane k strb v model =
    if bit_and strb (1 << k) == 0
    then model
    else bit_and model (2 ^ 32 - 1 - shl 0xFF (8 * k)) ∣ bit_and v (shl 0xFF (8 * k))

abbrev pub put_lanes : ℕ → ℕ → ℕ → ℕ
put_lanes strb v model =
    model |> put_lane 0 strb v |> put_lane 1 strb v |> put_lane 2 strb v |> put_lane 3 strb v

-- CHECK_EQ(d.led, want).
unfoldable pub check_led : {D : Type 0} → Ports D → ℕ → Tb D → Tb D
check_led ports want s = tb_check (ports.led s) want s

module _ {D : Type 0} (bus : Bus D) (ports : Ports D) where
  unfoldable pub section_1 : Tb D → Tb D
  section_1 s =
      s
      |> tb_begin "1. LED write lands and reads back"
      |> bus.write 0x00 0x0000BEEF 0xF
      |> check_read bus 0x00 0x0000BEEF
      |> check_led ports 0xBEEF

  unfoldable pub section_2 : Tb D → Tb D
  section_2 s =
      s
      |> tb_begin "2. wstrb selects individual byte lanes on LED reg"
      |> bus.write 0x00 0x00000000 0xF
      |> bus.write 0x00 0x000000AA 0x1
      |> check_read bus 0x00 0x000000AA
      |> bus.write 0x00 0x0000BB00 0x2
      |> check_read bus 0x00 0x0000BBAA
      |> check_led ports 0xBBAA

  unfoldable pub section_3 : Tb D → Tb D
  section_3 s =
      s
      |> tb_begin "3. switch input reads current value, is read-only"
      |> ports.set_sw 0xCAFE
      |> check_read bus 0x04 0x0000CAFE
      |> bus.write 0x04 0xFFFFFFFF 0xF
      |> check_read bus 0x04 0x0000CAFE
      |> ports.set_sw 0x1234
      |> check_read bus 0x04 0x00001234

  unfoldable pub section_4 : Tb D → Tb D
  section_4 s =
      s
      |> tb_begin "4. LED value unaffected by switch writes/reads"
      |> bus.write 0x00 0x00005555 0xF
      |> ports.set_sw 0xAAAA
      |> check_read bus 0x04 0x0000AAAA
      |> check_read bus 0x00 0x00005555
      |> check_led ports 0x5555

  unfoldable pub round_5 : ℕ → Tb D → Tb D
  round_5 i s =
      let v = bit_and (u32 (i * 0x01010101)) 0xFFFF in
      s |> bus.write 0x00 v 0xF |> check_read bus 0x00 v

  unfoldable pub section_5 : Tb D → Tb D
  section_5 s =
      s
      |> tb_begin "5. back-to-back writes and reads, no idle transaction between"
      |> for_loop 50 0 round_5

  module _ (rng : ℕ → ℕ) where
    -- A round of section 6, in its three parts.
    unfoldable pub written_round : ℕ → ℕ → Shadowed D → Shadowed D
    written_round v strb s =
        let model = put_lanes strb v s.model in
        record {
          tb =
              s.tb
              |> bus.write 0x00 v strb
              |> check_read bus 0x00 model
              |> check_led ports (bit_and model 0xFFFF);
          model = model;
        }

    unfoldable pub switch_round : ℕ → Tb D → Tb D
    switch_round sw s =
        s |> ports.set_sw (bit_and sw 0xFFFF) |> check_read bus 0x04 (bit_and sw 0xFFFF)

    unfoldable pub round_6 : ℕ → Shadowed D → Shadowed D
    round_6 i s =
        let (v, s₁) = rnd rng s.tb in
        let (strb, s₂) = rnd_range rng 1 15 s₁ in
        let s₃ = written_round v strb (record { tb = s₂; model = s.model }) in
        let (sw, s₄) = rnd rng s₃.tb in record { tb = switch_round sw s₄; model = s₃.model }

    unfoldable pub section_6 : Tb D → Shadowed D
    section_6 s =
        for_loop 500 0 round_6
          (record { tb = tb_begin "6. random writes against a shadow model" s; model = 0 })

    unfoldable pub sections : Tb D → Tb D
    sections s =
        (s |> section_1 |> section_2 |> section_3 |> section_4 |> section_5 |> section_6).tb

module _ {S : Type 0} (r : RegIf S) where
  abbrev pub axil_write : ℕ → ℕ → ℕ → Tb (System S Gpio) → Tb (System S Gpio)
  axil_write addr value strb s = Transfer.axil_write r gpio addr value strb s

  abbrev pub axil_read : ℕ → Tb (System S Gpio) → ℕ × Tb (System S Gpio)
  axil_read addr s = Transfer.axil_read r gpio addr s

  -- The bus of the sections, and tb.tick().
  abbrev pub bus : Bus (System S Gpio)
  bus = record { write = axil_write; read = axil_read; clock = Transfer.clock r gpio }

  abbrev pub gpio_ports : Ports (System S Gpio)
  unfolding drive
  gpio_ports = record {
    set_sw = λ v. drive (λ x. record x { dev = record x.dev { sw = v } });
    led = λ s. led s.dut.dev;
  }

  -- main up to `return tb.finish()`.
  unfoldable pub run : (ℕ → ℕ) → System S Gpio → Tb (System S Gpio)
  run rng x = initial x |> gpio_ports.set_sw 0 |> opening r gpio |> sections bus gpio_ports rng

  unfoldable pub main : (ℕ → ℕ) → System S Gpio → ℕ
  main rng x = finish (run rng x)
