-- ===== src/Software.antt =====
-- sw/examples: what the example programs see of the system on chip. An access to a device register
-- takes one cycle of the timer, and `delay` cycles pass before it, whatever the compiler, the
-- pipeline and the bus make of the code between two accesses; `switches` is what the switches show at
-- each access. The trap entry and the return of the processor leave the board alone here.
pub mod Rearm
pub mod TimerIrq
pub mod SocDemo
pub mod Hello
pub mod Alarm
pub mod Runs
pub mod Sends
pub mod Enable
pub mod Transcript
pub mod Loops
use Prim.Native.Char.{code}
use Prim.Native.String
use rv32i_core.Prelude.{ℕ, ◌+◌, ◌%◌, ◌^◌, true, false, List, [], ◌∷◌, ◌++◌, String}
use rv32i_core.Csr
use rv32i_core.Csr.{Csr}
use rv32i_core.Gpio
use rv32i_core.Gpio.{Gpio}
use rv32i_core.Gpio.Laws.{write_cycle, read_at}
use rv32i_core.Timer
use rv32i_core.Timer.{Timer}
use rv32i_core.Timer.Laws.{writing, waiting, wait}

-- `sent` holds the bytes written to UART_DATA, in order; a write stalls until the transmitter is
-- ready, which is part of the delay.
pub record Board : Type 0 where
  pub timer : Timer
  pub gpio : Gpio
  pub csr : Csr
  pub sent : List ℕ
  pub accesses : ℕ

-- The characters of a text.
abbrev pub codes : String → List ℕ
codes String.[] = []
codes (String.◌∷◌ c s) = code c ∷ codes s

-- csrw and csrs, by their operation codes.
unfoldable pub csr_instruction : ℕ → ℕ → ℕ → Board → Board
unfolding Csr.posedge
csr_instruction op addr v b = record b {
  csr = Csr.posedge (record b.csr {
    rst_n = true;
    bus_stall = false;
    trap = false;
    is_mret = false;
    csr_re = true;
    csr_we = true;
    csr_op = op;
    csr_addr = addr;
    csr_wdata = v;
  });
}

module _ (delay switches : ℕ → ℕ) where
  -- The cycles before an access.
  unfoldable pub pause : Board → Board
  unfolding Timer.posedge
  pause b = record b { timer = wait (delay b.accesses) b.timer; accesses = b.accesses + 1 }

  -- TIMER_MTIME_LO and the others, by the address's low bits.
  unfoldable pub read_timer : ℕ → Board → ℕ × Board
  unfolding pause Timer.posedge Timer.reg_rd_data
  read_timer a b =
      let b' = pause b in
      (
        Timer.reg_rd_data (record b'.timer { reg_rd_addr = a }),
        record b' { timer = waiting b'.timer },
      )

  unfoldable pub write_timer : ℕ → ℕ → Board → Board
  unfolding pause Timer.posedge
  write_timer a v b = let b' = pause b in record b' { timer = writing a v b'.timer }

  -- UART_DATA = (unsigned char)c.
  unfoldable pub uart_putc : ℕ → Board → Board
  unfolding pause Timer.posedge
  uart_putc c b =
      let b' = pause b in record b' { timer = waiting b'.timer; sent = b'.sent ++ (c % 2 ^ 8) ∷ [] }

  -- The characters before the terminating zero.
  unfoldable pub uart_puts : List ℕ → Board → Board
  uart_puts [] b = b
  uart_puts (c ∷ rest) b = uart_puts rest (uart_putc c b)

  unfoldable pub read_switches : Board → ℕ × Board
  unfolding pause Timer.posedge Gpio.reg_rd_data
  read_switches b =
      let b' = pause b in
      (
        read_at 4 (record b'.gpio { sw = switches b.accesses }),
        record b' { timer = waiting b'.timer },
      )

  unfoldable pub write_led : ℕ → Board → Board
  unfolding pause Timer.posedge Gpio.posedge
  write_led v b =
      let b' = pause b in
      record b' {
        timer = waiting b'.timer;
        gpio = write_cycle 0 v 0xF (switches b.accesses) b'.gpio;
      }
