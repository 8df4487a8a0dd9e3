-- ===== src/Lib.antt =====
-- A model of the RV32I core's hardware modules together with the Verilator test benches that
-- exercise them. A bench is a C++ program: it drives the inputs of one module, lets the simulator
-- evaluate it, and compares its outputs with directed values and with a reference model on random
-- inputs. The modules under rtl/ are translated as functions and register records, the benches
-- under sim/verilator/ as functions on the state of a bench.
--
-- Parts and files:
-- - Tb: the template Tb<DUT> and CHECK_EQ of sim/verilator/tb_common.h. `settle` and `tick` take the
--   module's combinational evaluation `eval` and its clock edge `posedge` as arguments. Tb.Loop has
--   the counted for loops, Tb.Report what the counters say.
-- - Alu, BranchCmp, Immgen, Regfile, Decoder, Csr, Dmem, Imem: rtl/core/alu.v, branch_cmp.v, immgen.v,
--   regfile.v, decoder.v, csr.v, dmem.v and imem.v. In each, the module itself is in the file of that
--   name, Bench is the main function of sim/verilator/tb_alu.cpp, tb_branch_cmp.cpp, tb_immgen.cpp,
--   tb_regfile.cpp, tb_decoder.cpp, tb_csr.cpp, tb_dmem.cpp or tb_imem.cpp (Decoder.Directed and
--   Csr.Directed are first parts, Csr.Random the last), Encode the bench's instruction encoders, and
--   the other files are proofs. `run` is the state of the bench when main returns, `main` its exit status.
-- - AxilMaster: rtl/soc/axil_master.v (Lanes is its byte-lane logic). AxilMaster.Slave is the stub
--   slave and AxilMaster.System the functions cycle, do_store and do_load of
--   sim/verilator/tb_axil_master.cpp. Phases, WriteSteps, WritePhase, Store and Bytes follow a store
--   cycle by cycle, Load, ReadLanes and ReadBytes a load; RoundTrip and Transactions have the two
--   together. Bench, Shadow, Directed and Random are the bench's main, written in a monad of the bench
--   state whose failure is lack of fuel; Keeps, Logic, Statements and Agreement have the rules for its
--   statements, Opening, Rounds, Crossing, CrossingHalf and Runs apply them to its sections.
-- - RegIf: a peripheral behind the vendored register interface axil_reg_if, which is a parameter with
--   its handshake as a record of laws. RegIf.Transfer is axil_write and axil_read of
--   sim/verilator/tb_gpio.cpp, tb_timer.cpp and tb_axil_mem.cpp, RegIf.Follow what a peripheral
--   promises as a model of its registers, and how a bench of the design follows the same bench of the
--   model; Cycle, Write, ReadRounds, Read and Sequences follow the transfers, Bench the other statements.
-- - Gpio, Timer, AxilMem: rtl/soc/gpio.v, timer.v and axil_mem.v over RegIf. Bench is main of
--   tb_gpio.cpp, tb_timer.cpp or tb_axil_mem.cpp, with the bus as an argument of its sections; Panel,
--   Counter and Array are the models of the registers, Sections and Runs compare the two.
-- - Uart: rtl/soc/uart_axil.v, with the vendored uart_tx and uart_rx as parameters; Uart.Status has the
--   sticky flags.
-- - Software: the programs of sw/examples over the registers of Timer, Gpio and Csr. SocDemo, TimerIrq,
--   Hello and Loops are the programs, Rearm the rearm of the first two; Alarm, Runs, Sends, Enable and
--   Transcript have the proofs. How many cycles pass before an access to a device is a parameter, and
--   so is the number of interrupts taken at each point of a loop.
-- - Selftest: sim/verilator/selftest/selftest.v and tb_selftest.cpp. SocBench: the loop of
--   sim/verilator/tb_soc.cpp over a design that is a parameter, with the trace file as a list of rows.
-- - Word: fixed-width words over the natural numbers; Word.Bits has `|`, `&` and `^` as arithmetic,
--   Word.Signed the integers that two's complement words stand for. Prelude has what all parts share.
-- - Examples: the theorems at concrete inputs.
--
-- Words are natural numbers, with the wrap-around written out. An int that holds a 32-bit value is
-- its two's complement pattern. A map or a memory is a function from addresses. The evaluation of a
-- clocked module is `eval` for the combinational outputs and `posedge` for the registers; a
-- non-blocking assignment reads the registers of the old record. The simulator's delta cycles are
-- left out. The random generator std::mt19937 is a parameter, a stream of numbers. The delays of the
-- stub slave, an int in the source, are natural numbers.
--
-- The register interface is idle at power-on in the theorems on the peripheral benches. The loops of
-- axil_write and axil_read count to 20 as in the source; a write takes three rounds, a read three or four.
--
-- The loop `do { cycle } while (stall)` of a transaction runs on fuel, one unit a cycle. The fuel
-- of a transaction theorem is the number of its cycles, for any address, size and delays:
-- max(aw_delay, w_delay) + 3 or 2 * max(aw_delay, w_delay) + 5 for a store, ar_delay + 3 or
-- 2 * ar_delay + 5 for a load. The fuel of the bench's main is 16 for every transaction, since no delay
-- in it is above 4. The loop of main in timer_irq.c runs on fuel too, one unit a test: one unit more
-- than the rounds before the test that ends it. The endless loops of the other programs are given the
-- number of their rounds. The loop of tb_soc.cpp counts up to MAX_CYCLES, and all other loops up to a constant.
--
-- Not modelled: the pipeline rtl/core/core.v, the bench of the UART, and the wiring of the system on
-- chip; the copies of other projects under rtl/vendor; board files, start-up code and scripts; wave dumps,
-- printed messages and command lines. Files that $readmemh loads are not read: the loaded array is a
-- parameter.
mod Prelude
pub mod Word
pub mod Tb
pub mod Alu
pub mod BranchCmp
pub mod Immgen
pub mod Regfile
pub mod Decoder
pub mod Csr
pub mod Dmem
pub mod Imem
pub mod Selftest
pub mod SocBench
pub mod Timer
pub mod RegIf
pub mod AxilMem
pub mod Gpio
pub mod Software
pub mod Uart
pub mod AxilMaster
mod Examples
