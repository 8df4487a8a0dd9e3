-- ===== src/AxilMaster/Transactions.antt =====
-- sim/verilator/tb_axil_master.cpp, do_store and do_load: what a whole transaction does.
use rv32i_core.Prelude.{ℕ, ◌+◌, ◌^◌, ◌<◌, ◌≡◌, ◌*◌, ◌%◌, ◌∙◌, ap, arith, some}
use rv32i_core.Word.{slice}
use rv32i_core.AxilMaster.Bytes.{access_bytes, store_bytes, store_mem-store_bytes}
use rv32i_core.AxilMaster.Cycles.{IsQuiet}
use rv32i_core.AxilMaster.Load.{load_cycles, load_completes}
use rv32i_core.AxilMaster.ReadBytes.{extended, loaded-load_bytes}
use rv32i_core.AxilMaster.ReadLanes.{load_bytes}
use rv32i_core.AxilMaster.RoundTrip.{store_bytes-lt, bytes_back}
use rv32i_core.AxilMaster.Store.{store_cycles, store_completes}
use rv32i_core.AxilMaster.System.{System, Done, do_store, do_load}

-- From a quiet system, a store of a byte, half or word `v` at any 32-bit address, aligned or not,
-- ends if the fuel covers max(aw_delay, w_delay) + 3 cycles, or 2 * max(aw_delay, w_delay) + 5 for
-- an access that crosses into the next word; it takes exactly that many cycles, leaves the system
-- quiet, and writes exactly the bytes of the access in the slave's memory.
pub do_store_lem :
    (fuel addr v f3 aw_delay w_delay : ℕ) (s : System)
    → addr < 2 ^ 32
    → v < 2 ^ 32
    → slice f3 0 2 < 3
    → IsQuiet s
    → (r : Done) × (do_store
          (fuel + store_cycles addr v f3 aw_delay w_delay)
          addr
          v
          f3
          aw_delay
          w_delay
          s
        ≡ some r)
      × IsQuiet r.sys
      × (r.sys.slave.mem ≡ store_bytes addr v (access_bytes f3) s.slave.mem)
      × (r.cycles ≡ store_cycles addr v f3 aw_delay w_delay)
do_store_lem fuel addr v f3 aw_delay w_delay s ha hv hs q =
    let (r, runs, quiet, mem_is, cycles_is) = store_completes addr v f3 aw_delay w_delay fuel s q in
    (
      r,
      runs,
      quiet,
      mem_is ∙ store_mem-store_bytes addr v f3 aw_delay w_delay s.slave.mem ha hv hs,
      cycles_is,
    )

-- From a quiet system whose memory holds bytes, a load of a byte, half or word at any 32-bit
-- address, aligned or not, ends if the fuel covers ar_delay + 3 cycles, or 2 * ar_delay + 5 for an
-- access that crosses into the next word; it takes exactly that many cycles, leaves the system
-- quiet and the memory as it was, and returns the little-endian number in the bytes of the access,
-- sign-extended for funct3 000 and 001.
pub do_load_lem :
    (fuel addr f3 ar_delay : ℕ) (s : System)
    → addr < 2 ^ 32
    → f3 < 8
    → slice f3 0 2 < 3
    → IsQuiet s
    → ((a : ℕ) → s.slave.mem a < 256)
    → (r : Done) × (do_load (fuel + load_cycles addr f3 ar_delay) addr f3 ar_delay s ≡ some r)
      × IsQuiet r.sys
      × (r.sys.slave.mem ≡ s.slave.mem)
      × (r.rdata ≡ extended f3 (load_bytes addr (access_bytes f3) s.slave.mem))
      × (r.cycles ≡ load_cycles addr f3 ar_delay)
do_load_lem fuel addr f3 ar_delay s ha hf hs q bytes =
    let (r, runs, quiet, mem_is, rdata_is, cycles_is) = load_completes addr f3 ar_delay fuel s q in
    (
      r,
      runs,
      quiet,
      mem_is,
      rdata_is ∙ loaded-load_bytes addr f3 ar_delay s.slave.mem s.tb.dut.word_lo_reg ha hf hs bytes,
      cycles_is,
    )

-- From a quiet system whose memory holds bytes, a store of a byte, half or word at any 32-bit
-- address and then a load of the same size from the same address both end with the fuel that they
-- need, whatever the delays; the load returns the low bytes of the stored value, sign-extended for
-- funct3 000 and 001; and the system is quiet again and its memory holds bytes.
pub load_after_store :
    (addr v f3 f3' aw_delay w_delay ar_delay : ℕ) (s : System)
    → addr < 2 ^ 32
    → v < 2 ^ 32
    → f3' < 8
    → slice f3 0 2 < 3
    → slice f3' 0 2 ≡ slice f3 0 2
    → IsQuiet s
    → ((a : ℕ) → s.slave.mem a < 256)
    → (r : Done) × (r' : Done) × (do_store
          (0 + store_cycles addr v f3 aw_delay w_delay)
          addr
          v
          f3
          aw_delay
          w_delay
          s
        ≡ some r)
      × (do_load (0 + load_cycles addr f3' ar_delay) addr f3' ar_delay r.sys ≡ some r')
      × (r'.rdata ≡ extended f3' (v % 2 ^ (8 * access_bytes f3)))
      × IsQuiet r'.sys
      × ((a : ℕ) → r'.sys.slave.mem a < 256)
load_after_store addr v f3 f3' aw_delay w_delay ar_delay s ha hv hf hs same q bytes =
    let (r, stores, quiet, mem_is, _) = do_store_lem 0 addr v f3 aw_delay w_delay s ha hv hs q in
    let kept : (a : ℕ) → r.sys.slave.mem a < 256 =
      λ a. rw mem_is (store_bytes-lt addr v (access_bytes f3) s.slave.mem bytes a) in
    let (r', loads, quiet', mem_same, rdata_is, _) =
      do_load_lem 0 addr f3' ar_delay r.sys ha hf (omega arith) quiet kept in
    let back : load_bytes addr (access_bytes f3') r.sys.slave.mem ≡ v % 2 ^ (8 * access_bytes f3) =
      rw mem_is rw same (bytes_back addr v s.slave.mem ha hv f3 hs) in
    (r, r', stores, loads, rdata_is ∙ ap (extended f3') back, quiet', λ a. rw mem_same (kept a))
