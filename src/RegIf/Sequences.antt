-- ===== src/RegIf/Sequences.antt =====
-- Any sequence of transfers of axil_write and axil_read over a peripheral reads what the model of its
-- registers reads.
use rv32i_core.Prelude.{ℕ, ◌≡◌, refl, List, [], ◌∷◌}
use rv32i_core.Tb.{Tb}
use rv32i_core.RegIf.{RegIf, IsHandshake, Device, System}
use rv32i_core.RegIf.Transfer.{Bus, axil_bus}
use rv32i_core.RegIf.Follow.{Registers, IsModelled, model_bus, Follows}
use rv32i_core.RegIf.Write.{axil_write-Follows}
use rv32i_core.RegIf.Read.{axil_read-Follows}

pub data Access : Type 0 where
  write : ℕ → ℕ → ℕ → Access
  read : ℕ → Access

-- The values that the reads return, and the bench afterwards.
pub transfers : {D : Type 0} → Bus D → List Access → Tb D → List ℕ × Tb D
transfers bus [] s = ([], s)
transfers bus (write a v strb ∷ rest) s = transfers bus rest (bus.write a v strb s)
transfers bus (read a ∷ rest) s =
    let (value, s') = bus.read a s in
    let (values, s'') = transfers bus rest s' in (value ∷ values, s'')

-- Over an interface with its handshake and a peripheral that keeps the promises of a model, from a
-- design that follows the model, the reads of any sequence of transfers return what the model reads,
-- and the design follows the model afterwards: it is idle, holds the same registers, and the bench
-- has the same counters, reports and time.
pub transfers-Follows :
    {S P M : Type 0} (r : RegIf S) (bus : IsHandshake r) (d : Device P) (g : Registers M)
    {Shows Powered : M → P → Type 0} {Late : ℕ → M → P → Type 0}
    (law : IsModelled d g Shows Powered Late) (accesses : List Access) (m : Tb M)
    (s : Tb (System S P))
    → Follows r Shows m s
    → ((transfers (axil_bus r d) accesses s).0 ≡ (transfers (model_bus g) accesses m).0)
      × Follows r Shows
          (transfers (model_bus g) accesses m).1
          (transfers (axil_bus r d) accesses s).1
unfolding transfers
transfers-Follows r bus d g law [] m s h = (refl, h)
transfers-Follows r bus d g law (write a v strb ∷ rest) m s h =
    transfers-Follows r bus d g law rest _ _ (axil_write-Follows r bus d g law a v strb s h)
transfers-Follows r bus d g law (read a ∷ rest) m s h =
    let (value, h') = axil_read-Follows r bus d g law a s h in
    let (values, h'') = transfers-Follows r bus d g law rest _ _ h' in
    (rw value rw values refl, h'')
