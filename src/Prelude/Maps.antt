-- ===== src/Prelude/Maps.antt =====
-- Memories and arrays as functions of their index.
use Prim.Native.Nat.{ℕ}
use rv32i_core.Prelude.Tests.{◌==◌, if◌then◌else◌}

-- a[i] = v.
abbrev pub update {ℓ} : {A : Type ℓ} (a : ℕ → A) (i : ℕ) (v : A) → ℕ → A
update a i v k = if k == i then v else a k
