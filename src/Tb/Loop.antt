-- ===== src/Tb/Loop.antt =====
-- The counted loops of the benches, and their invariant rule.
use rv32i_core.Prelude.{ℕ, zero, suc, ◌+◌, ◌≡◌, arith}

-- for (i = first; i < first + left; i++) s = body i s.
unfoldable pub for_loop : {S : Type 0} → ℕ → ℕ → (ℕ → S → S) → S → S
for_loop zero i body s = s
for_loop (suc left) i body s = for_loop left (i + 1) body (body i s)

-- An invariant of the state and the index holds after the loop, at the index then reached.
pub for_loop_inv :
    {S : Type 0} (body : ℕ → S → S) (Inv : ℕ → S → Type 0)
    → ((k : ℕ) (s : S) → Inv k s → Inv (k + 1) (body k s))
    → (first left : ℕ) (s : S) → Inv first s
    → Inv (first + left) (for_loop left first body s)
unfolding for_loop
for_loop_inv body Inv step first zero s start =
    let stop : first + 0 ≡ first = omega arith in rw stop start
for_loop_inv body Inv step first (suc left) s start =
    let shift : first + suc left ≡ first + 1 + left = omega arith in
    rw shift (for_loop_inv body Inv step (first + 1) left (body first s) (step first s start))

-- Two loops whose rounds keep a relation keep it.
pub for_loop_rel :
    {S T : Type 0} (R : S → T → Type 0) (f : ℕ → S → S) (g : ℕ → T → T)
    → ((i : ℕ) (s : S) (t : T) → R s t → R (f i s) (g i t))
    → (left i : ℕ) (s : S) (t : T) → R s t
    → R (for_loop left i f s) (for_loop left i g t)
unfolding for_loop
for_loop_rel R f g keep zero i s t h = h
for_loop_rel R f g keep (suc left) i s t h =
    for_loop_rel R f g keep left (i + 1) (f i s) (g i t) (keep i s t h)
