-- ===== src/AxilMaster/Logic.antt =====
-- Rules for runs of the statements of sim/verilator/tb_axil_master.cpp's main.
use rv32i_core.Prelude.{ℕ, zero, suc, ◌+◌, ◌≡◌, refl, ap, ◌∙◌, arith, some}
use rv32i_core.AxilMaster.Bench.{Bench, M, continue, ◌>>=◌, ◌>>◌, loop}
use rv32i_core.AxilMaster.Cycles.{IsQuiet}

-- What is known of the bench between two statements: the slave's memory, the shadow array and the
-- number of checks.
pub record Ghost : Type 0 where
  pub mem : ℕ → ℕ
  pub model : ℕ → ℕ
  pub checks : ℕ

-- The bench is as `g` says, quiet, and without a failed check.
pub record Stands (g : Ghost) (s : Bench) : Type 0 where
  pub quiet : IsQuiet s.sys
  pub mem_is : s.sys.slave.mem ≡ g.mem
  pub model_is : s.model ≡ g.model
  pub clean : s.sys.tb.fails ≡ 0
  pub count : s.sys.tb.checks ≡ g.checks

-- From `g` the statement ends with a value of which F holds, at `g'`.
abbrev pub Takes : {A : Type 0} → Ghost → M A → (A → Type 0) → Ghost → Type 0
Takes {A} g m F g' =
    (s : Bench) → Stands g s → (a : A) × (s' : Bench) × (m s ≡ some (a, s')) × F a × Stands g' s'

-- From `g` the statement ends at some ghost of which Q holds.
abbrev pub Ends : {A : Type 0} → Ghost → M A → (Ghost → Type 0) → Type 0
Ends {A} g m Q =
    (s : Bench)
    → Stands g s
    → (a : A) × (s' : Bench) × (g' : Ghost) × (m s ≡ some (a, s')) × Stands g' s' × Q g'

pub Takes-last :
    {A : Type 0} {g g' : Ghost} {m : M A} {F : A → Type 0} {Q : Ghost → Type 0}
    → Takes g m F g'
    → Q g'
    → Ends g m Q
Takes-last {g' = g'} t q s h = let (a, s', runs, _, h') = t s h in (a, s', g', runs, h', q)

pub Takes-first :
    {A B : Type 0} {g g' : Ghost} {m : M A} {F : A → Type 0} {f : A → M B} {Q : Ghost → Type 0}
    → Takes g m F g'
    → ((a : A) → F a → Ends g' (f a) Q)
    → Ends g (m >>= f) Q
Takes-first {f = f} t k s h =
    let (a, s', runs, fact, h') = t s h in
    let (b, s'', g'', rest, h'', q) = k a fact s' h' in
    (b, s'', g'', ap (continue f) runs ∙ rest, h'', q)

pub Ends-seq :
    {B : Type 0} {g : Ghost} {m : M (Unit {0})} {k : M B} {P Q : Ghost → Type 0}
    → Ends g m P
    → ((g' : Ghost) → P g' → Ends g' k Q)
    → Ends g (m >> k) Q
Ends-seq {k = k} t next s h =
    let (a, s', g', runs, h', p) = t s h in
    let (b, s'', g'', rest, h'', q) = next g' p s' h' in
    (b, s'', g'', ap (continue (λ _. k)) runs ∙ rest, h'', q)

-- An invariant of the ghosts and the index, kept by the body, holds after the loop.
pub Ends-loop :
    (body : ℕ → M (Unit {0})) (Inv : ℕ → Ghost → Type 0)
    → ((i : ℕ) (g : Ghost) → Inv i g → Ends g (body i) (Inv (i + 1)))
    → (left i : ℕ) (g : Ghost) → Inv i g
    → Ends g (loop left i body) (Inv (i + left))
unfolding loop
Ends-loop body Inv step zero i g h s stands =
    let stop : i + 0 ≡ i = omega arith in (tt, s, g, refl, stands, rw stop h)
Ends-loop body Inv step (suc left) i g h s stands =
    let shift : i + suc left ≡ i + 1 + left = omega arith in
    rw shift (Ends-seq (step i g h) (λ g' h'. Ends-loop body Inv step left (i + 1) g' h') s stands)
