-- ===== src/Vm/Fuel.antt =====
-- The fuel limit of `execute_inner` of crates/match-logic/src/vm.rs against a semantics without one.
use prisoners_arena_program.Base.{
  ℕ, zero, suc, ◌+◌, ◌≤◌, ◌<◌, ◌≡◌, ◌↔◌, refl, inl, inr, true, Option, none, some, arith, length,
  Bool-cases, ltb, ltb→lt, ltb_false→le,
}
use mathlib.Core.Path.{subst}
use prisoners_arena_program.Random.{SeededRng}
use prisoners_arena_program.Moves.{Move}
use prisoners_arena_program.Vm.Opcode.{Op}
use prisoners_arena_program.Vm.{
  Machine, Input, Progress, returned, running, step, turn, run, start, max_fuel, execute_inner,
}

-- The loop without the counter: what a program does, started from a machine.
pub data Runs (i : Input) : Machine → Option Move → Type 0 where
  ends : {m : Machine} → length i.bytecode ≤ m.pc → Runs i m none
  faults : {m : Machine} → m.pc < length i.bytecode → turn i m ≡ none → Runs i m none
  returns :
      {m : Machine} {mv : Move}
      → m.pc < length i.bytecode
      → turn i m ≡ some (returned mv)
      → Runs i m (some mv)
  continues :
      {m m' : Machine} {r : Option Move}
      → m.pc < length i.bytecode
      → turn i m ≡ some (running m')
      → Runs i m' r
      → Runs i m r

-- Every instruction moves the program counter forward.
step_advances :
    (i : Input) (op : Op) (m m' : Machine) → step i op m ≡ some (running m') → m.pc < m'.pc
unfolding step
step_advances i Op.coop m m' h = ground arith
step_advances i _ m m' h = ground arith

turn_advances : (i : Input) (m m' : Machine) → turn i m ≡ some (running m') → m.pc < m'.pc
unfolding turn
turn_advances i m m' h = grind (arith, step_advances)

-- With as much fuel as there are bytes ahead, the counted loop is the uncounted one.
run-Runs :
    (i : Input) (fuel : ℕ) (m : Machine) → length i.bytecode ≤ m.pc + fuel → Runs i m (run fuel i m)
unfolding run
run-Runs i zero m h = ends (omega arith)
run-Runs i (suc fuel) m h = elim (Bool-cases (ltb m.pc (length i.bytecode))) [
  | inr out ↦ rw (out, run) (ends (ltb_false→le _ _ out))
  | inl inside ↦ rw (inside, run) (after inside (λ m' le. run-Runs i fuel m' le) (turn i m) refl)
]
  where
    after :
        ltb m.pc (length i.bytecode) ≡ true
        → ((m' : Machine) → length i.bytecode ≤ m'.pc + fuel → Runs i m' (run fuel i m'))
        → (p : Option Progress) → turn i m ≡ p
        → Runs i m (elim p [
          | none ↦ none
          | some (returned mv) ↦ some mv
          | some (running m') ↦ run fuel i m'
        ])
    after inside rest none e = faults (ltb→lt _ _ inside) e
    after inside rest (some (returned mv)) e = returns (ltb→lt _ _ inside) e
    after inside rest (some (running m')) e =
        continues (ltb→lt _ _ inside) e (rest m' (omega (arith, turn_advances i m m' e)))

-- What a program does is determined: the uncounted loop has one result.
Runs-unique : (i : Input) {m : Machine} {r s : Option Move} → Runs i m r → Runs i m s → r ≡ s
Runs-unique i (ends h) (ends k) = refl
Runs-unique i (ends h) (faults k e) = refl
Runs-unique i (ends h) (returns k e) = absurd (omega arith)
Runs-unique i (ends h) (continues k e q) = absurd (omega arith)
Runs-unique i (faults h d) (ends k) = refl
Runs-unique i (faults h d) (faults k e) = refl
Runs-unique i (faults h d) (returns k e) = cc
Runs-unique i (faults h d) (continues k e q) = cc
Runs-unique i (returns h d) (ends k) = absurd (omega arith)
Runs-unique i (returns h d) (faults k e) = cc
Runs-unique i (returns h d) (returns k e) = cc
Runs-unique i (returns h d) (continues k e q) = cc
Runs-unique i (continues h d p) (ends k) = absurd (omega arith)
Runs-unique i (continues h d p) (faults k e) = cc
Runs-unique i (continues h d p) (returns k e) = cc
Runs-unique i {s = s} (continues {m' = a} h d p) (continues {m' = b} k e q) =
    let same : b ≡ a = cc in Runs-unique i p (subst (λ x. Runs i x s) same q)

-- A program of at most 128 bytes has the uncounted loop's result, and no other: the fuel limit
-- never decides it.
pub execute_inner-iff-Runs :
    (i : Input) (rng : SeededRng)
    → length i.bytecode ≤ max_fuel
    → (r : Option Move) → (execute_inner i rng ≡ r) ↔ Runs i (start rng) r
unfolding execute_inner
execute_inner-iff-Runs i rng h r =
    let all = run-Runs i max_fuel (start rng) (omega arith) in
    (λ e. rw e at all, λ q. Runs-unique i all q)
