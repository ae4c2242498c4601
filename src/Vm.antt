-- ===== src/Vm.antt =====
-- crates/match-logic/src/vm.rs: the bytecode machine. A program is a list of bytes, and a byte is
-- a number below 256. The children hold the opcodes, the validator and the theorems.
pub mod Opcode
pub mod Validate
pub mod Fuel
pub mod Safety
pub mod Listing
use Opcode.{Op, decode}
use prisoners_arena_program.Base.{
  ℕ, zero, suc, ◌+◌, ◌-◌, ◌*◌, min, Bool, true, false, ◌&&◌, ◌||◌, Option, none, some, List, [],
  ◌∷◌, ltb, leb, ◌==◌, if◌then◌else◌, length, get_elem?, get_or, set, replicate, last?, bind,
}
use prisoners_arena_program.Random.{SeededRng, next_percent}
use prisoners_arena_program.Moves.{
  Move, cooperate, defect, History, is_defect, payoff, or_cooperate,
}

abbrev pub max_bytecode_len : ℕ
max_bytecode_len = 64

abbrev pub max_fuel : ℕ
max_fuel = 128

abbrev pub stack_size : ℕ
stack_size = 8

-- The locals of `execute_inner` and the generator that it advances.
pub record Machine : Type 0 where
  pub stack : List ℕ
  pub sp : ℕ
  pub pc : ℕ
  pub rng : SeededRng

-- The arguments of `execute_inner` that do not change.
pub record Input : Type 0 where
  pub bytecode : List ℕ
  pub opponent_history : History
  pub my_history : History
  pub round : ℕ

infixl 5 ◌>>=◌
abbrev pub ◌>>=◌ {ℓ κ} : {A : Type ℓ} {B : Type κ} → Option A → (A → Option B) → Option B
m >>= f = bind m f

unfoldable pub push : Machine → ℕ → Option Machine
push m val =
    if leb stack_size m.sp
    then none
    else some (record m { stack = set m.stack m.sp val; sp = m.sp + 1 })

unfoldable pub pop : Machine → Option (ℕ × Machine)
pop m = if m.sp == 0 then none else some (get_or m.stack (m.sp - 1) 0, record m { sp = m.sp - 1 })

unfoldable pub move_to_u8 : Option Move → ℕ
move_to_u8 none = 0
move_to_u8 (some cooperate) = 0
move_to_u8 (some defect) = 1

unfoldable pub history_n_ago : History → ℕ → ℕ
unfolding move_to_u8
history_n_ago history n =
    if leb (length history) n then 0 else move_to_u8 (get_elem? history (length history - 1 - n))

-- `history.iter().filter(|m| **m == Move::Defect).count()`
unfoldable pub defections : History → ℕ
defections [] = 0
defections (m ∷ ms) = if is_defect m then suc (defections ms) else defections ms

unfoldable pub count_defects : History → ℕ
count_defects history = min (defections history) 255

-- `u8::from(b)`
abbrev pub from_bool : Bool → ℕ
from_bool true = 1
from_bool false = 0

abbrev pub is_zero : ℕ → Bool
is_zero a = a == 0

abbrev pub is_nonzero : ℕ → Bool
is_nonzero a = ltb 0 a

abbrev pub saturating_add : ℕ → ℕ → ℕ
saturating_add a b = min (a + b) 255

abbrev pub saturating_mul : ℕ → ℕ → ℕ
saturating_mul a b = min (a * b) 255

-- The value of `SCORE_LAST`, by the last moves.
unfoldable pub score_last : Option Move → Option Move → ℕ
score_last none opp = 3
score_last (some mine) none = (payoff mine cooperate).0
score_last (some mine) (some opp) = (payoff mine opp).0

-- `pc += 1`
abbrev pub next_pc : Machine → Machine
next_pc m = record m { pc = m.pc + 1 }

-- The arms that push one value, and those that take one or two operands and push a result.
unfoldable pub push_next : ℕ → Machine → Option Machine
unfolding push
push_next v m = do m' ← push m v; some (next_pc m')

unary : (ℕ → ℕ) → Machine → Option Machine
unfolding pop push_next
unary f m = do (a, m') ← pop m; push_next (f a) m'

binary : (ℕ → ℕ → ℕ) → Machine → Option Machine
unfolding pop push_next
binary f m = do (b, m₁) ← pop m; (a, m₂) ← pop m₁; push_next (f a b) m₂

dup : Machine → Option Machine
unfolding pop push push_next
dup m = do (a, m₁) ← pop m; m₂ ← push m₁ a; push_next a m₂

-- What one turn of the `while` loop does, when it does not leave by `?`.
pub data Progress : Type 0 where
  returned : Move → Progress
  running : Machine → Progress

abbrev go : Option Machine → Option Progress
go m = do m' ← m; some (running m')

jump : ℕ → Machine → Machine
jump offset m = record m { pc = m.pc + 2 + offset }

unfoldable pub step : Input → Op → Machine → Option Progress
unfolding push pop push_next unary binary dup jump score_last
step i Op.coop m = some (returned cooperate)
step i Op.defect m = some (returned defect)
step i Op.return m = do (v, _) ← pop m; some (returned (if v == 0 then cooperate else defect))
step i Op.push m = do
  imm ← get_elem? i.bytecode (m.pc + 1)
  m' ← push m imm
  some (running (record m' { pc = m'.pc + 2 }))
step i Op.opp_last m = go (push_next (move_to_u8 (last? i.opponent_history)) m)
step i Op.my_last m = go (push_next (move_to_u8 (last? i.my_history)) m)
step i Op.opp_n m = go (unary (history_n_ago i.opponent_history) m)
step i Op.my_n m = go (unary (history_n_ago i.my_history) m)
step i Op.opp_defects m = go (push_next (count_defects i.opponent_history) m)
step i Op.my_defects m = go (push_next (count_defects i.my_history) m)
step i Op.round m = go (push_next i.round m)
step i Op.rand m = let (v, rng) = next_percent m.rng in go (push_next v (record m { rng = rng }))
step i Op.add m = go (binary saturating_add m)
step i Op.sub m = go (binary (λ a b. a - b) m)
step i Op.mul m = go (binary saturating_mul m)
step i Op.gt m = go (binary (λ a b. from_bool (ltb b a)) m)
step i Op.lt m = go (binary (λ a b. from_bool (ltb a b)) m)
step i Op.eq m = go (binary (λ a b. from_bool (a == b)) m)
step i Op.not m = go (unary (λ a. from_bool (is_zero a)) m)
step i Op.and m = go (binary (λ a b. from_bool (is_nonzero a && is_nonzero b)) m)
step i Op.or m = go (binary (λ a b. from_bool (is_nonzero a || is_nonzero b)) m)
step i Op.dup m = go (dup m)
step i Op.jmp_fwd m = do offset ← get_elem? i.bytecode (m.pc + 1); some (running (jump offset m))
step i Op.jmp_fwd_if m = do
  (condition, m') ← pop m
  offset ← get_elem? i.bytecode (m.pc + 1)
  some (running (if is_nonzero condition then jump offset m' else record m' { pc = m'.pc + 2 }))
step i Op.score_last m =
    go (push_next (score_last (last? i.my_history) (last? i.opponent_history)) m)

-- One turn at a `pc` inside the program: fetch, decode, execute.
unfoldable pub turn : Input → Machine → Option Progress
turn i m = do opcode ← get_elem? i.bytecode m.pc; op ← decode opcode; step i op m

-- The `while` loop; the first argument is `MAX_FUEL - fuel`. At 0 both exits give `None`.
unfoldable pub run : ℕ → Input → Machine → Option Move
run zero i m = none
run (suc fuel) i m = elim (ltb m.pc (length i.bytecode)) [
  | false ↦ none
  | true ↦ elim (turn i m) [
    | none ↦ none
    | some (returned mv) ↦ some mv
    | some (running m') ↦ run fuel i m'
  ]
]

abbrev pub start : SeededRng → Machine
start rng = record { stack = replicate stack_size 0; sp = 0; pc = 0; rng = rng }

-- `execute_inner`. The generator is made for this one call, so its last state is not returned.
unfoldable pub execute_inner : Input → SeededRng → Option Move
execute_inner i rng = run max_fuel i (start rng)

unfoldable pub execute_bytecode : Input → SeededRng → Move
execute_bytecode i rng = or_cooperate (execute_inner i rng)
