-- ===== src/Vm/Safety.antt =====
-- The bounds of the machine of crates/match-logic/src/vm.rs: indexes into its stack and bytes.
use prisoners_arena_program.Base.{
  ℕ, zero, suc, ◌+◌, ◌-◌, ◌≤◌, ◌<◌, ◌≡◌, Bool, true, false, Option, none, some, arith, List, [],
  ◌∷◌, length, get_elem?, get_or, set, length-set, Option-cases, inl, inr, bind, if◌then◌else◌,
}
use prisoners_arena_program.Random.{SeededRng, next_percent, next_percent-lt}
use prisoners_arena_program.Moves.{Move, payoff, History}
use prisoners_arena_program.Vm.Opcode.{Op, decode}
use prisoners_arena_program.Vm.{
  Machine, Input, Progress, returned, running, step, turn, start, push, pop, push_next, unary,
  binary, dup, jump, from_bool, score_last, count_defects, move_to_u8, history_n_ago, ◌>>=◌, go,
  is_nonzero,
}

abbrev pub IsByte : ℕ → Type 0
IsByte v = v < 256

abbrev pub AllBytes : List ℕ → Type 0
AllBytes [] = Unit
AllBytes (v ∷ vs) = IsByte v × AllBytes vs

-- The array has its eight slots of bytes, and `sp` points into it or just past it.
pub record IsValid (m : Machine) : Type 0 where
  pub slots : length m.stack ≡ 8
  pub depth : m.sp ≤ 8
  pub bytes : AllBytes m.stack

AllBytes-set : (xs : List ℕ) (i v : ℕ) → AllBytes xs → IsByte v → AllBytes (set xs i v)
AllBytes-set [] i v h b = tt
AllBytes-set (x ∷ xs) zero v h b = (b, h.1)
AllBytes-set (x ∷ xs) (suc i) v h b = (h.0, AllBytes-set xs i v h.1 b)

AllBytes-get_or : (xs : List ℕ) (i : ℕ) → AllBytes xs → IsByte (get_or xs i 0)
AllBytes-get_or [] i h = omega arith
AllBytes-get_or (x ∷ xs) zero h = h.0
AllBytes-get_or (x ∷ xs) (suc i) h = AllBytes-get_or xs i h.1

-- What holds of a result, if there is one, and how it goes through the `?` operator.
abbrev Every {ℓ} : {A : Type ℓ} → (A → Type 0) → Option A → Type 0
Every P none = Unit
Every P (some a) = P a

Every-bind {ℓ κ} :
    {A : Type ℓ} {B : Type κ} (P : A → Type 0) (Q : B → Type 0) (o : Option A) (f : A → Option B)
    → Every P o
    → ((a : A) → P a → Every Q (f a))
    → Every Q (o >>= f)
Every-bind P Q none f h k = tt
Every-bind P Q (some a) f h k = k a h

get_elem?-Every : (xs : List ℕ) (i : ℕ) → AllBytes xs → Every IsByte (get_elem? xs i)
get_elem?-Every [] i h = tt
get_elem?-Every (x ∷ xs) zero h = h.0
get_elem?-Every (x ∷ xs) (suc i) h = get_elem?-Every xs i h.1

abbrev Popped : ℕ × Machine → Type 0
Popped (v, m) = IsByte v × IsValid m

abbrev Proceeds : Progress → Type 0
Proceeds (returned mv) = Unit
Proceeds (running m) = IsValid m

push-Every : (m : Machine) (v : ℕ) → IsValid m → IsByte v → Every IsValid (push m v)
unfolding push
push-Every m v h b =
    ground (arith, AllBytes-set m.stack m.sp v h.bytes b, length-set m.stack m.sp v)

pop-Every : (m : Machine) → IsValid m → Every Popped (pop m)
unfolding pop
pop-Every m h = ground (arith, AllBytes-get_or m.stack (m.sp - 1) h.bytes)

-- The program counter is no part of the invariant.
pc-IsValid : (m : Machine) (pc : ℕ) → IsValid m → IsValid (record m { pc = pc })
pc-IsValid m pc h = record { slots = h.slots; depth = h.depth; bytes = h.bytes }

push_next-Every : (m : Machine) (v : ℕ) → IsValid m → IsByte v → Every IsValid (push_next v m)
unfolding push_next
push_next-Every m v h b =
    Every-bind IsValid IsValid (push m v) _ (push-Every m v h b) λ m' h'. pc-IsValid m' _ h'

unary-Every :
    (f : ℕ → ℕ)
    → ((a : ℕ) → IsByte a → IsByte (f a))
    → (m : Machine) → IsValid m
    → Every IsValid (unary f m)
unfolding unary
unary-Every f hf m h =
    Every-bind Popped IsValid (pop m) _ (pop-Every m h)
      λ p hp. push_next-Every p.1 (f p.0) hp.1 (hf p.0 hp.0)

binary-Every :
    (f : ℕ → ℕ → ℕ)
    → ((a b : ℕ) → IsByte a → IsByte b → IsByte (f a b))
    → (m : Machine) → IsValid m
    → Every IsValid (binary f m)
unfolding binary
binary-Every f hf m h = Every-bind Popped IsValid (pop m) _ (pop-Every m h) λ p hp.
    Every-bind Popped IsValid (pop p.1) _ (pop-Every p.1 hp.1)
      λ q hq. push_next-Every q.1 (f q.0 p.0) hq.1 (hf q.0 p.0 hq.0 hp.0)

dup-Every : (m : Machine) → IsValid m → Every IsValid (dup m)
unfolding dup
dup-Every m h = Every-bind Popped IsValid (pop m) _ (pop-Every m h) λ p hp.
    Every-bind IsValid IsValid (push p.1 p.0) _ (push-Every p.1 p.0 hp.1 hp.0)
      λ m₂ h₂. push_next-Every m₂ p.0 h₂ hp.0

go-Every : (o : Option Machine) → Every IsValid o → Every Proceeds (go o)
go-Every none h = tt
go-Every (some m) h = h

history_n_ago-IsByte : (h : History) (n : ℕ) → IsByte (history_n_ago h n)
unfolding history_n_ago move_to_u8
history_n_ago-IsByte h n = ground arith

move_to_u8-IsByte : (m : Option Move) → IsByte (move_to_u8 m)
unfolding move_to_u8
move_to_u8-IsByte m = ground arith

count_defects-IsByte : (h : History) → IsByte (count_defects h)
unfolding count_defects
count_defects-IsByte h = omega arith

score_last-IsByte : (a b : Option Move) → IsByte (score_last a b)
unfolding score_last payoff
score_last-IsByte a b = ground arith

from_bool-IsByte : (b : Bool) → IsByte (from_bool b)
from_bool-IsByte b = ground arith

rand-IsByte : (rng : SeededRng) → IsByte (next_percent rng).0
rand-IsByte rng = omega (arith, next_percent-lt rng)

immediate-Every :
    (i : Input) (m : Machine) → AllBytes i.bytecode → Every IsByte (get_elem? i.bytecode (m.pc + 1))
immediate-Every i m c = get_elem?-Every i.bytecode (m.pc + 1) c

jump_if :
    (m : Machine)
    → IsValid m
    → (taken : Bool) (offset : ℕ)
    → Proceeds (running (if taken then jump offset m else record m { pc = m.pc + 2 }))
unfolding jump
jump_if m h true offset = pc-IsValid m _ h
jump_if m h false offset = pc-IsValid m _ h

-- One instruction keeps the array's size, the depth and the bytes, whatever the operands.
step-Every :
    (i : Input) (op : Op) (m : Machine)
    → AllBytes i.bytecode
    → IsByte i.round
    → IsValid m
    → Every Proceeds (step i op m)
unfolding step
step-Every i Op.coop m c r h = tt
step-Every i Op.defect m c r h = tt
step-Every i Op.return m c r h = Every-bind Popped Proceeds (pop m) _ (pop-Every m h) λ p hp. tt
step-Every i Op.push m c r h =
    Every-bind IsByte Proceeds (get_elem? i.bytecode (m.pc + 1)) _ (immediate-Every i m c) λ v b.
      Every-bind IsValid Proceeds (push m v) _ (push-Every m v h b) λ m' h'. pc-IsValid m' _ h'
step-Every i Op.opp_last m c r h = go-Every _ (push_next-Every m _ h (move_to_u8-IsByte _))
step-Every i Op.my_last m c r h = go-Every _ (push_next-Every m _ h (move_to_u8-IsByte _))
step-Every i Op.opp_n m c r h =
    go-Every _ (unary-Every _ (λ n _. history_n_ago-IsByte i.opponent_history n) m h)
step-Every i Op.my_n m c r h =
    go-Every _ (unary-Every _ (λ n _. history_n_ago-IsByte i.my_history n) m h)
step-Every i Op.opp_defects m c r h = go-Every _ (push_next-Every m _ h (count_defects-IsByte _))
step-Every i Op.my_defects m c r h = go-Every _ (push_next-Every m _ h (count_defects-IsByte _))
step-Every i Op.round m c r h = go-Every _ (push_next-Every m _ h r)
step-Every i Op.rand m c r h = go-Every _ (
    push_next-Every (record m { rng = (next_percent m.rng).1 }) _
      (record { slots = h.slots; depth = h.depth; bytes = h.bytes }) (rand-IsByte m.rng))
step-Every i Op.add m c r h = go-Every _ (binary-Every _ (λ a b _ _. omega arith) m h)
step-Every i Op.sub m c r h = go-Every _ (binary-Every _ (λ a b ha hb. omega arith) m h)
step-Every i Op.mul m c r h = go-Every _ (binary-Every _ (λ a b _ _. omega arith) m h)
step-Every i Op.gt m c r h = go-Every _ (binary-Every _ (λ a b _ _. from_bool-IsByte _) m h)
step-Every i Op.lt m c r h = go-Every _ (binary-Every _ (λ a b _ _. from_bool-IsByte _) m h)
step-Every i Op.eq m c r h = go-Every _ (binary-Every _ (λ a b _ _. from_bool-IsByte _) m h)
step-Every i Op.not m c r h = go-Every _ (unary-Every _ (λ a _. from_bool-IsByte _) m h)
step-Every i Op.and m c r h = go-Every _ (binary-Every _ (λ a b _ _. from_bool-IsByte _) m h)
step-Every i Op.or m c r h = go-Every _ (binary-Every _ (λ a b _ _. from_bool-IsByte _) m h)
step-Every i Op.dup m c r h = go-Every _ (dup-Every m h)
step-Every i Op.jmp_fwd m c r h =
    Every-bind IsByte Proceeds (get_elem? i.bytecode (m.pc + 1)) _ (immediate-Every i m c)
      λ v b. pc-IsValid m _ h
step-Every i Op.jmp_fwd_if m c r h = Every-bind Popped Proceeds (pop m) _ (pop-Every m h) λ p hp.
    Every-bind IsByte Proceeds (get_elem? i.bytecode (m.pc + 1)) _ (immediate-Every i m c)
      λ v b. jump_if p.1 hp.1 (is_nonzero p.0) v
step-Every i Op.score_last m c r h = go-Every _ (push_next-Every m _ h (score_last-IsByte _ _))

-- The machines that the loop passes through.
pub data Visits (i : Input) (rng : SeededRng) : Machine → Type 0 where
  begins : Visits i rng (start rng)
  moves : {m m' : Machine} → Visits i rng m → turn i m ≡ some (running m') → Visits i rng m'

Every-some {ℓ} : {A : Type ℓ} (P : A → Type 0) (o : Option A) {a : A} → Every P o → o ≡ some a → P a
Every-some P o h e = rw e at h

turn-Every :
    (i : Input) (m : Machine)
    → AllBytes i.bytecode
    → IsByte i.round
    → IsValid m
    → Every Proceeds (turn i m)
unfolding turn
turn-Every i m c r h = elim (Option-cases (get_elem? i.bytecode m.pc)) [
  | inl out ↦ rw (out, bind) tt
  | inr (opcode, e) ↦ elim (Option-cases (decode opcode)) [
    | inl unknown ↦ rw (e, bind) (rw (unknown, bind) tt)
    | inr (op, f) ↦ rw (e, bind) (rw (f, bind) (step-Every i op m c r h))
  ]
]

-- On a program and a round of bytes, at every turn of the loop: the stack array has its eight
-- slots, each holding a byte, and `sp` is at most 8, so every index that is used is in range.
pub Visits-IsValid :
    (i : Input) (rng : SeededRng) {m : Machine}
    → AllBytes i.bytecode
    → IsByte i.round
    → Visits i rng m
    → IsValid m
Visits-IsValid i rng c r begins = omega arith
Visits-IsValid i rng c r (moves {m = m} v e) =
    Every-some Proceeds (turn i m) (turn-Every i m c r (Visits-IsValid i rng c r v)) e
