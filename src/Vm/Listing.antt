-- ===== src/Vm/Listing.antt =====
-- What `validate_bytecode` of crates/match-logic/src/vm.rs accepts, by a description of its own:
-- the listings of instructions, and the bytes that they assemble to.
use prisoners_arena_program.Base.{
  ℕ, zero, suc, ◌+◌, ◌≤◌, ◌<◌, ◌≡◌, ◌↔◌, ◌⊎◌, inl, inr, refl, Bool, true, false, some, arith, List,
  [], ◌∷◌, ok, length, get_elem?, Option-cases, ◌∙◌,
}
use prisoners_arena_program.Vm.Opcode.{Op, opcodes, decode}
use prisoners_arena_program.Vm.Validate.{
  Shape, terminal, plain, immediate, jump, shape, scan, validate_bytecode,
}

-- The byte of an opcode.
pub code : Op → ℕ
code Op.coop = 0x00
code Op.push = 0x01
code Op.opp_last = 0x02
code Op.my_last = 0x03
code Op.opp_n = 0x04
code Op.my_n = 0x05
code Op.opp_defects = 0x06
code Op.my_defects = 0x07
code Op.round = 0x08
code Op.rand = 0x09
code Op.add = 0x0A
code Op.sub = 0x0B
code Op.mul = 0x0C
code Op.gt = 0x0D
code Op.lt = 0x0E
code Op.eq = 0x0F
code Op.not = 0x10
code Op.and = 0x11
code Op.or = 0x12
code Op.dup = 0x13
code Op.jmp_fwd = 0x14
code Op.jmp_fwd_if = 0x15
code Op.defect = 0x16
code Op.score_last = 0x17
code Op.return = 0x18

-- An opcode alone, or one with the byte behind it.
pub data Instruction : Type 0 where
  alone : Op → Instruction
  followed : Op → ℕ → Instruction

pub assemble : List Instruction → List ℕ
assemble [] = []
assemble (alone op ∷ is) = code op ∷ assemble is
assemble (followed op b ∷ is) = code op ∷ b ∷ assemble is

-- An instruction at `pc` has the byte that it needs: PUSH and the two jumps one, the others none. A
-- jump does not pass the end.
abbrev pub Fits : ℕ → ℕ → Instruction → Type 0
Fits len pc (alone Op.push) = ⊥
Fits len pc (alone Op.jmp_fwd) = ⊥
Fits len pc (alone Op.jmp_fwd_if) = ⊥
Fits len pc (alone _) = Unit
Fits len pc (followed Op.push b) = Unit
Fits len pc (followed Op.jmp_fwd b) = pc + 2 + b ≤ len
Fits len pc (followed Op.jmp_fwd_if b) = pc + 2 + b ≤ len
Fits len pc (followed _ b) = ⊥

abbrev pub size : Instruction → ℕ
size (alone op) = 1
size (followed op b) = 2

abbrev pub AllFit : ℕ → ℕ → List Instruction → Type 0
AllFit len pc [] = Unit
AllFit len pc (i ∷ is) = Fits len pc i × AllFit len (pc + size i) is

-- COOP, DEFECT and RETURN end a program.
abbrev pub IsTerminal : Instruction → Type 0
IsTerminal (alone Op.coop) = Unit
IsTerminal (alone Op.defect) = Unit
IsTerminal (alone Op.return) = Unit
IsTerminal _ = ⊥

abbrev pub HasTerminal : List Instruction → Type 0
HasTerminal [] = ⊥
HasTerminal (i ∷ is) = IsTerminal i ⊎ HasTerminal is

-- The same by the shapes of the opcodes.
abbrev Suits : ℕ → ℕ → Instruction → Type 0
Suits len pc (alone op) = (shape op ≡ terminal) ⊎ (shape op ≡ plain)
Suits len pc (followed op b) = (shape op ≡ immediate) ⊎ ((shape op ≡ jump) × (pc + 2 + b ≤ len))

abbrev AllSuit : ℕ → ℕ → List Instruction → Type 0
AllSuit len pc [] = Unit
AllSuit len pc (i ∷ is) = Suits len pc i × AllSuit len (pc + size i) is

abbrev Ends : Instruction → Type 0
Ends (alone op) = shape op ≡ terminal
Ends (followed op b) = ⊥

abbrev SomeEnds : List Instruction → Type 0
SomeEnds [] = ⊥
SomeEnds (i ∷ is) = Ends i ⊎ SomeEnds is

Fits-Suits : (len pc : ℕ) (i : Instruction) → Fits len pc i → Suits len pc i
unfolding shape
Fits-Suits len pc (alone Op.push) h = absurd h
Fits-Suits len pc (alone Op.jmp_fwd) h = absurd h
Fits-Suits len pc (alone Op.jmp_fwd_if) h = absurd h
Fits-Suits len pc (alone Op.coop) h = inl refl
Fits-Suits len pc (alone Op.defect) h = inl refl
Fits-Suits len pc (alone Op.return) h = inl refl
Fits-Suits len pc (alone _) h = inr refl
Fits-Suits len pc (followed Op.push b) h = inl refl
Fits-Suits len pc (followed Op.jmp_fwd b) h = inr (refl, h)
Fits-Suits len pc (followed Op.jmp_fwd_if b) h = inr (refl, h)
Fits-Suits len pc (followed _ b) h = absurd h

Suits-Fits : (len pc : ℕ) (i : Instruction) → Suits len pc i → Fits len pc i
unfolding shape
Suits-Fits len pc (alone Op.push) (inl e) = cc
Suits-Fits len pc (alone Op.push) (inr e) = cc
Suits-Fits len pc (alone Op.jmp_fwd) (inl e) = cc
Suits-Fits len pc (alone Op.jmp_fwd) (inr e) = cc
Suits-Fits len pc (alone Op.jmp_fwd_if) (inl e) = cc
Suits-Fits len pc (alone Op.jmp_fwd_if) (inr e) = cc
Suits-Fits len pc (alone _) h = tt
Suits-Fits len pc (followed Op.push b) h = tt
Suits-Fits len pc (followed Op.jmp_fwd b) (inl e) = cc
Suits-Fits len pc (followed Op.jmp_fwd b) (inr h) = h.1
Suits-Fits len pc (followed Op.jmp_fwd_if b) (inl e) = cc
Suits-Fits len pc (followed Op.jmp_fwd_if b) (inr h) = h.1
Suits-Fits len pc (followed _ b) (inl e) = cc
Suits-Fits len pc (followed _ b) (inr h) = absurd (let e = h.0 in cc)

IsTerminal-Ends : (i : Instruction) → IsTerminal i → Ends i
unfolding shape
IsTerminal-Ends (alone Op.coop) h = refl
IsTerminal-Ends (alone Op.defect) h = refl
IsTerminal-Ends (alone Op.return) h = refl
IsTerminal-Ends (alone _) h = absurd h
IsTerminal-Ends (followed _ b) h = absurd h

Ends-IsTerminal : (i : Instruction) → Ends i → IsTerminal i
unfolding shape
Ends-IsTerminal (alone Op.coop) h = tt
Ends-IsTerminal (alone Op.defect) h = tt
Ends-IsTerminal (alone Op.return) h = tt
Ends-IsTerminal (alone _) h = cc
Ends-IsTerminal (followed _ b) h = absurd h

AllFit-AllSuit :
    (len pc : ℕ) (is : List Instruction)
    → (AllFit len pc is → AllSuit len pc is) × (AllSuit len pc is → AllFit len pc is)
AllFit-AllSuit len pc [] = (λ h. tt, λ h. tt)
AllFit-AllSuit len pc (i ∷ is) =
    let (there, back) = AllFit-AllSuit len (pc + size i) is in
    (λ (h, hs). (Fits-Suits len pc i h, there hs), λ (h, hs). (Suits-Fits len pc i h, back hs))

HasTerminal-SomeEnds : (is : List Instruction) → HasTerminal is → SomeEnds is
HasTerminal-SomeEnds [] h = h
HasTerminal-SomeEnds (i ∷ is) (inl h) = inl (IsTerminal-Ends i h)
HasTerminal-SomeEnds (i ∷ is) (inr h) = inr (HasTerminal-SomeEnds is h)

SomeEnds-HasTerminal : (is : List Instruction) → SomeEnds is → HasTerminal is
SomeEnds-HasTerminal [] h = h
SomeEnds-HasTerminal (i ∷ is) (inl h) = inl (Ends-IsTerminal i h)
SomeEnds-HasTerminal (i ∷ is) (inr h) = inr (SomeEnds-HasTerminal is h)

-- The table of opcodes is in the order of their bytes.
abbrev Numbered : ℕ → List Op → Type 0
Numbered k [] = Unit
Numbered k (op ∷ ops) = (code op ≡ k) × Numbered (suc k) ops

opcodes-Numbered : Numbered 0 opcodes
unfolding code
opcodes-Numbered = omega arith

Numbered-get_elem? :
    (k : ℕ) (ops : List Op) (n : ℕ) (op : Op)
    → Numbered k ops
    → get_elem? ops n ≡ some op
    → code op ≡ k + n
Numbered-get_elem? k [] n op h e = cc
Numbered-get_elem? k (o ∷ ops) zero op h e = ground arith
Numbered-get_elem? k (o ∷ ops) (suc n) op h e =
    omega (arith, Numbered-get_elem? (suc k) ops n op h.1 e)

decode-eq-some : (n : ℕ) (op : Op) → decode n ≡ some op → code op ≡ n
unfolding decode
decode-eq-some n op e = omega (arith, Numbered-get_elem? 0 opcodes n op opcodes-Numbered e)

decode-code : (op : Op) → decode (code op) ≡ some op
unfolding decode code
decode-code Op.coop = refl
decode-code _ = refl

-- What a passed scan has read.
abbrev Reading : ℕ → ℕ → Bool → List ℕ → Type 0
Reading len pc t bytes =
    (is : List Instruction) × (assemble is ≡ bytes) × AllSuit len pc is × ((t ≡ true) ⊎ SomeEnds is)

module _ (len pc : ℕ) (t : Bool) (op : Op) (b : ℕ) (coded : code op ≡ b) where
  read_terminal :
      (bytes : List ℕ)
      → shape op ≡ terminal
      → Reading len (pc + 1) true bytes
      → Reading len pc t (b ∷ bytes)
  unfolding assemble
  read_terminal bytes s (is, e, f, _) = (alone op ∷ is, cc, (inl s, f), inr (inl s))

  read_plain :
      (bytes : List ℕ)
      → shape op ≡ plain
      → Reading len (pc + 1) t bytes
      → Reading len pc t (b ∷ bytes)
  unfolding assemble
  read_plain bytes s (is, e, f, inl u) = (alone op ∷ is, cc, (inr s, f), inl u)
  read_plain bytes s (is, e, f, inr u) = (alone op ∷ is, cc, (inr s, f), inr (inr u))

  read_followed :
      (imm : ℕ) (bytes : List ℕ)
      → Suits len pc (followed op imm)
      → Reading len (pc + 2) t bytes
      → Reading len pc t (b ∷ imm ∷ bytes)
  unfolding assemble
  read_followed imm bytes s (is, e, f, inl u) = (followed op imm ∷ is, cc, (s, f), inl u)
  read_followed imm bytes s (is, e, f, inr u) = (followed op imm ∷ is, cc, (s, f), inr (inr u))

Shape-cases : (s : Shape) → (s ≡ terminal) ⊎ ((s ≡ plain) ⊎ ((s ≡ immediate) ⊎ (s ≡ jump)))
Shape-cases terminal = inl refl
Shape-cases plain = inr (inl refl)
Shape-cases immediate = inr (inr (inl refl))
Shape-cases jump = inr (inr (inr refl))

scan-Reading :
    (len pc : ℕ) (t : Bool) (bytes : List ℕ) → scan len pc t bytes ≡ ok tt → Reading len pc t bytes
unfolding scan assemble
scan-Reading len pc true [] h = ([], refl, tt, inl refl)
scan-Reading len pc false [] h = cc
scan-Reading len pc t (b ∷ []) h = elim (Option-cases (decode b)) [
  | inl e ↦ absurd (ground arith)
  | inr (op, e) ↦ elim (Shape-cases (shape op)) [
    | inl s ↦
        read_terminal len pc t op b (decode-eq-some b op e) [] s
          (scan-Reading len (pc + 1) true [] (ground arith))
    | inr (inl s) ↦
        read_plain len pc t op b (decode-eq-some b op e) [] s
          (scan-Reading len (pc + 1) t [] (ground arith))
    | inr (inr (inl s)) ↦ absurd (ground arith)
    | inr (inr (inr s)) ↦ absurd (ground arith)
  ]
]
scan-Reading len pc t (b ∷ imm ∷ rest) h = elim (Option-cases (decode b)) [
  | inl e ↦ absurd (ground arith)
  | inr (op, e) ↦ elim (Shape-cases (shape op)) [
    | inl s ↦
        read_terminal len pc t op b (decode-eq-some b op e) (imm ∷ rest) s
          (scan-Reading len (pc + 1) true (imm ∷ rest) (ground arith))
    | inr (inl s) ↦
        read_plain len pc t op b (decode-eq-some b op e) (imm ∷ rest) s
          (scan-Reading len (pc + 1) t (imm ∷ rest) (ground arith))
    | inr (inr (inl s)) ↦
        read_followed len pc t op b (decode-eq-some b op e) imm rest (inl s)
          (scan-Reading len (pc + 2) t rest (ground arith))
    | inr (inr (inr s)) ↦
        read_followed len pc t op b (decode-eq-some b op e) imm rest (inr (s, ground arith))
          (scan-Reading len (pc + 2) t rest (ground arith))
  ]
]

-- A scan of an opcode, by its shape, whatever follows.
module _ (len pc : ℕ) (t : Bool) (op : Op) (rest : List ℕ) where
  scan-terminal : shape op ≡ terminal → scan len pc t (code op ∷ rest) ≡ scan len (pc + 1) true rest
  unfolding scan
  scan-terminal s = elim rest as (λ r. scan len pc t (code op ∷ r) ≡ scan len (pc + 1) true r) [
    | [] ↦ ground (arith, decode-code op)
    | x ∷ xs ↦ ground (arith, decode-code op)
  ]

  scan-plain : shape op ≡ plain → scan len pc t (code op ∷ rest) ≡ scan len (pc + 1) t rest
  unfolding scan
  scan-plain s = elim rest as (λ r. scan len pc t (code op ∷ r) ≡ scan len (pc + 1) t r) [
    | [] ↦ ground (arith, decode-code op)
    | x ∷ xs ↦ ground (arith, decode-code op)
  ]

  scan-followed :
      (imm : ℕ)
      → Suits len pc (followed op imm)
      → scan len pc t (code op ∷ imm ∷ rest) ≡ scan len (pc + 2) t rest
  unfolding scan
  scan-followed imm s = ground (arith, decode-code op)

scan-assemble :
    (len pc : ℕ) (t : Bool) (is : List Instruction)
    → AllSuit len pc is
    → (t ≡ true) ⊎ SomeEnds is
    → scan len pc t (assemble is) ≡ ok tt
unfolding assemble
scan-assemble len pc t [] f (inl e) = unfold scan in rw e
scan-assemble len pc t [] f (inr u) = absurd u
scan-assemble len pc t (alone op ∷ is) (inl s, f) h =
    scan-terminal len pc t op (assemble is) s ∙ scan-assemble len (pc + 1) true is f (inl refl)
scan-assemble len pc t (alone op ∷ is) (inr s, f) h =
    scan-plain len pc t op (assemble is) s ∙ scan-assemble len (pc + 1) t is f (later h)
  where
    later : (t ≡ true) ⊎ (Ends (alone op) ⊎ SomeEnds is) → (t ≡ true) ⊎ SomeEnds is
    later (inl e) = inl e
    later (inr (inl u)) = cc
    later (inr (inr u)) = inr u
scan-assemble len pc t (followed op b ∷ is) (s, f) h =
    scan-followed len pc t op (assemble is) b s ∙ scan-assemble len (pc + 2) t is f (later h)
  where
    later : (t ≡ true) ⊎ (Ends (followed op b) ⊎ SomeEnds is) → (t ≡ true) ⊎ SomeEnds is
    later (inl e) = inl e
    later (inr (inl u)) = absurd u
    later (inr (inr u)) = inr u

-- A program of 1 to 64 bytes that is the assembly of a list of instructions, each with the byte
-- that it needs, no jump past the end, and one of them a terminal.
abbrev pub IsProgram : List ℕ → Type 0
IsProgram bytecode =
    (0 < length bytecode)
    × (length bytecode ≤ 64)
    × ((is : List Instruction) × (assemble is ≡ bytecode)
        × AllFit (length bytecode) 0 is
        × HasTerminal is)

no_start : {P : Type 0} → (false ≡ true) ⊎ P → P
no_start (inl e) = cc
no_start (inr p) = p

accepted : (bytecode : List ℕ) → validate_bytecode bytecode ≡ ok tt → IsProgram bytecode
unfolding validate_bytecode
accepted bytecode h =
    let (is, e, f, u) = scan-Reading (length bytecode) 0 false bytecode (ground arith) in
    let (_, back) = AllFit-AllSuit (length bytecode) 0 is in
    (ground arith, ground arith, (is, e, back f, SomeEnds-HasTerminal is (no_start u)))

accepts : (bytecode : List ℕ) → IsProgram bytecode → validate_bytecode bytecode ≡ ok tt
unfolding validate_bytecode
accepts bytecode (p, q, (is, e, f, u)) =
    let scanned : scan (length bytecode) 0 false (assemble is) ≡ ok tt =
      scan-assemble (length bytecode) 0 false is ((AllFit-AllSuit (length bytecode) 0 is).0 f)
        (inr (HasTerminal-SomeEnds is u)) in
    ground arith

-- `validate_bytecode` accepts a program exactly when it has 1 to 64 bytes and is the assembly of a
-- list of instructions, each with the byte that it needs, no jump past the end, one a terminal.
pub validate_bytecode_iff :
    (bytecode : List ℕ) → (validate_bytecode bytecode ≡ ok tt) ↔ IsProgram bytecode
validate_bytecode_iff bytecode = (accepted bytecode, accepts bytecode)
