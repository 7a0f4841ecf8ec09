-- ===== src/Interrupts/Descriptors.antt =====
-- Where the descriptors of interrupts lead.
use boi_os.Prelude.{
  ℕ, zero, suc, ◌+◌, ◌*◌, ◌/◌, ◌^◌, ◌<◌, ◌≡◌, ap, ◌∙◌, inl, inr, true, ◌==◌, ◌&&◌, leb, ltb,
  if◌then◌else◌, arith, Bool-cases, ==→eq,
}
use boi_os.Prelude.Bits.{bit_and-half}
use boi_os.Interrupts.{IdtDesc, idt_set, set_loop, idt_init}

-- The address of a descriptor, from its two halves, as the processor puts it together.
abbrev pub target : IdtDesc → ℕ
target desc = desc.offset_1 + 2 ^ 16 * desc.offset_2

-- A descriptor that is set leads to the address, and no other one changes.
idt_set_lem :
    (descs : ℕ → IdtDesc) (n address i : ℕ)
    → target (idt_set descs n address i) ≡ (if i == n then address else target (descs i))
unfolding idt_set
idt_set_lem descs n address i = elim (Bool-cases (i == n)) [
  | inl t ↦ rw t (ap (λ x. x + 2 ^ 16 * (address / 2 ^ 16)) (bit_and-half address) ∙ omega arith)
  | inr f ↦ rw f
]

set_loop_lem :
    (k : ℕ) (descs : ℕ → IdtDesc) (table : ℕ → ℕ) (j i : ℕ)
    → target (set_loop descs table j k i)
      ≡ (if leb j i && ltb i (j + k) then table i else target (descs i))
unfolding set_loop
set_loop_lem zero descs table j i = ground arith
set_loop_lem (suc k) descs table j i =
    set_loop_lem k (idt_set descs j (table j)) table (j + 1) i ∙ elim (Bool-cases (i == j)) [
      | inl t ↦ ground (arith, idt_set_lem descs j (table j) i, ap table (==→eq i j t))
      | inr f ↦ ground (arith, idt_set_lem descs j (table j) i)
    ]

-- After idt_init each of the 512 descriptors leads to its entry of the table of pointers, but those of 0 and
-- 0x80, which lead to idt_zero and to the wrapper of the system calls.
pub idt_init-target :
    (table : ℕ → ℕ) (idt_zero isr80h_wrapper i : ℕ)
    → i < 512
    → target (idt_init table idt_zero isr80h_wrapper i)
      ≡ (if i == 0x80 then isr80h_wrapper else if i == 0 then idt_zero else table i)
unfolding idt_init
idt_init-target table idt_zero isr80h_wrapper i lt =
    let cleared : ℕ → IdtDesc =
      λ i. record { offset_1 = 0; selector = 0; zero_byte = 0; type_attr = 0; offset_2 = 0 } in
    let all = set_loop cleared table 0 512 in
    let inside : (leb 0 i && ltb i (0 + 512)) ≡ true = ground arith in
    let filled : target (all i) ≡ table i = set_loop_lem 512 cleared table 0 i ∙ rw inside in
    let first : target (idt_set all 0 idt_zero i) ≡ (if i == 0 then idt_zero else table i) =
      idt_set_lem all 0 idt_zero i ∙ ap (λ x. if i == 0 then idt_zero else x) filled in
    idt_set_lem (idt_set all 0 idt_zero) 0x80 isr80h_wrapper i
    ∙ ap (λ x. if i == 0x80 then isr80h_wrapper else x) first
