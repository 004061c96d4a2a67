-- ===== src/Elf/Alias.antt =====
-- The check of `ImageLoadPlan::apply` of src/elf_loader.cpp that no two chunks share a byte.
use verilator_axi_testbench.Common.{
  Each, Each-mono, ℕ, ◌+◌, ◌-◌, ◌≤◌, ◌≡◌, ◌≢◌, ◌⊎◌, refl, Bool, true, false, ◌==◌, ◌&&◌, ltb, List,
  [], ◌∷◌, ◌++◌, Option, none, some, ok, arith, >>-eq-ok, ◌>>◌, ◌>>=◌, >>=-eq-ok, add_u64, sub_u64,
  u64_max, throw_if, elf_error, overlaps_range,
}
use native.Mathlib.Nat.{mod-eq_of_lt}
use verilator_axi_testbench.Device.{Device}
use verilator_axi_testbench.Space.{Mapping, AddressSpace, resolve}
use verilator_axi_testbench.Space.Resolve.{Holds}
use verilator_axi_testbench.Elf.Overlap.{IsPairwise}
use verilator_axi_testbench.Elf.Segments.{validate_load_target}
use verilator_axi_testbench.Elf.Plan.{Chunk, check_chunks, check_earlier, aliased, mapping_at}

abbrev pub target_of : AddressSpace → Chunk → Option Mapping
target_of space c = resolve space c.segment.load_address c.segment.memory_size

-- A later chunk `b` shares no byte of a device with `c`, as `apply` tests it.
abbrev pub IsClear : AddressSpace → Chunk → Chunk → Type 0
IsClear space c b =
    (m n : Mapping)
    → target_of space c ≡ some m
    → target_of space b ≡ some n
    → aliased n b.segment m c.segment ≡ false

mapping_at-some : (o : Option Mapping) {m n : Mapping} → o ≡ some m → mapping_at o ≡ ok n → n ≡ m
mapping_at-some none h e = absurd cc
mapping_at-some (some x) h e = cc

not_thrown : (b : Bool) → throw_if b (elf_error overlaps_range) ≡ ok tt → b ≡ false
not_thrown true e = absurd cc
not_thrown false e = refl

check_earlier-IsClear :
    (space : AddressSpace) (b : Chunk) (seen : List Chunk)
    → check_earlier space b.segment (target_of space b) seen ≡ ok tt
    → Each (λ c. IsClear space c b) seen
unfolding check_earlier
check_earlier-IsClear space b [] e = tt
check_earlier-IsClear space b (c ∷ seen) e =
    let rest = check_earlier space b.segment (target_of space b) seen in
    let test = λ (n m : Mapping).
      throw_if (aliased n b.segment m c.segment) (elf_error overlaps_range) >> rest in
    let (n, n_eq, e1) =
      >>=-eq-ok (mapping_at (target_of space b))
        (λ n. mapping_at (target_of space c) >>= λ m. test n m) e in
    let (m, m_eq, e2) = >>=-eq-ok (mapping_at (target_of space c)) (test n) e1 in
    let (clear, e3) =
      >>-eq-ok (throw_if (aliased n b.segment m c.segment) (elf_error overlaps_range)) rest e2 in
    (
      (λ m' n' c_eq b_eq.
          rw
            (
              ← mapping_at-some (target_of space b) b_eq n_eq,
              ← mapping_at-some (target_of space c) c_eq m_eq,
            )
            (not_thrown (aliased n b.segment m c.segment) clear)),
      check_earlier-IsClear space b seen e3,
    )

Each-append {ℓ κ} :
    {A : Type ℓ} (P : A → Type κ) (xs ys : List A) → Each P (xs ++ ys) → Each P xs × Each P ys
Each-append P [] ys h = (tt, h)
Each-append P (x ∷ xs) ys (p, h) = let (a, b) = Each-append P xs ys h in ((p, a), b)

module _ {ℓ} {D : Type ℓ} ⦃ops : Device D⦄ (space : AddressSpace) (devices : List D) where
  -- Each chunk is clear of those seen, and of those before it.
  pub check_chunks-IsClear :
      (seen cs : List Chunk)
      → check_chunks space devices seen cs ≡ ok tt
      → Each (λ b. Each (λ c. IsClear space c b) seen) cs × IsPairwise (IsClear space) cs
  unfolding check_chunks
  check_chunks-IsClear seen [] e = (tt, tt)
  check_chunks-IsClear seen (a ∷ cs) e =
      let later = check_chunks space devices (seen ++ a ∷ []) cs in
      let (valid, e1) =
        >>-eq-ok (validate_load_target space devices a.segment)
          (check_earlier space a.segment (target_of space a) seen >> later) e in
      let (clear, e2) =
        >>-eq-ok (check_earlier space a.segment (target_of space a) seen) later e1 in
      let (each, pairs) = check_chunks-IsClear (seen ++ a ∷ []) cs e2 in
      let split = λ (b : Chunk) (h : Each (λ c. IsClear space c b) (seen ++ a ∷ [])).
        Each-append (λ c. IsClear space c b) seen (a ∷ []) h in
      (
        (
          check_earlier-IsClear space a seen clear,
          Each-mono (λ b. Each (λ c. IsClear space c b) (seen ++ a ∷ []))
              (λ b. Each (λ c. IsClear space c b) seen) cs (λ b h. (split b h).0) each,
        ),
        (
          Each-mono (λ b. Each (λ c. IsClear space c b) (seen ++ a ∷ [])) (IsClear space a) cs
              (λ b h. (split b h).1.0) each,
          pairs,
        ),
      )

-- What the test on two chunks excludes, at their offsets in a device.
pub aliased-apart :
    (n m : Mapping) (b c : Chunk)
    → n.base + n.size ≤ u64_max
    → m.base + m.size ≤ u64_max
    → Holds n b.segment.load_address b.segment.memory_size
    → Holds m c.segment.load_address c.segment.memory_size
    → aliased n b.segment m c.segment ≡ false
    → (n.device ≢ m.device)
      ⊎ (b.segment.load_address - n.base + b.segment.memory_size ≤ c.segment.load_address - m.base)
      ⊎ (c.segment.load_address - m.base + c.segment.memory_size ≤ b.segment.load_address - n.base)
unfolding aliased
aliased-apart n m b c n_ends m_ends bh ch e =
    let ao = b.segment.load_address - n.base in
    let bo = c.segment.load_address - m.base in
    let a_off : sub_u64 b.segment.load_address n.base ≡ ao = omega arith in
    let b_off : sub_u64 c.segment.load_address m.base ≡ bo = omega arith in
    let a_end : add_u64 ao b.segment.memory_size ≡ ao + b.segment.memory_size =
      mod-eq_of_lt (omega arith) in
    let b_end : add_u64 bo c.segment.memory_size ≡ bo + c.segment.memory_size =
      mod-eq_of_lt (omega arith) in
    apart ao (bo + c.segment.memory_size) bo (ao + b.segment.memory_size)
      (rw (a_off, b_off, a_end, b_end) at e)
  where
    apart :
        (x y' y x' : ℕ)
        → (n.device == m.device && ltb x y' && ltb y x') ≡ false
        → (n.device ≢ m.device) ⊎ (x' ≤ y) ⊎ (y' ≤ x)
    apart x y' y x' e = ground (arith, e)
