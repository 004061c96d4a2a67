-- ===== src/Elf/Store.antt =====
-- `apply_segment` of src/elf_loader.cpp, over devices whose loads keep `LoadLaws`.
use verilator_axi_testbench.Common.{
  ℕ, zero, suc, ◌+◌, ◌-◌, min, ◌<◌, ◌≤◌, ◌≡◌, inl, inr, sym, ap, ◌∙◌, true, false, ◌==◌, ◌!=◌,
  if◌then◌else◌, List, [], ◌∷◌, ◌++◌, some, length, get_elem?, set, set-set, set-get_elem?,
  get_elem?-set_self, replicate, length-replicate, ok, arith, Bool-cases, add_u64, sub_u64,
  bss_rejected, data_rejected, ElfFault,
}
use native.Mathlib.Nat.{mod-eq_of_lt}
use verilator_axi_testbench.Device.{Device}
use verilator_axi_testbench.Device.Loading.{LoadLaws}
use verilator_axi_testbench.Space.{Mapping, AddressSpace, space_load}
use verilator_axi_testbench.Space.Sorted.{IsSorted, IsIn}
use verilator_axi_testbench.Space.Resolve.{Holds, IsSorted-bounds}
use verilator_axi_testbench.Space.Load.{space_load-held}
use verilator_axi_testbench.Elf.{ElfSegment, subspan}
use verilator_axi_testbench.Elf.Plan.{judge, zero_fill, apply_segment, store_file_bytes}

abbrev pub zeros : ℕ → List ℕ
zeros n = replicate n 0

replicate-append : (n k : ℕ) (v : ℕ) → replicate (n + k) v ≡ replicate n v ++ replicate k v
replicate-append zero k v = let e : 0 + k ≡ k = omega arith in rw e
replicate-append (suc n) k v =
    let e : suc n + k ≡ suc (n + k) = omega arith in
    rw e (ap (λ (xs : List ℕ). v ∷ xs) (replicate-append n k v))

module _ {ℓ} {D : Type ℓ} ⦃ops : Device D⦄ (laws : LoadLaws D) (space : AddressSpace)
    (sorted : IsSorted 0 space.mappings) where
  -- A range of one mapping that its device takes.
  abbrev pub IsRange : List D → Mapping → D → ℕ → ℕ → Type ℓ
  IsRange devices m d address n =
      IsIn m space.mappings
      × Holds m address n
      × (get_elem? devices m.device ≡ some d)
      × (ops.loadable d ≡ true)
      × (ops.can_load d (address - m.base) n ≡ true)

  -- The devices after a load of one of them.
  abbrev pub loaded : List D → Mapping → D → ℕ → List ℕ → List D
  loaded devices m d address xs = set devices m.device (ops.load d (address - m.base) xs).1

  judge-held :
      (devices : List D) (m : Mapping) (d : D) (address : ℕ) (xs : List ℕ) (fault : ElfFault)
      → IsRange devices m d address (length xs)
      → 0 < length xs
      → judge devices fault (space_load space devices address xs)
        ≡ (loaded devices m d address xs, ok tt)
  judge-held devices m d address xs fault (inside, held, at, loads, can) nonempty =
      let accepted = laws.load_accepts d (address - m.base) xs loads can in
      rw (
        space_load-held space devices address xs m d sorted inside nonempty held at loads can,
        accepted,
      )

  IsRange-part :
      (devices : List D) (m : Mapping) (d : D) (address k n : ℕ)
      → k ≤ n
      → IsRange devices m d address n
      → IsRange devices m d address k
  IsRange-part devices m d address k n le (inside, held, at, loads, can) =
      let o = address - m.base in
      (
        inside,
        (omega (arith, held), omega (arith, held)),
        at,
        loads,
        laws.can_load_part d o n o k can (omega arith) (omega arith),
      )

  -- What is left of a range behind bytes that are loaded.
  IsRange-rest :
      (devices : List D) (m : Mapping) (d : D) (address k n : ℕ) (xs : List ℕ)
      → length xs ≡ k
      → k ≤ n
      → IsRange devices m d address n
      → IsRange
          (loaded devices m d address xs)
          m
          (ops.load d (address - m.base) xs).1
          (address + k)
          (n - k)
  IsRange-rest devices m d address k n xs same le (inside, held, at, loads, can) =
      let o = address - m.base in
      let next : address + k - m.base ≡ o + k = omega (arith, held) in
      (
        inside,
        (omega (arith, held), omega (arith, held)),
        get_elem?-set_self devices m.device (ops.load d o xs).1 d at,
        laws.load_loadable d o xs ∙ loads,
        laws.load_can_load d o xs (address + k - m.base) (n - k)
            ∙ rw next (laws.can_load_part d o n (o + k) (n - k) can (omega arith) (omega arith)),
      )

  loaded-append :
      (devices : List D) (m : Mapping) (d : D) (address k : ℕ) (xs ys : List ℕ)
      → length xs ≡ k
      → IsRange devices m d address (k + length ys)
      → loaded
          (loaded devices m d address xs)
          m
          (ops.load d (address - m.base) xs).1
          (address + k)
          ys
        ≡ loaded devices m d address (xs ++ ys)
  loaded-append devices m d address k xs ys same (inside, held, at, loads, can) =
      let o = address - m.base in
      let next : address + k - m.base ≡ o + length xs = omega (arith, held) in
      let room : ops.can_load d o (length xs + length ys) ≡ true = rw same can in
      rw (next, set-set) (ap (set devices m.device) (sym (laws.load_append d o xs ys room)))

  loaded-empty :
      (devices : List D) (m : Mapping) (d : D) (address : ℕ)
      → get_elem? devices m.device ≡ some d
      → loaded devices m d address [] ≡ devices
  loaded-empty devices m d address at =
      rw (laws.load_empty d (address - m.base)) (set-get_elem? devices m.device d at)

  loaded-no_zeros :
      (devices : List D) (m : Mapping) (d : D) (address n : ℕ)
      → get_elem? devices m.device ≡ some d
      → n ≡ 0
      → loaded devices m d address (zeros n) ≡ devices
  loaded-no_zeros devices m d address n at none_left =
      rw none_left (loaded-empty devices m d address at)

  -- The loop that clears the BSS ends within one turn for each byte, and then has the effect of one
  -- load of zeros over the whole range, where one mapping holds the range and its device takes it.
  pub zero_fill-cleared :
      (fuel : ℕ) (devices : List D) (m : Mapping) (d : D) (address n : ℕ)
      → n ≤ fuel
      → IsRange devices m d address n
      → zero_fill fuel space devices address n ≡ (loaded devices m d address (zeros n), ok tt)
  unfolding zero_fill
  zero_fill-cleared zero devices m d address n enough range =
      rw (loaded-no_zeros devices m d address n range.2 (omega arith))
  zero_fill-cleared (suc fuel) devices m d address n enough range = elim (Bool-cases (n == 0)) [
    | inl done ↦ rw (done, loaded-no_zeros devices m d address n range.2 (ground arith))
    | inr more ↦
        let k = min n 4096 in
        let some_left : 0 < n = ground (arith, more) in
        let counted : length (zeros k) ≡ k = length-replicate {A = ℕ} k 0 in
        let bound = IsSorted-bounds 0 m space.mappings sorted range.0 in
        let exact : add_u64 address k ≡ address + k =
          mod-eq_of_lt (omega (arith, range.1, bound)) in
        let turn : IsRange devices m d address (length (zeros k)) =
          rw counted (IsRange-part devices m d address k n (omega arith) range) in
        let rest : length (zeros (n - k)) ≡ n - k = length-replicate {A = ℕ} (n - k) 0 in
        let total : k + (n - k) ≡ n = omega arith in
        let whole : IsRange devices m d address (k + length (zeros (n - k))) =
          rw (rest, total) range in
        rw (
          more,
          judge-held devices m d address (zeros k) bss_rejected turn (rw counted (omega arith)),
          exact,
          zero_fill-cleared fuel (loaded devices m d address (zeros k)) m
              (ops.load d (address - m.base) (zeros k)).1 (address + k) (n - k) (omega arith)
              (IsRange-rest devices m d address k n (zeros k) counted (omega arith) range),
          loaded-append devices m d address k (zeros k) (zeros (n - k)) counted whole,
          ← replicate-append k (n - k) 0,
          total,
        )
  ]

  stored-file_bytes :
      (devices : List D) (m : Mapping) (d : D) (image : List ℕ) (file_offset : ℕ)
      (info : ElfSegment) (bytes : List ℕ)
      → IsRange devices m d info.load_address (length bytes)
      → subspan image file_offset info.file_size ≡ ok bytes
      → length bytes ≡ info.file_size
      → (if info.file_size != 0
          then store_file_bytes space devices info.load_address
              (subspan image file_offset info.file_size)
          else (devices, ok tt))
        ≡ (loaded devices m d info.load_address bytes, ok tt)
  unfolding store_file_bytes
  stored-file_bytes devices m d image file_offset info [] range got same =
      let none_left : (info.file_size != 0) ≡ false = ground arith in
      rw (none_left, loaded-empty devices m d info.load_address range.2)
  stored-file_bytes devices m d image file_offset info (b ∷ bytes) range got same =
      let some_left : (info.file_size != 0) ≡ true = ground arith in
      rw (
        some_left,
        got,
        judge-held devices m d info.load_address (b ∷ bytes) data_rejected range (omega arith),
      )

  -- Storing a segment has the effect of one load of its file bytes and the zeros behind them.
  pub apply_segment-loaded :
      (devices : List D) (m : Mapping) (d : D) (image : List ℕ) (file_offset : ℕ)
      (info : ElfSegment) (bytes : List ℕ)
      → IsRange devices m d info.load_address info.memory_size
      → subspan image file_offset info.file_size ≡ ok bytes
      → length bytes ≡ info.file_size
      → info.file_size ≤ info.memory_size
      → apply_segment image file_offset info space devices ≡ (
        loaded devices m d info.load_address (bytes ++ zeros (info.memory_size - info.file_size)),
        ok tt,
      )
  unfolding apply_segment
  apply_segment-loaded devices m d image file_offset info bytes range got same le =
      let n = info.memory_size in
      let k = info.file_size in
      let a = info.load_address in
      let bound = IsSorted-bounds 0 m space.mappings sorted range.0 in
      let left : sub_u64 n k ≡ n - k = omega (arith, range.1, bound) in
      let exact : add_u64 a k ≡ a + k = mod-eq_of_lt (omega (arith, range.1, bound)) in
      let rest : length (zeros (n - k)) ≡ n - k = length-replicate {A = ℕ} (n - k) 0 in
      let total : k + (n - k) ≡ n = omega arith in
      let first : IsRange devices m d a (length bytes) =
        rw same (IsRange-part devices m d a k n le range) in
      let whole : IsRange devices m d a (k + length (zeros (n - k))) = rw (rest, total) range in
      rw (
        stored-file_bytes devices m d image file_offset info bytes first got same,
        left,
        exact,
        zero_fill-cleared (n - k) (loaded devices m d a bytes) m (ops.load d (a - m.base) bytes).1
            (a + k) (n - k) (omega arith) (IsRange-rest devices m d a k n bytes same le range),
        loaded-append devices m d a k bytes (zeros (n - k)) same whole,
      )
