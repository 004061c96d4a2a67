-- ===== src/Builtin/Loading.antt =====
-- The loads of the devices of src/devices.cpp.
use verilator_axi_testbench.Common.{
  ℕ, suc, ◌+◌, ◌-◌, ◌≤◌, ◌&&◌, ltb, leb, if◌then◌else◌, get_or, ◌≡◌, refl, ap, ◌∙◌, true, List, [],
  ◌∷◌, ◌++◌, length, set, length-set, length-append, arith,
}
use verilator_axi_testbench.Axi.{response_is_success}
use verilator_axi_testbench.Device.Loading.{LoadLaws, LoadContents}
use verilator_axi_testbench.Memory.{memory_load, in_bounds, copy_in}
use verilator_axi_testbench.Memory.Ram.{memory_load-get_or}
use verilator_axi_testbench.Uart.State.{Backend}
use verilator_axi_testbench.Builtin.{
  Builtin, rom, ram, uart, exit, builtin_device, builtin_load, is_memory, builtin_can_load,
}

copy_in-append :
    (bytes : List ℕ) (o : ℕ) (xs ys : List ℕ)
    → copy_in bytes o (xs ++ ys) ≡ copy_in (copy_in bytes o xs) (o + length xs) ys
unfolding copy_in
copy_in-append bytes o [] ys = let e : o + 0 ≡ o = omega arith in rw e
copy_in-append bytes o (x ∷ xs) ys =
    let e : o + suc (length xs) ≡ suc o + length xs = omega arith in
    rw e (copy_in-append (set bytes o x) (suc o) xs ys)

length-copy_in : (bytes : List ℕ) (o : ℕ) (xs : List ℕ) → length (copy_in bytes o xs) ≡ length bytes
unfolding copy_in
length-copy_in bytes o [] = refl
length-copy_in bytes o (x ∷ xs) = length-copy_in (set bytes o x) (suc o) xs ∙ length-set bytes o x

in_bounds-part :
    (o n p k c : ℕ) → in_bounds o n c ≡ true → o ≤ p → p + k ≤ o + n → in_bounds p k c ≡ true
unfolding in_bounds
in_bounds-part o n p k c h a b = ground arith

module _ (bytes : List ℕ) (o : ℕ) where
  memory_load-empty : (memory_load bytes o []).1 ≡ bytes
  unfolding memory_load copy_in
  memory_load-empty = ground arith

  memory_load-append :
      (xs ys : List ℕ)
      → in_bounds o (length xs + length ys) (length bytes) ≡ true
      → (memory_load bytes o (xs ++ ys)).1
        ≡ (memory_load (memory_load bytes o xs).1 (o + length xs) ys).1
  unfolding memory_load
  memory_load-append xs ys h =
      let whole : in_bounds o (length (xs ++ ys)) (length bytes) ≡ true =
        rw (length-append xs ys) h in
      let first : in_bounds o (length xs) (length bytes) ≡ true =
        in_bounds-part o (length xs + length ys) o (length xs) (length bytes) h (omega arith)
          (omega arith) in
      let second : in_bounds (o + length xs) (length ys) (length bytes) ≡ true =
        in_bounds-part o (length xs + length ys) (o + length xs) (length ys) (length bytes) h
          (omega arith) (omega arith) in
      rw (whole, first, length-copy_in bytes o xs, second) (copy_in-append bytes o xs ys)

  memory_load-accepts :
      (xs : List ℕ)
      → in_bounds o (length xs) (length bytes) ≡ true
      → response_is_success (memory_load bytes o xs).0 ≡ true
  unfolding memory_load
  memory_load-accepts xs h = rw h

  length-memory_load : (xs : List ℕ) → length (memory_load bytes o xs).1 ≡ length bytes
  length-memory_load xs = (memory_load-get_or bytes o xs 0).1

module _ {B : Type 0} ⦃ops : Backend B⦄ where
  can_load-part :
      (d : Builtin B) (o n p k : ℕ)
      → builtin_can_load d o n ≡ true
      → o ≤ p
      → p + k ≤ o + n
      → builtin_can_load d p k ≡ true
  unfolding builtin_can_load
  can_load-part (rom d) o n p k h a b = in_bounds-part o n p k (length d.bytes) h a b
  can_load-part (ram d) o n p k h a b = in_bounds-part o n p k (length d.bytes) h a b
  can_load-part (uart d) o n p k h a b = h
  can_load-part (exit d) o n p k h a b = h

  load-accepts :
      (d : Builtin B) (o : ℕ) (xs : List ℕ)
      → is_memory d ≡ true
      → builtin_can_load d o (length xs) ≡ true
      → response_is_success (builtin_load d o xs).0 ≡ true
  unfolding builtin_can_load builtin_load is_memory
  load-accepts (rom d) o xs l h = memory_load-accepts d.bytes o xs h
  load-accepts (ram d) o xs l h = memory_load-accepts d.bytes o xs h
  load-accepts (uart d) o xs l h = absurd cc
  load-accepts (exit d) o xs l h = absurd cc

  loadable-load :
      (d : Builtin B) (o : ℕ) (xs : List ℕ) → is_memory (builtin_load d o xs).1 ≡ is_memory d
  unfolding builtin_load is_memory
  loadable-load (rom d) o xs = refl
  loadable-load (ram d) o xs = refl
  loadable-load (uart d) o xs = refl
  loadable-load (exit d) o xs = refl

  can_load-load :
      (d : Builtin B) (o : ℕ) (xs : List ℕ) (p k : ℕ)
      → builtin_can_load (builtin_load d o xs).1 p k ≡ builtin_can_load d p k
  unfolding builtin_load builtin_can_load
  can_load-load (rom d) o xs p k = ap (in_bounds p k) (length-memory_load d.bytes o xs)
  can_load-load (ram d) o xs p k = ap (in_bounds p k) (length-memory_load d.bytes o xs)
  can_load-load (uart d) o xs p k = refl
  can_load-load (exit d) o xs p k = refl

  load-empty : (d : Builtin B) (o : ℕ) → (builtin_load d o []).1 ≡ d
  unfolding builtin_load
  load-empty (rom d) o =
      ap (λ bytes. rom (record d { bytes = bytes })) (memory_load-empty d.bytes o)
  load-empty (ram d) o =
      ap (λ bytes. ram (record d { bytes = bytes })) (memory_load-empty d.bytes o)
  load-empty (uart d) o = refl
  load-empty (exit d) o = refl

  load-append :
      (d : Builtin B) (o : ℕ) (xs ys : List ℕ)
      → builtin_can_load d o (length xs + length ys) ≡ true
      → (builtin_load d o (xs ++ ys)).1
        ≡ (builtin_load (builtin_load d o xs).1 (o + length xs) ys).1
  unfolding builtin_load builtin_can_load
  load-append (rom d) o xs ys h =
      ap (λ bytes. rom (record d { bytes = bytes })) (memory_load-append d.bytes o xs ys h)
  load-append (ram d) o xs ys h =
      ap (λ bytes. ram (record d { bytes = bytes })) (memory_load-append d.bytes o xs ys h)
  load-append (uart d) o xs ys h = refl
  load-append (exit d) o xs ys h = refl

  -- The four built-in devices keep the laws of loading.
  pub builtin_laws : LoadLaws (Builtin B)
  builtin_laws = record {
    can_load_part = can_load-part;
    load_accepts = load-accepts;
    load_loadable = loadable-load;
    load_can_load = can_load-load;
    load_empty = load-empty;
    load_append = load-append;
  }

  abbrev pub stored_byte : Builtin B → ℕ → ℕ
  stored_byte (rom d) j = get_or d.bytes j 0
  stored_byte (ram d) j = get_or d.bytes j 0
  stored_byte (uart d) j = 0
  stored_byte (exit d) j = 0

  stored_byte-load :
      (d : Builtin B) (o : ℕ) (xs : List ℕ) (j : ℕ)
      → builtin_can_load d o (length xs) ≡ true
      → stored_byte (builtin_load d o xs).1 j
        ≡ (if leb o j && ltb j (o + length xs) then get_or xs (j - o) 0 else stored_byte d j)
  unfolding builtin_load builtin_can_load
  stored_byte-load (rom d) o xs j h = (memory_load-get_or d.bytes o xs j).2 ∙ rw h
  stored_byte-load (ram d) o xs j h = (memory_load-get_or d.bytes o xs j).2 ∙ rw h
  stored_byte-load (uart d) o xs j h = absurd cc
  stored_byte-load (exit d) o xs j h = absurd cc

  pub builtin_contents : LoadContents (Builtin B)
  builtin_contents = record { peek = stored_byte; peek_load = stored_byte-load }
