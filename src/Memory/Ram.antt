-- ===== src/Memory/Ram.antt =====
-- What the memory accesses of src/devices.cpp do to each byte, on every branch.
use verilator_axi_testbench.Common.{
  ℕ, zero, suc, ◌+◌, ◌-◌, ◌<◌, ◌≤◌, ◌≡◌, refl, ap, ◌∙◌, sym, true, false, ◌!=◌, ◌&&◌, ltb, leb,
  if◌then◌else◌, List, length, get_or, replicate, length-replicate, arith, Bool-cases, inl, inr,
}
use verilator_axi_testbench.Axi.{okay, slave_error}
use verilator_axi_testbench.Memory.{
  RamDevice, ram_write, memory_read, memory_load, in_bounds, all_lanes_enabled, write_lanes,
  read_lanes,
}
use verilator_axi_testbench.Memory.Lanes.{
  length-write_lanes, write_lanes-get_or, write_lanes-copy_in, read_lanes-copy_out,
  read_lanes-get_or,
}

pub in_bounds-true :
    (offset size capacity : ℕ) → in_bounds offset size capacity ≡ true → offset + size ≤ capacity
unfolding in_bounds
in_bounds-true offset size capacity h = ground arith

-- The byte `j` after a write that is in bounds or not.
abbrev pub written : List ℕ → ℕ → List ℕ → List ℕ → ℕ → ℕ
written bytes offset payload strobe j =
    if in_bounds offset (length payload) (length bytes)
      && leb offset j
      && ltb j (offset + length payload)
      && get_or strobe (j - offset) 0 != 0
    then get_or payload (j - offset) 0
    else get_or bytes j 0

module _ (ram : RamDevice) (offset : ℕ) (payload strobe : List ℕ)
    (same : length payload ≡ length strobe) where
  -- Both ways of writing do what the lane loop does.
  ram_write-lanes :
      in_bounds offset (length payload) (length ram.bytes) ≡ true
      → ram_write ram offset payload strobe
        ≡ (okay, record ram { bytes = write_lanes ram.bytes offset payload strobe })
  unfolding ram_write
  ram_write-lanes inside = elim (Bool-cases (all_lanes_enabled strobe)) [
    | inl every ↦ rw (inside, every, write_lanes-copy_in ram.bytes offset payload strobe same every)
    | inr some_off ↦ rw (inside, some_off)
  ]

  ram_write-out :
      in_bounds offset (length payload) (length ram.bytes) ≡ false
      → ram_write ram offset payload strobe ≡ (slave_error, ram)
  unfolding ram_write
  ram_write-out outside = rw outside

  -- A write to RAM answers OKAY exactly when it is in bounds; it then puts the strobed bytes of the
  -- beat at their places and changes no other byte, and out of bounds it changes nothing. The size
  -- stays, whether the bulk copy or the lane loop ran.
  pub ram_write-get_or :
      (j : ℕ)
      → ((ram_write ram offset payload strobe).0
          ≡ (if in_bounds offset (length payload) (length ram.bytes) then okay else slave_error))
        × (length (ram_write ram offset payload strobe).1.bytes ≡ length ram.bytes)
        × (get_or (ram_write ram offset payload strobe).1.bytes j 0
            ≡ written ram.bytes offset payload strobe j)
  ram_write-get_or j = elim (Bool-cases (in_bounds offset (length payload) (length ram.bytes))) [
    | inl inside ↦
        let fits = in_bounds-true offset (length payload) (length ram.bytes) inside in
        rw (ram_write-lanes inside, inside)
          (
            refl,
            length-write_lanes ram.bytes offset payload strobe,
            write_lanes-get_or ram.bytes offset payload strobe j same fits,
          )
    | inr outside ↦ rw (ram_write-out outside, outside) (refl, refl, refl)
  ]

module _ (bytes : List ℕ) (offset : ℕ) (payload enable : List ℕ)
    (same : length payload ≡ length enable) where
  memory_read-lanes :
      in_bounds offset (length payload) (length bytes) ≡ true
      → memory_read bytes offset payload enable ≡ (okay, read_lanes bytes offset payload enable)
  unfolding memory_read
  memory_read-lanes inside = elim (Bool-cases (all_lanes_enabled enable)) [
    | inl every ↦ rw (
      inside,
      every,
      read_lanes-copy_out bytes offset payload enable same
          (in_bounds-true offset (length payload) (length bytes) inside) every,
    )
    | inr some_off ↦ rw (inside, some_off)
  ]

  -- A read of RAM or ROM answers OKAY exactly when it is in bounds; each enabled lane then holds the
  -- stored byte, and every other lane, like all of them out of bounds, what it held before.
  pub memory_read-get_or :
      (i : ℕ)
      → ((memory_read bytes offset payload enable).0
          ≡ (if in_bounds offset (length payload) (length bytes) then okay else slave_error))
        × (get_or (memory_read bytes offset payload enable).1 i 0 ≡ (
            if in_bounds offset (length payload) (length bytes)
              && ltb i (length payload)
              && get_or enable i 0 != 0
            then get_or bytes (offset + i) 0
            else get_or payload i 0))
  unfolding memory_read
  memory_read-get_or i = elim (Bool-cases (in_bounds offset (length payload) (length bytes))) [
    | inl inside ↦
        rw (memory_read-lanes inside, inside)
          (refl, read_lanes-get_or bytes offset payload enable i same)
    | inr outside ↦ rw outside (refl, refl)
  ]

pub get_or-replicate : (n i : ℕ) (v d : ℕ) → i < n → get_or (replicate n v) i d ≡ v
get_or-replicate zero i v d h = elim h [ ]
get_or-replicate (suc n) zero v d h = refl
get_or-replicate (suc n) (suc i) v d h = get_or-replicate n i v d (omega arith)

all_lanes_enabled-replicate : (n : ℕ) → all_lanes_enabled (replicate n 1) ≡ true
unfolding all_lanes_enabled
all_lanes_enabled-replicate zero = refl
all_lanes_enabled-replicate (suc n) = all_lanes_enabled-replicate n

-- After a write that RAM accepted, reading the same lanes gives the strobed bytes as written and the
-- others as they were before.
pub memory_read-ram_write :
    (ram : RamDevice) (offset : ℕ) (payload strobe : List ℕ) (i : ℕ)
    → length payload ≡ length strobe
    → (ram_write ram offset payload strobe).0 ≡ okay
    → i < length payload
    → get_or
        (memory_read
          (ram_write ram offset payload strobe).1.bytes
          offset
          (replicate (length payload) 0)
          (replicate (length payload) 1)).1
        i
        0
      ≡ (if get_or strobe i 0 != 0 then get_or payload i 0 else get_or ram.bytes (offset + i) 0)
memory_read-ram_write ram offset payload strobe i same accepted h =
    let n = length payload in
    let zeros = replicate {A = ℕ} n 0 in
    let ones = replicate {A = ℕ} n 1 in
    let after = (ram_write ram offset payload strobe).1.bytes in
    let zeros_len : length zeros ≡ n = length-replicate {A = ℕ} n 0 in
    let same' : length zeros ≡ length ones = zeros_len ∙ sym (length-replicate {A = ℕ} n 1) in
    let wrote = ram_write-get_or ram offset payload strobe same (offset + i) in
    let inside : in_bounds offset n (length ram.bytes) ≡ true = ground (arith, wrote.0) in
    let inside' : in_bounds offset (length zeros) (length after) ≡ true =
      rw (zeros_len, wrote.1) inside in
    let got = (memory_read-get_or after offset zeros ones same' i).1 in
    let index : offset + i - offset ≡ i = omega arith in
    ground (
      arith,
      got,
      inside,
      inside',
      wrote.2,
      zeros_len,
      index,
      get_or-replicate n i 1 0 h,
      ap (λ k. get_or payload k 0) index,
      ap (λ k. get_or strobe k 0) index,
    )

-- A host load succeeds exactly where `can_load` says so, and then writes the whole image.
pub memory_load-get_or :
    (bytes : List ℕ) (offset : ℕ) (image : List ℕ) (j : ℕ)
    → ((memory_load bytes offset image).0
        ≡ (if in_bounds offset (length image) (length bytes) then okay else slave_error))
      × (length (memory_load bytes offset image).1 ≡ length bytes)
      × (get_or (memory_load bytes offset image).1 j 0 ≡ (
          if in_bounds offset (length image) (length bytes)
            && leb offset j
            && ltb j (offset + length image)
          then get_or image (j - offset) 0
          else get_or bytes j 0))
unfolding memory_load
memory_load-get_or bytes offset image j =
    let ones = replicate {A = ℕ} (length image) 1 in
    let same = sym (length-replicate {A = ℕ} (length image) 1) in
    let loop =
      write_lanes-copy_in bytes offset image ones same
        (all_lanes_enabled-replicate (length image)) in
    elim (Bool-cases (in_bounds offset (length image) (length bytes))) [
      | inl inside ↦
          let fits = in_bounds-true offset (length image) (length bytes) inside in
          rw (inside, ← loop)
            (
              refl,
              length-write_lanes bytes offset image ones,
              ground (
                arith,
                write_lanes-get_or bytes offset image ones j same fits,
                get_or-replicate (length image) (j - offset) 1 0,
              ),
            )
      | inr outside ↦ rw outside (refl, refl, refl)
    ]
