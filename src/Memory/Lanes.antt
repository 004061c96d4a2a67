-- ===== src/Memory/Lanes.antt =====
-- The lane loops of src/devices.cpp, byte by byte, and the bulk copies that stand in for them.
use native.Mathlib.Nat.{add-zero}
use verilator_axi_testbench.Common.{
  ℕ, zero, suc, ◌+◌, ◌-◌, ◌<◌, ◌≤◌, ◌≡◌, refl, ◌∙◌, ◌≢◌, ◌⊎◌, true, ◌!=◌, ◌&&◌, ltb, leb,
  if◌then◌else◌, List, [], ◌∷◌, length, get_or, set, drop, length-set, get_or-set_self,
  get_or-set_ne, arith, Bool-cases, inl, inr,
}
use verilator_axi_testbench.Memory.{read_lanes, write_lanes, copy_out, copy_in, all_lanes_enabled}

-- One round of `write_lanes`.
abbrev write_lane : List ℕ → ℕ → ℕ → ℕ → List ℕ
write_lane bytes start d s = if s != 0 then set bytes start d else bytes

length-write_lane :
    (bytes : List ℕ) (start d s : ℕ) → length (write_lane bytes start d s) ≡ length bytes
length-write_lane bytes start d s = ground (arith, length-set bytes start d)

write_lane-ne :
    (bytes : List ℕ) (start d s j : ℕ)
    → start ≢ j
    → get_or (write_lane bytes start d s) j 0 ≡ get_or bytes j 0
write_lane-ne bytes start d s j ne = ground (arith, get_or-set_ne bytes start j d 0 ne)

pub length-write_lanes :
    (bytes : List ℕ) (start : ℕ) (payload strobe : List ℕ)
    → length (write_lanes bytes start payload strobe) ≡ length bytes
unfolding write_lanes
length-write_lanes bytes start [] strobe = refl
length-write_lanes bytes start (d ∷ payload) [] = refl
length-write_lanes bytes start (d ∷ payload) (s ∷ strobe) =
    length-write_lanes (write_lane bytes start d s) (suc start) payload strobe
    ∙ length-write_lane bytes start d s

write_lanes-outside :
    (bytes : List ℕ) (start : ℕ) (payload strobe : List ℕ) (j : ℕ)
    → (j < start) ⊎ (start + length payload ≤ j)
    → get_or (write_lanes bytes start payload strobe) j 0 ≡ get_or bytes j 0
unfolding write_lanes
write_lanes-outside bytes start [] strobe j out = refl
write_lanes-outside bytes start (d ∷ payload) [] j out = refl
write_lanes-outside bytes start (d ∷ payload) (s ∷ strobe) j out =
    write_lanes-outside (write_lane bytes start d s) (suc start) payload strobe j (ground arith)
    ∙ write_lane-ne bytes start d s j (ground arith)

write_lanes-inside :
    (bytes : List ℕ) (start : ℕ) (payload strobe : List ℕ) (i : ℕ)
    → length payload ≡ length strobe
    → start + length payload ≤ length bytes
    → i < length payload
    → get_or (write_lanes bytes start payload strobe) (start + i) 0
      ≡ (if get_or strobe i 0 != 0 then get_or payload i 0 else get_or bytes (start + i) 0)
unfolding write_lanes
write_lanes-inside bytes start [] strobe i e room h = elim h [ ]
write_lanes-inside bytes start (d ∷ payload) [] i e room h = absurd (omega arith)
write_lanes-inside bytes start (d ∷ payload) (s ∷ strobe) zero e room h =
    rw
      (
        add-zero,
        write_lanes-outside (write_lane bytes start d s) (suc start) payload strobe start
            (inl (omega arith)),
      )
      (ground (arith, get_or-set_self bytes start d 0 (omega arith)))
write_lanes-inside bytes start (d ∷ payload) (s ∷ strobe) (suc i) e room h =
    let next : start + suc i ≡ suc start + i = omega arith in
    let w = write_lane bytes start d s in
    rw (
      next,
      write_lanes-inside w (suc start) payload strobe i (omega arith)
          (omega (arith, length-write_lane bytes start d s)) (omega arith),
      write_lane-ne bytes start d s (suc start + i) (omega arith),
    )

-- The byte at an index after a strobed write.
pub write_lanes-get_or :
    (bytes : List ℕ) (start : ℕ) (payload strobe : List ℕ) (j : ℕ)
    → length payload ≡ length strobe
    → start + length payload ≤ length bytes
    → get_or (write_lanes bytes start payload strobe) j 0 ≡ (
        if leb start j && ltb j (start + length payload) && get_or strobe (j - start) 0 != 0
        then get_or payload (j - start) 0
        else get_or bytes j 0)
write_lanes-get_or bytes start payload strobe j e room =
    elim (Bool-cases (leb start j && ltb j (start + length payload))) [
      | inl within ↦
          let sum : start + (j - start) ≡ j = ground arith in
          let at =
            write_lanes-inside bytes start payload strobe (j - start) e room (ground arith) in
          ground (arith, rw sum at at)
      | inr out ↦ ground (arith, write_lanes-outside bytes start payload strobe j (ground arith))
    ]

-- Where every lane is enabled, the loop is the bulk copy.
pub write_lanes-copy_in :
    (bytes : List ℕ) (start : ℕ) (payload strobe : List ℕ)
    → length payload ≡ length strobe
    → all_lanes_enabled strobe ≡ true
    → write_lanes bytes start payload strobe ≡ copy_in bytes start payload
unfolding write_lanes copy_in all_lanes_enabled
write_lanes-copy_in bytes start [] strobe e on = refl
write_lanes-copy_in bytes start (d ∷ payload) [] e on = absurd (omega arith)
write_lanes-copy_in bytes start (d ∷ payload) (s ∷ strobe) e on =
    ground (arith, write_lanes-copy_in (set bytes start d) (suc start) payload strobe)

drop-get_or :
    (bytes : List ℕ) (start : ℕ)
    → start < length bytes
    → drop start bytes ≡ get_or bytes start 0 ∷ drop (suc start) bytes
drop-get_or [] start h = elim h [ ]
drop-get_or (b ∷ bytes) zero h = refl
drop-get_or (b ∷ bytes) (suc start) h = drop-get_or bytes start (omega arith)

pub read_lanes-copy_out :
    (bytes : List ℕ) (start : ℕ) (payload enable : List ℕ)
    → length payload ≡ length enable
    → start + length payload ≤ length bytes
    → all_lanes_enabled enable ≡ true
    → read_lanes bytes start payload enable ≡ copy_out bytes start (length payload)
unfolding read_lanes copy_out all_lanes_enabled
read_lanes-copy_out bytes start [] enable e room on = refl
read_lanes-copy_out bytes start (d ∷ payload) [] e room on = absurd (omega arith)
read_lanes-copy_out bytes start (d ∷ payload) (x ∷ enable) e room on =
    rw (drop-get_or bytes start (omega arith))
      (ground (arith, read_lanes-copy_out bytes (suc start) payload enable))

-- The byte of a lane after a read: the stored one where the lane is enabled.
pub read_lanes-get_or :
    (bytes : List ℕ) (start : ℕ) (payload enable : List ℕ) (i : ℕ)
    → length payload ≡ length enable
    → get_or (read_lanes bytes start payload enable) i 0 ≡ (
        if ltb i (length payload) && get_or enable i 0 != 0
        then get_or bytes (start + i) 0
        else get_or payload i 0)
unfolding read_lanes
read_lanes-get_or bytes start [] enable i e = ground arith
read_lanes-get_or bytes start (d ∷ payload) [] i e = absurd (omega arith)
read_lanes-get_or bytes start (d ∷ payload) (x ∷ enable) zero e = rw add-zero (ground arith)
read_lanes-get_or bytes start (d ∷ payload) (x ∷ enable) (suc i) e =
    let s : start + suc i ≡ suc start + i = omega arith in
    rw s (ground (arith, read_lanes-get_or bytes (suc start) payload enable i))
