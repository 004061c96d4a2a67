-- ===== src/Memory/Rom.antt =====
-- The constructor and the bus writes of `RomDevice` in src/devices.cpp.
use verilator_axi_testbench.Common.{
  ℕ, ◌<◌, ◌≤◌, ◌≡◌, ◌∙◌, ◌≢◌, ◌↔◌, ltb, if◌then◌else◌, List, length, get_or, replicate,
  length-replicate, arith, ok,
}
use verilator_axi_testbench.Axi.{slave_error}
use verilator_axi_testbench.Memory.{RomDevice, make_rom, rom_write, memory_load, copy_in}
use verilator_axi_testbench.Memory.Ram.{memory_load-get_or, get_or-replicate}

-- Every bus write to ROM is refused and leaves it as it is.
pub rom_write-refused :
    (rom : RomDevice) (offset : ℕ) (payload strobe : List ℕ)
    → rom_write rom offset payload strobe ≡ (slave_error, rom)
unfolding rom_write
rom_write-refused rom offset payload strobe = ground arith

copy_in-get_or :
    (bytes image : List ℕ) (j : ℕ)
    → length image ≤ length bytes
    → (length (copy_in bytes 0 image) ≡ length bytes)
      × (get_or (copy_in bytes 0 image) j 0
          ≡ (if ltb j (length image) then get_or image j 0 else get_or bytes j 0))
unfolding memory_load
copy_in-get_or bytes image j room = ground (arith, memory_load-get_or bytes 0 image j)

-- A ROM that is built has the size that was asked, which is not zero and has room for the image; it
-- holds the image and zero bytes after it.
pub make_rom-get_or :
    (image : List ℕ) (size : ℕ) (rom : RomDevice) (j : ℕ)
    → make_rom image size ≡ ok rom
    → j < size
    → (length image ≤ size)
      × (length rom.bytes ≡ size)
      × (get_or rom.bytes j 0 ≡ (if ltb j (length image) then get_or image j 0 else 0))
unfolding make_rom
make_rom-get_or image size rom j made h =
    let zeros = replicate {A = ℕ} size 0 in
    let fits : length image ≤ size = ground arith in
    let room : length image ≤ length zeros = rw (length-replicate {A = ℕ} size 0) fits in
    let same : rom ≡ record { bytes = copy_in zeros 0 image } = ground arith in
    rw same (
      fits,
      (copy_in-get_or zeros image 0 room).0 ∙ length-replicate {A = ℕ} size 0,
      ground (arith, (copy_in-get_or zeros image j room).1, get_or-replicate size j 0 0 h),
    )

-- A ROM is built exactly from an image that fits a size which is not zero.
pub make_rom_iff :
    (image : List ℕ) (size : ℕ)
    → ((rom : RomDevice) × (make_rom image size ≡ ok rom)) ↔ ((size ≢ 0) × (length image ≤ size))
unfolding make_rom
make_rom_iff image size = (
  λ made. ground (arith, made.1),
  λ fits. (record { bytes = copy_in (replicate size 0) 0 image }, ground (arith, fits)),
)
