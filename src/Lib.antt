-- ===== src/Lib.antt =====
-- Verification of the AXI test bench: the fabric that connects the AXI masters of a simulated design
-- to memory-mapped devices, and the parts it is built from.
--
-- A master drives and samples five channels per port. In each clock cycle `AxiFabric::drive` offers
-- ready signals and responses, and `AxiFabric::commit` checks that stalled masters hold their
-- signals, retires the responses taken, fills the ingress FIFOs, decodes and arbitrates one write and
-- one read address, and serves one write beat and, unless a write reached a device, one read beat.
-- FIFOs and routes are `RingBuffer`s; addresses and byte lanes come from `BurstCursor`; the mapping
-- of an address from `AddressSpace`; and the bytes from the `Device` that is mapped there.
--
-- Files and the code they model:
--   Common        numbers, words, lists, results and bit masks that the others share
--   Axi           src/axi.hpp: responses, bursts, payloads, signals, `combine_response`
--   Ring          src/axi.hpp: `RingBuffer` as a record of array, head and size
--   Cursor        src/axi.hpp: `BurstCursor` (`beat_address`, `lane_mask`, `validate_4k_boundary`)
--   Device        src/device.hpp: `Device` as a record of operations, `read` and `write`
--   Space         src/device.hpp, src/devices.cpp: `AddressSpace`; a mapping names its device by index
--   Memory        src/devices.cpp: `RomDevice` and `RamDevice`
--   Uart          src/devices.cpp: `UartDevice` over a backend; Uart/State its registers, their reset,
--                 and `BufferUartBackend`
--   Exit          src/devices.cpp: `ExitDevice`
--   Builtin       src/devices.hpp: the virtual dispatch over these devices
--   Elf           src/elf_loader.cpp: the loader of ELF and raw images; Elf the header, Elf/Segments
--                 the segments, Elf/Plan `ImageLoadPlan`, `load_elf` and `load_raw_image`
--   Platform      src/platform.cpp: Platform/Text the texts, Platform/Registry `DeviceRegistry`,
--                 Platform/Spec `PlatformSpec`, Platform/Devices `register_builtin_devices`,
--                 Platform/Build and Platform/Connect `Platform`, Platform/Order the order of `connect`
--   Packed        src/packed.hpp: bit fields of the signals of the generated model
--   Fuxi          examples/fuxi/sim/interrupt_devices.cpp: `Clint` and `Plic` with their pins;
--                 Fuxi/Definition `PlatformDefinition` of examples/fuxi/sim/fuxi_platform.cpp
--   Runner        src/sim_main.cpp: the command line, `parse_options`
--   Fabric        src/fabric.hpp: `AxiFabric`; Fabric/State the members, Fabric/Signals the channels,
--                 Fabric/Route decoding and arbitration, Fabric/Transfer reads, Fabric/Write writes,
--                 Fabric/Monitors the exclusive monitors
-- The Tests modules run the code on concrete inputs and apply the theorems there.
--
-- Modelling. A byte is a number below 256; a 64-bit sum or difference keeps its wrap-around. A throw
-- is an error value: `Violation` has one constructor for each message of a `ProtocolError`, `ElfFault`
-- one for each of an `ElfError`. After an error the runner stops, so the state left behind then is not
-- modelled, except by the loader, which gives the devices as a throw leaves them. The template arguments of
-- the fabric are a record, `Geometry`; the ports and outputs are lists. A read of an array
-- element, a port or a device that the source does not check gives the error `bad_index` when it is
-- out of range.
--
-- Loops are structural recursion on the beats, lanes, ports or mappings left, except the polling loop
-- of the UART, which has fuel 16: each round that goes on fills a place of the 16-byte FIFO, and the
-- loop of the loader that clears the BSS, which has one turn for each byte, and the loop that orders
-- the devices, which has one turn for each device and one more: an order repeats no device. The loops
-- that read and write a packed field have one turn for each bit of it: a turn copies one bit at least.
--
-- Not modelled: the reading of image files (src/elf_loader.cpp), the binding to the generated model
-- (src/verilated_binding.hpp) and of the Fuxi platform to it (`SidebandBinding`), and the loading
-- of images, the tracing and the main loop of src/sim_main.cpp.
-- The files and terminals of `HostServices` are host input and output, for which `Backend` and `Host`
-- stand; the memory that `mmap` returns is an argument; the stall threshold, which the source computes
-- in floating point, is given as a number. A platform knows which outputs
-- drive which inputs; the values on those pins are not modelled, so `settle` and `tick` of a device act
-- on its own state.
pub mod Common
pub mod Axi
pub mod Ring
pub mod Cursor
pub mod Device
pub mod Memory
pub mod Space
pub mod Fabric
pub mod Uart
pub mod Exit
pub mod Builtin
pub mod Elf
pub mod Platform
pub mod Packed
pub mod Fuxi
pub mod Runner
