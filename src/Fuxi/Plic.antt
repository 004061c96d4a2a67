-- ===== src/Fuxi/Plic.antt =====
-- `Plic` of src/examples/fuxi/sim/interrupt_devices.cpp. `inputs` are the values on the input pins, and
-- `irqs` those of the output signals. A list of flags holds 0 and 1.
use verilator_axi_testbench.Common.{
  ℕ, zero, suc, ◌+◌, ◌-◌, ◌*◌, ◌/◌, ◌%◌, Bool, ◌==◌, ◌!=◌, ◌&&◌, ◌||◌, ltb, leb, if◌then◌else◌,
  List, [], Option, none, some, get_or, set, replicate, tabulate, Result, ok, invalid_argument,
  throw_if, ◌>>◌, u32_mod, bit_and, bit_or, ◌<<<◌,
}
use verilator_axi_testbench.Axi.{Response, okay, slave_error}
use verilator_axi_testbench.Fuxi.{Access, access, get, put}

pub record Plic : Type 0 where
  pub sources : ℕ
  pub contexts : ℕ
  pub inputs : List ℕ
  pub irqs : List ℕ
  pub priority : List ℕ
  pub threshold : List ℕ
  pub enables : List (List ℕ)
  pub pending : List ℕ
  pub busy : List ℕ

unfoldable pub plic_reset : Plic → Plic
plic_reset p = record p {
  priority = replicate (suc p.sources) 0;
  threshold = replicate p.contexts 0;
  pending = replicate (suc p.sources) 0;
  busy = replicate (suc p.sources) 0;
  enables = replicate p.contexts (replicate 32 0);
  irqs = replicate p.contexts 0;
}

unfoldable pub make_plic : ℕ → ℕ → Result Plic
unfolding plic_reset
make_plic sources contexts = do
  throw_if (sources == 0 || ltb 1023 sources || contexts == 0 || ltb 64 contexts) invalid_argument
  ok (
      plic_reset (record {
        sources = sources;
        contexts = contexts;
        inputs = replicate (suc sources) 0;
        irqs = replicate contexts 0;
        priority = replicate (suc sources) 0;
        threshold = replicate contexts 0;
        enables = replicate contexts (replicate 32 0);
        pending = replicate (suc sources) 0;
        busy = replicate (suc sources) 0;
      }))

unfoldable pub enabled : Plic → ℕ → ℕ → Bool
enabled p context source =
    bit_and (get_or (get_or p.enables context []) (source / 32) 0) (1 <<< (source % 32)) != 0

abbrev pub priority_of : Plic → ℕ → ℕ
priority_of p source = get_or p.priority source 0

-- The test of `best` on source `i` against the one selected.
abbrev pub beats : Plic → ℕ → ℕ → ℕ → Bool
beats p context selected i =
    get_or p.pending i 0 != 0
    && enabled p context i
    && ltb (priority_of p selected) (priority_of p i)

-- The loop of `best` from source `i` on, with `left` of them to go.
unfoldable pub best_from : Plic → ℕ → ℕ → ℕ → ℕ → ℕ
unfolding enabled
best_from p context selected i zero = selected
best_from p context selected i (suc left) =
    best_from p context (if beats p context selected i then i else selected) (suc i) left

unfoldable pub best : Plic → ℕ → ℕ
unfolding best_from
best p context = best_from p context 0 1 p.sources

unfoldable pub notify : Plic → Plic
unfolding best
notify p = record p {
  irqs =
      tabulate p.contexts
        (λ c. if ltb (get_or p.threshold c 0) (priority_of p (best p c)) then 1 else 0);
}

-- The loop of `settle` over the sources from `i` on.
unfoldable pub latch_from : ℕ → ℕ → Plic → Plic
latch_from i zero p = p
latch_from i (suc left) p = latch_from (suc i) left (
    if get_or p.inputs i 0 != 0 && get_or p.busy i 0 == 0
    then record p { pending = set p.pending i 1; busy = set p.busy i 1 }
    else p)

unfoldable pub plic_settle : Plic → Plic
unfolding notify latch_from
plic_settle p = notify (latch_from 1 p.sources p)

-- The word of 32 bits that `test` gives, from bit `i` on.
unfoldable pub gather_bits : (ℕ → Bool) → ℕ → ℕ → ℕ
gather_bits test i zero = 0
gather_bits test i (suc left) =
    let rest = gather_bits test (suc i) left in if test i then bit_or (1 <<< i) rest else rest

-- A claim at a context, where `id` is the best source.
unfoldable pub claim : Plic → ℕ → ℕ × Plic
unfolding best notify
claim p c =
    let id = best p c in
    (id, notify (if id != 0 then record p { pending = set p.pending id 0 } else p))

unfoldable pub plic_read_register : Plic → ℕ → ℕ × Plic
unfolding gather_bits claim
plic_read_register p offset =
    let pending_word = (offset - 0x1000) / 4 * 32 in
    let c = (offset - 0x20_0000) / 0x1000 in
    let claimed = claim p c in
    if ltb offset 0x1000
    then (if leb (offset / 4) p.sources then priority_of p (offset / 4) else 0, p)
    else if ltb offset 0x1080
    then (
      gather_bits
          (λ bit.
            leb (pending_word + bit) p.sources && get_or p.pending (pending_word + bit) 0 != 0)
          0 32,
      p,
    )
    else if leb 0x2000 offset && ltb offset (0x2000 + p.contexts * 0x80)
    then (get_or (get_or p.enables ((offset - 0x2000) / 0x80) []) (offset % 0x80 / 4) 0, p)
    else if leb 0x20_0000 offset && ltb offset (0x20_0000 + p.contexts * 0x1000)
    then if offset % 0x1000 == 0
      then (get_or p.threshold c 0, p)
      else if offset % 0x1000 == 4
      then claimed
      else (0, p)
    else (0, p)

-- The sources that a word of enables may name.
unfoldable pub enable_mask : Plic → ℕ → ℕ
unfolding gather_bits
enable_mask p word =
    gather_bits (λ bit. word * 32 + bit != 0 && leb (word * 32 + bit) p.sources) 0 32

unfoldable pub plic_write_register : Plic → ℕ → ℕ → Plic
unfolding enabled enable_mask plic_settle
plic_write_register p offset value =
    let c = (offset - 0x2000) / 0x80 in
    let word = offset % 0x80 / 4 in
    let context = (offset - 0x20_0000) / 0x1000 in
    plic_settle (
      if offset != 0 && ltb offset 0x1000 && leb (offset / 4) p.sources
      then record p { priority = set p.priority (offset / 4) (bit_and value 7) }
      else if leb 0x2000 offset && ltb offset (0x2000 + p.contexts * 0x80)
      then record p {
        enables =
            set p.enables c (set (get_or p.enables c []) word (bit_and value (enable_mask p word)));
      }
      else if leb 0x20_0000 offset && ltb offset (0x20_0000 + p.contexts * 0x1000)
      then if offset % 0x1000 == 0
        then record p { threshold = set p.threshold context (bit_and value 7) }
        else if offset % 0x1000 == 4 && value != 0 && leb value p.sources && enabled p context value
        then record p { busy = set p.busy value 0 }
        else p
      else p)

abbrev pub is_refused : Access → Bool
is_refused a = a.size == 8 || leb 0x400_0000 a.address

abbrev pub plic_answer : Plic → List ℕ → Option Access → Response × List ℕ × Plic
plic_answer p bytes none = (slave_error, bytes, p)
plic_answer p bytes (some a) =
    let (value, p') = plic_read_register p a.address in
    if is_refused a
    then (slave_error, bytes, p)
    else if a.size != 0
    then (okay, put bytes a value, p')
    else (okay, bytes, p)

unfoldable pub plic_read : Plic → ℕ → List ℕ → List ℕ → Response × List ℕ × Plic
unfolding access put plic_read_register
plic_read p offset bytes lanes = plic_answer p bytes (access offset lanes)

abbrev pub plic_store : Plic → List ℕ → Option Access → Response × Plic
plic_store p bytes none = (slave_error, p)
plic_store p bytes (some a) =
    if is_refused a
    then (slave_error, p)
    else (okay, if a.size != 0 then plic_write_register p a.address (get bytes a % u32_mod) else p)

unfoldable pub plic_write : Plic → ℕ → List ℕ → List ℕ → Response × Plic
unfolding access get plic_write_register
plic_write p offset bytes lanes = plic_store p bytes (access offset lanes)
