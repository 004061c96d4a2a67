-- ===== src/Fuxi/Timer.antt =====
-- The timer interrupt of `Clint` in src/examples/fuxi/sim/interrupt_devices.cpp.
use verilator_axi_testbench.Common.{
  ℕ, ◌≡◌, refl, ◌==◌, ◌&&◌, leb, if◌then◌else◌, List, Option, none, some, Bool-cases, inl, inr,
  bit_and,
}
use verilator_axi_testbench.Fuxi.{Access, access, get, timer_register}
use verilator_axi_testbench.Fuxi.Clint.{
  Clint, clint_reset, clint_settle, clint_tick, clint_write, clint_store,
}

-- The timer interrupt is pending exactly while the time has reached the compare register.
abbrev pub IsTimed : Clint → Type 0
IsTimed c = c.timer ≡ (if leb c.compare c.time then 1 else 0)

clint_settle-IsTimed : (c : Clint) → IsTimed (clint_settle c)
unfolding clint_settle
clint_settle-IsTimed c = refl

clint_store-IsTimed :
    (c : Clint) (bytes : List ℕ) (a : Option Access) → IsTimed c → IsTimed (clint_store c bytes a).1
clint_store-IsTimed c bytes none h = h
clint_store-IsTimed c bytes (some a) h = elim (Bool-cases (a.size == 0)) [
  | inl empty ↦ rw empty h
  | inr some_bytes ↦ elim (Bool-cases (a.address == 0 && a.size == 4)) [
    | inl soft ↦
        rw (some_bytes, soft)
          (clint_settle-IsTimed (record c { software = bit_and (get bytes a) 1 }))
    | inr other ↦ elim (Bool-cases (timer_register a.address a.size)) [
      | inl timed ↦ rw (some_bytes, other, timed) (clint_settle-IsTimed _)
      | inr unknown ↦ rw (some_bytes, other, unknown) h
    ]
  ]
]

-- A reset, a clock tick and a write of any size at any offset keep the timer interrupt pending exactly
-- while the time has reached the compare register.
pub clint_write-IsTimed :
    (c : Clint) (offset : ℕ) (bytes lanes : List ℕ)
    → IsTimed c
    → IsTimed (clint_reset c)
      × IsTimed (clint_tick c)
      × IsTimed (clint_write c offset bytes lanes).1
unfolding clint_reset clint_tick clint_settle clint_write
clint_write-IsTimed c offset bytes lanes h =
    (refl, refl, clint_store-IsTimed c bytes (access offset lanes) h)
