-- ===== src/Ring.antt =====
-- `RingBuffer` of src/axi.hpp: an array of `capacity` values used round and round. An operation
-- takes the buffer's capacity, the template argument, and returns the new buffer. An array larger
-- than the address space does not exist, so `head_ + size_` does not wrap.
pub mod Window
pub mod Contents
pub mod Queue
pub mod Refine
mod Tests
use verilator_axi_testbench.Common.{
  ℕ, ◌+◌, ◌-◌, ◌%◌, Bool, true, false, ◌==◌, if◌then◌else◌, List, Option, none, some, replicate,
  get_elem?, set, Result, ok, err, logic_error, bad_index,
}

pub record RingBuffer {ℓ} (A : Type ℓ) : Type ℓ where
  pub values : List A
  pub head : ℕ
  pub size : ℕ

module _ {ℓ} {A : Type ℓ} where
  -- The default member initialisers, at a value-initialised element.
  unfoldable pub fresh : ℕ → A → RingBuffer A
  fresh capacity value = record { values = replicate capacity value; head = 0; size = 0 }

  unfoldable pub empty : RingBuffer A → Bool
  empty r = r.size == 0

  unfoldable pub full : ℕ → RingBuffer A → Bool
  full capacity r = r.size == capacity

  abbrev at_index : Option A → Result A
  at_index none = err bad_index
  at_index (some value) = ok value

  unfoldable pub front : RingBuffer A → Result A
  unfolding empty
  front r = if empty r then err logic_error else at_index (get_elem? r.values r.head)

  -- A write through the reference that `front` returns.
  unfoldable pub set_front : RingBuffer A → A → RingBuffer A
  set_front r value = record r { values = set r.values r.head value }

  unfoldable pub push : ℕ → RingBuffer A → A → RingBuffer A × Bool
  unfolding full
  push capacity r value = if full capacity r then (r, false) else (
    record r { values = set r.values ((r.head + r.size) % capacity) value; size = r.size + 1 },
    true,
  )

  unfoldable pub pop : ℕ → RingBuffer A → Result (RingBuffer A)
  unfolding empty
  pop capacity r =
      if empty r
      then err logic_error
      else ok (record r { head = (r.head + 1) % capacity; size = r.size - 1 })

  unfoldable pub clear : RingBuffer A → RingBuffer A
  clear r = record r { head = 0; size = 0 }
