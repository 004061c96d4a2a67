-- ===== src/Platform/Cycles.antt =====
-- `Platform::reset`, `settle` and `begin_cycle` of src/platform.cpp, over an order that lists each
-- device once.
use verilator_axi_testbench.Common.{
  ℕ, ◌≡◌, refl, sym, ap, ◌∙◌, Bool, false, not, ◌==◌, ◌&&◌, if◌then◌else◌, List, [], ◌∷◌, some,
  get_elem?, arith, Bool-cases, Option-cases, inl, inr, ==_iff, some-eq,
}
use verilator_axi_testbench.Device.{Device}
use verilator_axi_testbench.Space.Reset.{get_elem?-set}
use verilator_axi_testbench.Platform.Order.Count.{occurs}
use verilator_axi_testbench.Platform.Build.{Platform}
use verilator_axi_testbench.Platform.Connect.{
  put_at, each_in_order, settle_all, reset_all, begin_cycle,
}

module _ {ℓ} {D : Type ℓ} ⦃ops : Device D⦄ where
  put_at-get_elem? :
      (f : D → D) (i v : ℕ) (devices : List D) (d : D)
      → get_elem? devices v ≡ some d
      → get_elem? (put_at f i devices (get_elem? devices i)) v ≡ some (if i == v then f d else d)
  put_at-get_elem? f i v devices d h = elim (Option-cases (get_elem? devices i)) [
    | inl missing ↦ rw missing (elim (Bool-cases (i == v)) [
      | inl same ↦ absurd (ground (arith, missing, h, ap (get_elem? devices) ((==_iff i v).0 same)))
      | inr other ↦ rw other h
    ])
    | inr (d', found) ↦ rw found (get_elem?-set devices i v (f d') d h ∙ agree d' found)
  ]
    where
      agree :
          (d' : D)
          → get_elem? devices i ≡ some d'
          → some (if i == v then f d' else d) ≡ some (if i == v then f d else d)
      agree d' found = elim (Bool-cases (i == v)) [
        | inl same ↦
            let e : d' ≡ d =
              some-eq (sym found ∙ ap (get_elem? devices) ((==_iff i v).0 same) ∙ h) in
            rw (same, e)
        | inr other ↦ rw other
      ]

  -- A device that the order leaves out keeps its state.
  each_in_order-skips :
      (f : D → D) (order : List ℕ) (v : ℕ) (devices : List D) (d : D)
      → get_elem? devices v ≡ some d
      → occurs v order ≡ 0
      → get_elem? (each_in_order f order devices) v ≡ some d
  unfolding each_in_order occurs
  each_in_order-skips f [] v devices d h out = h
  each_in_order-skips f (i ∷ order) v devices d h out =
      let other : (i == v) ≡ false = ground (arith, out) in
      let kept : get_elem? (put_at f i devices (get_elem? devices i)) v ≡ some d =
        put_at-get_elem? f i v devices d h ∙ ap some (rw other) in
      each_in_order-skips f order v (put_at f i devices (get_elem? devices i)) d kept
        (ground (arith, out))

  pub each_in_order-once :
      (f : D → D) (order : List ℕ) (v : ℕ) (devices : List D) (d : D)
      → get_elem? devices v ≡ some d
      → occurs v order ≡ 1
      → get_elem? (each_in_order f order devices) v ≡ some (f d)
  unfolding each_in_order occurs
  each_in_order-once f [] v devices d h once = absurd (omega (arith, once))
  each_in_order-once f (i ∷ order) v devices d h once =
      let next = put_at-get_elem? f i v devices d h in
      let devices' = put_at f i devices (get_elem? devices i) in
      elim (Bool-cases (i == v)) [
        | inl here ↦
            each_in_order-skips f order v devices' (f d) (next ∙ ap some (rw here))
              (ground (arith, once, here))
        | inr later ↦
            each_in_order-once f order v devices' d (next ∙ ap some (rw later))
              (ground (arith, once, later))
      ]

  -- At the start of a cycle each device is reset and then settled, once, when the reset has just become
  -- active, and otherwise keeps its state. The order lists the device once.
  pub begin_cycle-once :
      (reset_active : Bool) (p : Platform D) (v : ℕ) (d : D)
      → get_elem? p.devices v ≡ some d
      → occurs v p.order ≡ 1
      → (get_elem? (begin_cycle reset_active p).devices v
          ≡ some (if reset_active && not p.was_reset then ops.settle (ops.reset d) else d))
        × ((begin_cycle reset_active p).was_reset ≡ reset_active)
  unfolding begin_cycle reset_all settle_all
  begin_cycle-once reset_active p v d h once = elim (Bool-cases (reset_active && not p.was_reset)) [
    | inl edge ↦ rw edge (
      each_in_order-once ops.settle p.order v (each_in_order ops.reset p.order p.devices)
          (ops.reset d) (each_in_order-once ops.reset p.order v p.devices d h once) once,
      refl,
    )
    | inr held ↦ rw held (h, refl)
  ]
