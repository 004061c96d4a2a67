-- ===== src/Ring/Window.antt =====
-- The values of a circular array from an index on.
use native.Mathlib.Nat.{add-zero, mod-add-mod, mod-eq_of_lt, mod-eq-sub-mod}
use native.Mathlib.Decide.{dec_lt}
use verilator_axi_testbench.Common.{
  ℕ, zero, suc, ◌+◌, ◌-◌, ◌%◌, ◌<◌, ◌≤◌, ◌≡◌, refl, sym, ap, ◌∙◌, ◌≢◌, List, [], ◌∷◌, ◌++◌, Option,
  none, some, arith, length, get_elem?, set, get_elem?-some,
}

module _ {ℓ} {A : Type ℓ} where
  abbrev pub put_before : Option A → List A → List A
  put_before none xs = xs
  put_before (some x) xs = x ∷ xs

  -- `n` values from index `h` on, going round after `capacity` of them.
  abbrev pub window : ℕ → List A → ℕ → ℕ → List A
  window capacity values h zero = []
  window capacity values h (suc n) =
      put_before (get_elem? values h) (window capacity values ((h + 1) % capacity) n)

  pub get_elem?-set_self :
      (xs : List A) (i : ℕ) (v : A) → i < length xs → get_elem? (set xs i v) i ≡ some v
  get_elem?-set_self [] i v h = elim h [ ]
  get_elem?-set_self (x ∷ xs) zero v h = refl
  get_elem?-set_self (x ∷ xs) (suc i) v h = get_elem?-set_self xs i v (omega arith)

  pub get_elem?-set_ne :
      (xs : List A) (i j : ℕ) (v : A) → i ≢ j → get_elem? (set xs i v) j ≡ get_elem? xs j
  get_elem?-set_ne [] i j v h = refl
  get_elem?-set_ne (x ∷ xs) zero zero v h = absurd (h refl)
  get_elem?-set_ne (x ∷ xs) zero (suc j) v h = refl
  get_elem?-set_ne (x ∷ xs) (suc i) zero v h = refl
  get_elem?-set_ne (x ∷ xs) (suc i) (suc j) v h = get_elem?-set_ne xs i j v (λ e. h (ap suc e))

  pub window-pos :
      (capacity : ℕ) (values : List A) (h n : ℕ)
      → n ≢ 0
      → window capacity values h n
        ≡ put_before (get_elem? values h) (window capacity values ((h + 1) % capacity) (n - 1))
  window-pos capacity values h zero ne = absurd (ne refl)
  window-pos capacity values h (suc n) ne = ap (λ k. window capacity values h (suc k)) (omega arith)

  pub length-window :
      (capacity : ℕ) (values : List A) (h n : ℕ)
      → h < capacity
      → length values ≡ capacity
      → length (window capacity values h n) ≡ n
  length-window capacity values h zero hh e = refl
  length-window capacity values h (suc n) hh e =
      let (x, got) = get_elem?-some values h (omega arith) in
      rw got (ap suc (length-window capacity values ((h + 1) % capacity) n (omega arith) e))

-- The index after `suc k` steps is not where the walk began, if fewer than `capacity` are made.
steps-ne : (capacity h k : ℕ) → h < capacity → suc k < capacity → (h + suc k) % capacity ≢ h
steps-ne capacity h k hh hk = elim (dec_lt (h + suc k) capacity) [
  | yes inside ↦ omega (arith, mod-eq_of_lt inside)
  | no round ↦ omega (
    arith,
    mod-eq-sub-mod {n = h + suc k} {m = capacity} (omega arith),
    mod-eq_of_lt {n = h + suc k - capacity} {m = capacity} (omega arith),
  )
]

next-index : (capacity h n : ℕ) → ((h + 1) % capacity + n) % capacity ≡ (h + suc n) % capacity
next-index capacity h n =
    mod-add-mod (h + 1) capacity n
    ∙ (let e : h + 1 + n ≡ h + suc n = omega arith in ap (λ t. t % capacity) e)

module _ {ℓ} {A : Type ℓ} where
  -- Writing just past the window extends it.
  pub window-set_end :
      (capacity : ℕ) (values : List A) (v : A) (n h i : ℕ)
      → length values ≡ capacity
      → h < capacity
      → n < capacity
      → i ≡ (h + n) % capacity
      → window capacity (set values i v) h (suc n) ≡ window capacity values h n ++ v ∷ []
  window-set_end capacity values v zero h i len hh hn e =
      let here : i ≡ h = e ∙ rw add-zero (mod-eq_of_lt hh) in
      rw (here, get_elem?-set_self values h v (omega arith))
  window-set_end capacity values v (suc n) h i len hh hn e =
      let (x, got) = get_elem?-some values h (omega arith) in
      let rest =
        window-set_end capacity values v n ((h + 1) % capacity) i len (omega arith) (omega arith)
          (e ∙ sym (next-index capacity h n)) in
      let away : i ≢ h = omega (arith, e, steps-ne capacity h n hh hn) in
      rw (get_elem?-set_ne values i h v away, got) (ap (◌∷◌ x) rest)

  -- Writing before a window of fewer than `capacity` values leaves it alone.
  pub window-set_before :
      (capacity : ℕ) (values : List A) (v : A) (n k h i : ℕ)
      → h < capacity
      → i < capacity
      → h ≡ (i + suc k) % capacity
      → suc k + n ≤ capacity
      → window capacity (set values i v) h n ≡ window capacity values h n
  window-set_before capacity values v zero k h i hh hi e le = refl
  window-set_before capacity values v (suc n) k h i hh hi e le =
      let away : i ≢ h = omega (arith, e, steps-ne capacity i k hi (omega arith)) in
      let step : (h + 1) % capacity ≡ (i + suc (suc k)) % capacity =
        ap (λ t. (t + 1) % capacity) e
        ∙ mod-add-mod (i + suc k) capacity 1
        ∙ (let s : i + suc k + 1 ≡ i + suc (suc k) = omega arith in ap (λ t. t % capacity) s) in
      rw (
        get_elem?-set_ne values i h v away,
        window-set_before capacity values v n (suc k) ((h + 1) % capacity) i (omega arith) hi step
            (omega arith),
      )
