-- ===== src/Common/Outcome.antt =====
-- Exceptions as values. Each `throw` of the source is a constructor of `Error`; the message of a
-- `ProtocolError` is a `Violation`, and that of an `ElfError` an `ElfFault`.
use mathlib.Core.Bool.{Bool, true, false}
use mathlib.Core.Path.{◌≡◌, refl}

pub data Violation : Type 0 where
  size_not_representable size_exceeds_bus reserved_burst fixed_too_long : Violation
  wrap_length wrap_unaligned address_overflow crosses_4k : Violation
  changed_while_stalled fifo_overflow address_exceeds_width illegal_exclusive : Violation
  last_missing last_early illegal_strobe monitors_exhausted : Violation

pub data ElfFault : Type 0 where
  out_of_bounds overflows not_an_image unsupported_class not_little_endian : ElfFault
  unsupported_ident_version unsupported_version header_too_small extended_count : ElfFault
  entry_too_small file_exceeds_memory bad_alignment incongruent : ElfFault
  not_one_device not_loadable exceeds_device overlaps_segment overlaps_range : ElfFault
  data_rejected bss_rejected : ElfFault

pub data Error : Type 0 where
  protocol_error : Violation → Error
  elf_error : ElfFault → Error
  logic_error invalid_argument out_of_range : Error
  -- an array index out of range, which the source does not check
  bad_index : Error

-- What a function that may throw gives.
pub data Result {ℓ} (A : Type ℓ) : Type ℓ where
  err : Error → Result A
  ok : A → Result A

-- `if (test) throw e;`
abbrev pub throw_if : Bool → Error → Result (Unit {0})
throw_if false thrown = ok tt
throw_if true thrown = err thrown

-- The statements that follow are skipped after a throw.
infixl 5 ◌>>=◌
abbrev pub ◌>>=◌ {ℓ κ} :
    {A : Type ℓ} {B : Type κ} (first : Result A) (next : A → Result B) → Result B
err thrown >>= next = err thrown
ok value >>= next = next value

infixl 5 ◌>>◌
abbrev pub ◌>>◌ {κ} : {B : Type κ} (first : Result (Unit {0})) (next : Result B) → Result B
first >> next = first >>= λ done. next

-- What is left when a call that returns the new state throws: the old one.
abbrev pub or_same {ℓ} : {A : Type ℓ} → A → Result A → A
or_same old (ok new) = new
or_same old (err e) = old

-- Two steps succeed together exactly when each does.
pub >>-eq-ok {ℓ} :
    {B : Type ℓ} (m : Result (Unit {0})) (k : Result B) {b : B}
    → (m >> k) ≡ ok b
    → (m ≡ ok tt) × (k ≡ ok b)
>>-eq-ok (ok u) k h = (refl, h)
>>-eq-ok (err e) k h = cc

-- A sequence succeeds only through what its first step gives.
pub >>=-eq-ok {ℓ κ} :
    {A : Type ℓ} {B : Type κ} {last : B} (first : Result A) (next : A → Result B)
    → (first >>= next) ≡ ok last
    → (value : A) × (first ≡ ok value) × (next value ≡ ok last)
>>=-eq-ok (ok value) next done = (value, refl, done)
>>=-eq-ok (err thrown) next done = absurd cc

pub ok-inj {ℓ} : {A : Type ℓ} {a b : A} → ok a ≡ ok b → a ≡ b
ok-inj h = cc

pub ok-not-err {ℓ} : {A : Type ℓ} {a : A} {e : Error} → err e ≡ ok a → ⊥
ok-not-err h = cc
