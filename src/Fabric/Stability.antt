-- ===== src/Fabric/Stability.antt =====
-- The address watches of `check_stability` in src/fabric.hpp against AXI's handshake rule.
use verilator_axi_testbench.Common.{
  ◌≡◌, refl, ◌∙◌, sym, ◌↔◌, Bool, true, false, not, ◌&&◌, if◌then◌else◌, List, [], ◌∷◌, arith,
  Result, ok, ◌>>=◌, >>=-eq-ok, ok-inj,
}
use verilator_axi_testbench.Axi.{AddressPayload}
use verilator_axi_testbench.Axi.Payload.{same_address_iff}
use verilator_axi_testbench.Fabric.State.{AddressWatch}
use verilator_axi_testbench.Fabric.Signals.{check_address_watch}

-- What one clock edge sees of an address channel.
pub record Sample : Type 0 where
  pub valid : Bool
  pub ready : Bool
  pub payload : AddressPayload

-- The calls of `check_address_watch` on one channel, edge after edge.
unfoldable pub watch_run : AddressWatch → List Sample → Result AddressWatch
unfolding check_address_watch
watch_run watch [] = ok watch
watch_run watch (s ∷ samples) = do
  watch' ← check_address_watch watch s.valid s.ready s.payload
  watch_run watch' samples

-- A payload that is offered and not taken is offered again, unchanged, on the next edge.
abbrev pub Holds : Bool → AddressPayload → List Sample → Type 0
Holds stalled held [] = Unit
Holds stalled held (s ∷ samples) = (stalled ≡ true → (s.valid ≡ true) × (s.payload ≡ held))

abbrev pub IsStable : List Sample → Type 0
IsStable [] = Unit
IsStable (s ∷ samples) = Holds (s.valid && not s.ready) s.payload samples × IsStable samples

pub record Checked (watch : AddressWatch) (s : Sample) : Type 0 where
  pub next : AddressWatch
  pub passes : check_address_watch watch s.valid s.ready s.payload ≡ ok next
  pub blocked_eq : next.blocked ≡ (s.valid && not s.ready)
  pub payload_eq : next.blocked ≡ true → next.payload ≡ s.payload

passes-of_Holds :
    (watch : AddressWatch) (s : Sample) (samples : List Sample)
    → Holds watch.blocked watch.payload (s ∷ samples)
    → Checked watch s
unfolding check_address_watch
passes-of_Holds watch s samples h = record {
  next = record {
    blocked = s.valid && not s.ready;
    payload = if s.valid && not s.ready then s.payload else watch.payload;
  };
  passes = ground (arith, (same_address_iff s.payload watch.payload).1);
  blocked_eq = refl;
  payload_eq = λ e. rw e;
}

Holds-of_passes :
    (watch watch' : AddressWatch) (s : Sample) (samples : List Sample)
    → check_address_watch watch s.valid s.ready s.payload ≡ ok watch'
    → Holds watch.blocked watch.payload (s ∷ samples)
unfolding check_address_watch
Holds-of_passes watch watch' s samples h stalled =
    ground (arith, (same_address_iff s.payload watch.payload).0)

-- The next sample keeps what the new watch holds exactly when it keeps what was just offered.
Holds-next :
    (watch : AddressWatch) (s : Sample) (samples : List Sample) (c : Checked watch s)
    → Holds c.next.blocked c.next.payload samples ↔ Holds (s.valid && not s.ready) s.payload samples
Holds-next watch s [] c = (λ u. tt, λ u. tt)
Holds-next watch s (t ∷ samples) c =
    let blocked = c.blocked_eq in
    let same = c.payload_eq in
    (
      λ h e. ((h (blocked ∙ e)).0, (h (blocked ∙ e)).1 ∙ same (blocked ∙ e)),
      λ h e. ((h (sym blocked ∙ e)).0, (h (sym blocked ∙ e)).1 ∙ sym (same e)),
    )

watch_run-passes :
    (watch : AddressWatch) (samples : List Sample)
    → Holds watch.blocked watch.payload samples
    → IsStable samples
    → (watch' : AddressWatch) × (watch_run watch samples ≡ ok watch')
unfolding watch_run
watch_run-passes watch [] h stable = (watch, refl)
watch_run-passes watch (s ∷ samples) h stable =
    let c = passes-of_Holds watch s samples h in
    let (last, done) =
      watch_run-passes c.next samples ((Holds-next watch s samples c).1 stable.0) stable.1 in
    (last, rw c.passes done)

watch_run-step :
    (watch last : AddressWatch) (s : Sample) (samples : List Sample)
    → watch_run watch (s ∷ samples) ≡ ok last
    → (next : AddressWatch) × (check_address_watch watch s.valid s.ready s.payload ≡ ok next)
      × (watch_run next samples ≡ ok last)
unfolding watch_run
watch_run-step watch last s samples h = >>=-eq-ok _ _ h

watch_run-IsStable :
    (watch last : AddressWatch) (samples : List Sample)
    → watch_run watch samples ≡ ok last
    → Holds watch.blocked watch.payload samples × IsStable samples
watch_run-IsStable watch last [] h = (tt, tt)
watch_run-IsStable watch last (s ∷ samples) h =
    let (next, e, done) = watch_run-step watch last s samples h in
    let held = Holds-of_passes watch next s samples e in
    let c = passes-of_Holds watch s samples held in
    let same : ok next ≡ ok c.next = sym e ∙ c.passes in
    let rest = watch_run-IsStable c.next last samples (rw (← ok-inj (sym same)) at done) in
    (held, ((Holds-next watch s samples c).0 rest.0, rest.1))

-- Edge after edge, the watch of an address channel accepts exactly the stable sequences: those in
-- which a payload that was offered and not taken is offered again, unchanged, on the next edge.
pub watch_run_iff :
    (watch : AddressWatch) (samples : List Sample)
    → watch.blocked ≡ false
    → ((last : AddressWatch) × (watch_run watch samples ≡ ok last)) ↔ IsStable samples
watch_run_iff watch samples free = (
  λ done. (watch_run-IsStable watch done.0 samples done.1).1,
  λ stable. watch_run-passes watch samples (starts samples) stable,
)
  where
    starts : (samples' : List Sample) → Holds watch.blocked watch.payload samples'
    starts [] = tt
    starts (s ∷ rest) = λ e. absurd (ground (arith, free))
