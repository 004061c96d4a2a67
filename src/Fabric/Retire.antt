-- ===== src/Fabric/Retire.antt =====
-- The exit status that `retire_responses` of src/fabric.hpp keeps.
use verilator_axi_testbench.Common.{
  ℕ, suc, ◌≡◌, refl, sym, ap, ◌∙◌, ◌⊎◌, inl, inr, Bool, true, false, not, ◌&&◌, if◌then◌else◌, List,
  [], ◌∷◌, arith, get_elem?, some, Result, ok, ◌>>=◌, Bool-cases, >>=-eq-ok, ok-inj,
}
use verilator_axi_testbench.Axi.{MasterSignals, SlaveSignals, WriteResponsePayload}
use verilator_axi_testbench.Ring.{front, pop}
use verilator_axi_testbench.Fabric.State.{Geometry, PortState}
use verilator_axi_testbench.Fabric.Signals.{ExitStatus, retire_write, retire_read, retire_ports}

module _ (g : Geometry) where
  -- A port whose handshaken write response carries the exit code `code`.
  pub record Exits (ports : List PortState) (outputs : List SlaveSignals)
      (inputs : List MasterSignals) (code : ℕ) : Type 0 where
    pub index : ℕ
    pub port : PortState
    pub output : SlaveSignals
    pub input : MasterSignals
    pub response : WriteResponsePayload
    pub port_at : get_elem? ports index ≡ some port
    pub output_at : get_elem? outputs index ≡ some output
    pub input_at : get_elem? inputs index ≡ some input
    pub handshake : (output.b_valid && input.b_ready) ≡ true
    pub front_eq : front port.b ≡ ok response
    pub carries : response.exit_response ≡ true
    pub code_eq : response.exit_code ≡ code

  -- The status is the old one, or was not completed and this response completed it.
  pub data Retired (p : PortState) (handshake : Bool) (before after : ExitStatus) : Type 0 where
    unchanged : after ≡ before → Retired p handshake before after
    exits :
        (response : WriteResponsePayload)
        → before.completed ≡ false
        → handshake ≡ true
        → front p.b ≡ ok response
        → response.exit_response ≡ true
        → after ≡ record { completed = true; code = response.exit_code }
        → Retired p handshake before after

  abbrev pub status_after : WriteResponsePayload → ExitStatus → ExitStatus
  status_after response status =
      if response.exit_response && not status.completed
      then record { completed = true; code = response.exit_code }
      else status

  status_after-cases :
      (p : PortState) (response : WriteResponsePayload) (before after : ExitStatus)
      → front p.b ≡ ok response
      → status_after response before ≡ after
      → Retired p true before after
  status_after-cases p response before after e h =
      elim (Bool-cases (response.exit_response && not before.completed)) [
        | inl on ↦ exits response (ground arith) refl e (ground arith) (sym h ∙ rw on)
        | inr off ↦ unchanged (sym h ∙ rw off)
      ]

  retire_write-cases :
      (p p' : PortState) (handshake : Bool) (before after : ExitStatus)
      → retire_write g p handshake before ≡ ok (p', after)
      → Retired p handshake before after
  unfolding retire_write
  retire_write-cases p p' false before after h = unchanged (sym (ap (λ t. t.1) (ok-inj h)))
  retire_write-cases p p' true before after h =
      let (response, e, h') =
        >>=-eq-ok (front p.b)
          (λ r. pop g.response_depth p.b >>= λ b. ok (record p { b = b }, status_after r before))
          h in
      let (b, _, h'') =
        >>=-eq-ok (pop g.response_depth p.b)
          (λ b. ok (record p { b = b }, status_after response before)) h' in
      status_after-cases p response before after e (ap (λ t. t.1) (ok-inj h''))

  pub shift :
      {ports : List PortState} {outputs : List SlaveSignals} {inputs : List MasterSignals}
      {code : ℕ} (p : PortState) (output : SlaveSignals) (input : MasterSignals)
      → Exits ports outputs inputs code
      → Exits (p ∷ ports) (output ∷ outputs) (input ∷ inputs) code
  shift p output input x = record {
    index = suc x.index;
    port = x.port;
    output = x.output;
    input = x.input;
    response = x.response;
    port_at = x.port_at;
    output_at = x.output_at;
    input_at = x.input_at;
    handshake = x.handshake;
    front_eq = x.front_eq;
    carries = x.carries;
    code_eq = x.code_eq;
  }

  -- The exit status after an edge is the one before it, or was not completed and a write response
  -- that a master took on this edge carries its code; so the first code stays.
  pub retire_ports-status :
      (ports : List PortState) (outputs : List SlaveSignals) (inputs : List MasterSignals)
      (before after : ExitStatus) (ports' : List PortState)
      → retire_ports g ports outputs inputs before ≡ ok (ports', after)
      → (after ≡ before)
        ⊎ ((before.completed ≡ false)
            × (after.completed ≡ true)
            × Exits ports outputs inputs after.code)
  unfolding retire_ports
  retire_ports-status [] outputs inputs before after ports' h = inl (sym (ap (λ t. t.1) (ok-inj h)))
  retire_ports-status (p ∷ ports) [] inputs before after ports' h =
      inl (sym (ap (λ t. t.1) (ok-inj h)))
  retire_ports-status (p ∷ ports) (o ∷ outputs) [] before after ports' h =
      inl (sym (ap (λ t. t.1) (ok-inj h)))
  retire_ports-status (p ∷ ports) (o ∷ outputs) (i ∷ inputs) before after ports' h =
      let (first, e, h₁) =
        >>=-eq-ok (retire_write g p (o.b_valid && i.b_ready) before)
          (λ t. retire_read g t.0 (o.r_valid && i.r_ready) >>= after_read t.1) h in
      let (p'', _, h₂) =
        >>=-eq-ok (retire_read g first.0 (o.r_valid && i.r_ready)) (after_read first.1) h₁ in
      let (rest, e₃, h₃) =
        >>=-eq-ok (retire_ports g ports outputs inputs first.1) (λ t. ok (p'' ∷ t.0, t.1)) h₂ in
      let same : rest.1 ≡ after = ap (λ t. t.1) (ok-inj h₃) in
      join (retire_write-cases p first.0 _ before first.1 e)
        (retire_ports-status ports outputs inputs first.1 after rest.0 (rw (← same) e₃))
    where
      after_read : ExitStatus → PortState → Result (List PortState × ExitStatus)
      after_read status p'' =
          retire_ports g ports outputs inputs status >>= λ t. ok (p'' ∷ t.0, t.1)

      join :
          {middle : ExitStatus}
          → Retired p (o.b_valid && i.b_ready) before middle
          → (after ≡ middle)
            ⊎ ((middle.completed ≡ false)
                × (after.completed ≡ true)
                × Exits ports outputs inputs after.code)
          → (after ≡ before)
            ⊎ ((before.completed ≡ false)
                × (after.completed ≡ true)
                × Exits (p ∷ ports) (o ∷ outputs) (i ∷ inputs) after.code)
      join (unchanged e) (inl f) = inl (f ∙ e)
      join (unchanged e) (inr (open_, done, x)) =
          inr (sym (ap (λ (t : ExitStatus). t.completed) e) ∙ open_, done, shift p o i x)
      join (exits response free shaken e carries e') (inl f) = inr (
        free,
        ap (λ (t : ExitStatus). t.completed) (f ∙ e'),
        record {
          index = 0;
          port = p;
          output = o;
          input = i;
          response = response;
          port_at = refl;
          output_at = refl;
          input_at = refl;
          handshake = shaken;
          front_eq = e;
          carries = carries;
          code_eq = sym (ap (λ (t : ExitStatus). t.code) (f ∙ e'));
        },
      )
      join (exits response free shaken e carries e') (inr (open_, done, x)) =
          absurd (ground (arith, ap (λ (t : ExitStatus). t.completed) e', open_))
