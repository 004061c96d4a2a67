-- ===== src/Fabric/Ingress.antt =====
-- The phases of `drive` and `commit` in src/fabric.hpp that move data between the channels and the
-- FIFOs of all ports.
use verilator_axi_testbench.Common.{
  ℕ, ◌≡◌, refl, sym, ◌∙◌, Bool, true, false, not, ◌&&◌, List, [], ◌∷◌, arith, ok, get_elem?, zero,
  suc, some, some-eq,
}
use mathlib.Core.Path.{subst}
use verilator_axi_testbench.Axi.{MasterSignals, SlaveSignals, WriteResponsePayload}
use verilator_axi_testbench.Ring.{RingBuffer, empty}
use verilator_axi_testbench.Ring.Contents.{IsValid, Split, Split-of_ne_zero}
use verilator_axi_testbench.Fabric.State.{Geometry, PortState, Fabric, Stall}
use verilator_axi_testbench.Fabric.Signals.{
  ExitStatus, drive_ports, drive, retire_write, retire_read, retire_ports, retire_responses,
  accept_port, accept_ingress, each_port,
}
use verilator_axi_testbench.Fabric.Retire.{status_after}
use verilator_axi_testbench.Fabric.Handshake.{IsValidPort, Driven, drive_port-ok, accept_of_room}

and-left : (a b : Bool) → (a && b) ≡ true → a ≡ true
and-left true b h = refl
and-left false b h = h

and-both : (a b : Bool) → (a && b) ≡ true → b ≡ true
and-both true b h = h
and-both false b h = absurd cc

module _ (g : Geometry) where
  abbrev pub AreValid : List PortState → Type 0
  AreValid [] = Unit
  AreValid (p ∷ ports) = IsValidPort g p × AreValid ports

  pub AreValid-get :
      (ports : List PortState) (i : ℕ) (p : PortState)
      → AreValid ports
      → get_elem? ports i ≡ some p
      → IsValidPort g p
  AreValid-get [] i p h e = absurd cc
  AreValid-get (q ∷ ports) zero p h e = subst (IsValidPort g) (some-eq e) h.0
  AreValid-get (q ∷ ports) (suc i) p h e = AreValid-get ports i p h.1 e

  Split-of_not-empty :
      {A : Type 0} (depth : ℕ) (fifo : RingBuffer A)
      → IsValid depth fifo
      → true ≡ not (empty fifo)
      → Split depth fifo
  unfolding empty
  Split-of_not-empty depth fifo w h = Split-of_ne_zero depth fifo w (ground (arith, h))

  -- Retiring a write response that is offered.
  retire_write-ok :
      (p : PortState) (handshake : Bool) (status : ExitStatus)
      → IsValidPort g p
      → (handshake ≡ true → true ≡ not (empty p.b))
      → (b : RingBuffer WriteResponsePayload) × (status' : ExitStatus) × (retire_write g p handshake
            status
          ≡ ok (record p { b = b }, status'))
        × IsValid g.response_depth b
  unfolding retire_write
  retire_write-ok p false status w offered = (p.b, status, refl, w.b)
  retire_write-ok p true status w offered =
      let s = Split-of_not-empty g.response_depth p.b w.b (offered refl) in
      (s.rest, status_after g s.oldest status, rw (s.front_eq, s.pop_eq), s.rest_valid)

  retire_read-ok :
      (p : PortState) (handshake : Bool)
      → IsValidPort g p
      → (handshake ≡ true → true ≡ not (empty p.r))
      → (p' : PortState) × (retire_read g p handshake ≡ ok p')
        × IsValidPort g p'
        × (p'.aw ≡ p.aw)
        × (p'.w ≡ p.w)
        × (p'.ar ≡ p.ar)
  unfolding retire_read
  retire_read-ok p false w offered = (p, refl, w, refl, refl, refl)
  retire_read-ok p true w offered =
      let s = Split-of_not-empty g.response_depth p.r w.r (offered refl) in
      (
        record p { r = s.rest },
        rw s.pop_eq,
        record { aw = w.aw; w = w.w; ar = w.ar; b = w.b; r = s.rest_valid },
        refl,
        refl,
        refl,
      )

  -- What the two phases leave of a port whose outputs were driven.
  pub record Served (p : PortState) (output : SlaveSignals) (input : MasterSignals)
      (status : ExitStatus) : Type 0 where
    pub retired : PortState
    pub status' : ExitStatus
    pub kept : PortState
    pub filled : PortState
    pub write_eq : retire_write g p (output.b_valid && input.b_ready) status ≡ ok (retired, status')
    pub read_eq : retire_read g retired (output.r_valid && input.r_ready) ≡ ok kept
    pub accept_eq : accept_port g kept output input ≡ ok filled
    pub valid : IsValidPort g filled

  serve :
      (stall : Stall) (p : PortState) (s : ℕ) (status : ExitStatus) (input : MasterSignals)
      → IsValidPort g p
      → (d : Driven g stall p s) → Served p d.output input status
  unfolding accept_port
  serve stall p s status input w d =
      let (b, status', wrote, b_valid) =
        retire_write-ok p (d.output.b_valid && input.b_ready) status w
          λ h. sym (and-left d.output.b_valid input.b_ready h) ∙ d.b_valid_eq in
      let w' : IsValidPort g (record p { b = b }) = record {
        aw = w.aw;
        w = w.w;
        ar = w.ar;
        b = b_valid;
        r = w.r;
      } in
      let (p', read, valid, aw_eq, w_eq, ar_eq) =
        retire_read-ok (record p { b = b }) (d.output.r_valid && input.r_ready) w'
          λ h. sym (and-left d.output.r_valid input.r_ready h) ∙ d.r_valid_eq in
      let aw =
        accept_of_room g.address_depth p'.aw (input.aw_valid && d.output.aw_ready) input.aw valid.aw
          λ h. rw aw_eq (d.aw_room (and-both input.aw_valid _ h)) in
      let wd =
        accept_of_room g.write_data_depth p'.w (input.w_valid && d.output.w_ready) input.w valid.w
          λ h. rw w_eq (d.w_room (and-both input.w_valid _ h)) in
      let ar =
        accept_of_room g.address_depth p'.ar (input.ar_valid && d.output.ar_ready) input.ar valid.ar
          λ h. rw ar_eq (d.ar_room (and-both input.ar_valid _ h)) in
      record {
        retired = record p { b = b };
        status' = status';
        kept = p';
        filled = record p' { aw = aw.fifo'; w = wd.fifo'; ar = ar.fifo' };
        write_eq = wrote;
        read_eq = read;
        accept_eq = rw (aw.taken, wd.taken, ar.taken);
        valid = record { aw = aw.valid; w = wd.valid; ar = ar.valid; b = valid.b; r = valid.r };
      }

  ports-ok :
      (stall : Stall) (ports : List PortState) (s : ℕ) (status : ExitStatus)
      (inputs : List MasterSignals)
      → AreValid ports
      → (outputs : List SlaveSignals) × (s' : ℕ) × (kept : List PortState) × (status' : ExitStatus)
        × (filled : List PortState) × (drive_ports g stall ports s ≡ ok (outputs, s'))
        × (retire_ports g ports outputs inputs status ≡ ok (kept, status'))
        × (each_port (accept_port g) kept outputs inputs ≡ ok filled)
        × AreValid filled
  unfolding drive_ports retire_ports each_port
  ports-ok stall [] s status inputs v = ([], s, [], status, [], refl, refl, refl, tt)
  ports-ok stall (p ∷ ports) s status [] v =
      let d = drive_port-ok g stall p s v.0 in
      let (outputs, s', kept, status', filled, drives, retires, accepts, valid) =
        ports-ok stall ports d.state status [] v.1 in
      (d.output ∷ outputs, s', p ∷ ports, status, p ∷ ports, rw (d.drives, drives), refl, refl, v)
  ports-ok stall (p ∷ ports) s status (input ∷ inputs) v =
      let d = drive_port-ok g stall p s v.0 in
      let x = serve stall p s status input v.0 d in
      let (outputs, s', kept, status', filled, drives, retires, accepts, valid) =
        ports-ok stall ports d.state x.status' inputs v.1 in
      (
        d.output ∷ outputs,
        s',
        x.kept ∷ kept,
        status',
        x.filled ∷ filled,
        rw (d.drives, drives),
        rw (x.write_eq, x.read_eq, retires),
        rw (x.accept_eq, accepts),
        (x.valid, valid),
      )

module _ {ℓ} {D : Type ℓ} (g : Geometry) where
  -- In a fabric whose FIFOs are valid, whatever the stalls and the inputs, `drive` succeeds, and on
  -- its outputs retiring the responses and accepting the ingress succeed in turn, with no overflow
  -- and no access to an empty FIFO, and leave all FIFOs valid. The stability check, which changes
  -- only the watches, is left out.
  pub accept_ingress-drive :
      (f : Fabric D) (inputs : List MasterSignals)
      → AreValid g f.ports
      → (driven retired accepted : Fabric D) × (drive g f false ≡ ok driven)
        × (retire_responses g driven inputs ≡ ok retired)
        × (accept_ingress g retired inputs ≡ ok accepted)
        × AreValid g accepted.ports
  unfolding drive retire_responses accept_ingress
  accept_ingress-drive f inputs v =
      let (outputs, s', kept, status', filled, drives, retires, accepts, valid) =
        ports-ok g f.stall f.ports f.random_state
          (record { completed = f.exit_completed; code = f.exit_code }) inputs v in
      let driven : Fabric D = record f { outputs = outputs; random_state = s' } in
      let retired : Fabric D = record driven {
        ports = kept;
        exit_completed = status'.completed;
        exit_code = status'.code;
      } in
      (driven, retired, record retired { ports = filled }, rw drives, rw retires, rw accepts, valid)
