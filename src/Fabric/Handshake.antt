-- ===== src/Fabric/Handshake.antt =====
-- The ready signals of `drive` in src/fabric.hpp and the FIFOs that `accept_ingress` fills.
use verilator_axi_testbench.Common.{
  ℕ, ◌≡◌, refl, sym, ap, ◌≢◌, inl, inr, Bool, true, false, not, ◌==◌, ◌&&◌, if◌then◌else◌, List, [],
  ◌∷◌, ◌++◌, arith, ok, Bool-cases,
}
use verilator_axi_testbench.Axi.{MasterSignals, SlaveSignals}
use verilator_axi_testbench.Ring.{RingBuffer, full, empty, push, front}
use verilator_axi_testbench.Ring.Contents.{
  IsValid, contents, push-IsValid, push-room, Split, Split-of_ne_zero,
}
use verilator_axi_testbench.Fabric.State.{
  Geometry, PortState, Stall, default_write_response, default_read_data,
}
use verilator_axi_testbench.Fabric.Signals.{accept, ready, drive_port, accept_port}

-- Whatever the generator allows, a full FIFO is not ready.
ready-full :
    (stall : Stall) (is_full : Bool) (s : ℕ) → (ready stall is_full s).0 ≡ true → is_full ≡ false
unfolding ready
ready-full stall true s h = sym h
ready-full stall false s h = refl

module _ {ℓ} {A : Type ℓ} (depth : ℕ) where
  abbrev pub arrived : Bool → A → List A
  arrived true value = value ∷ []
  arrived false value = []

  append-nil : (xs : List A) → xs ++ [] ≡ xs
  append-nil [] = refl
  append-nil (x ∷ xs) = ap (λ ys. x ∷ ys) (append-nil xs)

  -- A FIFO after an edge: it took what was handed over, in order, and is valid.
  pub record Accepted (fifo : RingBuffer A) (handshake : Bool) (value : A) : Type ℓ where
    pub fifo' : RingBuffer A
    pub taken : accept depth fifo handshake value ≡ ok fifo'
    pub valid : IsValid depth fifo'
    pub held : contents depth fifo' ≡ contents depth fifo ++ arrived handshake value

  pub not_full_size : (fifo : RingBuffer A) → full depth fifo ≡ false → fifo.size ≢ depth
  unfolding full
  not_full_size fifo h = ground arith

  pub accept_of_room :
      (fifo : RingBuffer A) (handshake : Bool) (value : A)
      → IsValid depth fifo
      → (handshake ≡ true → full depth fifo ≡ false)
      → Accepted fifo handshake value
  unfolding accept
  accept_of_room fifo false value w room = record {
    fifo' = fifo;
    taken = refl;
    valid = w;
    held = sym (append-nil _);
  }
  accept_of_room fifo true value w room =
      let (done, held) = push-room depth fifo value w (not_full_size fifo (room refl)) in
      record {
        fifo' = (push depth fifo value).0;
        taken = rw done;
        valid = push-IsValid depth fifo value w;
        held = held;
      }

-- The FIFOs of a port are valid.
pub record IsValidPort (g : Geometry) (p : PortState) : Type 0 where
  pub aw : IsValid g.address_depth p.aw
  pub w : IsValid g.write_data_depth p.w
  pub ar : IsValid g.address_depth p.ar
  pub b : IsValid g.response_depth p.b
  pub r : IsValid g.response_depth p.r

module _ (g : Geometry) where
  -- The front of a valid FIFO that is not empty can be driven.
  front_or :
      {A : Type 0} (depth : ℕ) (fifo : RingBuffer A) (d : A)
      → IsValid depth fifo
      → (x : A) × ((if empty fifo then ok d else front fifo) ≡ ok x)
  unfolding empty
  front_or depth fifo d w = elim (Bool-cases (fifo.size == 0)) [
    | inl none_left ↦ (d, rw none_left)
    | inr some_left ↦
        let s : Split depth fifo = Split-of_ne_zero depth fifo w (ground arith) in
        (s.oldest, rw (some_left, s.front_eq))
  ]

  pub record Driven (stall : Stall) (p : PortState) (s : ℕ) : Type 0 where
    pub output : SlaveSignals
    pub state : ℕ
    pub drives : drive_port g stall p s ≡ ok (output, state)
    pub aw_room : output.aw_ready ≡ true → full g.address_depth p.aw ≡ false
    pub w_room : output.w_ready ≡ true → full g.write_data_depth p.w ≡ false
    pub ar_room : output.ar_ready ≡ true → full g.address_depth p.ar ≡ false
    pub b_valid_eq : output.b_valid ≡ not (empty p.b)
    pub r_valid_eq : output.r_valid ≡ not (empty p.r)

  pub drive_port-ok : (stall : Stall) (p : PortState) (s : ℕ) → IsValidPort g p → Driven stall p s
  unfolding drive_port
  drive_port-ok stall p s w =
      let (b, b_eq) = front_or g.response_depth p.b (default_write_response g) w.b in
      let (r, r_eq) = front_or g.response_depth p.r (default_read_data g) w.r in
      let first = ready stall (full g.address_depth p.aw) s in
      let second = ready stall (full g.write_data_depth p.w) first.1 in
      let third = ready stall (full g.address_depth p.ar) second.1 in
      record {
        output = record {
          aw_ready = first.0;
          w_ready = second.0;
          b_valid = not (empty p.b);
          b = b;
          ar_ready = third.0;
          r_valid = not (empty p.r);
          r = r;
        };
        state = third.1;
        drives = rw (b_eq, r_eq);
        aw_room = ready-full stall _ s;
        w_room = ready-full stall _ first.1;
        ar_room = ready-full stall _ second.1;
        b_valid_eq = refl;
        r_valid_eq = refl;
      }

  -- What a port holds after an edge on which a master offered `input` against `output`.
  pub record Received (p p' : PortState) (output : SlaveSignals) (input : MasterSignals)
      : Type 0 where
    pub aw_held :
        contents g.address_depth p'.aw
        ≡ contents g.address_depth p.aw
          ++ arrived g.address_depth (input.aw_valid && output.aw_ready) input.aw
    pub w_held :
        contents g.write_data_depth p'.w
        ≡ contents g.write_data_depth p.w
          ++ arrived g.write_data_depth (input.w_valid && output.w_ready) input.w
    pub ar_held :
        contents g.address_depth p'.ar
        ≡ contents g.address_depth p.ar
          ++ arrived g.address_depth (input.ar_valid && output.ar_ready) input.ar
    pub b_same : p'.b ≡ p.b
    pub r_same : p'.r ≡ p.r

  and-right : (a b : Bool) → (a && b) ≡ true → b ≡ true
  and-right true b h = h
  and-right false b h = absurd cc

  -- For a port with valid FIFOs, whatever the stalls, the outputs of `drive` exist and are safe: a
  -- response is offered exactly when one waits, and whatever the master sends against those outputs
  -- is accepted with no overflow, each beat handed over standing last in its FIFO, the response
  -- FIFOs unchanged, and all FIFOs valid.
  pub accept_port-drive_port :
      (stall : Stall) (p : PortState) (s : ℕ) (input : MasterSignals)
      → IsValidPort g p
      → (output : SlaveSignals) × (s' : ℕ) × (p' : PortState) × (drive_port g stall p s
          ≡ ok (output, s'))
        × (output.b_valid ≡ not (empty p.b))
        × (output.r_valid ≡ not (empty p.r))
        × (accept_port g p output input ≡ ok p')
        × Received p p' output input
        × IsValidPort g p'
  unfolding accept_port
  accept_port-drive_port stall p s input w =
      let d = drive_port-ok stall p s w in
      let aw =
        accept_of_room g.address_depth p.aw _ input.aw w.aw
          λ h. d.aw_room (and-right input.aw_valid _ h) in
      let wd =
        accept_of_room g.write_data_depth p.w _ input.w w.w
          λ h. d.w_room (and-right input.w_valid _ h) in
      let ar =
        accept_of_room g.address_depth p.ar _ input.ar w.ar
          λ h. d.ar_room (and-right input.ar_valid _ h) in
      (
        d.output,
        d.state,
        record p { aw = aw.fifo'; w = wd.fifo'; ar = ar.fifo' },
        d.drives,
        d.b_valid_eq,
        d.r_valid_eq,
        rw (aw.taken, wd.taken, ar.taken),
        record {
          aw_held = aw.held;
          w_held = wd.held;
          ar_held = ar.held;
          b_same = refl;
          r_same = refl;
        },
        record { aw = aw.valid; w = wd.valid; ar = ar.valid; b = w.b; r = w.r },
      )
