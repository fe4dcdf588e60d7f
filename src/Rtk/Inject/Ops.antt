-- ===== src/Rtk/Inject/Ops.antt =====
-- injection_authority.hpp and .cpp. The virtual sinks are an interface; a frame is a value of `F`.
-- The mutex makes one method follow another, which is the order of the calls.
use dyx_3wd.Base.{ℕ, ◌+◌, Bool, false, not, Option, none, some, ◌==◌, if◌then◌else◌, u64}

-- TransportSink of transport_sink.hpp: the methods that a sink overrides, on its state.
pub record TransportSink (S F R : Type 0) : Type 0 where
  pub open_sink : S → R → S × Bool
  pub deliver_frame : S → F → R → S × Bool
  pub close_sink : S → S
  pub is_active : S → Bool

pub data CorrectionSource : Type 0 where
  ntrip lora : CorrectionSource

pub data CorrectionTransport : Type 0 where
  usb_direct px4_dds : CorrectionTransport

pub record InjectionAuthority (U D : Type 0) : Type 0 where
  pub usb : U
  pub dds : D
  pub selected : Option CorrectionTransport
  pub source : CorrectionSource
  pub transport : CorrectionTransport
  pub generation : ℕ

unfoldable pub authority : {U D : Type 0} → U → D → InjectionAuthority U D
authority usb dds = record {
  usb = usb;
  dds = dds;
  selected = none;
  source = ntrip;
  transport = px4_dds;
  generation = 0;
}

-- The methods that change the authority.
pub data Call (F R : Type 0) : Type 0 where
  switches : CorrectionSource → CorrectionTransport → R → Call F R
  stops : Call F R
  delivers : ℕ → F → R → Call F R

module _ {U D F R : Type 0} (u : TransportSink U F R) (d : TransportSink D F R) where
  -- A call of `close` through the pointer, if it is set.
  unfoldable pub close_selected : InjectionAuthority U D → InjectionAuthority U D
  close_selected a = elim a.selected [
    | none ↦ a
    | some usb_direct ↦ record a { usb = u.close_sink a.usb }
    | some px4_dds ↦ record a { dds = d.close_sink a.dds }
  ]

  unfoldable pub open_next :
      InjectionAuthority U D → CorrectionTransport → R → InjectionAuthority U D
  open_next a usb_direct now = record a { usb = (u.open_sink a.usb now).0 }
  open_next a px4_dds now = record a { dds = (d.open_sink a.dds now).0 }

  unfoldable pub switch_to :
      InjectionAuthority U D
      → CorrectionSource
      → CorrectionTransport
      → R
      → InjectionAuthority U D × ℕ
  switch_to a source transport now =
      let raised = record a { generation = u64 (a.generation + 1) } in
      let closed = close_selected raised in
      let opened =
        open_next (record closed { selected = none; source = source; transport = transport })
          transport now in
      (record opened { selected = some transport }, opened.generation)

  unfoldable pub stop : InjectionAuthority U D → InjectionAuthority U D
  stop a =
      let closed = close_selected (record a { generation = u64 (a.generation + 1) }) in
      record closed { selected = none }

  unfoldable pub deliver_selected :
      InjectionAuthority U D → CorrectionTransport → F → R → InjectionAuthority U D × Bool
  deliver_selected a usb_direct frame now =
      let (usb, done) = u.deliver_frame a.usb frame now in (record a { usb = usb }, done)
  deliver_selected a px4_dds frame now =
      let (dds, done) = d.deliver_frame a.dds frame now in (record a { dds = dds }, done)

  unfoldable pub deliver : InjectionAuthority U D → ℕ → F → R → InjectionAuthority U D × Bool
  deliver a generation frame now = elim a.selected [
    | none ↦ (a, false)
    | some transport ↦
        if not (generation == a.generation)
        then (a, false)
        else deliver_selected a transport frame now
  ]

  unfoldable pub active : InjectionAuthority U D → Bool
  active a = elim a.selected [
    | none ↦ false
    | some usb_direct ↦ u.is_active a.usb
    | some px4_dds ↦ d.is_active a.dds
  ]

  unfoldable pub call : InjectionAuthority U D → Call F R → InjectionAuthority U D
  unfolding switch_to stop deliver
  call a (switches source transport now) = (switch_to a source transport now).0
  call a stops = stop a
  call a (delivers generation frame now) = (deliver a generation frame now).0
