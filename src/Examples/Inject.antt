-- ===== src/Examples/Inject.antt =====
-- The corrections on their way to the receiver, at concrete runs.
use dyx_3wd.Base.{
  ℕ, zero, suc, ◌%◌, ◌<◌, ◌≡◌, refl, ◌⊎◌, false, ◌&&◌, ◌||◌, none, List, [], ◌∷◌, arith, length,
}
use dyx_3wd.Base.Trace.{after}
use dyx_3wd.Base.Milli.{Milli, milli}
use dyx_3wd.Rtk.Transport.Ops.{
  yes, DdsSink, Chunker, new_sink, split, open_dds, close_dds, deliver_dds,
}
use dyx_3wd.Rtk.Transport.Pieces.{IsCut, split_lem}
use dyx_3wd.Rtk.Inject.Ops.{
  TransportSink, ntrip, lora, usb_direct, px4_dds, authority, switches, delivers, Call, call, stop,
  deliver, active,
}
use dyx_3wd.Rtk.Inject.Exclusive.{at_most_one_sink}
use dyx_3wd.Rtk.Monitor.Worker.{wait_rtcm, injecting, Change}

abbrev bytes_of : ℕ → List ℕ
bytes_of zero = []
bytes_of (suc n) = n % 256 ∷ bytes_of n

abbrev chunker : Chunker
chunker = record { seq = 31; rejected = 0 }

split_lem_example :
    let (d, cs) = split chunker (bytes_of 301) in
    (IsCut (bytes_of 301) 31 cs × (d.seq ≡ 32 % 32) × (d.rejected ≡ 0))
    ⊎ (((length (bytes_of 301) ≡ 0) ⊎ (1200 < length (bytes_of 301)))
        × (cs ≡ [])
        × (d.seq ≡ 31)
        × (d.rejected ≡ 1))
split_lem_example = split_lem chunker (bytes_of 301) (omega arith)

abbrev sink : DdsSink Milli
sink = new_sink (milli 0)

-- The DDS sink behind the interface, always ready.
abbrev dds : TransportSink (DdsSink Milli) (List ℕ) Milli
dds = record {
  open_sink = λ s now. open_dds s yes;
  deliver_frame =
      λ s frame now. let (t, sent, done) = deliver_dds s yes yes (λ _. yes) frame now in (t, done);
  close_sink = close_dds;
  is_active = λ s. s.active;
}

abbrev run : List (Call (List ℕ) Milli)
run =
    switches lora px4_dds (milli 300)
    ∷ delivers 1 (bytes_of 20) (milli 200)
    ∷ switches ntrip usb_direct (milli 100)
    ∷ []

closed : (s : DdsSink Milli) → (close_dds s).active ≡ false
unfolding close_dds
closed s = refl

at_most_one_sink_example :
    let a = after (call dds dds) (authority sink sink) run in
    let b = stop dds dds a in
    ((a.usb.active && a.dds.active) ≡ false)
    × (a.selected ≡ none → (a.usb.active ≡ false) × (a.dds.active ≡ false))
    × (active dds dds a ≡ (a.usb.active || a.dds.active))
    × (b.usb.active ≡ false)
    × (b.dds.active ≡ false)
    × (active dds dds b ≡ false)
    × (deliver dds dds b 3 (bytes_of 20) (milli 400) ≡ (b, false))
unfolding new_sink
at_most_one_sink_example =
    at_most_one_sink dds dds closed closed sink sink run 3 (bytes_of 20) (milli 400) refl refl

abbrev first : Change
first = record {
  next = wait_rtcm;
  code = "WAITING";
  reason = "no frame";
  timestamp = "t";
  revision = 1;
}

abbrev second : Change
second = record { next = injecting; code = "OK"; reason = ""; timestamp = "u"; revision = 1 }
