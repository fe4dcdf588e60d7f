-- ===== src/Rtk/Inject/Exclusive.antt =====
-- One sink at a time.
use dyx_3wd.Base.{ℕ, ◌≡◌, refl, false, ◌&&◌, ◌||◌, none, some, List, arith}
use dyx_3wd.Base.Trace.{after, after_inv}
use dyx_3wd.Rtk.Inject.Ops.{
  TransportSink, usb_direct, px4_dds, InjectionAuthority, authority, Call, switches, stops,
  delivers, close_selected, open_next, switch_to, stop, deliver_selected, deliver, active, call,
}

module _ {U D F R : Type 0} (u : TransportSink U F R) (d : TransportSink D F R)
    (closes_usb : (s : U) → u.is_active (u.close_sink s) ≡ false)
    (closes_dds : (s : D) → d.is_active (d.close_sink s) ≡ false) where
  -- A sink that is not selected is closed.
  abbrev pub IsExclusive : InjectionAuthority U D → Type 0
  IsExclusive a = elim a.selected [
    | none ↦ (u.is_active a.usb ≡ false) × (d.is_active a.dds ≡ false)
    | some usb_direct ↦ d.is_active a.dds ≡ false
    | some px4_dds ↦ u.is_active a.usb ≡ false
  ]

  call-IsExclusive :
      (a : InjectionAuthority U D) (c : Call F R) → IsExclusive a → IsExclusive (call u d a c)
  unfolding call switch_to stop deliver close_selected open_next deliver_selected
  call-IsExclusive a (switches source transport now) h =
      ground (arith, closes_usb a.usb, closes_dds a.dds)
  call-IsExclusive a stops h = ground (arith, closes_usb a.usb, closes_dds a.dds)
  call-IsExclusive a (delivers generation frame now) h = ground arith

  first :
      {usb : U} {dds : D}
      → u.is_active usb ≡ false
      → d.is_active dds ≡ false
      → IsExclusive (authority usb dds)
  unfolding authority
  first x y = (x, y)

  exclusive_lem :
      (a : InjectionAuthority U D)
      → IsExclusive a
      → ((u.is_active a.usb && d.is_active a.dds) ≡ false)
        × (a.selected ≡ none → (u.is_active a.usb ≡ false) × (d.is_active a.dds ≡ false))
        × (active u d a ≡ (u.is_active a.usb || d.is_active a.dds))
  unfolding active
  exclusive_lem a h = ground (arith, h)

  stopped_lem :
      (a : InjectionAuthority U D)
      → IsExclusive a
      → let b = stop u d a in
        (u.is_active b.usb ≡ false) × (d.is_active b.dds ≡ false) × (active u d b ≡ false)
  unfolding stop active close_selected
  stopped_lem a h = ground (arith, h, closes_usb a.usb, closes_dds a.dds)

  refused_lem :
      (a : InjectionAuthority U D) (generation : ℕ) (frame : F) (now : R)
      → deliver u d (stop u d a) generation frame now ≡ (stop u d a, false)
  unfolding deliver stop
  refused_lem a generation frame now = refl

  -- After any switches, stops and deliveries of a new authority whose sinks are closed at first, at
  -- most one sink is active, none if none is selected, and `active` says whether one is; a stop then
  -- leaves neither active, and a delivery after it is refused and changes nothing. A closed sink is
  -- taken to be inactive.
  pub at_most_one_sink :
      (usb : U) (dds : D) (cs : List (Call F R)) (generation : ℕ) (frame : F) (now : R)
      → u.is_active usb ≡ false
      → d.is_active dds ≡ false
      → let a = after (call u d) (authority usb dds) cs in
        let b = stop u d a in
        ((u.is_active a.usb && d.is_active a.dds) ≡ false)
        × (a.selected ≡ none → (u.is_active a.usb ≡ false) × (d.is_active a.dds ≡ false))
        × (active u d a ≡ (u.is_active a.usb || d.is_active a.dds))
        × (u.is_active b.usb ≡ false)
        × (d.is_active b.dds ≡ false)
        × (active u d b ≡ false)
        × (deliver u d b generation frame now ≡ (b, false))
  at_most_one_sink usb dds cs generation frame now x y =
      let a = after (call u d) (authority usb dds) cs in
      let h =
        after_inv (call u d) (authority usb dds) IsExclusive (first x y) call-IsExclusive cs in
      let (one, unselected, told) = exclusive_lem a h in
      let (none_usb, none_dds, quiet) = stopped_lem a h in
      (one, unselected, told, none_usb, none_dds, quiet, refused_lem a generation frame now)
