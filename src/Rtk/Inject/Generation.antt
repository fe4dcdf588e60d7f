-- ===== src/Rtk/Inject/Generation.antt =====
-- A source's callback that was started before a switch injects nothing after it.
use dyx_3wd.Base.{ℕ, suc, ◌+◌, ◌<◌, ◌≡◌, refl, ◌∙◌, false, List, [], ◌∷◌, arith, u64}
use dyx_3wd.Base.Trace.{after}
use dyx_3wd.Rtk.Inject.Ops.{
  TransportSink, CorrectionTransport, usb_direct, px4_dds, InjectionAuthority, Call, switches,
  stops, delivers, close_selected, open_next, switch_to, stop, deliver_selected, deliver, call,
}

module _ {U D F R : Type 0} (u : TransportSink U F R) (d : TransportSink D F R) where
  -- The calls that start another generation.
  abbrev pub raises : List (Call F R) → ℕ
  raises [] = 0
  raises (delivers generation frame now ∷ cs) = raises cs
  raises (_ ∷ cs) = suc (raises cs)

  close_selected_generation :
      (a : InjectionAuthority U D) → (close_selected u d a).generation ≡ a.generation
  unfolding close_selected
  close_selected_generation a = ground arith

  open_next_generation :
      (a : InjectionAuthority U D) (t : CorrectionTransport) (now : R)
      → (open_next u d a t now).generation ≡ a.generation
  unfolding open_next
  open_next_generation a usb_direct now = refl
  open_next_generation a px4_dds now = refl

  call_generation :
      (a : InjectionAuthority U D) (c : Call F R)
      → (call u d a c).generation ≡ (elim c [
        | delivers generation frame now ↦ a.generation
        | switches source transport now ↦ u64 (a.generation + 1)
        | stops ↦ u64 (a.generation + 1)
      ])
  unfolding call switch_to stop deliver deliver_selected
  call_generation a (switches source transport now) =
      open_next_generation _ transport now ∙ close_selected_generation _
  call_generation a stops = close_selected_generation _
  call_generation a (delivers generation frame now) = ground arith

  after_generation :
      (a : InjectionAuthority U D) (cs : List (Call F R))
      → a.generation < 18446744073709551616
      → (after (call u d) a cs).generation ≡ u64 (a.generation + raises cs)
  unfolding after
  after_generation a [] h = omega (arith, h)
  after_generation a (c ∷ cs) h =
      let e = call_generation (after (call u d) a cs) c in
      let k = after_generation a cs h in ground (arith, e, k)

  -- After one switch or stop or more, and fewer than 2^64, a delivery with the generation of before
  -- is refused, and neither sink nor anything else changes.
  pub stale_is_refused :
      (a : InjectionAuthority U D) (cs : List (Call F R)) (frame : F) (now : R)
      → a.generation < 18446744073709551616
      → 0 < raises cs
      → raises cs < 18446744073709551616
      → let b = after (call u d) a cs in deliver u d b a.generation frame now ≡ (b, false)
  unfolding deliver
  stale_is_refused a cs frame now h some_raise few =
      let k = after_generation a cs h in ground (arith, k)
