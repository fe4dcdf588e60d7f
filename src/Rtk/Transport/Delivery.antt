-- ===== src/Rtk/Transport/Delivery.antt =====
-- What the DDS sink has published when it says so.
use dyx_3wd.Base.{
  ℕ, ◌+◌, ◌<◌, ◌≡◌, refl, sym, ap, ◌∙◌, subst, ◌⊎◌, inl, inr, Bool, true, false, not, ◌&&◌, ◌||◌,
  List, [], ◌∷◌, arith, ◌==◌, u64, if_cases, length,
}
use dyx_3wd.Rtk.Transport.Ops.{
  Chunk, Chunker, split, Answer, is_yes, DdsSink, open_dds, publish_all, send_frame, deliver_dds,
}
use dyx_3wd.Rtk.Transport.Pieces.{IsCut, split_lem}

publish_all_lem :
    (publish : Chunk → Answer) (cs : List Chunk)
    → (publish_all publish cs).1 ≡ true
    → (publish_all publish cs).0 ≡ cs
unfolding publish_all
publish_all_lem publish [] h = refl
publish_all_lem publish (c ∷ cs) h = ground (arith, h, publish_all_lem publish cs)

split-IsCut :
    (c : Chunker) (bytes : List ℕ)
    → c.seq < 32
    → (length (split c bytes).1 == 0) ≡ false
    → IsCut bytes c.seq (split c bytes).1
split-IsCut c bytes h some_chunks = elim (split_lem c bytes h) [
  | inl cut ↦ cut.0
  | inr refused ↦ absurd (ground (arith, some_chunks, ap length refused.1))
]

module _ {R : Type 0} where
  -- What a delivery makes of the sink's counters.
  abbrev pub Delivered : DdsSink R → List ℕ → DdsSink R × List Chunk × Bool → Type 0
  Delivered s bytes (t, sent, done) =
      ((done ≡ true)
        × IsCut bytes s.chunker.seq sent
        × (t.active ≡ true)
        × (t.counters.frames_delivered ≡ u64 (s.counters.frames_delivered + 1))
        × (t.counters.bytes_delivered ≡ u64 (s.counters.bytes_delivered + length bytes)))
      ⊎ ((done ≡ false)
          × (t.counters.frames_delivered ≡ s.counters.frames_delivered)
          × (t.counters.bytes_delivered ≡ s.counters.bytes_delivered))

  send_frame-Delivered :
      (s : DdsSink R) (publish : Chunk → Answer) (bytes : List ℕ) (now : R)
      → s.chunker.seq < 32
      → s.active ≡ true
      → Delivered s bytes (send_frame s publish bytes now)
  unfolding send_frame
  send_frame-Delivered s publish bytes now h a =
      let pieces = (split s.chunker bytes).1 in
      if_cases (Delivered s bytes) (length pieces == 0 || not (publish_all publish pieces).1) _ _
        (λ refused. inr (refl, refl, refl))
        (λ published. inl (
          refl,
          subst (IsCut bytes s.chunker.seq)
              (sym (publish_all_lem publish pieces (ground (arith, published))))
              (split-IsCut s.chunker bytes h (ground (arith, published))),
          a,
          refl,
          refl,
        ))

  Delivered-same :
      (s t : DdsSink R) (bytes : List ℕ) (out : DdsSink R × List Chunk × Bool)
      → (t.chunker ≡ s.chunker)
        × (t.counters.frames_delivered ≡ s.counters.frames_delivered)
        × (t.counters.bytes_delivered ≡ s.counters.bytes_delivered)
      → Delivered t bytes out
      → Delivered s bytes out
  Delivered-same s t bytes out e (inl (done, cut, a, frames, count)) = inl (
    done,
    subst (λ c. IsCut bytes c.seq out.1) e.0 cut,
    a,
    frames ∙ ap (λ n. u64 (n + 1)) e.1,
    count ∙ ap (λ n. u64 (n + length bytes)) e.2,
  )
  Delivered-same s t bytes out e (inr (done, frames, count)) = inr (done, frames ∙ e.1, count ∙ e.2)

  open_dds_lem :
      (s : DdsSink R) (opening : Answer)
      → let t = (open_dds s opening).0 in
        ((t.chunker ≡ s.chunker)
          × (t.counters.frames_delivered ≡ s.counters.frames_delivered)
          × (t.counters.bytes_delivered ≡ s.counters.bytes_delivered))
        × ((open_dds s opening).1 ≡ t.active)
  unfolding open_dds
  open_dds_lem s opening = ground arith

  -- A delivery that reports success was made with the sink ready; it has published the chunks that
  -- carry the frame, and counts the frame and its bytes. One that fails counts none.
  pub deliver_dds-Delivered :
      (s : DdsSink R) (opening ready : Answer) (publish : Chunk → Answer) (bytes : List ℕ) (now : R)
      → s.chunker.seq < 32
      → let out = deliver_dds s opening ready publish bytes now in
        Delivered s bytes out × (out.2 ≡ true → is_yes ready ≡ true)
  unfolding deliver_dds
  deliver_dds-Delivered s opening ready publish bytes now h =
      let (t, is_open) = open_dds s opening in
      let (same, opened) = open_dds_lem s opening in
      if_cases
        (λ (out : DdsSink R × List Chunk × Bool).
          Delivered s bytes out × (out.2 ≡ true → is_yes ready ≡ true))
        (not (is_open && is_yes ready)) _ _
        (λ refused. (inr (refl, same.1, same.2), λ done. absurd (ground (arith, done))))
        (λ sends. (
          Delivered-same s t bytes (send_frame t publish bytes now) same (
              send_frame-Delivered t publish bytes now (subst (λ c. c.seq < 32) (sym same.0) h)
                (sym opened ∙ ground (arith, sends))),
          λ done. ground (arith, sends),
        ))
