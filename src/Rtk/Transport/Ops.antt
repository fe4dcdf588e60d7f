-- ===== src/Rtk/Transport/Ops.antt =====
-- rtcm_transport.hpp and .cpp, and DdsSink of transport_sink.hpp and .cpp. A byte is a number; the
-- three fields of the flags have bits of their own, so that their union is their sum. What `ready_`
-- and `publish_` answer, or that they throw, is an argument.
use dyx_3wd.Base.{
  ℕ, zero, suc, ◌+◌, ◌-◌, ◌*◌, ◌/◌, ◌%◌, Bool, true, false, not, ◌&&◌, ◌||◌, List, [], ◌∷◌, ltb,
  ◌==◌, if◌then◌else◌, u64, length, drop, take,
}

pub record Chunk : Type 0 where
  pub flags : ℕ
  pub bytes : List ℕ

abbrev pub max_chunk_bytes : ℕ
max_chunk_bytes = 300

abbrev pub max_fragments : ℕ
max_fragments = 4

pub record Chunker : Type 0 where
  pub seq : ℕ
  pub rejected : ℕ

unfoldable pub flags_of : ℕ → ℕ → ℕ → ℕ
flags_of n k seq = ((if ltb 1 n then 1 else 0) + k * 2 + seq * 8) % 256

-- Chunk `k` of `n`.
unfoldable pub chunk : List ℕ → ℕ → ℕ → ℕ → Chunk
chunk frame n seq k =
    let start = k * max_chunk_bytes in
    let beyond = start + max_chunk_bytes in
    let end = if ltb beyond (length frame) then beyond else length frame in
    record { flags = flags_of n k seq; bytes = take (end - start) (drop start frame) }

-- The loop over the chunks, with the number of those left.
unfoldable pub chunks : List ℕ → ℕ → ℕ → ℕ → ℕ → List Chunk
chunks frame n seq k zero = []
chunks frame n seq k (suc left) = chunk frame n seq k ∷ chunks frame n seq (suc k) left

abbrev pub chunk_count : List ℕ → ℕ
chunk_count frame = (length frame + max_chunk_bytes - 1) / max_chunk_bytes

unfoldable pub split : Chunker → List ℕ → Chunker × List Chunk
split c frame =
    if length frame == 0 || ltb (max_chunk_bytes * max_fragments) (length frame)
    then (record c { rejected = u64 (c.rejected + 1) }, [])
    else (
      record c { seq = (c.seq + 1) % 32 },
      chunks frame (chunk_count frame) c.seq 0 (chunk_count frame),
    )

-- What a callback does.
pub data Answer : Type 0 where
  yes no throws : Answer

abbrev pub is_yes : Answer → Bool
is_yes yes = true
is_yes _ = false

pub record SinkCounters (R : Type 0) : Type 0 where
  pub frames_delivered : ℕ
  pub bytes_delivered : ℕ
  pub failures : ℕ
  pub opens : ℕ
  pub last_delivery_s : R

pub record DdsSink (R : Type 0) : Type 0 where
  pub chunker : Chunker
  pub active : Bool
  pub counters : SinkCounters R

-- The loop that publishes: the chunks that were published, and whether all were.
unfoldable pub publish_all : (Chunk → Answer) → List Chunk → List Chunk × Bool
publish_all publish [] = ([], true)
publish_all publish (c ∷ cs) =
    let (sent, all) = publish_all publish cs in
    if is_yes (publish c) then (c ∷ sent, all) else ([], false)

module _ {R : Type 0} where
  abbrev pub failed : SinkCounters R → SinkCounters R
  failed c = record c { failures = u64 (c.failures + 1) }

  unfoldable pub open_dds : DdsSink R → Answer → DdsSink R × Bool
  open_dds s ready = if s.active then (s, true) else elim ready [
    | yes ↦ (
      record s {
        active = true;
        counters = record s.counters { opens = u64 (s.counters.opens + 1) };
      },
      true,
    )
    | no ↦ (s, false)
    | throws ↦ (record s { counters = failed s.counters }, false)
  ]

  unfoldable pub close_dds : DdsSink R → DdsSink R
  close_dds s = record s { active = false }

  -- What follows once the sink is ready.
  unfoldable pub send_frame :
      DdsSink R → (Chunk → Answer) → List ℕ → R → DdsSink R × List Chunk × Bool
  send_frame s publish bytes now =
      let (chunker, pieces) = split s.chunker bytes in
      let (sent, all) = publish_all publish pieces in
      let s' = record s { chunker = chunker } in
      if length pieces == 0 || not all
      then (record s' { counters = failed s.counters }, sent, false)
      else (
        record s' {
          counters = record s.counters {
            frames_delivered = u64 (s.counters.frames_delivered + 1);
            bytes_delivered = u64 (s.counters.bytes_delivered + length bytes);
            last_delivery_s = now;
          };
        },
        sent,
        true,
      )

  -- `ready_` is asked by `open`, unless the sink is active, and then once more.
  unfoldable pub deliver_dds :
      DdsSink R → Answer → Answer → (Chunk → Answer) → List ℕ → R → DdsSink R × List Chunk × Bool
  deliver_dds s opening ready publish bytes now =
      let (opened, is_open) = open_dds s opening in
      if not (is_open && is_yes ready)
      then (record opened { active = false; counters = failed opened.counters }, [], false)
      else send_frame opened publish bytes now

  unfoldable pub new_sink : R → DdsSink R
  new_sink never = record {
    chunker = record { seq = 0; rejected = 0 };
    active = false;
    counters = record {
      frames_delivered = 0;
      bytes_delivered = 0;
      failures = 0;
      opens = 0;
      last_delivery_s = never;
    };
  }
