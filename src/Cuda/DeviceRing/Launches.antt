-- ===== src/Cuda/DeviceRing/Launches.antt =====
-- src/cuda/engine.cu: from the blocks of launches through the ring to the host, no hit is lost.
use btc_multipool_cache_mine.Base.{
  ℕ, ◌+◌, ◌^◌, ◌<◌, ◌≤◌, ◌≡◌, refl, sym, ap, ◌∙◌, List, [], ◌∷◌, ◌++◌, append_assoc, append-nil,
  true, length, All, arith, take_all, drop_all, length-append,
}
use mathlib.Core.Path.{subst}
use btc_multipool_cache_mine.Base.Checked.{ok, ◌>>=◌}
use btc_multipool_cache_mine.Cuda.HitRing.{HitRecord}
use btc_multipool_cache_mine.Cuda.DeviceRing.{
  DeviceRing, init_device_hit_buffer, run_blocks, drain_device_hits,
}
use btc_multipool_cache_mine.Cuda.DeviceRing.Holds.{
  Holds, Drained, drain_device_hits-Drained, init_device_hit_buffer-Holds,
}
use btc_multipool_cache_mine.Cuda.DeviceRing.Blocks.{Ran, run_block-Ran}

-- The hits of all blocks.
abbrev pub all_hits : List (List HitRecord) → List HitRecord
all_hits [] = []
all_hits (hits ∷ blocks) = hits ++ all_hits blocks

record RanAll (junk : List HitRecord) (blocks : List (List HitRecord)) (held : List HitRecord)
    (r : DeviceRing) : Type 0 where
  after : DeviceRing
  returns : run_blocks junk blocks r ≡ ok after
  holds : Holds (held ++ all_hits blocks) after

abbrev pub AreFew : List (List HitRecord) → Type 0
AreFew blocks = All (λ hits. length hits ≤ 64) blocks

run_blocks-RanAll :
    (junk : List HitRecord) (blocks : List (List HitRecord)) (held : List HitRecord)
    (r : DeviceRing)
    → Holds held r
    → length junk ≡ 64
    → AreFew blocks
    → length held + length (all_hits blocks) ≤ r.cap
    → r.drain_offset + length held + length (all_hits blocks) < 2 ^ 32
    → RanAll junk blocks held r
unfolding run_blocks
run_blocks-RanAll junk [] held r v shared few free room = record {
  after = r;
  returns = refl;
  holds = subst (λ hs. Holds hs r) (sym (append-nil held)) v;
}
run_blocks-RanAll junk (hits ∷ blocks) held r v shared few free room =
    let joined : length (hits ++ all_hits blocks) ≡ length hits + length (all_hits blocks) =
      length-append hits (all_hits blocks) in
    let first : Ran junk hits held r =
      run_block-Ran junk hits held r v shared few.0 (omega (arith, joined))
        (omega (arith, joined, v.written)) in
    let held_more : length (held ++ hits) ≡ length held + length hits = length-append held hits in
    let rest : RanAll junk blocks (held ++ hits) first.after =
      run_blocks-RanAll junk blocks (held ++ hits) first.after first.holds shared few.1
        (omega (arith, joined, held_more, first.same_cap))
        (omega (arith, joined, held_more, first.same_offset)) in
    record {
      after = rest.after;
      returns = rw first.returns rest.returns;
      holds =
          subst (λ hs. Holds hs rest.after) (append_assoc held hits (all_hits blocks)) rest.holds;
    }

-- After the allocation of a ring, blocks of at most 64 hits each that together fit into the ring,
-- below 2 ^ 32, and below the drain's limit, are drained as they were found, block by block, and
-- leave an empty ring.
pub run_blocks-drained :
    (memory : ℕ → List HitRecord)
    → ((n : ℕ) → length (memory n) ≡ n)
    → (junk : List HitRecord) (blocks : List (List HitRecord)) (capacity max_out : ℕ)
      (r : DeviceRing)
    → length junk ≡ 64
    → AreFew blocks
    → length (all_hits blocks) ≤ capacity
    → length (all_hits blocks) < 2 ^ 32
    → length (all_hits blocks) ≤ max_out
    → (after : DeviceRing) × ((run_blocks junk blocks (init_device_hit_buffer memory capacity r)
          >>= drain_device_hits max_out)
        ≡ ok (true, all_hits blocks, after))
      × Holds [] after
unfolding init_device_hit_buffer
run_blocks-drained memory sized junk blocks capacity max_out r shared few fits room taken =
    let ring : DeviceRing = init_device_hit_buffer memory capacity r in
    let all : RanAll junk blocks [] ring =
      run_blocks-RanAll junk blocks [] ring (init_device_hit_buffer-Holds memory sized capacity r)
        shared few (ground arith) (omega arith) in
    let out : Drained max_out (all_hits blocks) all.after =
      drain_device_hits-Drained max_out (all_hits blocks) all.after all.holds in
    (
      out.after,
      rw all.returns out.returns
          ∙ ap (λ hs. ok (true, hs, out.after)) (take_all max_out (all_hits blocks) taken),
      subst (λ hs. Holds hs out.after) (drop_all max_out (all_hits blocks) taken) out.holds,
    )
