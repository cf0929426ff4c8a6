-- ===== src/Alloc/Mask.antt =====
-- The masks of chunks, in `src/asctx.c`.
use tinyllama_c.Prelude.{
  ℕ, ◌+◌, ◌*◌, ◌/◌, ◌%◌, ◌^◌, ◌<◌, ◌≡◌, refl, true, false, arith, bit_or-add, bit_and-mask,
  bit_and-eight,
}
use tinyllama_c.Alloc.{
  u64, external_mask, chunk_mask, chunk_is_external, chunk_get_offset, chunk_get_value,
}

chunk_mask_lem :
    (offset value : ℕ)
    → value < 2 ^ 30
    → chunk_mask offset value ≡ offset % 2 ^ 30 * 2 ^ 34 + value * 2 ^ 4
unfolding chunk_mask
chunk_mask_lem offset value h =
    let high : u64 (offset * 2 ^ 34) ≡ offset % 2 ^ 30 * 2 ^ 34 = omega arith in
    let low : u64 (value * 2 ^ 4) ≡ value * 2 ^ 4 = omega arith in
    rw (high, low) (bit_or-add 34 (offset % 2 ^ 30) (value * 2 ^ 4) (omega arith))

pub chunk_mask-value :
    (offset value : ℕ)
    → value < 2 ^ 30
    → (chunk_get_value (chunk_mask offset value) ≡ value)
      × (chunk_is_external (chunk_mask offset value) ≡ false)
unfolding chunk_get_value chunk_is_external
chunk_mask-value offset value h =
    let m = chunk_mask offset value in
    let e = chunk_mask_lem offset value h in
    let bit : m / 8 % 2 ≡ 0 = omega (arith, e) in
    (omega (arith, bit_and-mask 30 (m / 2 ^ 4), e), ground (arith, bit_and-eight m, bit))

pub external_mask-IsExternal : chunk_is_external external_mask ≡ true
unfolding chunk_is_external external_mask
external_mask-IsExternal = refl

-- A mask of an offset and a value below 2^30 gives both back, and is not that of an external chunk;
-- the mask of an external chunk is.
pub chunk_mask-fields :
    (offset value : ℕ)
    → offset < 2 ^ 30
    → value < 2 ^ 30
    → (chunk_get_offset (chunk_mask offset value) ≡ offset)
      × (chunk_get_value (chunk_mask offset value) ≡ value)
      × (chunk_is_external (chunk_mask offset value) ≡ false)
      × (chunk_is_external external_mask ≡ true)
unfolding chunk_get_offset
chunk_mask-fields offset value ho hv =
    let m = chunk_mask offset value in
    let (v, flag) = chunk_mask-value offset value hv in
    (
      omega (arith, bit_and-mask 30 (m / 2 ^ 34), chunk_mask_lem offset value hv),
      v,
      flag,
      external_mask-IsExternal,
    )
