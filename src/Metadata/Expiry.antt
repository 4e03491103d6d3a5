-- ===== src/Metadata/Expiry.antt =====
-- When an object expires.
use context_store.Prelude.{◌^◌, ◌≡◌, ◌↔◌, ◌⊎◌, true, arith}
use context_store.Prelude.Int.{ℤ, pos, fits_i64, ◌+ℤ◌, ◌≤ℤ◌, ◌<ℤ◌}
use context_store.Metadata.{BlockMeta, is_expired_at}

-- With times of 64 bits, an object is expired exactly when its time to live is positive and the end
-- of its life has come or is no number of 64 bits.
pub is_expired_at_lem :
    (m : BlockMeta) (now : ℤ)
    → fits_i64 m.created_at ≡ true
    → fits_i64 m.ttl_seconds ≡ true
    → (is_expired_at m now ≡ true) ↔ (
        (pos 0 <ℤ m.ttl_seconds)
        × ((m.created_at +ℤ m.ttl_seconds ≤ℤ now)
            ⊎ (pos (2 ^ 63) ≤ℤ m.created_at +ℤ m.ttl_seconds)))
unfolding is_expired_at ◌+ℤ◌
is_expired_at_lem m now h k = ground arith

-- An object that is expired stays expired.
is_expired_at_mono :
    (m : BlockMeta) (now later : ℤ)
    → now ≤ℤ later
    → is_expired_at m now ≡ true
    → is_expired_at m later ≡ true
unfolding is_expired_at
is_expired_at_mono m now later h e = ground arith
