-- ===== src/Gpu/Token.antt =====
-- The doorbell token of `_doorbell_trigger` (tempo/gpu_driven.py).
use working_tempo.Base.{◌*◌, ◌/◌, ◌%◌, ◌<◌, ◌≡◌, arith}
use working_tempo.Gpu.{Descriptor, token}

-- The token fits in 64 bits. Its high 16 bits are the handle's, its low 32 bits those of the length,
-- and the class stands at bit 44, so that the 16 bits from bit 32 on read as 4096 times the class.
pub token_lem :
    (d : Descriptor)
    → let t = token d in
      (t < 18446744073709551616)
      × (t / 281474976710656 ≡ d.handle_id % 65536)
      × (t / 17592186044416 % 16 ≡ d.tc % 8)
      × (t % 4294967296 ≡ d.length % 4294967296)
      × (t / 4294967296 % 65536 ≡ d.tc % 8 * 4096)
unfolding token
token_lem d = (omega arith, omega arith, omega arith, omega arith, omega arith)
