-- ===== src/LoadGenerator/Payload/Made.antt =====
-- The payload of a request that was made and marshalled.
use logarithm.Prelude.{ℕ, String, ◌≡◌, some, List, Bytes, ok}
use logarithm.Prelude.Int.{ℤ}
use logarithm.Worker.Transform.{ResourceLogs}
use logarithm.LoadGenerator.{Float64, CleanConfig}
use logarithm.LoadGenerator.Random.{Rand}
use logarithm.LoadGenerator.Generator.{LogRecordTemplate, Weighted, generate_request}
use logarithm.LoadGenerator.Payload.{
  Encoders, Factory, get_rand, put_rand, marshal, encode_payload, generate_payload,
  generate_encoded_payload,
}

pub generate_encoded_payload_lem :
    (fl : Float64) (cfg : CleanConfig fl) (percent : fl.Float → ℤ) (r : Rand) (w : Weighted r)
    (put_str : List (String × String) → String → String → List (String × String)) (enc : Encoders)
    (new_rand : ℕ → r.State) (now : ℕ) (pool : List LogRecordTemplate) (f : Factory r)
    (logs : List ResourceLogs) (s : r.State) (raw payload : Bytes)
    → generate_request fl percent r w put_str cfg now pool (get_rand r new_rand f).0
      ≡ some (logs, s)
    → marshal fl cfg enc logs ≡ ok raw
    → encode_payload fl cfg enc raw ≡ ok payload
    → generate_encoded_payload fl cfg percent r w put_str enc new_rand now pool f
      ≡ some (ok payload, put_rand r s (get_rand r new_rand f).1)
unfolding generate_encoded_payload generate_payload
generate_encoded_payload_lem fl cfg percent r w put_str enc new_rand now pool f logs s raw payload
      made m e =
    rw (generate_encoded_payload, generate_payload, made, m, e)
