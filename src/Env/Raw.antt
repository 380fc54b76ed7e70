-- ===== src/Env/Raw.antt =====
-- The buffer that a driver fills, from src/proto.h.
use knot_service_source.Common.{ℕ, Option}
use knot_service_source.Env.Messages.{Bytes}

-- `json_raw_t`: the bytes that `data`, here `text`, points to, nothing where it is NULL.
pub record JsonRaw : Type 0 where
  pub text : Option Bytes
  pub size : ℕ
