-- ===== src/Register/Others.antt =====
-- The registers of gateways (device_info/src/lorawan/gateway.rs) and of snap devices
-- (device_info/src/snap.rs): one hash for an EUI.
pub mod Loads
use Prim.Native.String.{String}
use snapemu_workflow.Base.{
  ℕ, Bool, Option, none, some, List, [], ◌∷◌, ◌++◌, if◌then◌else◌, Outcome, ok, err,
}
use snapemu_workflow.Ids.{Hex, eui_to_string}
use snapemu_workflow.Redis.{Str, codes, Redis, RedisError, hget, exists, hset_args}
use snapemu_workflow.Redis.Hash.{Schema, Struct, to_redis_args, from_redis_value}
use snapemu_workflow.Register.{required, optional}

-- The fields of `GatewayInfo`.
abbrev pub gateway_info : Schema
gateway_info =
    required "device"
    ∷ required "tmst"
    ∷ required "version"
    ∷ required "time"
    ∷ optional "a"
    ∷ optional "down"
    ∷ []

-- The fields of `SnapDeviceInfo`.
abbrev pub snap_info : Schema
snap_info =
    required "id"
    ∷ required "key"
    ∷ optional "active"
    ∷ required "up_count"
    ∷ optional "down"
    ∷ optional "script"
    ∷ optional "freq"
    ∷ []

module _ (hex : Hex) where
  unfoldable pub gateway_key : ℕ → Str
  gateway_key eui = codes "info:gateway:" ++ eui_to_string hex eui

  unfoldable pub snap_key : ℕ → Str
  snap_key eui = codes "info:snap:" ++ eui_to_string hex eui

module _ (hex : Hex) (R : Redis) where
  unfoldable pub gateway_check_eui : ℕ → R.State → Bool
  gateway_check_eui eui s = exists R (gateway_key hex eui) s

  unfoldable pub gateway_register : Struct → ℕ → R.State → Outcome RedisError R.State
  gateway_register info eui s = hset_args R (gateway_key hex eui) (to_redis_args info) s

  unfoldable pub gateway_unregister : ℕ → R.State → R.State
  gateway_unregister eui s = R.del (gateway_key hex eui) s

  -- `now` is the text of the time.
  unfoldable pub gateway_update_active_time : ℕ → Str → R.State → Outcome RedisError R.State
  gateway_update_active_time eui now s = hset_args R (gateway_key hex eui) (("a", now) ∷ []) s

  unfoldable pub gateway_update_download : ℕ → Str → R.State → Outcome RedisError R.State
  gateway_update_download eui addr s = hset_args R (gateway_key hex eui) (("down", addr) ∷ []) s

  unfoldable pub gateway_load_active_time : ℕ → R.State → Outcome RedisError (Option Str)
  gateway_load_active_time eui s = hget R (gateway_key hex eui) "a" s

  unfoldable pub gateway_load : ℕ → R.State → Outcome RedisError (Option Struct)
  gateway_load eui s = from_redis_value gateway_info (R.look s (gateway_key hex eui))

  unfoldable pub snap_check_eui : ℕ → R.State → Bool
  snap_check_eui eui s = exists R (snap_key hex eui) s

  unfoldable pub snap_update_by_eui : ℕ → String → Str → R.State → Outcome RedisError R.State
  snap_update_by_eui eui key v s =
      let k = snap_key hex eui in if exists R k s then hset_args R k ((key, v) ∷ []) s else ok s

  unfoldable pub snap_register : Struct → ℕ → R.State → Outcome RedisError R.State
  snap_register info eui s = hset_args R (snap_key hex eui) (to_redis_args info) s

  unfoldable pub snap_unregister : ℕ → R.State → R.State
  snap_unregister eui s = R.del (snap_key hex eui) s

  unfoldable pub snap_update_active_time : ℕ → Str → R.State → Outcome RedisError R.State
  snap_update_active_time eui timestamp s =
      hset_args R (snap_key hex eui) (("active", timestamp) ∷ []) s

  unfoldable pub snap_load_active_time : ℕ → R.State → Outcome RedisError (Option Str)
  snap_load_active_time eui s = hget R (snap_key hex eui) "active" s

  unfoldable pub snap_load_down : ℕ → R.State → Outcome RedisError (Option Str)
  snap_load_down eui s = hget R (snap_key hex eui) "down" s

  unfoldable pub snap_update_down : ℕ → Str → R.State → Outcome RedisError R.State
  snap_update_down eui down s = hset_args R (snap_key hex eui) (("down", down) ∷ []) s

  unfoldable pub snap_load_freq : ℕ → R.State → Outcome RedisError (Option Str)
  snap_load_freq eui s = hget R (snap_key hex eui) "freq" s

  unfoldable pub snap_update_freq : ℕ → Str → R.State → Outcome RedisError R.State
  snap_update_freq eui freq s = hset_args R (snap_key hex eui) (("freq", freq) ∷ []) s

  unfoldable pub snap_load : ℕ → R.State → Outcome RedisError (Option Struct)
  snap_load eui s = from_redis_value snap_info (R.look s (snap_key hex eui))
