-- ===== src/Register/Others/Loads.antt =====
-- A gateway or snap device that is registered is loaded again, and downlink notes are kept with it.
use Prim.Native.String.{String}
use snapemu_workflow.Base.{ℕ, ◌≡◌, refl, none, some, List, [], ◌∷◌, ok}
use snapemu_workflow.Base.Dict.{insert as put}
use snapemu_workflow.Ids.{Hex}
use snapemu_workflow.Redis.{Str, Fields, puts, Redis, IsRedis, hget, text_eq}
use snapemu_workflow.Redis.Hash.{Struct, to_redis_args, from_redis_value}
use snapemu_workflow.Redis.Hash.Merge.{Fits, merge, fields_from-puts}
use snapemu_workflow.Register.Nodes.{Holds, hset_args-Holds}
use snapemu_workflow.Register.Others.{
  gateway_info, snap_info, gateway_key, snap_key, gateway_register, gateway_load, snap_register,
  snap_load, snap_update_down, snap_load_down,
}

-- The first field of both structs is written.
first_gateway :
    (info : Struct)
    → Fits gateway_info info
    → (a : String × Str) × (args : List (String × Str)) × (to_redis_args info ≡ a ∷ args)
unfolding to_redis_args
first_gateway [] fits = absurd fits
first_gateway ((n, some v) ∷ info) fits = ((n, v), to_redis_args info, refl)
first_gateway ((n, none) ∷ info) (e, w, f, fits) = absurd (w refl refl)

first_snap :
    (info : Struct)
    → Fits snap_info info
    → (a : String × Str) × (args : List (String × Str)) × (to_redis_args info ≡ a ∷ args)
unfolding to_redis_args
first_snap [] fits = absurd fits
first_snap ((n, some v) ∷ info) fits = ((n, v), to_redis_args info, refl)
first_snap ((n, none) ∷ info) (e, w, f, fits) = absurd (w refl refl)

module _ (hex : Hex) (R : Redis) (laws : IsRedis R) (eui : ℕ) (h : Fields) (s : R.State) where
  -- A gateway that is registered over the fields `h`, if any, is loaded with what it does not set itself
  -- taken from them.
  pub gateway_register-load :
      (info : Struct)
      → Fits gateway_info info
      → Holds (R.look s (gateway_key hex eui)) h
      → (t : R.State) × (gateway_register hex R info eui s ≡ ok t)
        × (gateway_load hex R eui t ≡ ok (some (merge info h)))
  unfolding gateway_register gateway_load from_redis_value
  gateway_register-load info fits held =
      let (a, args, w) = first_gateway info fits in
      let (done, at) = hset_args-Holds R laws (gateway_key hex eui) a args h s held in
      (
        R.hset (gateway_key hex eui) (a ∷ args) s,
        rw w done,
        rw (at, ← w, fields_from-puts gateway_info info h fits) refl,
      )

  -- The same of a snap device; where a downlink note is then set, it is the one that is loaded.
  pub snap_register-load :
      (info : Struct) (down : Str)
      → Fits snap_info info
      → Holds (R.look s (snap_key hex eui)) h
      → (t u : R.State) × (snap_register hex R info eui s ≡ ok t)
        × (snap_load hex R eui t ≡ ok (some (merge info h)))
        × (snap_update_down hex R eui down t ≡ ok u)
        × (snap_load_down hex R eui u ≡ ok (some down))
  unfolding snap_register snap_load from_redis_value snap_update_down snap_load_down hget puts put
  snap_register-load info down fits held =
      let k = snap_key hex eui in
      let (a, args, w) = first_snap info fits in
      let (done, at) = hset_args-Holds R laws k a args h s held in
      let t = R.hset k (a ∷ args) s in
      let (updated, then) =
        hset_args-Holds R laws k ("down", down) [] (puts (a ∷ args) h) t (rw at refl) in
      (
        t,
        R.hset k (("down", down) ∷ []) t,
        rw w done,
        rw (at, ← w, fields_from-puts snap_info info h fits) refl,
        updated,
        rw (then, hget) refl,
      )
