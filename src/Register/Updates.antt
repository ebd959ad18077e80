-- ===== src/Register/Updates.antt =====
-- What a change of one field does, by EUI and by address.
use Prim.Native.String.{String}
use snapemu_workflow.Base.{ℕ, ◌≡◌, ◌≢◌, refl, inl, inr, Bool-cases, none, [], ◌∷◌, ok, err}
use snapemu_workflow.Base.Dict.{empty, insert as put}
use snapemu_workflow.Ids.{Hex}
use snapemu_workflow.Redis.{
  Str, Fields, absent, string, hash, puts, Redis, IsRedis, parse_error, get, text_eq,
}
use snapemu_workflow.Redis.Hash.{from_redis_value, fields_from}
use snapemu_workflow.Redis.Hash.Merge.{fields_from_missing, fields_from_skip}
use snapemu_workflow.Register.{
  node_info, required, optional, eui_key, addr_key, load_addr_key, load_by_addr, update_by_eui,
  update_by_addr,
}
use snapemu_workflow.Register.Nodes.{hset_args-Holds, get-string}

pub get_absent : (R : Redis) (k : Str) (s : R.State) → R.look s k ≡ absent → get R k s ≡ ok none
unfolding get
get_absent R k s e = rw (e, get) refl

module _ (hex : Hex) (R : Redis) (laws : IsRedis R) where
  -- An update by EUI changes nothing where the EUI has no second key, or this one names no hash.
  -- Otherwise it sets the field in the hash, and no other key changes.
  pub update_by_eui-cases :
      (eui : ℕ) (key : String) (v k : Str) (h : Fields) (s : R.State)
      → (R.look s (eui_key hex eui) ≡ absent → update_by_eui hex R eui key v s ≡ ok s)
        × (R.look s (eui_key hex eui) ≡ string k
            → R.look s k ≡ absent
            → update_by_eui hex R eui key v s ≡ ok s)
        × (R.look s (eui_key hex eui) ≡ string k
            → R.look s k ≡ hash h
            → (t : R.State) × (update_by_eui hex R eui key v s ≡ ok t)
              × (R.look t k ≡ hash (put key v h))
              × ((j : Str) → k ≢ j → R.look t j ≡ R.look s j))
  unfolding update_by_eui load_addr_key puts
  update_by_eui-cases eui key v k h s = (
    λ e. rw (get_absent R (eui_key hex eui) s e) refl,
    λ e a. rw (get-string R laws (eui_key hex eui) k s e, a) refl,
    λ e a.
        let (done, at) = hset_args-Holds R laws k (key, v) [] h s (rw a refl) in
        (
          R.hset k ((key, v) ∷ []) s,
          rw (get-string R laws (eui_key hex eui) k s e, a) done,
          at,
          λ j ne. laws.look-hset_ne k j ((key, v) ∷ []) s ne,
        ),
  )

-- A node's hash of a single field lacks `device_id` or else `region`.
fields_from_single :
    (key : String) (v : Str) → fields_from node_info (put key v empty) ≡ err parse_error
unfolding put
fields_from_single key v = elim (Bool-cases (text_eq.beq key "device_id")) [
  | inl same ↦
      let e = (text_eq.beq_iff key "device_id").0 same in
      fields_from_skip (optional "user_id") _ (put key v empty) (
        fields_from_skip (required "device_id") _ (put key v empty)
          (fields_from_missing (required "region") _ (put key v empty) refl (rw e refl)))
  | inr other ↦
      fields_from_skip (optional "user_id") _ (put key v empty)
        (fields_from_missing (required "device_id") _ (put key v empty) refl (rw other refl))
]

module _ (hex : Hex) (R : Redis) (laws : IsRedis R) where
  -- An update by address of a node that is not registered leaves a hash of the one field, whatever it
  -- is, which no later load can read.
  pub update_by_addr_unregistered :
      (addr : ℕ) (key : String) (v : Str) (s : R.State)
      → R.look s (addr_key hex addr) ≡ absent
      → (t : R.State) × (update_by_addr hex R addr key v s ≡ ok t)
        × (load_by_addr hex R addr s ≡ ok none)
        × (load_by_addr hex R addr t ≡ err parse_error)
  unfolding update_by_addr load_by_addr from_redis_value puts
  update_by_addr_unregistered addr key v s e =
      let (done, at) = hset_args-Holds R laws (addr_key hex addr) (key, v) [] empty s (rw e refl) in
      (
        R.hset (addr_key hex addr) ((key, v) ∷ []) s,
        done,
        rw e refl,
        rw (at, fields_from_single key v) refl,
      )
