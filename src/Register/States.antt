-- ===== src/Register/States.antt =====
-- The states that the commands on nodes can lead to.
use Prim.Native.String.{String}
use snapemu_workflow.Base.{
  ℕ, ◌^◌, ◌<◌, ◌≡◌, ◌≢◌, ◌⊎◌, refl, sym, ap, ◌∙◌, inl, inr, Bool-cases, ==_iff, ◌==◌, Option, none,
  some, List, [], ◌∷◌, arith, Outcome, ok, err, ◌>>=◌,
}
use snapemu_workflow.Base.Dict.{empty}
use snapemu_workflow.Ids.{Hex}
use snapemu_workflow.Redis.{
  Str, Fields, Entry, absent, string, hash, Redis, IsRedis, RedisError, parse_error, present,
  hset_args, hdel_arg, text_eq,
}
use snapemu_workflow.Redis.Hash.{Struct, from_redis_value}
use snapemu_workflow.Redis.Hash.Merge.{Fits, fields_from-cases}
use snapemu_workflow.Register.{
  node_info, eui_key, addr_key, load_addr_key, on_existing, register, unregister, load_by_eui,
  load_by_addr, update_by_eui, update_by_addr, reset_by_eui,
}
use snapemu_workflow.Register.Keys.{eui_key_ne, addr_key_ne, eui_key-ne-addr_key}
use snapemu_workflow.Register.Nodes.{Holds, written, hset_args-Holds, get-string, register-load}
use snapemu_workflow.Register.Updates.{get_absent}

abbrev pub IsNoString : Entry → Type 0
IsNoString absent = Unit
IsNoString (string v) = ⊥
IsNoString (hash h) = Unit

pub Holds-some : (e : Entry) → IsNoString e → (h : Fields) × Holds e h
Holds-some absent n = (empty, refl)
Holds-some (string v) n = absurd n
Holds-some (hash h) n = (h, refl)

-- A load that ends with an answer, or with a hash that lacks a field: no key has the wrong type.
abbrev pub IsAnswer : Outcome RedisError (Option Struct) → Type 0
IsAnswer o = ((r : Option Struct) × (o ≡ ok r)) ⊎ (o ≡ err parse_error)

module _ (hex : Hex) (R : Redis) where
  -- The second key of an EUI is not there, or names the hash of an address.
  abbrev pub Points : ℕ → R.State → Type 0
  Points x s =
      (R.look s (eui_key hex x) ≡ absent)
      ⊎ ((a : ℕ) × (a < 256 ^ 4) × (R.look s (eui_key hex x) ≡ string (addr_key hex a)))

  -- The second keys of all EUIs name hashes of addresses, and no address has a string for a hash.
  abbrev pub IsLinked : R.State → Type 0
  IsLinked s =
      ((x : ℕ) → x < 256 ^ 8 → Points x s)
      × ((a : ℕ) → a < 256 ^ 4 → IsNoString (R.look s (addr_key hex a)))

  -- One command on a node.
  pub data Step (s t : R.State) : Type 0 where
    registers :
        (info : Struct) (dev_eui addr : ℕ)
        → dev_eui < 256 ^ 8
        → addr < 256 ^ 4
        → Fits node_info info
        → register hex R info dev_eui addr s ≡ ok t
        → Step s t
    unregisters :
        (dev_eui addr : ℕ)
        → dev_eui < 256 ^ 8
        → addr < 256 ^ 4
        → unregister hex R dev_eui addr s ≡ t
        → Step s t
    updates_by_addr :
        (addr : ℕ) (key : String) (v : Str)
        → addr < 256 ^ 4
        → update_by_addr hex R addr key v s ≡ ok t
        → Step s t
    updates_by_eui :
        (eui : ℕ) (key : String) (v : Str)
        → eui < 256 ^ 8
        → update_by_eui hex R eui key v s ≡ ok t
        → Step s t
    resets_by_eui :
        (eui : ℕ) (key : String) → eui < 256 ^ 8 → reset_by_eui hex R eui key s ≡ ok t → Step s t

  pub data Reach (s : R.State) : R.State → Type 0 where
    start : Reach s s
    next : {t u : R.State} → Reach s t → Step t u → Reach s u

module _ (hex : Hex) (R : Redis) (laws : IsRedis R) where
  IsLinked-hash :
      (a : ℕ) (s t : R.State)
      → a < 256 ^ 4
      → IsLinked hex R s
      → IsNoString (R.look t (addr_key hex a))
      → ((j : Str) → addr_key hex a ≢ j → R.look t j ≡ R.look s j)
      → IsLinked hex R t
  IsLinked-hash a s t ha (points, hashes) no_string kept = (
    λ x hx. rw (kept (eui_key hex x) (λ e. eui_key-ne-addr_key hex x a (sym e))) (points x hx),
    λ b hb. elim (Bool-cases (a == b)) [
      | inl e ↦ rw ((==_iff a b).0 e) at no_string
      | inr ne ↦
          rw (kept (addr_key hex b) (addr_key_ne hex a b ha hb (λ e. ground arith))) (hashes b hb)
    ],
  )

  IsLinked-hset_args :
      (a : ℕ) (arg : String × Str) (args : List (String × Str)) (s t : R.State)
      → a < 256 ^ 4
      → IsLinked hex R s
      → hset_args R (addr_key hex a) (arg ∷ args) s ≡ ok t
      → IsLinked hex R t
  IsLinked-hset_args a arg args s t ha linked e =
      let k = addr_key hex a in
      let (h, held) = Holds-some (R.look s k) (linked.1 a ha) in
      let (done, at) = hset_args-Holds R laws k arg args h s held in
      let same : R.hset k (arg ∷ args) s ≡ t = cc (done, e) in
      rw same at (
        IsLinked-hash a s (R.hset k (arg ∷ args) s) ha linked (rw at tt)
          (λ j ne. laws.look-hset_ne k j (arg ∷ args) s ne))

  IsLinked-pointer :
      (x a : ℕ) (s : R.State)
      → x < 256 ^ 8
      → a < 256 ^ 4
      → IsLinked hex R s
      → IsLinked hex R (R.set (eui_key hex x) (addr_key hex a) s)
  IsLinked-pointer x a s hx ha (points, hashes) = (
    λ y hy. elim (Bool-cases (x == y)) [
      | inl e ↦ inr (
        a,
        ha,
        ap (λ z. R.look (R.set (eui_key hex x) (addr_key hex a) s) (eui_key hex z))
              (sym ((==_iff x y).0 e))
            ∙ laws.look-set_self (eui_key hex x) (addr_key hex a) s,
      )
      | inr ne ↦
          rw
            (laws.look-set_ne (eui_key hex x) (eui_key hex y) (addr_key hex a) s
              (eui_key_ne hex x y hx hy (λ e. ground arith)))
            (points y hy)
    ],
    λ b hb.
        rw
          (laws.look-set_ne (eui_key hex x) (addr_key hex b) (addr_key hex a) s
            (eui_key-ne-addr_key hex x b))
          (hashes b hb),
  )

  IsLinked-del_pointer :
      (x : ℕ) (s : R.State)
      → x < 256 ^ 8
      → IsLinked hex R s
      → IsLinked hex R (R.del (eui_key hex x) s)
  IsLinked-del_pointer x s hx (points, hashes) = (
    λ y hy. elim (Bool-cases (x == y)) [
      | inl e ↦ inl (
          ap (λ z. R.look (R.del (eui_key hex x) s) (eui_key hex z)) (sym ((==_iff x y).0 e))
          ∙ laws.look-del_self (eui_key hex x) s)
      | inr ne ↦
          rw
            (laws.look-del_ne (eui_key hex x) (eui_key hex y) s
              (eui_key_ne hex x y hx hy (λ e. ground arith)))
            (points y hy)
    ],
    λ b hb.
        rw (laws.look-del_ne (eui_key hex x) (addr_key hex b) s (eui_key-ne-addr_key hex x b))
          (hashes b hb),
  )

  hdel_arg_at :
      (k : Str) (f : String) (s : R.State) (entry : Entry)
      → R.look s k ≡ entry
      → IsNoString entry
      → (hdel_arg R k f s ≡ ok (R.hdel k f s)) × IsNoString (R.look (R.hdel k f s) k)
  unfolding hdel_arg
  hdel_arg_at k f s absent e n = (rw (e, hdel_arg) refl, rw (laws.look-hdel_absent k f s e) tt)
  hdel_arg_at k f s (string v) e n = absurd n
  hdel_arg_at k f s (hash h) e n = (
    rw (e, hdel_arg) refl,
    elim (laws.look-hdel_hash k f h s e) [ inl left ↦ rw left tt | inr gone ↦ rw gone.0 tt ],
  )

  IsLinked-hdel_arg :
      (a : ℕ) (f : String) (s t : R.State)
      → a < 256 ^ 4
      → IsLinked hex R s
      → hdel_arg R (addr_key hex a) f s ≡ ok t
      → IsLinked hex R t
  IsLinked-hdel_arg a f s t ha linked e =
      let k = addr_key hex a in
      let (done, no_string) = hdel_arg_at k f s (R.look s k) refl (linked.1 a ha) in
      let same : R.hdel k f s ≡ t = cc (done, e) in
      rw same at (
        IsLinked-hash a s (R.hdel k f s) ha linked no_string (λ j ne. laws.look-hdel_ne k j f s ne))

  -- A step on the hash that a second key names.
  IsLinked-on_existing :
      (step : Str → R.State → Outcome RedisError R.State) (x : ℕ) (s t : R.State)
      → x < 256 ^ 8
      → IsLinked hex R s
      → ((a : ℕ) → a < 256 ^ 4 → step (addr_key hex a) s ≡ ok t → IsLinked hex R t)
      → (load_addr_key hex R (eui_key hex x) s >>= on_existing hex R step s) ≡ ok t
      → IsLinked hex R t
  unfolding load_addr_key
  IsLinked-on_existing step x s t hx linked keeps e = elim (linked.0 x hx) [
    | inl none_there ↦
        let same : s ≡ t = cc (rw (get_absent R (eui_key hex x) s none_there) at e) in
        rw same at linked
    | inr (a, ha, there) ↦ elim (Bool-cases (present (R.look s (addr_key hex a)))) [
      | inl found ↦
          keeps a ha
            (rw found at (rw (get-string R laws (eui_key hex x) (addr_key hex a) s there) at e))
      | inr missing ↦
          let stays : ok s ≡ ok t =
            rw missing at (rw (get-string R laws (eui_key hex x) (addr_key hex a) s there) at e) in
          let same : s ≡ t = cc stays in rw same at linked
    ]
  ]

  pub IsLinked-registers :
      (info : Struct) (x a : ℕ) (s t : R.State)
      → x < 256 ^ 8
      → a < 256 ^ 4
      → Fits node_info info
      → IsLinked hex R s
      → register hex R info x a s ≡ ok t
      → IsLinked hex R t
  unfolding register
  IsLinked-registers info x a s t hx ha fits linked e =
      let (arg, args, w) = written info fits in
      IsLinked-hset_args a arg args (R.set (eui_key hex x) (addr_key hex a) s) t ha
        (IsLinked-pointer x a s hx ha linked) (rw w at e)

  IsLinked-unregisters :
      (x a : ℕ) (s : R.State)
      → x < 256 ^ 8
      → a < 256 ^ 4
      → IsLinked hex R s
      → IsLinked hex R (unregister hex R x a s)
  unfolding unregister
  IsLinked-unregisters x a s hx ha linked =
      let k = addr_key hex a in
      let s1 = R.del (eui_key hex x) s in
      IsLinked-hash a s1 (R.del k s1) ha (IsLinked-del_pointer x s hx linked)
        (rw (laws.look-del_self k s1) tt) (λ j ne. laws.look-del_ne k j s1 ne)

  pub Step-IsLinked : (s t : R.State) → Step hex R s t → IsLinked hex R s → IsLinked hex R t
  unfolding update_by_addr update_by_eui reset_by_eui
  Step-IsLinked s t (registers info x a hx ha fits e) linked =
      IsLinked-registers info x a s t hx ha fits linked e
  Step-IsLinked s t (unregisters x a hx ha e) linked =
      rw e at (IsLinked-unregisters x a s hx ha linked)
  Step-IsLinked s t (updates_by_addr a key v ha e) linked =
      IsLinked-hset_args a (key, v) [] s t ha linked e
  Step-IsLinked s t (updates_by_eui x key v hx e) linked =
      IsLinked-on_existing (λ k. hset_args R k ((key, v) ∷ [])) x s t hx linked
        (λ a ha. IsLinked-hset_args a (key, v) [] s t ha linked) e
  Step-IsLinked s t (resets_by_eui x key hx e) linked =
      IsLinked-on_existing (λ k. hdel_arg R k key) x s t hx linked
        (λ a ha. IsLinked-hdel_arg a key s t ha linked) e

  -- Whatever commands on nodes are done, from a store without such keys or with linked ones: the second
  -- key of an EUI names the hash of an address, and the hash of an address is never a string.
  pub Reach-IsLinked : (s t : R.State) → Reach hex R s t → IsLinked hex R s → IsLinked hex R t
  Reach-IsLinked s t start linked = linked
  Reach-IsLinked s t (next reach step) linked =
      Step-IsLinked _ t step (Reach-IsLinked s _ reach linked)

  from_redis_value-IsAnswer :
      (entry : Entry) → IsNoString entry → IsAnswer (from_redis_value node_info entry)
  unfolding from_redis_value
  from_redis_value-IsAnswer absent n = inl (none, refl)
  from_redis_value-IsAnswer (string v) n = absurd n
  from_redis_value-IsAnswer (hash h) n = elim (fields_from-cases node_info h) [
    | inl (i, e) ↦ inl (some i, rw e refl)
    | inr e ↦ inr (rw e refl)
  ]

  load_by_eui-IsAnswer :
      (x : ℕ) (s : R.State) → Points hex R x s → IsLinked hex R s → IsAnswer (load_by_eui hex R x s)
  unfolding load_by_eui load_addr_key
  load_by_eui-IsAnswer x s (inl none_there) linked =
      inl (none, rw (get_absent R (eui_key hex x) s none_there) refl)
  load_by_eui-IsAnswer x s (inr (a, ha, there)) linked =
      rw (get-string R laws (eui_key hex x) (addr_key hex a) s there)
        (from_redis_value-IsAnswer (R.look s (addr_key hex a)) (linked.1 a ha))

  -- Where keys are linked, loads answer or miss a field, and nodes can be registered and updated.
  pub IsLinked-serves :
      (info : Struct) (x a : ℕ) (key : String) (v : Str) (s : R.State)
      → x < 256 ^ 8
      → a < 256 ^ 4
      → Fits node_info info
      → IsLinked hex R s
      → IsAnswer (load_by_eui hex R x s)
        × IsAnswer (load_by_addr hex R a s)
        × ((t : R.State) × (register hex R info x a s ≡ ok t))
        × ((t : R.State) × (update_by_addr hex R a key v s ≡ ok t))
  unfolding load_by_addr update_by_addr
  IsLinked-serves info x a key v s hx ha fits linked =
      let k = addr_key hex a in
      let (h, held) = Holds-some (R.look s k) (linked.1 a ha) in
      let (t, done, by_eui, by_addr, euis, addrs) =
        register-load hex R laws info x a h s hx ha fits held in
      let (updated, at) = hset_args-Holds R laws k (key, v) [] h s held in
      (
        load_by_eui-IsAnswer x s (linked.0 x hx) linked,
        from_redis_value-IsAnswer (R.look s k) (linked.1 a ha),
        (t, done),
        (R.hset k ((key, v) ∷ []) s, updated),
      )
