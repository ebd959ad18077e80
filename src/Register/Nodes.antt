-- ===== src/Register/Nodes.antt =====
-- A node that is registered is found again, by its EUI and by its address.
use Prim.Native.String.{String}
use snapemu_workflow.Base.{ℕ, ◌^◌, ◌<◌, ◌≡◌, ◌≢◌, refl, sym, ap, ◌∙◌, none, some, List, [], ◌∷◌, ok}
use snapemu_workflow.Base.Dict.{empty}
use snapemu_workflow.Ids.{Hex}
use snapemu_workflow.Redis.{
  Str, Fields, Entry, absent, string, hash, puts, Redis, IsRedis, get, hset_args, text_eq,
}
use snapemu_workflow.Redis.Hash.{Struct, to_redis_args, from_redis_value}
use snapemu_workflow.Redis.Hash.Merge.{Fits, merge, merge_empty, fields_from-puts}
use snapemu_workflow.Register.{
  node_info, eui_key, addr_key, load_addr_key, register, unregister, load_by_eui, load_by_addr,
}
use snapemu_workflow.Register.Keys.{eui_key_ne, addr_key_ne, eui_key-ne-addr_key}

-- The fields of a key that holds no string.
abbrev pub Holds : Entry → Fields → Type 0
Holds absent h = h ≡ empty
Holds (string v) h = ⊥
Holds (hash g) h = h ≡ g

-- The first field of a node's struct is written or not; some field is.
pub written :
    (info : Struct)
    → Fits node_info info
    → (a : String × Str) × (args : List (String × Str)) × (to_redis_args info ≡ a ∷ args)
unfolding to_redis_args
written [] fits = absurd fits
written (x ∷ []) (e, w, f, fits) = absurd fits
written ((n, some v) ∷ (m, w) ∷ info) fits = ((n, v), to_redis_args ((m, w) ∷ info), refl)
written ((n, none) ∷ (m, some w) ∷ info) fits = ((m, w), to_redis_args info, refl)
written ((n, none) ∷ (m, none) ∷ info) (e, w, f, (e1, w1, f1, fits)) = absurd (w1 refl refl)

module _ (R : Redis) (laws : IsRedis R) where
  abbrev Writes : Str → List (String × Str) → Fields → R.State → Type 0
  Writes k args h s =
      (hset_args R k args s ≡ ok (R.hset k args s))
      × (R.look (R.hset k args s) k ≡ hash (puts args h))

  hset_args_at :
      (k : Str) (a : String × Str) (args : List (String × Str)) (h : Fields) (s : R.State)
      (entry : Entry)
      → R.look s k ≡ entry
      → Holds entry h
      → Writes k (a ∷ args) h s
  unfolding hset_args
  hset_args_at k a args h s absent e held = (
    rw (e, hset_args) refl,
    laws.look-hset_absent k (a ∷ args) s e ∙ ap (λ g. hash (puts (a ∷ args) g)) (sym held),
  )
  hset_args_at k a args h s (string v) e held = absurd held
  hset_args_at k a args h s (hash g) e held = (
    rw (e, hset_args) refl,
    laws.look-hset_hash k (a ∷ args) g s e ∙ ap (λ g. hash (puts (a ∷ args) g)) (sym held),
  )

  pub hset_args-Holds :
      (k : Str) (a : String × Str) (args : List (String × Str)) (h : Fields) (s : R.State)
      → Holds (R.look s k) h
      → Writes k (a ∷ args) h s
  hset_args-Holds k a args h s held = hset_args_at k a args h s (R.look s k) refl held

  pub get-string : (k v : Str) (s : R.State) → R.look s k ≡ string v → get R k s ≡ ok (some v)
  unfolding get
  get-string k v s e = rw (e, get) refl

module _ (hex : Hex) (R : Redis) (laws : IsRedis R) where
  -- Registering a node whose address has the fields `h` so far, if any: both ways to load it give the
  -- node, whose missing fields are those of `h`. All else stays: the second keys of other EUIs and the
  -- hashes of other addresses.
  pub register-load :
      (info : Struct) (dev_eui addr : ℕ) (h : Fields) (s : R.State)
      → dev_eui < 256 ^ 8
      → addr < 256 ^ 4
      → Fits node_info info
      → Holds (R.look s (addr_key hex addr)) h
      → (t : R.State) × (register hex R info dev_eui addr s ≡ ok t)
        × (load_by_eui hex R dev_eui t ≡ ok (some (merge info h)))
        × (load_by_addr hex R addr t ≡ ok (some (merge info h)))
        × ((x : ℕ)
            → x < 256 ^ 8
            → dev_eui ≢ x
            → R.look t (eui_key hex x) ≡ R.look s (eui_key hex x))
        × ((a : ℕ) → a < 256 ^ 4 → addr ≢ a → R.look t (addr_key hex a) ≡ R.look s (addr_key hex a))
  unfolding register load_by_eui load_by_addr load_addr_key from_redis_value
  register-load info dev_eui addr h s he ha fits held =
      let k1 = eui_key hex dev_eui in
      let k2 = addr_key hex addr in
      let s1 = R.set k1 k2 s in
      let (a, args, w) = written info fits in
      let apart = eui_key-ne-addr_key hex dev_eui addr in
      let same = laws.look-set_ne k1 k2 k2 s apart in
      let (done, at) = hset_args-Holds R laws k2 a args h s1 (rw same held) in
      let t = R.hset k2 (a ∷ args) s1 in
      let pointer : R.look t k1 ≡ string k2 =
        laws.look-hset_ne k2 k1 (a ∷ args) s1 (λ e. apart (sym e)) ∙ laws.look-set_self k1 k2 s in
      let read = fields_from-puts node_info info h fits in
      (
        t,
        rw w done,
        rw (get-string R laws k1 k2 t pointer, at, ← w, read) refl,
        rw (at, ← w, read) refl,
        λ x hx ne.
            laws.look-hset_ne k2 (eui_key hex x) (a ∷ args) s1
              (λ e. eui_key-ne-addr_key hex x addr (sym e))
            ∙ laws.look-set_ne k1 (eui_key hex x) k2 s (eui_key_ne hex dev_eui x he hx ne),
        λ b hb ne.
            laws.look-hset_ne k2 (addr_key hex b) (a ∷ args) s1 (addr_key_ne hex addr b ha hb ne)
            ∙ laws.look-set_ne k1 (addr_key hex b) k2 s (eui_key-ne-addr_key hex dev_eui b),
      )

  -- Unregistering a node: neither its EUI nor its address finds anything, and all else stays.
  pub unregister-load :
      (dev_eui addr : ℕ) (s : R.State)
      → dev_eui < 256 ^ 8
      → addr < 256 ^ 4
      → (load_by_eui hex R dev_eui (unregister hex R dev_eui addr s) ≡ ok none)
        × (load_by_addr hex R addr (unregister hex R dev_eui addr s) ≡ ok none)
        × ((x : ℕ)
            → x < 256 ^ 8
            → dev_eui ≢ x
            → R.look (unregister hex R dev_eui addr s) (eui_key hex x) ≡ R.look s (eui_key hex x))
        × ((a : ℕ)
            → a < 256 ^ 4
            → addr ≢ a
            → R.look (unregister hex R dev_eui addr s) (addr_key hex a) ≡ R.look s (addr_key hex a))
  unfolding unregister load_by_eui load_by_addr load_addr_key from_redis_value get
  unregister-load dev_eui addr s he ha =
      let k1 = eui_key hex dev_eui in
      let k2 = addr_key hex addr in
      let s1 = R.del k1 s in
      let gone : R.look (R.del k2 s1) k1 ≡ absent =
        laws.look-del_ne k2 k1 s1 (λ e. eui_key-ne-addr_key hex dev_eui addr (sym e))
        ∙ laws.look-del_self k1 s in
      (
        rw (get, gone) refl,
        rw (laws.look-del_self k2 s1) refl,
        λ x hx ne.
            laws.look-del_ne k2 (eui_key hex x) s1 (λ e. eui_key-ne-addr_key hex x addr (sym e))
            ∙ laws.look-del_ne k1 (eui_key hex x) s (eui_key_ne hex dev_eui x he hx ne),
        λ b hb ne.
            laws.look-del_ne k2 (addr_key hex b) s1 (addr_key_ne hex addr b ha hb ne)
            ∙ laws.look-del_ne k1 (addr_key hex b) s (eui_key-ne-addr_key hex dev_eui b),
      )

  pub unregister-absent :
      (dev_eui addr : ℕ) (s : R.State)
      → R.look (unregister hex R dev_eui addr s) (addr_key hex addr) ≡ absent
  unfolding unregister
  unregister-absent dev_eui addr s =
      laws.look-del_self (addr_key hex addr) (R.del (eui_key hex dev_eui) s)

  -- A node that is unregistered and then registered at the same address is loaded as it was given:
  -- nothing is left of its former fields.
  pub register-unregister :
      (info : Struct) (dev_eui addr : ℕ) (s : R.State)
      → dev_eui < 256 ^ 8
      → addr < 256 ^ 4
      → Fits node_info info
      → (t : R.State) × (register hex R info dev_eui addr (unregister hex R dev_eui addr s) ≡ ok t)
        × (load_by_eui hex R dev_eui t ≡ ok (some info))
        × (load_by_addr hex R addr t ≡ ok (some info))
  register-unregister info dev_eui addr s he ha fits =
      let s1 = unregister hex R dev_eui addr s in
      let gone : Holds (R.look s1 (addr_key hex addr)) empty =
        rw (unregister-absent dev_eui addr s) refl in
      let (t, done, by_eui, by_addr, others, rest) =
        register-load info dev_eui addr empty s1 he ha fits gone in
      (t, done, rw (merge_empty info) at by_eui, rw (merge_empty info) at by_addr)
