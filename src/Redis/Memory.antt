-- ===== src/Redis/Memory.antt =====
-- Instances of the two interfaces to redis: a function from keys to entries, and one to values that
-- carry the second at which they expire.
use Prim.Native.String.{String}
use snapemu_workflow.Base.{
  ℕ, ◌+◌, ◌≡◌, ◌≢◌, refl, inl, Option, none, some, List, ltb, if◌then◌else◌, arith,
}
use snapemu_workflow.Base.Dict.{empty, remove, nat_eq, beq_refl, beq_ne}
use snapemu_workflow.Base.Texts.{same, str_eq}
use snapemu_workflow.Redis.{
  Str, Entry, absent, string, hash, puts, Redis, IsRedis, Expiring, IsExpiring, text_eq,
}

abbrev store : Str → Entry → (Str → Entry) → Str → Entry
store k e s j = if same k j then e else s j

store_self : (k : Str) (e : Entry) (s : Str → Entry) → store k e s k ≡ e
store_self k e s = rw (beq_refl k) refl

store_ne : (k j : Str) (e : Entry) (s : Str → Entry) → k ≢ j → store k e s j ≡ s j
store_ne k j e s h = rw (beq_ne k j h) refl

abbrev put_hash : List (String × Str) → Entry → Entry
put_hash args absent = hash (puts args empty)
put_hash args (string v) = string v
put_hash args (hash h) = hash (puts args h)

abbrev remove_hash : String → Entry → Entry
remove_hash f absent = absent
remove_hash f (string v) = string v
remove_hash f (hash h) = hash (remove f h)

abbrev pub memory : Redis
memory = record {
  State = Str → Entry;
  look = λ s k. s k;
  set = λ k v s. store k (string v) s;
  del = λ k s. store k absent s;
  hset = λ k args s. store k (put_hash args (s k)) s;
  hdel = λ k f s. store k (remove_hash f (s k)) s;
}

pub memory-IsRedis : IsRedis memory
memory-IsRedis = record {
  look-set_self = λ k v s. store_self k (string v) s;
  look-set_ne = λ k j v s h. store_ne k j (string v) s h;
  look-del_self = λ k s. store_self k absent s;
  look-del_ne = λ k j s h. store_ne k j absent s h;
  look-hset_absent = λ k args s e. rw (store_self k (put_hash args (s k)) s, e) refl;
  look-hset_hash = λ k args h s e. rw (store_self k (put_hash args (s k)) s, e) refl;
  look-hset_ne = λ k j args s h. store_ne k j (put_hash args (s k)) s h;
  look-hdel_hash = λ k f h s e. inl (rw (store_self k (remove_hash f (s k)) s, e) refl);
  look-hdel_absent = λ k f s e. rw (store_self k (remove_hash f (s k)) s, e) refl;
  look-hdel_ne = λ k j f s h. store_ne k j (remove_hash f (s k)) s h;
}

-- A value and the second at which it expires.
abbrev alive : {V : Type 0} → ℕ → Option (V × ℕ) → Option V
alive t none = none
alive t (some (v, stop)) = if ltb t stop then some v else none

abbrev renew : {V : Type 0} → ℕ → ℕ → Option (V × ℕ) → Option (V × ℕ)
renew stop now none = none
renew stop now (some (v, old)) = if ltb now old then some (v, stop) else none

abbrev keep : {V : Type 0} → Str → Option (V × ℕ) → (Str → Option (V × ℕ)) → Str → Option (V × ℕ)
keep k v s j = if same k j then v else s j

keep_self :
    {V : Type 0} (k : Str) (v : Option (V × ℕ)) (s : Str → Option (V × ℕ)) → keep k v s k ≡ v
keep_self k v s = rw (beq_refl k) refl

keep_ne :
    {V : Type 0} (k j : Str) (v : Option (V × ℕ)) (s : Str → Option (V × ℕ))
    → k ≢ j
    → keep k v s j ≡ s j
keep_ne k j v s h = rw (beq_ne k j h) refl

alive-renew :
    {V : Type 0} (v : Option (V × ℕ)) (ex now t : ℕ)
    → alive t (renew (now + ex) now v) ≡ (if ltb t (now + ex) then alive now v else none)
alive-renew none ex now t = ground arith
alive-renew (some (v, old)) ex now t = ground arith

abbrev pub expiring : (V : Type 0) → Expiring V
expiring V = record {
  State = Str → Option (V × ℕ);
  get = λ s t k. alive t (s k);
  set_ex = λ k v ex now s. keep k (some (v, now + ex)) s;
  expire = λ k ex now s. keep k (renew (now + ex) now (s k)) s;
  del = λ k s. keep k none s;
}

pub expiring-IsExpiring : (V : Type 0) → IsExpiring (expiring V)
expiring-IsExpiring V = record {
  get-set_ex_self = λ k v ex now t s h. rw (keep_self k (some (v, now + ex)) s) refl;
  get-set_ex_ne = λ k j v ex now t s h. rw (keep_ne k j (some (v, now + ex)) s h) refl;
  get-expire_self = λ k ex now t s h.
      rw (keep_self k (renew (now + ex) now (s k)) s) (alive-renew (s k) ex now t);
  get-expire_ne = λ k j ex now t s h. rw (keep_ne k j (renew (now + ex) now (s k)) s h) refl;
  get-del_self = λ k t s. rw (keep_self k none s) refl;
  get-del_ne = λ k j t s h. rw (keep_ne k j none s h) refl;
}
