-- ===== src/Devices/Creation/Keys.antt =====
-- The keys of a node that is created.
use snapemu_workflow.Base.{
  ℕ, ◌-◌, ltb, ◌∙◌, refl, [], ◌∷◌, ◌≡◌, sym, inl, inr, true, not, ◌||◌, Bool-cases, Option, none,
  some, length, ◌==◌, if◌then◌else◌, Outcome, ok, err, panic, stuck, ensure, ok_or, arith,
}
use snapemu_workflow.Base.Results.{bind_ok, ok_or-some}
use snapemu_workflow.Base.Texts.{same, same_iff}
use snapemu_workflow.Ids.{
  to_uppercase, Hex, DbErr, parse, len, eui_try_from, eui_to_string, key_try_from, key_to_string,
}
use snapemu_workflow.Ids.Laws.{eui_to_string-try_from}
use snapemu_workflow.Redis.{Str}
use snapemu_workflow.Devices.Creation.{
  LoRaJoinType, otaa_join, abp_join, LoRaParameter, NodeError, bad_app_key, bad_app_eui,
  bad_dev_eui, bad_app_skey, bad_nwk_skey, bad_dev_addr, device_already, LoRaNode, DeviceParameter,
  device_parameter, LoraNodeDeviceDefault, parsed, checked, fill_predefine, otaa_with, otaa,
  abp_with, abp,
}

parsed_ok :
    {A : Type 0} (e : NodeError) (o : Outcome DbErr A) (a : A) → parsed e o ≡ ok a → o ≡ ok a
parsed_ok e (ok x) a h = cc
parsed_ok e (err d) a h = cc
parsed_ok e panic a h = cc
parsed_ok e stuck a h = cc

key_to_string-try_from :
    (hex : Hex) (s key : Str) → key_try_from hex s ≡ ok key → key_to_string hex key ≡ to_uppercase s
unfolding key_try_from key_to_string
key_to_string-try_from hex s key h =
    let (u, l, h1) = bind_ok (ensure (length s == 32) len) _ key h in
    let (b, d, h2) = bind_ok (ok_or (hex.decode_to_slice s 16) parse) _ key h1 in
    let same_ : b ≡ key = cc in
    rw (← same_) ((hex.decode_fills s 16 b (ok_or-some (hex.decode_to_slice s 16) parse b d)).2)

to_uppercase_twice : (s : Str) → to_uppercase (to_uppercase s) ≡ to_uppercase s
unfolding to_uppercase
to_uppercase_twice [] = refl
to_uppercase_twice (c ∷ s) = rw (to_uppercase_twice s, upper_twice c) refl
  where
    upper : ℕ → ℕ
    upper c = if ltb c 97 then c else if ltb c 123 then c - 32 else c

    upper_twice : (c : ℕ) → upper (upper c) ≡ upper c
    upper_twice c = ground arith

-- Two texts that are compared before a device is handed out.
agree :
    (a b c d : Str) {A : Type 0} (o : Outcome NodeError A) (t : A)
    → (if not (same a b) || not (same c d) then err device_already else o) ≡ ok t
    → (a ≡ b) × (c ≡ d) × (o ≡ ok t)
agree a b c d o t h = elim (Bool-cases (not (same a b) || not (same c d))) [
  | inl other ↦ absurd (let e = rw other at h in cc)
  | inr both ↦
      let first : same a b ≡ true = ground arith in
      let second : same c d ≡ true = ground arith in
      ((same_iff a b).0 first, (same_iff c d).0 second, rw both at h)
]

-- The keys by which a predefined device is known to its owner: the application key and EUI where it joins, and else the
-- session keys of the application and of the network.
abbrev pub own_keys : LoRaJoinType → LoRaParameter → Str × Str
own_keys otaa_join p = (p.app_key, p.app_eui)
own_keys abp_join p = (p.app_skey, p.nwk_skey)

module _ (hex : Hex) (query_eui : Str → Outcome NodeError (Option DeviceParameter)) where
  -- What `otaa` and `abp` do once the server of predefined devices has answered.
  otaa_asked :
      (k e d : Str) (this t : LoraNodeDeviceDefault) (p : Option DeviceParameter)
      → query_eui (to_uppercase d) ≡ ok p
      → otaa hex query_eui (some k) (some e) (some d) this ≡ ok t
      → otaa_with hex query_eui (to_uppercase k) (to_uppercase e) (to_uppercase d) this p ≡ ok t
  unfolding otaa
  otaa_asked k e d this t p q h =
      let (u1, c1, h1) = bind_ok (checked 32 bad_app_key k) _ t h in
      let (u2, c2, h2) = bind_ok (checked 16 bad_app_eui e) _ t h1 in
      let (u3, c3, h3) = bind_ok (checked 16 bad_dev_eui d) _ t h2 in
      let (a, asked, h4) = bind_ok (query_eui (to_uppercase d)) _ t h3 in
      let same_ : a ≡ p = cc in rw (← same_) h4

  abp_asked :
      (a n d : Str) (this t : LoraNodeDeviceDefault) (p : Option DeviceParameter)
      → query_eui (to_uppercase d) ≡ ok p
      → abp hex query_eui (some a) (some n) (some d) this ≡ ok t
      → abp_with hex query_eui (to_uppercase a) (to_uppercase n) (to_uppercase d) this p ≡ ok t
  unfolding abp
  abp_asked a n d this t p q h =
      let (u1, c1, h1) = bind_ok (checked 32 bad_app_skey a) _ t h in
      let (u2, c2, h2) = bind_ok (checked 32 bad_nwk_skey n) _ t h1 in
      let (u3, c3, h3) = bind_ok (checked 8 bad_dev_addr d) _ t h2 in
      let (x, asked, h4) = bind_ok (query_eui (to_uppercase d)) _ t h3 in
      let same_ : x ≡ p = cc in rw (← same_) h4

  -- Where no predefined device has the EUI of a request, and the request is taken, the keys and EUIs that are
  -- stored are those of the request: their texts are its texts in upper case.
  pub otaa-to_string :
      (k e d : Str) (this t : LoraNodeDeviceDefault)
      → query_eui (to_uppercase d) ≡ ok none
      → otaa hex query_eui (some k) (some e) (some d) this ≡ ok t
      → (key_to_string hex t.app_key ≡ to_uppercase k)
        × (eui_to_string hex t.app_eui ≡ to_uppercase e)
        × (eui_to_string hex t.dev_eui ≡ to_uppercase d)
  otaa-to_string k e d this t q h =
      let h1 = otaa_asked k e d this t none q h in
      let (x, e1, h2) = bind_ok (parsed bad_dev_eui (eui_try_from hex (to_uppercase d))) _ t h1 in
      let (y, e2, h3) = bind_ok (parsed bad_app_eui (eui_try_from hex (to_uppercase e))) _ t h2 in
      let (z, e3, h4) = bind_ok (parsed bad_app_key (key_try_from hex (to_uppercase k))) _ t h3 in
      let made : record this { dev_eui = x; app_eui = y; app_key = z } ≡ t = cc in
      let (l1, b1, s1) =
        eui_to_string-try_from hex (to_uppercase d) x (parsed_ok bad_dev_eui _ x e1) in
      let (l2, b2, s2) =
        eui_to_string-try_from hex (to_uppercase e) y (parsed_ok bad_app_eui _ y e2) in
      let s3 = key_to_string-try_from hex (to_uppercase k) z (parsed_ok bad_app_key _ z e3) in
      rw (sym made)
        (s3 ∙ to_uppercase_twice k, s2 ∙ to_uppercase_twice e, s1 ∙ to_uppercase_twice d)

  -- What a request of one of the two join types is answered, and the keys of a predefined device that it is to have.
  abbrev pub taken :
      LoRaJoinType
      → Str
      → Str
      → Str
      → LoraNodeDeviceDefault
      → Outcome NodeError LoraNodeDeviceDefault
  taken otaa_join x y d this = otaa hex query_eui (some x) (some y) (some d) this
  taken abp_join x y d this = abp hex query_eui (some x) (some y) (some d) this

  -- A predefined device is handed out only for its own keys: to a request that joins, by the EUI of the device, for its
  -- application key and EUI, and to one that does not, by its address, for its session keys. The node then has the
  -- settings that are predefined.
  pub predefined-keys :
      (join : LoRaJoinType) (x y d : Str) (node : LoRaNode) (this t : LoraNodeDeviceDefault)
      → query_eui (to_uppercase d) ≡ ok (some (device_parameter node))
      → taken join x y d this ≡ ok t
      → (own_keys join node.join_parameter ≡ (to_uppercase x, to_uppercase y))
        × (fill_predefine hex node this ≡ t)
  predefined-keys otaa_join x y d node this t q h =
      let (a, b, made) =
        agree node.join_parameter.app_key (to_uppercase x) node.join_parameter.app_eui
          (to_uppercase y) (ok (fill_predefine hex node this)) t
          (otaa_asked x y d this t (some (device_parameter node)) q h) in
      (rw (a, b) refl, cc)
  predefined-keys abp_join x y d node this t q h =
      let (a, b, made) =
        agree node.join_parameter.app_skey (to_uppercase x) node.join_parameter.nwk_skey
          (to_uppercase y) (ok (fill_predefine hex node this)) t
          (abp_asked x y d this t (some (device_parameter node)) q h) in
      (rw (a, b) refl, cc)
