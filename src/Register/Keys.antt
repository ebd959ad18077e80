-- ===== src/Register/Keys.antt =====
-- The keys of two different nodes, or of two kinds, are different.
use snapemu_workflow.Base.{ℕ, ◌^◌, ◌<◌, ◌≡◌, ◌≢◌, ap, Option, some, drop, get_elem?, arith}
use snapemu_workflow.Ids.{Hex, eui_to_string, addr_to_string, eui_try_from, addr_try_from}
use snapemu_workflow.Ids.Laws.{try_from-to_string}
use snapemu_workflow.Register.{eui_key, addr_key}

-- `e` and `n`, where the two kinds of key part.
letters_ne : ◌≢◌ {A = Option ℕ} (some 101) (some 110)
letters_ne h = ground arith

module _ (hex : Hex) where
  pub eui_to_string_inj :
      (x y : ℕ) → x < 256 ^ 8 → y < 256 ^ 8 → eui_to_string hex x ≡ eui_to_string hex y → x ≡ y
  eui_to_string_inj x y h k e =
      let (read_x, id_x, addr_x, dev_x) = try_from-to_string hex x 0 h (omega arith) in
      let (read_y, id_y, addr_y, dev_y) = try_from-to_string hex y 0 k (omega arith) in
      cc (read_x, read_y, ap (eui_try_from hex) e)

  pub addr_to_string_inj :
      (x y : ℕ) → x < 256 ^ 4 → y < 256 ^ 4 → addr_to_string hex x ≡ addr_to_string hex y → x ≡ y
  addr_to_string_inj x y h k e =
      let (eui_x, id_x, read_x, dev_x) = try_from-to_string hex 0 x (omega arith) h in
      let (eui_y, id_y, read_y, dev_y) = try_from-to_string hex 0 y (omega arith) k in
      cc (read_x, read_y, ap (addr_try_from hex) e)

  pub eui_key_ne : (x y : ℕ) → x < 256 ^ 8 → y < 256 ^ 8 → x ≢ y → eui_key hex x ≢ eui_key hex y
  unfolding eui_key
  eui_key_ne x y h k ne e = ne (eui_to_string_inj x y h k (ap (drop 14) e))

  pub addr_key_ne : (x y : ℕ) → x < 256 ^ 4 → y < 256 ^ 4 → x ≢ y → addr_key hex x ≢ addr_key hex y
  unfolding addr_key
  addr_key_ne x y h k ne e = ne (addr_to_string_inj x y h k (ap (drop 10) e))

  pub eui_key-ne-addr_key : (x a : ℕ) → eui_key hex x ≢ addr_key hex a
  unfolding eui_key addr_key
  eui_key-ne-addr_key x a e = letters_ne (ap (λ l. get_elem? l 5) e)
