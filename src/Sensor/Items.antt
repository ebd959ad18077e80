-- ===== src/Sensor/Items.antt =====
-- The loop over the items of one record (devices_manager/src/decode.rs) on items as a device writes them.
use snapemu_workflow.Base.{
  ℕ, zero, suc, ◌+◌, ◌-◌, ◌≤◌, ◌<◌, ◌≡◌, refl, List, [], ◌∷◌, ◌++◌, map, length, length-append,
  arith, ok, again, done, loop, loop_again, loop_done, sym, ◌∙◌, All,
}
use mathlib.Core.Path.{ap₂}
use mathlib.Core.List.{append_assoc, append-nil}
use snapemu_workflow.Sensor.{DecodeData, item_step, decode_items}
use snapemu_workflow.Sensor.Frame.{
  Item, IsItem, encode_item, encode_items, data_of, item_step_framed, framed,
}

pub length-encode_items : (its : List Item) → length its ≤ length (encode_items its)
length-encode_items [] = omega arith
length-encode_items (it ∷ its) =
    omega
      (arith, length-encode_items its, length-append {0} (framed it.ty it.body) (encode_items its))

module _ (bytes : List ℕ) (n sensor_id : ℕ) where
  item_step_at :
      (pre : List ℕ) (it : Item) (its : List Item) (post : List ℕ) (pos : ℕ)
      (items : List DecodeData)
      → IsItem it
      → bytes ≡ pre ++ (encode_items (it ∷ its) ++ post)
      → pos ≡ length pre
      → pos + length (encode_item it) ≤ n
      → item_step bytes n sensor_id (pos, items)
        ≡ ok (again (pos + length (encode_item it), items ++ (data_of sensor_id it ∷ [])))
  item_step_at pre it its post pos items h eb ep fit =
      rw (eb, ep, append_assoc (encode_item it) (encode_items its) post)
        (item_step_framed pre (encode_items its ++ post) n sensor_id it items h (rw (← ep) fit))

  -- The loop over the items passes any number of them, whatever stands behind.
  pub items_advance :
      (pre : List ℕ) (its : List Item) (post : List ℕ) (pos : ℕ) (items : List DecodeData)
      (fuel total : ℕ)
      → All IsItem its
      → bytes ≡ pre ++ (encode_items its ++ post)
      → pos ≡ length pre
      → pos + length (encode_items its) ≤ n
      → total ≡ length its + fuel
      → loop total (item_step bytes n sensor_id) (pos, items)
        ≡ loop fuel
            (item_step bytes n sensor_id)
            (pos + length (encode_items its), items ++ map (data_of sensor_id) its)
  items_advance pre [] post pos items fuel total h eb ep fit e =
      let same : total ≡ fuel = omega arith in
      let stays : pos + 0 ≡ pos = omega arith in rw (same, stays, append-nil)
  items_advance pre (it ∷ its) post pos items fuel zero h eb ep fit e = absurd (omega arith)
  items_advance pre (it ∷ its) post pos items fuel (suc total) h eb ep fit e =
      let split = length-append (encode_item it) (encode_items its) in
      loop_again total (item_step bytes n sensor_id) (pos, items) _
        (item_step_at pre it its post pos items h.0 eb ep (omega (arith, split)))
      ∙ items_advance (pre ++ encode_item it) its post (pos + length (encode_item it))
          (items ++ (data_of sensor_id it ∷ [])) fuel total h.1 (eb ∙ simp append_assoc)
          (omega (arith, length-append pre (encode_item it))) (omega (arith, split)) (omega arith)
      ∙ ap₂ (λ p xs. loop fuel (item_step bytes n sensor_id) (p, xs)) (omega (arith, split))
          (append_assoc items (data_of sensor_id it ∷ []) (map (data_of sensor_id) its))

item_step_end :
    (bytes : List ℕ) (n sensor_id pos : ℕ) (items : List DecodeData)
    → n ≤ pos
    → item_step bytes n sensor_id (pos, items) ≡ ok (done items)
unfolding item_step
item_step_end bytes n sensor_id pos items h = ground arith

finish :
    (bytes : List ℕ) (n sensor_id pos fuel : ℕ) (items : List DecodeData)
    → n ≤ pos
    → 0 < fuel
    → loop fuel (item_step bytes n sensor_id) (pos, items) ≡ ok items
finish bytes n sensor_id pos zero items h f = elim f [ ]
finish bytes n sensor_id pos (suc fuel) items h f =
    loop_done fuel (item_step bytes n sensor_id) (pos, items) items
      (item_step_end bytes n sensor_id pos items h)

-- The items of one record, decoded from its body.
pub decode_items_framed :
    (its : List Item) (sensor_id : ℕ) (items : List DecodeData)
    → All IsItem its
    → decode_items (encode_items its) (length (encode_items its)) sensor_id items
      ≡ ok (items ++ map (data_of sensor_id) its)
unfolding decode_items
decode_items_framed its sensor_id items h =
    let body = encode_items its in
    let n = length body in
    items_advance body n sensor_id [] its [] 0 items (n + 1 - length its) (n + 1) h
      (sym (append-nil body)) refl (omega arith) (omega (arith, length-encode_items its))
    ∙ finish body n sensor_id (0 + n) (n + 1 - length its) (items ++ map (data_of sensor_id) its)
        (omega arith) (omega (arith, length-encode_items its))
