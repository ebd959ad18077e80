-- ===== src/Snap/Wrap.antt =====
-- A four-byte length field whose sum with the header's size wraps (`get_data_start` and `UpData::new` of
-- devices_manager/src/protocol/snap/payload.rs).
use snapemu_workflow.Base.{
  ℕ, ◌+◌, ◌*◌, ◌%◌, ◌^◌, ◌<◌, ◌≡◌, List, ◌∷◌, length, arith, panic, index, slice_lt,
}
use snapemu_workflow.Ids.{eui_from_be_bytes}
use snapemu_workflow.Snap.{CustomError, get_data_start, check_version, start_by_marker, up_data_new}

-- A frame of 19 to 22 bytes with the marker 254 whose length field is 2 ^ 32 - 23 and the frame's length
-- together is taken for a whole frame, and then cutting the payload out of it panics.
pub up_data_new-wrapped :
    (e1 e2 e3 e4 e5 e6 e7 e8 p_type port option c0 c1 l0 l1 l2 l3 : ℕ) (rest : List ℕ)
    → length rest < 4
    → l0 + l1 * 2 ^ 8 + l2 * 2 ^ 16 + l3 * 2 ^ 24 + 23 ≡ 2 ^ 32 + (19 + length rest)
    → up_data_new (
        1 ∷ e1 ∷ e2 ∷ e3 ∷ e4 ∷ e5 ∷ e6 ∷ e7 ∷ e8 ∷ p_type ∷ port ∷ option ∷ c0 ∷ c1 ∷ 254 ∷ l0 ∷ l1
        ∷ l2 ∷ l3 ∷ rest)
      ≡ panic
unfolding up_data_new get_data_start check_version start_by_marker index eui_from_be_bytes
up_data_new-wrapped e1 e2 e3 e4 e5 e6 e7 e8 p_type port option c0 c1 l0 l1 l2 l3 rest h e =
    let s =
      slice_lt {E = CustomError}
        (1 ∷ e1 ∷ e2 ∷ e3 ∷ e4 ∷ e5 ∷ e6 ∷ e7 ∷ e8 ∷ p_type ∷ port ∷ option ∷ c0 ∷ c1 ∷ 254 ∷ l0
          ∷ l1 ∷ l2 ∷ l3 ∷ rest)
        1 9 (omega arith) (omega arith) in
    let total : (18 + 5 + (l0 + l1 * 2 ^ 8 + l2 * 2 ^ 16 + l3 * 2 ^ 24)) % 2 ^ 32
        ≡ 19 + length rest =
      omega arith in
    ground (arith, s, total)
