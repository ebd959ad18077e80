-- ===== src/Join.antt =====
-- The keys of a node that joins (devices_manager/src/protocol/lora/join_accept.rs, join_request.rs) and
-- what the answer to it carries. The block cipher of the crate `lorawan` is a parameter.
pub mod Keys
mod Tests
use snapemu_workflow.Base.{
  ℕ, ◌+◌, ◌*◌, ◌/◌, ◌%◌, ◌^◌, List, [], ◌∷◌, ◌++◌, length, set, replicate, Outcome, ok, err, panic,
  ◌>>=◌, index,
}
use snapemu_workflow.Base.Bytes.{low_byte, to_le_bytes}

-- `AcceptJoin`: what its setters hand to `JoinAcceptCreator`.
unfoldable pub set_app_nonce : ℕ → List ℕ
set_app_nonce app_nonce =
    low_byte (app_nonce / 2 ^ 16) ∷ low_byte (app_nonce / 2 ^ 8) ∷ low_byte app_nonce ∷ []

unfoldable pub set_net_id : ℕ → List ℕ
set_net_id net_id = low_byte (net_id / 2 ^ 16) ∷ low_byte (net_id / 2 ^ 8) ∷ low_byte net_id ∷ []

unfoldable pub set_dev_addr : ℕ → List ℕ
set_dev_addr dev_addr = to_le_bytes 4 dev_addr

-- `NodeKeys::fill_args`, on a block of sixteen bytes.
unfoldable pub fill_args : List ℕ → ℕ → ℕ → ℕ → List ℕ
fill_args s join_nonce net_id dev_nonce =
    let s1 = set s 1 (low_byte (join_nonce / 2 ^ 16)) in
    let s2 = set s1 2 (low_byte (join_nonce / 2 ^ 8)) in
    let s3 = set s2 3 (low_byte join_nonce) in
    let s4 = set s3 4 (low_byte (net_id / 2 ^ 16)) in
    let s5 = set s4 5 (low_byte (net_id / 2 ^ 8)) in
    let s6 = set s5 6 (low_byte net_id) in
    let s7 = set s6 7 (low_byte (dev_nonce / 2 ^ 8)) in set s7 8 (low_byte dev_nonce)

pub record NodeKeys : Type 0 where
  pub nwk_skey : List ℕ
  pub app_skey : List ℕ

-- `encrypt_block key block`
module _ (encrypt_block : List ℕ → List ℕ → List ℕ) where
  unfoldable pub node_keys_new : List ℕ → ℕ → ℕ → ℕ → NodeKeys
  node_keys_new app_key join_nonce net_id dev_nonce =
      let k1 = set (replicate 16 0) 0 1 in
      let k2 = set (replicate 16 0) 0 2 in
      record {
        nwk_skey = encrypt_block app_key (fill_args k1 join_nonce net_id dev_nonce);
        app_skey = encrypt_block app_key (fill_args k2 join_nonce net_id dev_nonce);
      }

-- `RequestJoin::dev_nonce`, on the two bytes of the frame.
unfoldable pub request_dev_nonce : List ℕ → Outcome ℕ ℕ
request_dev_nonce u = index u 1 >>= λ u1. index u 0 >>= λ u0. ok ((u1 + u0 * 2 ^ 8) % 2 ^ 16)
