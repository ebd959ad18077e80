-- ===== src/Join/Tests.antt =====
-- The theorem on keys at a concrete request.
use snapemu_workflow.Base.{ℕ, ◌≡◌, arith, List, [], ◌∷◌, ◌++◌, ok, ◌>>=◌, replicate}
use snapemu_workflow.Join.{set_app_nonce, set_net_id, node_keys_new, request_dev_nonce}
use snapemu_workflow.Join.Keys.{session_block, node_keys_new_agrees}

abbrev key : List ℕ
key = replicate 16 9

node_keys_new_agrees_example :
    (request_dev_nonce (0xab ∷ 0xcd ∷ []) >>= λ dev_nonce.
    ok (node_keys_new (λ k b. k ++ b) key 0x010203 0x040506 dev_nonce))
    ≡ ok (record {
      nwk_skey =
          key ++ session_block 1 (set_app_nonce 0x010203) (set_net_id 0x040506) (0xab ∷ 0xcd ∷ []);
      app_skey =
          key ++ session_block 2 (set_app_nonce 0x010203) (set_net_id 0x040506) (0xab ∷ 0xcd ∷ []);
    })
node_keys_new_agrees_example =
    node_keys_new_agrees (λ k b. k ++ b) key 0x010203 0x040506 0xab 0xcd (omega arith) (omega arith)
