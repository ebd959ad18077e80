-- ===== src/Join/Keys.antt =====
-- The keys that the server derives are those of the bytes that go over the air.
use snapemu_workflow.Base.{
  ℕ, ◌+◌, ◌*◌, ◌/◌, ◌%◌, ◌^◌, ◌<◌, ◌≡◌, refl, List, [], ◌∷◌, ◌++◌, replicate, arith, ok, ◌>>=◌,
  index,
}
use snapemu_workflow.Base.Bytes.{low_byte}
use snapemu_workflow.Join.{set_app_nonce, set_net_id, fill_args, node_keys_new, request_dev_nonce}

-- The block that is enciphered for a session key, as a node makes it up: the key's number, the bytes of
-- the nonce and the network id that the answer's creator is given, those of the nonce in its own
-- request, and zeros.
abbrev pub session_block : ℕ → List ℕ → List ℕ → List ℕ → List ℕ
session_block n app_nonce net_id dev_nonce =
    n ∷ (app_nonce ++ (net_id ++ (dev_nonce ++ replicate 7 0)))

-- For a request that carries the bytes u0 and u1 as its nonce, the keys are the enciphered blocks of
-- these two bytes and of the bytes of the nonce and network id that the answer's creator is given.
pub node_keys_new_agrees :
    (encrypt_block : List ℕ → List ℕ → List ℕ) (app_key : List ℕ) (app_nonce net_id u0 u1 : ℕ)
    → u0 < 256
    → u1 < 256
    → (request_dev_nonce (u0 ∷ u1 ∷ []) >>= λ dev_nonce.
        ok (node_keys_new encrypt_block app_key app_nonce net_id dev_nonce))
      ≡ ok (record {
        nwk_skey =
            encrypt_block app_key
              (session_block 1 (set_app_nonce app_nonce) (set_net_id net_id) (u0 ∷ u1 ∷ []));
        app_skey =
            encrypt_block app_key
              (session_block 2 (set_app_nonce app_nonce) (set_net_id net_id) (u0 ∷ u1 ∷ []));
      })
unfolding request_dev_nonce index node_keys_new fill_args set_app_nonce set_net_id
node_keys_new_agrees encrypt_block app_key app_nonce net_id u0 u1 h k =
    let high : low_byte ((u1 + u0 * 2 ^ 8) % 2 ^ 16 / 2 ^ 8) ≡ u0 = omega arith in
    let low : low_byte ((u1 + u0 * 2 ^ 8) % 2 ^ 16) ≡ u1 = omega arith in rw (high, low) refl
