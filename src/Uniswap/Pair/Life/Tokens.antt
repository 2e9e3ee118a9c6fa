-- ===== src/Uniswap/Pair/Life/Tokens.antt =====
-- Tokens that answer, described by the calls of their own interface, and that the pair makes these calls.
use risc_v_rust.Base.{
  ℕ, ◌≤◌, ◌≡◌, ap, ◌∙◌, append-nil, some, [], ◌∷◌, ◌++◌, arith, length, take, drop, drop_all,
  take-append_length, length-append, String,
}
use risc_v_rust.Base.Bytes.{Bytes, copy_from_slice, zeros, codes, to_be_bytes, length-to_be_bytes}
use risc_v_rust.Uniswap.Host.{World, Host}
use risc_v_rust.Uniswap.Pair.State.Balances.{IsAddress}
use risc_v_rust.Uniswap.Pair.Calls.{transfer_input}

-- A call in the encoding of Solidity: four bytes of the hash of the signature, and the arguments in words of 32 bytes.
abbrev pub encoded_call : (Bytes → Bytes) → String → Bytes → Bytes
encoded_call hash signature arguments = take 4 (hash (codes signature)) ++ arguments

abbrev pub balance_call : (Bytes → Bytes) → Bytes → Bytes
balance_call hash account = encoded_call hash "balanceOf(address)" (zeros 12 ++ account)

abbrev pub transfer_call : (Bytes → Bytes) → Bytes → ℕ → Bytes
transfer_call hash to value =
    encoded_call hash "transfer(address,uint256)" ((zeros 12 ++ to) ++ to_be_bytes 32 value)

-- Tokens that answer the two calls, for accounts of twenty bytes: `balanceOf` gives what the token has for the account, and
-- `transfer` succeeds and changes only the rest of the chain, by the transfer of that value. The host's hashes have four
-- bytes or more, and the pair has an address of twenty bytes.
pub record Answers {E : Type 0} (host : Host E) : Type 0 where
  pub balance : Bytes → Bytes → E → ℕ
  pub transferred : Bytes → Bytes → ℕ → E → E
  pub long : (x : Bytes) → 4 ≤ length (host.hash_keccak_256 x)
  pub here : IsAddress host.address
  pub asked :
      (token account : Bytes) (w : World E)
      → IsAddress account
      → host.call_evm token (balance_call host.hash_keccak_256 account) (zeros 32) w
        ≡ (some (to_be_bytes 32 (balance token account w.rest)), w)
  pub paid :
      (token to : Bytes) (value : ℕ) (w : World E)
      → IsAddress to
      → host.call_evm token (transfer_call host.hash_keccak_256 to value) [] w
        ≡ (some [], record w { rest = transferred token to value w.rest })

-- The buffers that the pair fills are these calls.
pub balance_input-eq :
    (digest account : Bytes)
    → 4 ≤ length digest
    → IsAddress account
    → copy_from_slice (copy_from_slice (zeros 36) 0 (take 4 digest)) 16 account
      ≡ take 4 digest ++ (zeros 12 ++ account)
balance_input-eq (x ∷ y ∷ z ∷ u ∷ rest) account h a = rw a (rw (append-nil account))
balance_input-eq (x ∷ y ∷ z ∷ []) account h a = absurd (omega arith)
balance_input-eq (x ∷ y ∷ []) account h a = absurd (omega arith)
balance_input-eq (x ∷ []) account h a = absurd (omega arith)
balance_input-eq [] account h a = absurd (omega arith)

transfer_buffer-eq :
    (digest to word : Bytes)
    → 4 ≤ length digest
    → IsAddress to
    → length word ≡ 32
    → copy_from_slice (copy_from_slice (copy_from_slice (zeros 68) 0 (take 4 digest)) 16 to) 36 word
      ≡ take 4 digest ++ ((zeros 12 ++ to) ++ word)
transfer_buffer-eq (x ∷ y ∷ z ∷ u ∷ rest) to word h a l =
    let front : take 20 (to ++ zeros 32) ≡ to = take-append_length 20 to (zeros 32) a in
    let back : drop 52 (to ++ zeros 32) ≡ [] =
      drop_all 52 (to ++ zeros 32) (omega (arith, length-append to (zeros 32), a)) in
    let f : Bytes → Bytes = λ xs. x ∷ y ∷ z ∷ u ∷ (zeros 12 ++ xs) in
    rw (a, l)
      (ap (λ p. f (p ++ (word ++ drop 52 (to ++ zeros 32)))) front
        ∙ ap (λ q. f (to ++ (word ++ q))) back
        ∙ ap (λ q. f (to ++ q)) (append-nil word))
transfer_buffer-eq (x ∷ y ∷ z ∷ []) to word h a l = absurd (omega arith)
transfer_buffer-eq (x ∷ y ∷ []) to word h a l = absurd (omega arith)
transfer_buffer-eq (x ∷ []) to word h a l = absurd (omega arith)
transfer_buffer-eq [] to word h a l = absurd (omega arith)

pub transfer_input-eq :
    {E : Type 0} (host : Host E) (tokens : Answers host) (to : Bytes) (value : ℕ)
    → IsAddress to
    → transfer_input host to value ≡ transfer_call host.hash_keccak_256 to value
transfer_input-eq host tokens to value a =
    transfer_buffer-eq (host.hash_keccak_256 (codes "transfer(address,uint256)")) to
      (to_be_bytes 32 value) (tokens.long _) a (length-to_be_bytes 32 value)
