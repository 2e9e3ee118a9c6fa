-- ===== src/Uniswap/Slots/Keys.antt =====
-- Which storage keys of the contracts differ.
use native.Mathlib.Nat.{zero-add, suc-add}
use mathlib.Core.List.{append_assoc, append-nil}
use risc_v_rust.Base.{
  ℕ, zero, suc, ◌+◌, ◌^◌, ◌≤◌, ◌<◌, ◌≡◌, ◌≢◌, sym, ap, ◌∙◌, List, [], ◌∷◌, ◌++◌, arith, length,
  length-append, length-drop, take, drop, take-append_length, drop-append_length, drop_all,
}
use risc_v_rust.Base.Bytes.{Bytes, zeros, copy_from_slice, to_be_bytes, from_be_slice, be_from}
use risc_v_rust.Uniswap.Slots.{slot_key, mapping_key_1, mapping_key_2}

-- The assumption on Keccak-256 under which mappings are mappings: hashes are 32 bytes (or more),
-- no two inputs collide, and no hash begins with twelve zero bytes, as slot numbers do.
pub record NoCollision (hash : Bytes → Bytes) : Type 0 where
  pub long : (x : Bytes) → 32 ≤ length (hash x)
  pub injective : (x y : Bytes) → hash x ≡ hash y → x ≡ y
  pub not_small : (x : Bytes) → take 12 (hash x) ≢ zeros 12

take-append_more {ℓ} :
    {A : Type ℓ} (n m : ℕ) (xs ys : List A)
    → length xs ≡ n
    → take (n + m) (xs ++ ys) ≡ xs ++ take m ys
take-append_more zero m [] ys e = rw zero-add
take-append_more zero m (x ∷ xs) ys e = absurd (omega arith)
take-append_more (suc n) m [] ys e = absurd (omega arith)
take-append_more (suc n) m (x ∷ xs) ys e =
    rw (suc-add n m) (ap (◌∷◌ x) (take-append_more n m xs ys (omega arith)))

-- The two buffers that are hashed: a key at 12 and a slot number at 44, or a key at 12 and a hash
-- at 32.
abbrev slot_buffer : Bytes → Bytes → Bytes
slot_buffer key s = copy_from_slice (copy_from_slice (zeros 64) 12 key) 44 s

abbrev hash_buffer : Bytes → Bytes → Bytes
hash_buffer key h = copy_from_slice (copy_from_slice (zeros 64) 12 key) 32 h

module _ (key : Bytes) (e : length key ≡ 20) where
  key-slot_buffer : (s : Bytes) → take 20 (drop 12 (slot_buffer key s)) ≡ key
  key-slot_buffer s =
      rw (take-append_more 20 12 key (drop (12 + length key) (zeros 64)) e)
        (rw append_assoc (take-append_length 20 key _ e))

  gap-slot_buffer : (s : Bytes) → take 12 (drop 32 (slot_buffer key s)) ≡ zeros 12
  gap-slot_buffer s =
      rw (take-append_more 20 12 key (drop (12 + length key) (zeros 64)) e)
        (rw append_assoc (rw (drop-append_length 20 key _ e) (rw e)))

  key-hash_buffer : (h : Bytes) → take 20 (drop 12 (hash_buffer key h)) ≡ key
  key-hash_buffer h =
      rw (take-append_length 20 key (drop (12 + length key) (zeros 64)) e)
        (take-append_length 20 key _ e)

  hash-hash_buffer : (h : Bytes) → 32 ≤ length h → drop 32 (hash_buffer key h) ≡ h
  hash-hash_buffer h long = rw (take-append_length 20 key (drop (12 + length key) (zeros 64)) e) (
      rw (drop-append_length 20 key _ e) (
        rw
          (drop_all (32 + length h) (copy_from_slice (zeros 64) 12 key) (
            omega (
              arith,
              length-append key (drop (12 + length key) (zeros 64)),
              length-drop (12 + length key) (zeros 64),
            )))
          (append-nil _)))

module _ (hash : Bytes → Bytes) (ideal : NoCollision hash) where
  pub mapping_key_1-injective :
      (b : ℕ) (j k : Bytes)
      → length j ≡ 20
      → length k ≡ 20
      → mapping_key_1 hash b j ≡ mapping_key_1 hash b k
      → j ≡ k
  unfolding mapping_key_1
  mapping_key_1-injective b j k ej ek same =
      let s = to_be_bytes 4 b in
      let inputs = ideal.injective (slot_buffer j s) (slot_buffer k s) same in
      sym (key-slot_buffer j ej s) ∙ ap (λ x. take 20 (drop 12 x)) inputs ∙ key-slot_buffer k ek s

  pub mapping_key_2-injective :
      (b : ℕ) (j k j' k' : Bytes)
      → length j ≡ 20
      → length k ≡ 20
      → length j' ≡ 20
      → length k' ≡ 20
      → mapping_key_2 hash b j k ≡ mapping_key_2 hash b j' k'
      → (j ≡ j') × (k ≡ k')
  unfolding mapping_key_2
  mapping_key_2-injective b j k j' k' ej ek ej' ek' same =
      let s = to_be_bytes 4 (b + 1) in
      let h = hash (slot_buffer k s) in
      let h' = hash (slot_buffer k' s) in
      let outer = ideal.injective (hash_buffer j h) (hash_buffer j' h') same in
      let hashes : h ≡ h' =
        sym (hash-hash_buffer j ej h (ideal.long _))
        ∙ ap (drop 32) outer
        ∙ hash-hash_buffer j' ej' h' (ideal.long _) in
      let inner = ideal.injective (slot_buffer k s) (slot_buffer k' s) hashes in
      (
        sym (key-hash_buffer j ej h)
            ∙ ap (λ x. take 20 (drop 12 x)) outer
            ∙ key-hash_buffer j' ej' h',
        sym (key-slot_buffer k ek s)
            ∙ ap (λ x. take 20 (drop 12 x)) inner
            ∙ key-slot_buffer k' ek' s,
      )

  pub mapping_key_1-ne-mapping_key_2 :
      (b c : ℕ) (k i j : Bytes)
      → length k ≡ 20
      → length i ≡ 20
      → mapping_key_1 hash b k ≢ mapping_key_2 hash c i j
  unfolding mapping_key_1 mapping_key_2
  mapping_key_1-ne-mapping_key_2 b c k i j ek ei same =
      let h = hash (slot_buffer j (to_be_bytes 4 (c + 1))) in
      let inputs = ideal.injective (slot_buffer k (to_be_bytes 4 b)) (hash_buffer i h) same in
      ideal.not_small _ (
        ap (take 12) (sym (hash-hash_buffer i ei h (ideal.long _)))
        ∙ ap (λ x. take 12 (drop 32 x)) (sym inputs)
        ∙ gap-slot_buffer k ek (to_be_bytes 4 b))

  pub hash-ne-slot_key : (x : Bytes) (i : ℕ) → hash x ≢ slot_key i
  unfolding slot_key
  hash-ne-slot_key x i same = ideal.not_small x (ap (take 12) same)

  pub mapping_key_1-ne-slot_key : (b : ℕ) (k : Bytes) (i : ℕ) → mapping_key_1 hash b k ≢ slot_key i
  unfolding mapping_key_1
  mapping_key_1-ne-slot_key b k i = hash-ne-slot_key _ i

  pub mapping_key_2-ne-slot_key :
      (b : ℕ) (j k : Bytes) (i : ℕ) → mapping_key_2 hash b j k ≢ slot_key i
  unfolding mapping_key_2
  mapping_key_2-ne-slot_key b j k i = hash-ne-slot_key _ i

pub slot_key-injective : (i j : ℕ) → i < 2 ^ 32 → j < 2 ^ 32 → slot_key i ≡ slot_key j → i ≡ j
unfolding slot_key to_be_bytes be_from
slot_key-injective i j hi hj same = omega (arith, ap (λ x. from_be_slice (drop 28 x)) same)
