-- ===== src/Runner/Loader/Hex.antt =====
-- The text of a bytecode file: the digits between white space, behind `0x` or not.
use mathlib.Core.List.{reverse-cons, reverse-reverse}
use risc_v_rust.Base.{
  ℕ, ◌≡◌, refl, ap, ◌∙◌, reverse-append, Bool, true, false, inl, inr, ◌⊎◌, List, [], ◌∷◌, ◌++◌,
  reverse,
}
use risc_v_rust.Runner.Engine.{ok, err}
use risc_v_rust.Runner.Loader.{
  Files, invalid_hex, load_evm_bytecode, split_code, is_whitespace, trim_start, trim, strip_0x,
}

-- Every character is white space, or none is.
unfoldable pub Every : Bool → List ℕ → Type 0
Every b [] = Unit
Every b (c ∷ s) = (is_whitespace c ≡ b) × Every b s

Every-append : (b : Bool) (s t : List ℕ) → Every b s → Every b t → Every b (s ++ t)
unfolding Every
Every-append b [] t h k = k
Every-append b (c ∷ s) t h k = (h.0, Every-append b s t h.1 k)

Every-reverse : (b : Bool) (s : List ℕ) → Every b s → Every b (reverse s)
unfolding Every
Every-reverse b [] h = tt
Every-reverse b (c ∷ s) h =
    rw (reverse-cons c s) (Every-append b (reverse s) (c ∷ []) (Every-reverse b s h.1) (h.0, tt))

trim_start-white : (s t : List ℕ) → Every true s → trim_start (s ++ t) ≡ trim_start t
unfolding Every trim_start
trim_start-white [] t h = refl
trim_start-white (c ∷ s) t h = rw h.0 (trim_start-white s t h.1)

trim_start_all : (s : List ℕ) → Every true s → trim_start s ≡ []
unfolding Every trim_start
trim_start_all [] h = refl
trim_start_all (c ∷ s) h = rw h.0 (trim_start_all s h.1)

trim_start-black : (s : List ℕ) → Every false s → trim_start s ≡ s
unfolding Every trim_start
trim_start-black [] h = refl
trim_start-black (c ∷ s) h = rw h.0

trim_start-padded :
    (before s after : List ℕ)
    → Every true before
    → Every false s
    → Every true after
    → (rest : List ℕ) × (trim_start (before ++ (s ++ after)) ≡ s ++ rest) × Every true rest
unfolding Every trim_start
trim_start-padded before [] after b h a =
    ([], trim_start-white before after b ∙ trim_start_all after a, tt)
trim_start-padded before (c ∷ s) after b h a =
    (after, trim_start-white before (c ∷ (s ++ after)) b ∙ rw h.0 refl, a)

trim-padded :
    (before s after : List ℕ)
    → Every true before
    → Every false s
    → Every true after
    → trim (before ++ (s ++ after)) ≡ s
unfolding trim
trim-padded before s after b h a =
    let (rest, e, white) = trim_start-padded before s after b h a in
    ap (λ u. reverse (trim_start (reverse u))) e
    ∙ ap (λ u. reverse (trim_start u)) (reverse-append s rest)
    ∙ ap reverse (trim_start-white (reverse rest) (reverse s) (Every-reverse true rest white))
    ∙ ap reverse (trim_start-black (reverse s) (Every-reverse false s h))
    ∙ reverse-reverse s

strip_0x-trim :
    (before mark digits after : List ℕ)
    → Every true before
    → Every false digits
    → Every true after
    → strip_0x digits ≡ digits
    → (mark ≡ []) ⊎ (mark ≡ 0x30 ∷ 0x78 ∷ [])
    → strip_0x (trim (before ++ ((mark ++ digits) ++ after))) ≡ digits
unfolding Every is_whitespace strip_0x
strip_0x-trim before mark digits after b h a e (inl none_there) =
    rw none_there (rw (trim-padded before digits after b h a) e)
strip_0x-trim before mark digits after b h a e (inr there) =
    rw there
      (rw (trim-padded before (0x30 ∷ 0x78 ∷ digits) after b (refl, (refl, h)) a, strip_0x) refl)

-- What the loader of EVM bytecode makes of a file of digits, in which no white space is and which do not
-- begin with `0x`: with white space or nothing around them, and `0x` or nothing before them, it decodes the
-- digits and no other text, and gives the two parts of the code decoded, or the decoder's error.
pub load_evm_bytecode-padded :
    (files : Files) (before mark digits after : List ℕ)
    → Every true before
    → Every false digits
    → Every true after
    → strip_0x digits ≡ digits
    → (mark ≡ []) ⊎ (mark ≡ 0x30 ∷ 0x78 ∷ [])
    → files.read_to_string "bytecode/evm/arithmetic.bin"
      ≡ ok (before ++ ((mark ++ digits) ++ after))
    → load_evm_bytecode files ≡ elim (files.hex_decode digits) [
      | err e ↦ err (invalid_hex e)
      | ok full ↦ ok (split_code full)
    ]
unfolding load_evm_bytecode
load_evm_bytecode-padded files before mark digits after b h a e m found =
    rw (found, load_evm_bytecode) (rw (strip_0x-trim before mark digits after b h a e m) refl)
