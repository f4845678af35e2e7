-- ===== src/Sds/Samples.antt =====
-- The sample format loses nothing: unpacking undoes packing.
use drum_firmware.Sds.Format.{pack_16bit_sample, unpack_samples, unpack_16bit_sample, pack_samples}
use drum_firmware.Base.{
  refl, zero, suc, [], ◌∷◌, arith, All, ◌*◌, ◌%◌, ◌≡◌, ◌^◌, ◌/◌, ◌+◌, length, u16, bit_or, List,
  ◌<◌, ℕ, bit_or-shifted, ap,
}
use drum_firmware.Codec.Grouped.{IsByte}

unpack_fields :
    (v : ℕ)
    → v < 65536
    → bit_or
        (bit_or (v / 2 ^ 9 % 128 % 128 * 2 ^ 9) (v / 2 ^ 2 % 128 % 128 * 2 ^ 2))
        (v * 2 ^ 5 % 128 % 128 / 2 ^ 5)
      ≡ v
unpack_fields v h = omega (
  arith,
  bit_or-shifted 9 (v / 2 ^ 9) (v / 2 ^ 2 % 128 * 2 ^ 2) (omega arith),
  ap (λ (t : ℕ). bit_or t (v * 2 ^ 5 % 128 % 128 / 2 ^ 5)) fields,
  bit_or-shifted 2 (v / 2 ^ 2) (v * 2 ^ 5 % 128 % 128 / 2 ^ 5) (omega arith),
)
  where
    fields :
        bit_or (v / 2 ^ 9 % 128 % 128 * 2 ^ 9) (v / 2 ^ 2 % 128 % 128 * 2 ^ 2) ≡ v / 2 ^ 2 * 2 ^ 2
    fields = omega (
      arith,
      bit_or-shifted 9 (v / 2 ^ 9 % 128 % 128) (v / 2 ^ 2 % 128 % 128 * 2 ^ 2) (omega arith),
    )

unpack-pack :
    (sample : ℕ)
    → sample < 65536
    → unpack_16bit_sample
        (u16 (sample + 0x8000) / 2 ^ 9 % 128)
        (u16 (sample + 0x8000) / 2 ^ 2 % 128)
        (u16 (sample + 0x8000) * 2 ^ 5 % 128)
      ≡ sample
unfolding unpack_16bit_sample
unpack-pack sample h = omega (arith, unpack_fields (u16 (sample + 0x8000)) (omega arith))

-- Whatever whole samples a file holds, the receiver's unpacking gives back the very bytes that the
-- sender's packing was given: no padding, and nothing lost.
pub unpack_samples-pack_samples :
    (n : ℕ) (bytes : List ℕ)
    → length bytes ≡ 2 * n
    → All IsByte bytes
    → unpack_samples (pack_samples bytes) ≡ bytes
unfolding unpack_samples pack_samples pack_16bit_sample
unpack_samples-pack_samples n [] e h = refl
unpack_samples-pack_samples n (_ ∷ []) e h = absurd (omega arith)
unpack_samples-pack_samples zero (_ ∷ _ ∷ _) e h = absurd (omega arith)
unpack_samples-pack_samples (suc n) (low ∷ high ∷ bytes) e (hl, (hh, hs)) =
    rw (unpack-pack (low + high * 2 ^ 8) (omega arith))
      (ground (arith, unpack_samples-pack_samples n bytes (omega arith) hs))

pub length-pack_samples :
    (n : ℕ) (bytes : List ℕ) → length bytes ≡ 2 * n → length (pack_samples bytes) ≡ 3 * n
unfolding pack_samples pack_16bit_sample
length-pack_samples n [] e = omega arith
length-pack_samples n (_ ∷ []) e = absurd (omega arith)
length-pack_samples zero (_ ∷ _ ∷ _) e = absurd (omega arith)
length-pack_samples (suc n) (low ∷ high ∷ bytes) e =
    omega (arith, length-pack_samples n bytes (omega arith))

pub length-unpack_samples :
    (n : ℕ) (bytes : List ℕ) → length bytes ≡ 3 * n → length (unpack_samples bytes) ≡ 2 * n
unfolding unpack_samples
length-unpack_samples n [] e = omega arith
length-unpack_samples n (_ ∷ []) e = absurd (omega arith)
length-unpack_samples n (_ ∷ _ ∷ []) e = absurd (omega arith)
length-unpack_samples zero (_ ∷ _ ∷ _ ∷ _) e = absurd (omega arith)
length-unpack_samples (suc n) (_ ∷ _ ∷ _ ∷ bytes) e =
    omega (arith, length-unpack_samples n bytes (omega arith))
