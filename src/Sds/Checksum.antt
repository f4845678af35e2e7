-- ===== src/Sds/Checksum.antt =====
-- What the checksum of a data packet detects.
use drum_firmware.Sds.Format.{data_packet, xor_all, calculate_data_checksum}
use drum_firmware.Base.{
  ap, ◌∙◌, sym, refl, arith, ◌≡◌, ◌%◌, bit_xor, [], ◌∷◌, ◌∷◌, ◌++◌, ◌≢◌, All, List, ◌<◌, ℕ,
  bit_xor-lt, bit_xor_undo, bit_xor_cancel,
}

abbrev pub IsSevenBit : ℕ → Type 0
IsSevenBit b = b < 128

xor_all-lt :
    (checksum : ℕ) (bytes : List ℕ)
    → checksum < 128
    → All IsSevenBit bytes
    → xor_all checksum bytes < 128
unfolding xor_all
xor_all-lt checksum [] h k = h
xor_all-lt checksum (b ∷ bs) h k =
    xor_all-lt (bit_xor checksum b) bs (bit_xor-lt checksum b h k.0) k.1

xor_all-append :
    (checksum : ℕ) (xs ys : List ℕ) → xor_all checksum (xs ++ ys) ≡ xor_all (xor_all checksum xs) ys
unfolding xor_all
xor_all-append checksum [] ys = refl
xor_all-append checksum (x ∷ xs) ys = xor_all-append (bit_xor checksum x) xs ys

xor_all-injective :
    (a b : ℕ) (bytes : List ℕ)
    → a < 128
    → b < 128
    → All IsSevenBit bytes
    → xor_all a bytes ≡ xor_all b bytes
    → a ≡ b
unfolding xor_all
xor_all-injective a b [] h k all e = e
xor_all-injective a b (x ∷ xs) h k all e =
    let same : bit_xor a x ≡ bit_xor b x =
      xor_all-injective (bit_xor a x) (bit_xor b x) xs (bit_xor-lt a x h all.0)
        (bit_xor-lt b x k all.0) all.1 e in
    sym (bit_xor_undo a x h all.0) ∙ ap (λ (t : ℕ). bit_xor t x) same ∙ bit_xor_undo b x k all.0

-- The checksum of data with one byte singled out.
singled_out :
    (start x : ℕ) (before behind : List ℕ)
    → start < 128
    → All IsSevenBit before
    → All IsSevenBit behind
    → x < 128
    → xor_all start (before ++ x ∷ behind) % 128 ≡ xor_all (bit_xor (xor_all start before) x) behind
unfolding xor_all
singled_out start x before behind small hb ha hx = omega (
  arith,
  xor_all-append start before (x ∷ behind),
  xor_all-lt (bit_xor (xor_all start before) x) behind
      (bit_xor-lt (xor_all start before) x (xor_all-lt start before small hb) hx) ha,
)

-- Two packets of the same number whose data differ in one byte have different checksums: a single
-- corrupted data byte is always noticed.
pub checksum_detects :
    (packet_num x y : ℕ) (before behind : List ℕ)
    → packet_num < 128
    → All IsSevenBit before
    → All IsSevenBit behind
    → x < 128
    → y < 128
    → x ≢ y
    → calculate_data_checksum packet_num (before ++ x ∷ behind)
      ≢ calculate_data_checksum packet_num (before ++ y ∷ behind)
unfolding calculate_data_checksum
checksum_detects packet_num x y before behind small hb ha hx hy ne e =
    ne (sym (bit_xor_cancel acc x bound hx) ∙ ap (bit_xor acc) same ∙ bit_xor_cancel acc y bound hy)
  where
    start : ℕ
    start = bit_xor (bit_xor (bit_xor 0x7e 0x65) data_packet) packet_num

    start_bound : start < 128
    start_bound = bit_xor-lt 0x19 packet_num (omega arith) small

    acc : ℕ
    acc = xor_all start before

    bound : acc < 128
    bound = xor_all-lt start before start_bound hb

    same : bit_xor acc x ≡ bit_xor acc y
    same =
        xor_all-injective (bit_xor acc x) (bit_xor acc y) behind (bit_xor-lt acc x bound hx)
          (bit_xor-lt acc y bound hy) ha
          (sym (singled_out start x before behind start_bound hb ha hx)
            ∙ e
            ∙ singled_out start y before behind start_bound hb ha hy)
