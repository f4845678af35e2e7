-- ===== src/Codec/Grouped.antt =====
-- `decode_8_to_7` against the host's encoding of seven bytes in eight seven-bit ones.
use drum_firmware.Base.{
  take, take_append, ℕ, zero, suc, ◌+◌, ◌-◌, ◌*◌, ◌/◌, ◌%◌, ◌^◌, ◌≤◌, ◌<◌, ◌≡◌, refl, List, [], ◌∷◌,
  length, All, length-append, length-take, bit_or-zero, bit_or_high_bit, arith, min,
}
use drum_firmware.Codec.{with_msb, ungroup, decode_8_to_7}

abbrev pub IsByte : ℕ → Type 0
IsByte b = b < 256

-- The top bits of seven bytes in one.
top_bits : ℕ → ℕ → ℕ → ℕ → ℕ → ℕ → ℕ → ℕ
top_bits a b c d e f g =
    a / 128
    + 2 * (b / 128)
    + 4 * (c / 128)
    + 8 * (d / 128)
    + 16 * (e / 128)
    + 32 * (f / 128)
    + 64 * (g / 128)

-- The seven low bits, and the top bits together in an eighth byte. Only whole groups are encoded.
unfoldable pub encode_groups : List ℕ → List ℕ
unfolding top_bits
encode_groups (a ∷ b ∷ c ∷ d ∷ e ∷ f ∷ g ∷ bytes) =
    (a % 128)
    ∷ (b % 128)
    ∷ (c % 128)
    ∷ (d % 128)
    ∷ (e % 128)
    ∷ (f % 128)
    ∷ (g % 128)
    ∷ top_bits a b c d e f g
    ∷ encode_groups bytes
encode_groups _ = []

with_msb_lem : (msbs i b : ℕ) → b < 256 → msbs / 2 ^ i % 2 ≡ b / 128 → with_msb msbs i (b % 128) ≡ b
unfolding with_msb
with_msb_lem msbs i b h e = ground (arith, bit_or-zero (b % 128), bit_or_high_bit (b % 128))

-- The seven bytes of one group come back.
group_lem :
    (a b c d e f g : ℕ)
    → All IsByte (a ∷ b ∷ c ∷ d ∷ e ∷ f ∷ g ∷ [])
    → ungroup
        (top_bits a b c d e f g)
        (a % 128)
        (b % 128)
        (c % 128)
        (d % 128)
        (e % 128)
        (f % 128)
        (g % 128)
      ≡ a ∷ b ∷ c ∷ d ∷ e ∷ f ∷ g ∷ []
unfolding ungroup
group_lem a b c d e f g (ha, (hb, (hc, (hd, (he, (hf, (hg, _))))))) = cc (
  with_msb_lem m 0 a ha (unfold top_bits in omega arith),
  with_msb_lem m 1 b hb (unfold top_bits in omega arith),
  with_msb_lem m 2 c hc (unfold top_bits in omega arith),
  with_msb_lem m 3 d hd (unfold top_bits in omega arith),
  with_msb_lem m 4 e he (unfold top_bits in omega arith),
  with_msb_lem m 5 f hf (unfold top_bits in omega arith),
  with_msb_lem m 6 g hg (unfold top_bits in omega arith),
)
  where
    m : ℕ
    m = top_bits a b c d e f g

length-ungroup : (m a b c d e f g : ℕ) → length (ungroup m a b c d e f g) ≡ 7
unfolding ungroup
length-ungroup m a b c d e f g = refl

-- How much is read and written, for every input: whole groups are read while they fit, and the
-- output is cut off at the room.
pub decode_8_count :
    (bytes : List ℕ) (room : ℕ)
    → let r = decode_8_to_7 bytes room in
      (r.0 ≡ 8 * min (length bytes / 8) (room / 7))
      × (length r.1 ≡ min (7 * (length bytes / 8)) room)
unfolding decode_8_to_7
decode_8_count [] room = omega arith
decode_8_count (_ ∷ []) room = omega arith
decode_8_count (_ ∷ _ ∷ []) room = omega arith
decode_8_count (_ ∷ _ ∷ _ ∷ []) room = omega arith
decode_8_count (_ ∷ _ ∷ _ ∷ _ ∷ []) room = omega arith
decode_8_count (_ ∷ _ ∷ _ ∷ _ ∷ _ ∷ []) room = omega arith
decode_8_count (_ ∷ _ ∷ _ ∷ _ ∷ _ ∷ _ ∷ []) room = omega arith
decode_8_count (_ ∷ _ ∷ _ ∷ _ ∷ _ ∷ _ ∷ _ ∷ []) room = omega arith
decode_8_count (a ∷ b ∷ c ∷ d ∷ e ∷ f ∷ g ∷ m ∷ bytes) room = ground (
  arith,
  decode_8_count bytes (room - 7),
  length-ungroup m a b c d e f g,
  length-take room (ungroup m a b c d e f g),
  length-append (ungroup m a b c d e f g) (decode_8_to_7 bytes (room - 7)).1,
)

-- Whole groups of bytes come back unchanged, and the whole message is read, where there is room.
pub decode_8-encode :
    (n room : ℕ) (bytes : List ℕ)
    → length bytes ≡ 7 * n
    → All IsByte bytes
    → 7 * n ≤ room
    → decode_8_to_7 (encode_groups bytes) room ≡ (8 * n, bytes)
unfolding decode_8_to_7 encode_groups
decode_8-encode n room [] e h fits = ground arith
decode_8-encode n room (_ ∷ []) e h fits = absurd (omega arith)
decode_8-encode n room (_ ∷ _ ∷ []) e h fits = absurd (omega arith)
decode_8-encode n room (_ ∷ _ ∷ _ ∷ []) e h fits = absurd (omega arith)
decode_8-encode n room (_ ∷ _ ∷ _ ∷ _ ∷ []) e h fits = absurd (omega arith)
decode_8-encode n room (_ ∷ _ ∷ _ ∷ _ ∷ _ ∷ []) e h fits = absurd (omega arith)
decode_8-encode n room (_ ∷ _ ∷ _ ∷ _ ∷ _ ∷ _ ∷ []) e h fits = absurd (omega arith)
decode_8-encode zero room (_ ∷ _ ∷ _ ∷ _ ∷ _ ∷ _ ∷ _ ∷ _) e h fits = absurd (omega arith)
decode_8-encode (suc n) room (a ∷ b ∷ c ∷ d ∷ x ∷ f ∷ g ∷ bytes) e
      (h0, (h1, (h2, (h3, (h4, (h5, (h6, hs))))))) fits =
    rw (group_lem a b c d x f g (h0, (h1, (h2, (h3, (h4, (h5, (h6, tt))))))))
      (ground (arith, decode_8-encode n (room - 7) bytes (omega arith) hs (omega arith)))

-- Whole groups become whole groups.
pub length-encode_groups :
    (n : ℕ) (bytes : List ℕ) → length bytes ≡ 7 * n → length (encode_groups bytes) ≡ 8 * n
unfolding encode_groups
length-encode_groups n [] e = omega arith
length-encode_groups n (_ ∷ []) e = absurd (omega arith)
length-encode_groups n (_ ∷ _ ∷ []) e = absurd (omega arith)
length-encode_groups n (_ ∷ _ ∷ _ ∷ []) e = absurd (omega arith)
length-encode_groups n (_ ∷ _ ∷ _ ∷ _ ∷ []) e = absurd (omega arith)
length-encode_groups n (_ ∷ _ ∷ _ ∷ _ ∷ _ ∷ []) e = absurd (omega arith)
length-encode_groups n (_ ∷ _ ∷ _ ∷ _ ∷ _ ∷ _ ∷ []) e = absurd (omega arith)
length-encode_groups zero (_ ∷ _ ∷ _ ∷ _ ∷ _ ∷ _ ∷ _ ∷ _) e = absurd (omega arith)
length-encode_groups (suc n) (a ∷ b ∷ c ∷ d ∷ x ∷ f ∷ g ∷ bytes) e =
    omega (arith, length-encode_groups n bytes (omega arith))

-- With less room than a group, nothing is read, and the room is filled with the group's beginning.
pub decode_8-encode_cut :
    (n room : ℕ) (bytes : List ℕ)
    → length bytes ≡ 7 * suc n
    → All IsByte bytes
    → 0 < room
    → room < 7
    → decode_8_to_7 (encode_groups bytes) room ≡ (0, take room bytes)
unfolding decode_8_to_7 encode_groups
decode_8-encode_cut n room [] e h pos cut = absurd (omega arith)
decode_8-encode_cut n room (_ ∷ []) e h pos cut = absurd (omega arith)
decode_8-encode_cut n room (_ ∷ _ ∷ []) e h pos cut = absurd (omega arith)
decode_8-encode_cut n room (_ ∷ _ ∷ _ ∷ []) e h pos cut = absurd (omega arith)
decode_8-encode_cut n room (_ ∷ _ ∷ _ ∷ _ ∷ []) e h pos cut = absurd (omega arith)
decode_8-encode_cut n room (_ ∷ _ ∷ _ ∷ _ ∷ _ ∷ []) e h pos cut = absurd (omega arith)
decode_8-encode_cut n room (_ ∷ _ ∷ _ ∷ _ ∷ _ ∷ _ ∷ []) e h pos cut = absurd (omega arith)
decode_8-encode_cut n room (a ∷ b ∷ c ∷ d ∷ x ∷ f ∷ g ∷ bytes) e
      (h0, (h1, (h2, (h3, (h4, (h5, (h6, hs))))))) pos cut =
    rw (group_lem a b c d x f g (h0, (h1, (h2, (h3, (h4, (h5, (h6, tt))))))))
      (ground (arith, take_append room (a ∷ b ∷ c ∷ d ∷ x ∷ f ∷ g ∷ []) bytes))
